-- ===== src/Checks/Classify.antt =====
-- checks.go: `Classify`.
pub mod Found
pub mod Sound
pub mod Network
use safenet_arbitration_bot.Base.{
  join, ℕ, Bool, true, false, not, ◌||◌, Option, none, some, List, [], ◌∷◌, ◌++◌, String,
  if◌then◌else◌, ◌==◌, Bytes, codes, bytes_eq, Result, ok, err, fail_if, wrapped, ◌>>=◌, ◌>>◌,
}
use safenet_arbitration_bot.Keccak.{Keccak}
use safenet_arbitration_bot.Ethrpc.Types.{Dialer}
use safenet_arbitration_bot.Safenet.Types.{SafeTransaction, Proposal}
use safenet_arbitration_bot.Checks.Calls.{SafeId, Call}
use safenet_arbitration_bot.Checks.Components.{Components, components}
use safenet_arbitration_bot.Checks.Rules.{
  Verdict, unclassified, secure, insecure, Env, CheckFn, Check,
}
use safenet_arbitration_bot.Checks.Table.{checks}

-- `Classification`. The texts are their bytes.
pub record Classification : Type 0 where
  pub verdict : Verdict
  pub rule : Bytes
  pub description : Bytes

abbrev pub zero_classification : Classification
zero_classification = record { verdict = unclassified; rule = []; description = [] }

abbrev pub classification : Check → Classification
classification c = record {
  verdict = c.verdict;
  rule = codes c.rule;
  description = codes c.description;
}

abbrev pub is_secure : Verdict → Bool
is_secure secure = true
is_secure _ = false

-- `checks[:secure]` and `checks[secure:]`, for the index of the first secure check.
unfoldable pub before_secure : List Check → List Check
before_secure [] = []
before_secure (c ∷ cs) = if is_secure c.verdict then [] else c ∷ before_secure cs

unfoldable pub from_secure : List Check → List Check
from_secure [] = []
from_secure (c ∷ cs) = if is_secure c.verdict then c ∷ cs else from_secure cs

abbrev pub match : Env → SafeId → Check → Call → Result Bool
match env safe c call = wrapped "check" (c.fn env safe call)

-- `slices.Contains`, and an append of what is not contained.
contains_text : List Bytes → Bytes → Bool
contains_text [] d = false
contains_text (x ∷ xs) d = bytes_eq x d || contains_text xs d

add_text : List Bytes → Bytes → List Bytes
add_text texts d = if contains_text texts d then texts else texts ++ d ∷ []

module _ (env : Env) (safe : SafeId) where
  -- The inner loop over the calls, for a check: whether it matches one of them.
  unfoldable pub matches_any : Check → List Call → Result Bool
  matches_any c [] = ok false
  matches_any c (call ∷ calls) = do
    found ← match env safe c call
    elim found [ true ↦ ok true | false ↦ matches_any c calls ]

  -- The loop over the insecure checks: the first that matches a call.
  unfoldable pub first_insecure : List Check → List Call → Result (Option Check)
  first_insecure [] calls = ok none
  first_insecure (c ∷ cs) calls = do
    found ← matches_any c calls
    elim found [ true ↦ ok (some c) | false ↦ first_insecure cs calls ]

  -- `firstMatch`, with the check in place of its index.
  unfoldable pub first_match : List Check → Call → Result (Option Check)
  first_match [] call = ok none
  first_match (c ∷ cs) call = do
    found ← match env safe c call
    elim found [ true ↦ ok (some c) | false ↦ first_match cs call ]

  -- The loop over the calls: the descriptions of the secure checks, or `none` if no check matches.
  unfoldable pub secure_descriptions :
      List Check → List Call → List Bytes → Result (Option (List Bytes))
  unfolding contains_text add_text
  secure_descriptions cs [] texts = ok (some texts)
  secure_descriptions cs (call ∷ calls) texts = do
    found ← first_match cs call
    elim found [
      | none ↦ ok none
      | some c ↦ secure_descriptions cs calls (add_text texts (codes c.description))
    ]

secure_result : Option (List Bytes) → Classification
secure_result none = zero_classification
secure_result (some texts) = record {
  verdict = secure;
  rule = [];
  description = join (codes "; ") texts;
}

module _ ⦃k : Keccak⦄ where
  -- The verdict on the calls, once the insecure checks have run.
  unfoldable pub after_insecure :
      Env → SafeId → List Check → List Call → Option Check → Result Classification
  unfolding secure_result
  after_insecure env safe cs calls (some c) = ok (classification c)
  after_insecure env safe cs calls none = do
    texts ← secure_descriptions env safe (from_secure cs) calls []
    ok (secure_result texts)

  -- `classify`.
  unfoldable pub classify_with : List Check → Dialer → Proposal → Result Classification
  classify_with cs dial p = do
    tx ← components p.transaction
    fail_if (p.safe_block == 0) "proposal has no safeBlock"
    let env : Env = record { dial = dial; block = p.safe_block }
    found ← first_insecure env tx.safe (before_secure cs) tx.calls
    after_insecure env tx.safe cs tx.calls found

  -- `Classify`.
  pub classify : Dialer → Proposal → Result Classification
  unfolding classify_with
  classify = classify_with checks
