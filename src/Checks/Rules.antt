-- ===== src/Checks/Rules.antt =====
-- settings_change.go, network.go, safe.go, multisend.go and cancel_tx.go: the checks.
pub mod Settings
use safenet_arbitration_bot.Base.{
  pos, ◌==ℤ◌, ℕ, zero, suc, ◌+◌, ◌-◌, ◌*◌, ◌^◌, Bool, true, false, not, ◌&&◌, ◌||◌, Option, none,
  some, List, [], ◌∷◌, ◌++◌, String, if◌then◌else◌, ltb, leb, ◌==◌, Bytes, codes, bytes_eq, is_zero,
  length, take, drop, replicate, Result, ok, err, panic, ◌>>=◌,
}
use safenet_arbitration_bot.Keccak.{Keccak}
use safenet_arbitration_bot.Ethrpc.Types.{Address, Dialer}
use safenet_arbitration_bot.Solabi.Encode.{selector}
use safenet_arbitration_bot.Safenet.Types.{operation_call}
use safenet_arbitration_bot.Checks.Calls.{SafeId, Call, root, refund, kind_eq, call_eq}
use safenet_arbitration_bot.Checks.MultiSend.{
  Version, v1_5_0, is_v1_5_0, multi_send_at, reverting_multi_send, empty_multi_send,
}
use safenet_arbitration_bot.Checks.Safe.{SafeVersion, networks, contains, key_of, read_version}

-- `Verdict`.
pub data Verdict : Type 0 where
  unclassified secure insecure : Verdict

-- The environment of the checks. The cache of `safeVersion` is left out: see Checks.Safe.Cached.
pub record Env : Type 0 where
  pub dial : Dialer
  pub block : ℕ

abbrev pub CheckFn : Type 0
CheckFn = Env → SafeId → Call → Result Bool

pub record Check : Type 0 where
  pub verdict : Verdict
  pub rule : String
  pub description : String
  pub fn : CheckFn

-- A conversion of a slice to an array of `n` bytes, which panics on a shorter slice.
abbrev pub array : ℕ → Bytes → Result Bytes
array n b = if ltb (length b) n then err panic else ok (take n b)

-- `data[from:to]`, which panics out of range.
abbrev pub sliced : ℕ → ℕ → Bytes → Result Bytes
sliced from to b = if ltb (length b) to then err panic else ok (take (to - from) (drop from b))

-- `selfCall`.
unfoldable pub self_call : SafeId → Call → Bytes → Bool
self_call safe c sel =
    bytes_eq c.to safe.address
    && c.operation == operation_call
    && leb 4 (length c.input)
    && bytes_eq (take 4 c.input) sel

-- The loop of `canonicalRootCall` over the arguments from index `i` on.
zero_uppers : Bytes → ℕ → ℕ → Result Bool
zero_uppers input i zero = ok true
zero_uppers input i (suc n) = do
  upper ← array 12 (drop (4 + 32 * i) input)
  let rest = zero_uppers input (i + 1) n
  (if is_zero upper then rest else ok false)

unfoldable pub canonical_root_call : Call → ℕ → Result Bool
unfolding zero_uppers
canonical_root_call c args =
    if not (kind_eq c.kind root) || not (c.value ==ℤ pos 0) || not (length c.input == 4 + 32 * args)
    then ok false
    else zero_uppers c.input 0 args

-- `allowedDisableModule` and `allowedSetFallbackHandler`.
unfoldable pub allowed_disable_module : Call → Result Bool
allowed_disable_module c = canonical_root_call c 2

zero_handler : Call → Bool → Result Bool
zero_handler c false = ok false
zero_handler c true = do handler ← array 32 (drop 4 c.input); ok (is_zero handler)

unfoldable pub allowed_set_fallback_handler : Call → Result Bool
unfolding zero_handler
allowed_set_fallback_handler c = do canonical ← canonical_root_call c 1; zero_handler c canonical

abbrev pub allowed : (Call → Result Bool) → CheckFn
allowed is_allowed env safe c = is_allowed c

abbrev pub sentinel : Address
sentinel = replicate 19 0 ++ 1 ∷ []

-- `addsInvalidOwner`.
pub adds_invalid_owner : ℕ → CheckFn
adds_invalid_owner i env safe c = do
  let start = 4 + 32 * i
  owner ← sliced (start + 12) (start + 32) c.input
  ok (is_zero owner || bytes_eq owner sentinel)

count_commas : Bytes → ℕ
count_commas [] = 0
count_commas (c ∷ cs) = (if c == b',' then 1 else 0) + count_commas cs

ends_empty : Bytes → Bool
ends_empty [] = false
ends_empty (c ∷ cs) = bytes_eq (c ∷ cs) (codes "()") || ends_empty cs

-- The number of arguments of a signature.
unfoldable pub arg_count : String → ℕ
unfolding count_commas ends_empty
arg_count signature = if ends_empty (codes signature) then 0 else count_commas (codes signature) + 1

module _ ⦃k : Keccak⦄ where
  and_allowed : (Call → Result Bool) → Call → Bool → Result Bool
  and_allowed is_allowed c false = ok false
  and_allowed is_allowed c true = is_allowed c

  unfoldable pub allowed_settings_change : String → (Call → Result Bool) → CheckFn
  unfolding and_allowed
  allowed_settings_change signature is_allowed env safe c =
      and_allowed is_allowed c (self_call safe c (selector signature))

  abstains : Option CheckFn → Env → SafeId → Call → Bool → Result Bool
  abstains abstain env safe c false = ok false
  abstains none env safe c true = ok true
  abstains (some abstain) env safe c true = do skip ← abstain env safe c; ok (not skip)

  -- The function of the check that `settingsChange` returns.
  unfoldable pub settings_change_fn : String → Option CheckFn → CheckFn
  unfolding abstains
  settings_change_fn signature abstain env safe c = abstains abstain env safe c (
      self_call safe c (selector signature)
      && not (ltb (length c.input) (4 + 32 * arg_count signature)))

  abbrev pub settings_change : String → String → Option CheckFn → Check
  settings_change signature text abstain = record {
    verdict = insecure;
    rule = "R-4.1";
    description = text;
    fn = settings_change_fn signature abstain;
  }

  is_not_v1_5_0 : Option SafeVersion → Bool
  is_not_v1_5_0 none = true
  is_not_v1_5_0 (some v) = not (is_v1_5_0 v.version)

  -- Safes before 1.5.0 have no setModuleGuard.
  unfoldable pub no_module_guard : CheckFn
  unfolding is_not_v1_5_0
  no_module_guard env safe c = do
    version ← read_version env.dial (key_of env.block safe)
    ok (is_not_v1_5_0 version)
