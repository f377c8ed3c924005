-- ===== src/Checks/Classify/Sound.antt =====
-- What `classify` returns, for any checks.
use safenet_arbitration_bot.Base.{
  ◌≡◌, ap, sym, ◌∙◌, Option, none, some, List, [], inl, inr, All, Any, ◌==◌, Bytes, ok,
  Result-cases, >>=-eq-ok, fail_if, Option-cases,
}
use safenet_arbitration_bot.Keccak.{Keccak}
use safenet_arbitration_bot.Ethrpc.Types.{Dialer}
use safenet_arbitration_bot.Safenet.Types.{Proposal}
use safenet_arbitration_bot.Checks.Calls.{SafeId, Call}
use safenet_arbitration_bot.Checks.Components.{Components, components}
use safenet_arbitration_bot.Checks.Rules.{secure, Env, Check}
use safenet_arbitration_bot.Checks.Classify.{
  Classification, zero_classification, classification, before_secure, from_secure, first_insecure,
  secure_descriptions, secure_result, after_insecure, classify_with,
}
use safenet_arbitration_bot.Checks.Classify.Found.{
  Matches, Misses, FirstHit, first_insecure-some, first_insecure-none, secure_descriptions-some,
  secure_descriptions-none,
}

module _ (env : Env) (safe : SafeId) where
  -- The three ways that a classification is right for the calls, by the insecure checks `cs` and
  -- the secure checks `ds`.
  pub data Justifies (cs ds : List Check) (calls : List Call) (r : Classification) : Type 0 where
    breaks_rule :
        (d : Check) → FirstHit env safe calls cs d → r ≡ classification d → Justifies cs ds calls r
    is_safe :
        All (λ c. All (Misses env safe c) calls) cs
        → All (λ call. Any (λ c. Matches env safe c call) ds) calls
        → r.verdict ≡ secure
        → r.rule ≡ []
        → Justifies cs ds calls r
    undecided :
        All (λ c. All (Misses env safe c) calls) cs
        → Any (λ call. All (λ c. Misses env safe c call) ds) calls
        → r ≡ zero_classification
        → Justifies cs ds calls r

secure_result-fields :
    (texts : List Bytes) (r : Classification)
    → ok (secure_result (some texts)) ≡ ok r
    → (r.verdict ≡ secure) × (r.rule ≡ [])
unfolding secure_result
secure_result-fields texts r h =
    let same : secure_result (some texts) ≡ r = cc in
    (sym (ap (λ c. c.verdict) same), sym (ap (λ c. c.rule) same))

module _ ⦃k : Keccak⦄ (env : Env) (safe : SafeId) (cs : List Check) (calls : List Call) where
  no_insecure-Justifies :
      (r : Classification)
      → All (λ c. All (Misses env safe c) calls) (before_secure cs)
      → after_insecure env safe cs calls none ≡ ok r
      → Justifies env safe (before_secure cs) (from_secure cs) calls r
  unfolding after_insecure
  no_insecure-Justifies r misses h =
      let ds = from_secure cs in
      elim (Result-cases (secure_descriptions env safe ds calls [])) [
        | inr (e, m) ↦ cc (rw m at h)
        | inl (o, m) ↦ elim (Option-cases o) [
          | inl n ↦
              let m' = m ∙ ap ok n in
              let same : ok zero_classification ≡ ok r = rw m' at h in
              undecided misses (secure_descriptions-none env safe ds calls [] m') cc
          | inr (texts, t) ↦
              let m' = m ∙ ap ok t in
              let fields = secure_result-fields texts r (rw m' at h) in
              is_safe misses (secure_descriptions-some env safe ds calls [] texts m') fields.0
                fields.1
        ]
      ]

  after_insecure-Justifies :
      (found : Option Check) (r : Classification)
      → first_insecure env safe (before_secure cs) calls ≡ ok found
      → after_insecure env safe cs calls found ≡ ok r
      → Justifies env safe (before_secure cs) (from_secure cs) calls r
  unfolding after_insecure
  after_insecure-Justifies none r first h =
      no_insecure-Justifies r (first_insecure-none env safe (before_secure cs) calls first) h
  after_insecure-Justifies (some d) r first h =
      let h' : ok (classification d) ≡ ok r = h in
      breaks_rule d (first_insecure-some env safe (before_secure cs) calls d first) cc

module _ ⦃k : Keccak⦄ where
  -- Whatever `classify` returns without an error, for any checks, is right for the calls that the
  -- transaction makes: an insecure result is that of the first insecure check that matches one of
  -- them; a secure one means that no insecure check matches any of them and a secure check matches
  -- each; otherwise no insecure check matches any, and some call is matched by no secure check.
  pub classify-Justifies :
      (cs : List Check) (dial : Dialer) (p : Proposal) {r : Classification}
      → classify_with cs dial p ≡ ok r
      → (tx : Components) × (components p.transaction ≡ ok tx)
        × Justifies
            (record { dial = dial; block = p.safe_block })
            tx.safe
            (before_secure cs)
            (from_secure cs)
            tx.calls
            r
  unfolding classify_with
  classify-Justifies cs dial p {r} h =
      let (tx, parts, h₁) = >>=-eq-ok (components p.transaction) _ h in
      let (_, guard, h₂) =
        >>=-eq-ok (fail_if (p.safe_block == 0) "proposal has no safeBlock") _ h₁ in
      let env : Env = record { dial = dial; block = p.safe_block } in
      let (found, first, h₃) =
        >>=-eq-ok (first_insecure env tx.safe (before_secure cs) tx.calls) _ h₂ in
      (tx, parts, after_insecure-Justifies env tx.safe cs tx.calls found r first h₃)
