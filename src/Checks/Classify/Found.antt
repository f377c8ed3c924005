-- ===== src/Checks/Classify/Found.antt =====
-- What the loops of `classify` find, for any checks.
use safenet_arbitration_bot.Base.{
  ◌≡◌, ap, ◌∙◌, true, false, none, some, List, [], ◌∷◌, ◌⊎◌, inl, inr, All, Any, Bytes, codes, ok,
  err, Error, Result-cases, Bool-cases, Option-cases,
}
use safenet_arbitration_bot.Checks.Calls.{SafeId, Call}
use safenet_arbitration_bot.Checks.Rules.{Env, Check}
use safenet_arbitration_bot.Checks.Classify.{
  matches_any, first_insecure, first_match, secure_descriptions, add_text,
}

module _ (env : Env) (safe : SafeId) where
  abbrev pub Matches : Check → Call → Type 0
  Matches c call = c.fn env safe call ≡ ok true

  abbrev pub Misses : Check → Call → Type 0
  Misses c call = c.fn env safe call ≡ ok false

  -- `d` is the first of the checks that matches one of the calls.
  abbrev pub FirstHit : List Call → List Check → Check → Type 0
  FirstHit calls [] d = ⊥
  FirstHit calls (c ∷ cs) d =
      ((c ≡ d) × Any (Matches c) calls) ⊎ (All (Misses c) calls × FirstHit calls cs d)

  data Tested (c : Check) (call : Call) : Type 0 where
    hit : Matches c call → Tested c call
    miss : Misses c call → Tested c call
    broken : (e : Error) → c.fn env safe call ≡ err e → Tested c call

  tested : (c : Check) (call : Call) → Tested c call
  tested c call = elim (Result-cases (c.fn env safe call)) [
    | inr (e, m) ↦ broken e m
    | inl (b, m) ↦ elim (Bool-cases b) [ inl t ↦ hit (m ∙ ap ok t) | inr f ↦ miss (m ∙ ap ok f) ]
  ]

  matches_any-true :
      (c : Check) (calls : List Call)
      → matches_any env safe c calls ≡ ok true
      → Any (Matches c) calls
  unfolding matches_any
  matches_any-true c [] h = cc
  matches_any-true c (call ∷ calls) h = elim (tested c call) [
    | hit m ↦ inl m
    | miss m ↦ inr (matches_any-true c calls (rw m at h))
    | broken e m ↦ cc (rw m at h)
  ]

  matches_any-false :
      (c : Check) (calls : List Call)
      → matches_any env safe c calls ≡ ok false
      → All (Misses c) calls
  unfolding matches_any
  matches_any-false c [] h = tt
  matches_any-false c (call ∷ calls) h = elim (tested c call) [
    | hit m ↦ cc (rw m at h)
    | miss m ↦ (m, matches_any-false c calls (rw m at h))
    | broken e m ↦ cc (rw m at h)
  ]

  data AnyTested (c : Check) (calls : List Call) : Type 0 where
    any_hit : matches_any env safe c calls ≡ ok true → AnyTested c calls
    all_miss : matches_any env safe c calls ≡ ok false → AnyTested c calls
    any_broken : (e : Error) → matches_any env safe c calls ≡ err e → AnyTested c calls

  any_tested : (c : Check) (calls : List Call) → AnyTested c calls
  any_tested c calls = elim (Result-cases (matches_any env safe c calls)) [
    | inr (e, m) ↦ any_broken e m
    | inl (b, m) ↦ elim (Bool-cases b) [
      | inl t ↦ any_hit (m ∙ ap ok t)
      | inr f ↦ all_miss (m ∙ ap ok f)
    ]
  ]

  pub first_insecure-some :
      (cs : List Check) (calls : List Call) (d : Check)
      → first_insecure env safe cs calls ≡ ok (some d)
      → FirstHit calls cs d
  unfolding first_insecure
  first_insecure-some [] calls d h = cc
  first_insecure-some (c ∷ cs) calls d h = elim (any_tested c calls) [
    | any_hit m ↦
        let h' : ok (some c) ≡ ok (some d) = rw m at h in inl (cc, matches_any-true c calls m)
    | all_miss m ↦ inr (matches_any-false c calls m, first_insecure-some cs calls d (rw m at h))
    | any_broken e m ↦ cc (rw m at h)
  ]

  pub first_insecure-none :
      (cs : List Check) (calls : List Call)
      → first_insecure env safe cs calls ≡ ok none
      → All (λ c. All (Misses c) calls) cs
  unfolding first_insecure
  first_insecure-none [] calls h = tt
  first_insecure-none (c ∷ cs) calls h = elim (any_tested c calls) [
    | any_hit m ↦ cc (rw m at h)
    | all_miss m ↦ (matches_any-false c calls m, first_insecure-none cs calls (rw m at h))
    | any_broken e m ↦ cc (rw m at h)
  ]

  first_match-some :
      (cs : List Check) (call : Call) (d : Check)
      → first_match env safe cs call ≡ ok (some d)
      → Any (λ c. Matches c call) cs
  unfolding first_match
  first_match-some [] call d h = cc
  first_match-some (c ∷ cs) call d h = elim (tested c call) [
    | hit m ↦ inl m
    | miss m ↦ inr (first_match-some cs call d (rw m at h))
    | broken e m ↦ cc (rw m at h)
  ]

  first_match-none :
      (cs : List Check) (call : Call)
      → first_match env safe cs call ≡ ok none
      → All (λ c. Misses c call) cs
  unfolding first_match
  first_match-none [] call h = tt
  first_match-none (c ∷ cs) call h = elim (tested c call) [
    | hit m ↦ cc (rw m at h)
    | miss m ↦ (m, first_match-none cs call (rw m at h))
    | broken e m ↦ cc (rw m at h)
  ]

  data FirstTested (cs : List Check) (call : Call) : Type 0 where
    first_hit : (d : Check) → first_match env safe cs call ≡ ok (some d) → FirstTested cs call
    no_hit : first_match env safe cs call ≡ ok none → FirstTested cs call
    first_broken : (e : Error) → first_match env safe cs call ≡ err e → FirstTested cs call

  first_tested : (cs : List Check) (call : Call) → FirstTested cs call
  first_tested cs call = elim (Result-cases (first_match env safe cs call)) [
    | inr (e, m) ↦ first_broken e m
    | inl (o, m) ↦ elim (Option-cases o) [
      | inl n ↦ no_hit (m ∙ ap ok n)
      | inr (d, s) ↦ first_hit d (m ∙ ap ok s)
    ]
  ]

  pub secure_descriptions-some :
      (cs : List Check) (calls : List Call) (texts out : List Bytes)
      → secure_descriptions env safe cs calls texts ≡ ok (some out)
      → All (λ call. Any (λ c. Matches c call) cs) calls
  unfolding secure_descriptions
  secure_descriptions-some cs [] texts out h = tt
  secure_descriptions-some cs (call ∷ calls) texts out h = elim (first_tested cs call) [
    | first_hit d m ↦ (
      first_match-some cs call d m,
      secure_descriptions-some cs calls (add_text texts (codes d.description)) out (rw m at h),
    )
    | no_hit m ↦ cc (rw m at h)
    | first_broken e m ↦ cc (rw m at h)
  ]

  pub secure_descriptions-none :
      (cs : List Check) (calls : List Call) (texts : List Bytes)
      → secure_descriptions env safe cs calls texts ≡ ok none
      → Any (λ call. All (λ c. Misses c call) cs) calls
  unfolding secure_descriptions
  secure_descriptions-none cs [] texts h = cc
  secure_descriptions-none cs (call ∷ calls) texts h = elim (first_tested cs call) [
    | first_hit d m ↦
        inr (secure_descriptions-none cs calls (add_text texts (codes d.description)) (rw m at h))
    | no_hit m ↦ inl (first_match-none cs call m)
    | first_broken e m ↦ cc (rw m at h)
  ]
