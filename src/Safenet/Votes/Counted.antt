-- ===== src/Safenet/Votes/Counted.antt =====
-- safenet.go: what `progress.check` compares.
use safenet_arbitration_bot.Base.{
  String, ◌⊎◌, inl, inr, ℕ, suc, ◌+◌, ◌≡◌, ◌↔◌, refl, sym, ◌∙◌, Bool, true, false, not, List, [],
  ◌∷◌, length, arith, ok, fail_if,
}
use safenet_arbitration_bot.Safenet.Types.{
  Vote, vote_none, vote_pending, vote_approved, vote_denied, Commitment,
}
use safenet_arbitration_bot.Safenet.Votes.{Progress, tally, progress_eq, check_progress}

abbrev pub approvals_in : List Commitment → ℕ
approvals_in [] = 0
approvals_in (v ∷ vs) = elim v.vote [ vote_approved ↦ suc (approvals_in vs) | _ ↦ approvals_in vs ]

abbrev pub denials_in : List Commitment → ℕ
denials_in [] = 0
denials_in (v ∷ vs) = elim v.vote [ vote_denied ↦ suc (denials_in vs) | _ ↦ denials_in vs ]

-- The counts are those of the votes, added to those of `p`.
abbrev Adds : Progress → ℕ → ℕ → Progress → Type 0
Adds p approvals denials q =
    (q.arbitration_deadline ≡ p.arbitration_deadline)
    × (q.committed ≡ p.committed)
    × (q.revealed ≡ p.revealed + approvals + denials)
    × (q.approvals ≡ p.approvals + approvals)
    × (q.denials ≡ p.denials + denials)

Vote-cases :
    (v : Vote) → (v ≡ vote_none) ⊎ ((v ≡ vote_pending) ⊎ ((v ≡ vote_approved) ⊎ (v ≡ vote_denied)))
Vote-cases vote_none = inl refl
Vote-cases vote_pending = inr (inl refl)
Vote-cases vote_approved = inr (inr (inl refl))
Vote-cases vote_denied = inr (inr (inr refl))

tally-Adds :
    (p : Progress) (vs : List Commitment) → Adds p (approvals_in vs) (denials_in vs) (tally p vs)
unfolding tally
tally-Adds p [] = (refl, refl, omega arith, omega arith, omega arith)
tally-Adds p (v ∷ vs) = elim (Vote-cases v.vote) [
  | inl e ↦ rw e (tally-Adds p vs)
  | inr (inl e) ↦ rw e (tally-Adds p vs)
  | inr (inr (inl e)) ↦
      let (a, b, c, d, f) =
        tally-Adds (record p { revealed = p.revealed + 1; approvals = p.approvals + 1 }) vs in
      rw e (a, b, omega (arith, c), omega (arith, d), f)
  | inr (inr (inr e)) ↦
      let (a, b, c, d, f) =
        tally-Adds (record p { revealed = p.revealed + 1; denials = p.denials + 1 }) vs in
      rw e (a, b, omega (arith, c), d, omega (arith, f))
]

-- Two progresses with the same fields.
abbrev Same : Progress → Progress → Type 0
Same p q =
    (p.arbitration_deadline ≡ q.arbitration_deadline)
    × (p.committed ≡ q.committed)
    × (p.revealed ≡ q.revealed)
    × (p.approvals ≡ q.approvals)
    × (p.denials ≡ q.denials)

progress_eq_iff : (p q : Progress) → (progress_eq p q ≡ true) ↔ Same p q
unfolding progress_eq
progress_eq_iff p q = ground arith

passes_iff : (b : Bool) (s : String) → (fail_if (not b) s ≡ ok tt) ↔ (b ≡ true)
passes_iff true s = (λ h. refl, λ h. refl)
passes_iff false s = (λ h. cc, λ h. cc)

-- The check passes exactly when the oracle has counted the votes, the approvals among them, the
-- denials among them, and as many reveals as approvals and denials together.
pub check_progress_iff :
    (p : Progress) (vs : List Commitment)
    → (check_progress p vs ≡ ok tt) ↔ (
        (p.committed ≡ length vs)
        × (p.approvals ≡ approvals_in vs)
        × (p.denials ≡ denials_in vs)
        × (p.revealed ≡ approvals_in vs + denials_in vs))
unfolding check_progress
check_progress_iff p vs =
    let none_yet : Progress = record {
      arbitration_deadline = p.arbitration_deadline;
      committed = length vs;
      revealed = 0;
      approvals = 0;
      denials = 0;
    } in
    let (a, b, c, d, f) = tally-Adds none_yet vs in
    let done = tally none_yet vs in
    let same = progress_eq_iff done p in
    let passes = passes_iff (progress_eq done p) "the oracle has other counts than the logs" in
    (
      λ h.
          let (_, v, w, x, y) = same.0 (passes.0 h) in
          (omega (arith, b, v), omega (arith, d, x), omega (arith, f, y), omega (arith, c, w)),
      λ (v, x, y, w).
          passes.1
            (same.1 (a, b ∙ sym v, omega (arith, c, w), omega (arith, d, x), omega (arith, f, y))),
    )
