-- ===== src/Safenet/Votes/Indexed.antt =====
-- safenet.go, `votes`: the map from the sentinels to their votes.
use safenet_arbitration_bot.Base.{
  ℕ, zero, suc, ◌≡◌, ◌↔◌, ◌⊎◌, inl, inr, refl, ap, sym, ◌∙◌, subst, none, some, List, [], ◌∷◌, ◌++◌,
  bytes_eq, bytes_eq_iff, length, get_elem?, Bool-cases,
}
use safenet_arbitration_bot.Ethrpc.Types.{Address}
use safenet_arbitration_bot.Safenet.Types.{Commitment}
use safenet_arbitration_bot.Safenet.Votes.{Index, lookup}

-- The sentinels of the votes, in order.
abbrev pub sentinels : List Commitment → List Address
sentinels [] = []
sentinels (v ∷ vs) = v.sentinel ∷ sentinels vs

-- The map gives the position of every sentinel in the list, and of no other.
abbrev pub Indexed : Index → List Address → Type 0
Indexed index names =
    (s : Address) (i : ℕ) → (lookup index s ≡ some i) ↔ (get_elem? names i ≡ some s)

pub Indexed-nil : Indexed [] []
unfolding lookup
Indexed-nil s i = (λ h. cc, λ h. cc)

get_elem?-concat-lt :
    (xs : List Address) (x : Address) (i : ℕ) {y : Address}
    → get_elem? xs i ≡ some y
    → get_elem? (xs ++ x ∷ []) i ≡ some y
get_elem?-concat-lt [] x i h = cc
get_elem?-concat-lt (z ∷ xs) x zero h = h
get_elem?-concat-lt (z ∷ xs) x (suc i) h = get_elem?-concat-lt xs x i h

get_elem?-concat-last :
    (xs : List Address) (x : Address) → get_elem? (xs ++ x ∷ []) (length xs) ≡ some x
get_elem?-concat-last [] x = refl
get_elem?-concat-last (z ∷ xs) x = get_elem?-concat-last xs x

get_elem?-concat :
    (xs : List Address) (x : Address) (i : ℕ) {y : Address}
    → get_elem? (xs ++ x ∷ []) i ≡ some y
    → (get_elem? xs i ≡ some y) ⊎ ((i ≡ length xs) × (x ≡ y))
get_elem?-concat [] x zero h = inr (refl, cc)
get_elem?-concat [] x (suc i) h = cc
get_elem?-concat (z ∷ xs) x zero h = inl h
get_elem?-concat (z ∷ xs) x (suc i) h = elim (get_elem?-concat xs x i h) [
  | inl old ↦ inl old
  | inr (last, e) ↦ inr (ap suc last, e)
]

-- A sentinel that has no vote yet is added at the end.
pub Indexed-concat :
    (index : Index) (names : List Address) (s : Address)
    → Indexed index names
    → lookup index s ≡ none
    → Indexed ((s, length names) ∷ index) (names ++ s ∷ [])
unfolding lookup
Indexed-concat index names s indexed new t i = elim (Bool-cases (bytes_eq s t)) [
  | inl same ↦
      let e : s ≡ t = (bytes_eq_iff s t).0 same in
      rw same (
        (
          λ h.
              let last : length names ≡ i = cc in
              subst (λ j. get_elem? (names ++ s ∷ []) j ≡ some t) last
                (get_elem?-concat-last names s ∙ ap some e),
          λ h. elim (get_elem?-concat names s i h) [
            | inl old ↦ cc ((indexed s i).1 (old ∙ ap some (sym e)), new)
            | inr (last, _) ↦ ap some (sym last)
          ],
        ))
  | inr other ↦ rw other (
      (
        λ h. get_elem?-concat-lt names s i ((indexed t i).0 h),
        λ h. elim (get_elem?-concat names s i h) [
          | inl old ↦ (indexed t i).1 old
          | inr (_, e) ↦ cc ((bytes_eq_iff s t).1 e, other)
        ],
      ))
]
