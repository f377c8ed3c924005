-- ===== src/Safenet/Disputes/Sorted.antt =====
-- safenet.go, `pending`: the deletion of the settled disputes, and the sort.
use safenet_arbitration_bot.Base.{
  ℕ, ◌≤◌, ◌≡◌, ◌↔◌, ◌⊎◌, inl, inr, subst, true, List, [], ◌∷◌, ◌++◌, bytes_eq_iff, Bool-cases,
  arith, leb, All, Any,
}
use safenet_arbitration_bot.Ethrpc.Types.{Hash}
use safenet_arbitration_bot.Safenet.Types.{Dispute}
use safenet_arbitration_bot.Safenet.Disputes.{is_settled, delete_settled, insert, sort_disputes}

abbrev pub Among : Dispute → List Dispute → Type 0
Among d ds = Any (λ x. x ≡ d) ds

-- Every dispute has a deadline at least that of those before it.
abbrev pub Sorted : List Dispute → Type 0
Sorted [] = Unit
Sorted (d ∷ ds) = All (λ e. d.deadline ≤ e.deadline) ds × Sorted ds

Among-append : (ds es : List Dispute) (d : Dispute) → Among d (ds ++ es) ↔ (Among d ds ⊎ Among d es)
Among-append [] es d = (inr, λ h. elim h [ inl e ↦ absurd e | inr i ↦ i ])
Among-append (x ∷ ds) es d = ground (arith, Among-append ds es d)

insert-Among :
    (d : Dispute) (ds : List Dispute) (x : Dispute) → Among x (insert d ds) ↔ ((d ≡ x) ⊎ Among x ds)
unfolding insert
insert-Among d [] x = (λ h. h, λ h. h)
insert-Among d (e ∷ es) x = elim (Bool-cases (leb d.deadline e.deadline)) [
  | inl t ↦ rw t ((λ h. h, λ h. h))
  | inr f ↦ rw f (ground (arith, insert-Among d es x))
]

pub sort_disputes-Among :
    (ds : List Dispute) (x : Dispute) → Among x (sort_disputes ds) ↔ Among x ds
unfolding sort_disputes
sort_disputes-Among [] x = (λ h. h, λ h. h)
sort_disputes-Among (d ∷ ds) x =
    ground (arith, insert-Among d (sort_disputes ds) x, sort_disputes-Among ds x)

All-le :
    (a b : ℕ) (ds : List Dispute)
    → a ≤ b
    → All (λ e. b ≤ e.deadline) ds
    → All (λ e. a ≤ e.deadline) ds
All-le a b [] h all = tt
All-le a b (d ∷ ds) h (first, rest) = (omega (arith, first), All-le a b ds h rest)

insert-All :
    (d : Dispute) (ds : List Dispute) (n : ℕ)
    → n ≤ d.deadline
    → All (λ e. n ≤ e.deadline) ds
    → All (λ e. n ≤ e.deadline) (insert d ds)
unfolding insert
insert-All d [] n h all = (h, tt)
insert-All d (e ∷ es) n h (first, rest) = elim (Bool-cases (leb d.deadline e.deadline)) [
  | inl t ↦ rw t (h, (first, rest))
  | inr f ↦ rw f (first, insert-All d es n h rest)
]

insert-Sorted : (d : Dispute) (ds : List Dispute) → Sorted ds → Sorted (insert d ds)
unfolding insert
insert-Sorted d [] s = (tt, tt)
insert-Sorted d (e ∷ es) (low, s) = elim (Bool-cases (leb d.deadline e.deadline)) [
  | inl t ↦
      let le : d.deadline ≤ e.deadline = ground arith in
      rw t ((le, All-le d.deadline e.deadline es le low), (low, s))
  | inr f ↦ rw f (insert-All d es e.deadline (ground arith) low, insert-Sorted d es s)
]

pub sort_disputes-Sorted : (ds : List Dispute) → Sorted (sort_disputes ds)
unfolding sort_disputes
sort_disputes-Sorted [] = tt
sort_disputes-Sorted (d ∷ ds) = insert-Sorted d (sort_disputes ds) (sort_disputes-Sorted ds)

abbrev pub Settles : Hash → List Hash → Type 0
Settles id settled = Any (λ s. s ≡ id) settled

is_settled_iff :
    (settled : List Hash) (id : Hash) → (is_settled settled id ≡ true) ↔ Settles id settled
unfolding is_settled
is_settled_iff [] id = (λ h. cc, λ h. absurd h)
is_settled_iff (s ∷ settled) id = ground (arith, bytes_eq_iff s id, is_settled_iff settled id)

pub delete_settled-Among :
    (settled : List Hash) (ds : List Dispute) (x : Dispute)
    → Among x (delete_settled settled ds) ↔ (Among x ds × ¬ (Settles x.request_id settled))
unfolding delete_settled
delete_settled-Among settled [] x = (λ h. absurd h, λ h. absurd h.0)
delete_settled-Among settled (d ∷ ds) x =
    let (down, up) = delete_settled-Among settled ds x in
    elim (Bool-cases (is_settled settled d.request_id)) [
      | inl t ↦
          let gone = (is_settled_iff settled d.request_id).0 t in
          rw t (
            λ h. let (i, new) = down h in (inr i, new),
            λ (i, new). elim i [
              | inl e ↦ absurd (new (subst (λ y. Settles y.request_id settled) e gone))
              | inr j ↦ up (j, new)
            ],
          )
      | inr f ↦
          let kept : ¬ (Settles d.request_id settled) =
            λ s. cc ((is_settled_iff settled d.request_id).1 s, f) in
          rw f (
            λ h. elim h [
              | inl e ↦ (inl e, subst (λ y. ¬ (Settles y.request_id settled)) e kept)
              | inr j ↦ let (i, new) = down j in (inr i, new)
            ],
            λ (i, new). elim i [ inl e ↦ inl e | inr j ↦ inr (up (j, new)) ],
          )
    ]

pub Settles-append :
    (xs ys : List Hash) (id : Hash) → Settles id (xs ++ ys) ↔ (Settles id xs ⊎ Settles id ys)
Settles-append [] ys id = (inr, λ h. elim h [ inl e ↦ absurd e | inr i ↦ i ])
Settles-append (x ∷ xs) ys id = ground (arith, Settles-append xs ys id)
