-- ===== src/Safesettings/Linked.antt =====
-- safesettings.go: the linked lists of owners and modules that `list` reads.
use safenet_arbitration_bot.Base.{
  ℕ, zero, suc, ◌≤◌, ◌≡◌, ◌⊎◌, inl, inr, refl, ap, sym, ◌∙◌, subst, true, false, ◌||◌, Option, none,
  some, List, [], ◌∷◌, ◌++◌, append-nil, append_assoc, bytes_eq, is_zero, drop, length, Bool-cases,
  Result-cases, arith, Error, Result, ok,
}
use safenet_arbitration_bot.Keccak.{Keccak}
use safenet_arbitration_bot.Ethrpc.Types.{Address, Hash}
use safenet_arbitration_bot.Safesettings.{
  list_sentinel, max_list_length, read_word, read_address, is_failed, mapping_slot, list_loop, list,
}

module _ ⦃k : Keccak⦄ (storage : Hash → Result Hash) (s : Hash) where
  -- The mapping's entry for one address is the other.
  abbrev pub Next : Address → Address → Type 0
  Next a b = (w : Hash) × (storage (mapping_slot a s) ≡ ok w) × (drop 12 w ≡ b)

  -- From `b`, the mapping leads through the entries and back to the sentinel.
  abbrev pub Leads : Address → List Address → Type 0
  Leads b [] = bytes_eq b list_sentinel ≡ true
  Leads b (x ∷ xs) =
      (b ≡ x)
      × (bytes_eq x list_sentinel ≡ false)
      × (is_zero x ≡ false)
      × ((c : Address) × Next x c × Leads c xs)

  read_address-Next :
      (a : Address) (e : Option Error) {b : Address}
      → read_address storage (mapping_slot a s) e ≡ (b, none)
      → (e ≡ none) × Next a b
  unfolding read_address read_word
  read_address-Next a (some x) h = cc
  read_address-Next a none {b} h = elim (Result-cases (storage (mapping_slot a s))) [
    | inl (w, m) ↦ (
      refl,
      (w, m, ap (λ (r : Address × Option Error). r.0) (rw (m, read_address, read_word) at h)),
    )
    | inr (x, m) ↦
        cc (ap (λ (r : Address × Option Error). r.1) (rw (m, read_address, read_word) at h))
  ]

  -- The loop's end.
  ended-Leads :
      (n : ℕ) (b : Address) (entries : List Address) (e : Option Error) {out : List Address}
      → (bytes_eq b list_sentinel || is_failed e) ≡ true
      → ◌≡◌ {A = List Address × Option Error} (entries, e) (out, none)
      → (e ≡ none) × ((xs : List Address) × (out ≡ entries ++ xs) × Leads b xs × (length xs ≤ n))
  ended-Leads n b entries e t done =
      let clean : e ≡ none = ap (λ r. r.1) done in
      let back : bytes_eq b list_sentinel ≡ true = ground (arith, rw clean at t) in
      (clean, ([], ap (λ r. r.0) (sym done) ∙ sym (append-nil entries), back, omega arith))

  -- Without an error, the loop appends to the entries those that the mapping leads through.
  list_loop-Leads :
      (n : ℕ) (b : Address) (entries : List Address) (e : Option Error) {out : List Address}
      → list_loop storage s n b entries e ≡ (out, none)
      → (e ≡ none) × ((xs : List Address) × (out ≡ entries ++ xs) × Leads b xs × (length xs ≤ n))
  unfolding list_loop
  list_loop-Leads zero b entries e {out} h =
      elim (Bool-cases (bytes_eq b list_sentinel || is_failed e)) [
        | inl t ↦ ended-Leads 0 b entries e t (rw t at h)
        | inr f ↦ elim (Bool-cases (is_zero b)) [
          | inl z ↦ cc (ap (λ (r : List Address × Option Error). r.1) (rw (f, z) at h))
          | inr z ↦ cc (ap (λ (r : List Address × Option Error). r.1) (rw (f, z) at h))
        ]
      ]
  list_loop-Leads (suc n) b entries e {out} h =
      elim (Bool-cases (bytes_eq b list_sentinel || is_failed e)) [
        | inl t ↦ ended-Leads (suc n) b entries e t (rw (t, list_loop) at h)
        | inr f ↦ elim (Bool-cases (is_zero b)) [
          | inl z ↦ cc (ap (λ (r : List Address × Option Error). r.1) (rw (f, z, list_loop) at h))
          | inr z ↦
              let read = read_address storage (mapping_slot b s) e in
              let (fine, (xs, grown, leads, fits)) =
                list_loop-Leads n read.0 (entries ++ b ∷ []) read.1 (rw (f, z, list_loop) at h) in
              let (clean, next) = read_address-Next b e (ap (λ o. (read.0, o)) fine) in
              (
                clean,
                (
                  b ∷ xs,
                  grown ∙ append_assoc entries (b ∷ []) xs,
                  (refl, ground arith, z, (read.0, next, leads)),
                  omega (arith, fits),
                ),
              )
        ]
      ]

  -- A list that `list` reads without an error is what the mapping leads through, from the
  -- sentinel's entry and back to the sentinel; it has at most 1024 entries. Or it is empty, and the
  -- sentinel's entry is the zero address.
  pub list-Leads :
      {out : List Address}
      → list storage s none ≡ (out, none)
      → (b : Address) × Next list_sentinel b
        × ((Leads b out × (length out ≤ max_list_length)) ⊎ ((is_zero b ≡ true) × (out ≡ [])))
  unfolding list
  list-Leads {out} h =
      let first = read_address storage (mapping_slot list_sentinel s) none in
      elim (Bool-cases (is_zero first.0)) [
        | inl z ↦
            let done : ◌≡◌ {A = List Address × Option Error} ([], first.1) (out, none) =
              rw (z, list) at h in
            let (_, next) =
              read_address-Next list_sentinel none (ap (λ o. (first.0, o)) (ap (λ r. r.1) done)) in
            (first.0, next, inr (z, ap (λ r. r.0) (sym done)))
        | inr z ↦
            let (clean, (xs, grown, leads, fits)) =
              list_loop-Leads max_list_length first.0 [] first.1 (rw (z, list) at h) in
            let (_, next) = read_address-Next list_sentinel none (ap (λ o. (first.0, o)) clean) in
            (
              first.0,
              next,
              inl (
                  subst (λ ys. Leads first.0 ys × (length ys ≤ max_list_length)) (sym grown)
                    (leads, fits)),
            )
      ]

  Next-read_address :
      (a b : Address) → Next a b → read_address storage (mapping_slot a s) none ≡ (b, none)
  unfolding read_address read_word
  Next-read_address a b (w, m, e) = rw (m, e, read_address, read_word) refl

  Leads-list_loop :
      (n : ℕ) (b : Address) (entries xs : List Address)
      → Leads b xs
      → length xs ≤ n
      → list_loop storage s n b entries none ≡ (entries ++ xs, none)
  unfolding list_loop
  Leads-list_loop zero b entries [] back fits = rw (back, append-nil entries) refl
  Leads-list_loop zero b entries (x ∷ xs) leads fits = absurd (omega arith)
  Leads-list_loop (suc n) b entries [] back fits = rw (back, list_loop, append-nil entries) refl
  Leads-list_loop (suc n) b entries (x ∷ xs) (same, other, filled, (c, next, leads)) fits =
      let rest = Leads-list_loop n c (entries ++ x ∷ []) xs leads (omega arith) in
      subst (λ y. list_loop storage s (suc n) y entries none ≡ (entries ++ x ∷ xs, none)) (sym same)
        (rw (other, filled, Next-read_address x c next, list_loop)
          (rest ∙ ap (λ ys. (ys, none)) (append_assoc entries (x ∷ []) xs)))

  list-starts :
      (b : Address)
      → read_address storage (mapping_slot list_sentinel s) none ≡ (b, none)
      → is_zero b ≡ false
      → list storage s none ≡ list_loop storage s max_list_length b [] none
  unfolding list
  list-starts b first filled =
      let filled' = ap (λ (r : Address × Option Error). is_zero r.0) first ∙ filled in
      rw (filled', list)
        (ap (λ (r : Address × Option Error). list_loop storage s max_list_length r.0 [] r.1) first)

  -- Every list of at most 1024 entries that the mapping leads through, from the sentinel's entry and
  -- back to the sentinel, is read without an error.
  pub Leads-list :
      (b : Address) (xs : List Address)
      → Next list_sentinel b
      → is_zero b ≡ false
      → Leads b xs
      → length xs ≤ max_list_length
      → list storage s none ≡ (xs, none)
  Leads-list b xs next filled leads fits =
      list-starts b (Next-read_address list_sentinel b next) filled
      ∙ Leads-list_loop max_list_length b [] xs leads fits
