-- ===== src/Sourcify/Sorted.antt =====
-- The sort by selectors, and what a sorted list without repeated selectors is.
use safenet_arbitration_bot.Base.{
  ◌≡◌, refl, ◌∙◌, sym, inl, inr, true, false, List, [], ◌∷◌, Bytes, bytes_eq, bytes_eq_iff,
  Bool-cases, All, arith, subst,
}
use safenet_arbitration_bot.Sourcify.Signatures.{
  Function, le_bytes, le_function, insert, sort, repeats,
}

le_bytes_total : (xs ys : Bytes) → le_bytes xs ys ≡ false → le_bytes ys xs ≡ true
unfolding le_bytes
le_bytes_total [] ys h = cc
le_bytes_total (x ∷ xs) [] h = refl
le_bytes_total (x ∷ xs) (y ∷ ys) h = elim (Bool-cases (le_bytes xs ys)) [
  | inl t ↦ ground (arith, t)
  | inr n ↦ let m = le_bytes_total xs ys n in ground (arith, n, m)
]

le_bytes_trans :
    (xs ys zs : Bytes) → le_bytes xs ys ≡ true → le_bytes ys zs ≡ true → le_bytes xs zs ≡ true
unfolding le_bytes
le_bytes_trans [] ys zs h h' = refl
le_bytes_trans (x ∷ xs) [] zs h h' = cc
le_bytes_trans (x ∷ xs) (y ∷ ys) [] h h' = cc
le_bytes_trans (x ∷ xs) (y ∷ ys) (z ∷ zs) h h' = ground (arith, le_bytes_trans xs ys zs)

le_bytes_antisym : (xs ys : Bytes) → le_bytes xs ys ≡ true → le_bytes ys xs ≡ true → xs ≡ ys
unfolding le_bytes
le_bytes_antisym [] [] h h' = refl
le_bytes_antisym [] (y ∷ ys) h h' = cc
le_bytes_antisym (x ∷ xs) [] h h' = cc
le_bytes_antisym (x ∷ xs) (y ∷ ys) h h' =
    let same : x ≡ y = ground arith in
    let rest : le_bytes xs ys ≡ true = ground arith in
    let rest' : le_bytes ys xs ≡ true = ground arith in
    λ i. same i ∷ le_bytes_antisym xs ys rest rest' i

bytes_eq_sym : (xs ys : Bytes) → bytes_eq xs ys ≡ bytes_eq ys xs
bytes_eq_sym xs ys = ground (arith, bytes_eq_iff xs ys, bytes_eq_iff ys xs)

le_function_total : (f g : Function) → le_function f g ≡ false → le_function g f ≡ true
unfolding le_function
le_function_total f g h = elim (Bool-cases (bytes_eq f.selector g.selector)) [
  | inl t ↦
      let t' : bytes_eq g.selector f.selector ≡ true = bytes_eq_sym g.selector f.selector ∙ t in
      rw t' (le_bytes_total f.signature g.signature (rw (t, le_function) at h))
  | inr n ↦
      let n' : bytes_eq g.selector f.selector ≡ false = bytes_eq_sym g.selector f.selector ∙ n in
      rw n' (le_bytes_total f.selector g.selector (rw (n, le_function) at h))
]

-- A relation of a function and the first of a list.
abbrev First : (Function → Function → Type 0) → Function → List Function → Type 0
First R f [] = Unit
First R f (g ∷ gs) = R f g

abbrev Chain : (Function → Function → Type 0) → List Function → Type 0
Chain R [] = Unit
Chain R (f ∷ fs) = First R f fs × Chain R fs

abbrev InOrder : Function → Function → Type 0
InOrder f g = le_function f g ≡ true

-- The selector of one is before that of the other.
abbrev pub Precedes : Function → Function → Type 0
Precedes f g = (le_bytes f.selector g.selector ≡ true) × ¬ (f.selector ≡ g.selector)

-- Each function precedes all that follow it.
abbrev pub Ascending : List Function → Type 0
Ascending [] = Unit
Ascending (f ∷ fs) = All (Precedes f) fs × Ascending fs

Precedes-trans : (f g h : Function) → Precedes f g → Precedes g h → Precedes f h
Precedes-trans f g h (a, n) (b, m) = (
  le_bytes_trans f.selector g.selector h.selector a b,
  λ e. n (
      le_bytes_antisym f.selector g.selector a
        (subst (λ x. le_bytes g.selector x ≡ true) (sym e) b)),
)

All-Precedes :
    (f g : Function) (fs : List Function) → Precedes f g → All (Precedes g) fs → All (Precedes f) fs
All-Precedes f g [] p all = tt
All-Precedes f g (h ∷ hs) p all = (Precedes-trans f g h p all.0, All-Precedes f g hs p all.1)

insert-First :
    (f x : Function) (fs : List Function)
    → InOrder f x
    → First InOrder f fs
    → First InOrder f (insert x fs)
unfolding insert
insert-First f x [] h first = h
insert-First f x (g ∷ gs) h first = elim (Bool-cases (le_function x g)) [
  | inl t ↦ rw t h
  | inr n ↦ rw n first
]

insert-Chain : (x : Function) (fs : List Function) → Chain InOrder fs → Chain InOrder (insert x fs)
unfolding insert
insert-Chain x [] h = (tt, tt)
insert-Chain x (g ∷ gs) h = elim (Bool-cases (le_function x g)) [
  | inl t ↦ rw t (t, h)
  | inr n ↦ rw n (insert-First g x gs (le_function_total x g n) h.0, insert-Chain x gs h.1)
]

pub sort-Chain : (fs : List Function) → Chain InOrder (sort fs)
unfolding sort
sort-Chain [] = tt
sort-Chain (f ∷ fs) = insert-Chain f (sort fs) (sort-Chain fs)

le_function-Precedes :
    (f g : Function) → InOrder f g → bytes_eq f.selector g.selector ≡ false → Precedes f g
unfolding le_function
le_function-Precedes f g h n =
    (rw (n, le_function) at h, λ e. cc (sym n ∙ (bytes_eq_iff f.selector g.selector).1 e))

pub Chain-Ascending : (fs : List Function) → Chain InOrder fs → repeats fs ≡ false → Ascending fs
unfolding repeats
Chain-Ascending [] h none_repeats = tt
Chain-Ascending (f ∷ []) h none_repeats = (tt, tt)
Chain-Ascending (f ∷ g ∷ gs) h none_repeats =
    let n : bytes_eq f.selector g.selector ≡ false = ground arith in
    let rest : repeats (g ∷ gs) ≡ false = rw (n, repeats) at none_repeats in
    let p = le_function-Precedes f g h.0 n in
    let after = Chain-Ascending (g ∷ gs) h.1 rest in ((p, All-Precedes f g gs p after.0), after)

module _ (P : Function → Type 0) where
  insert-All : (x : Function) (fs : List Function) → P x → All P fs → All P (insert x fs)
  unfolding insert
  insert-All x [] p all = (p, tt)
  insert-All x (g ∷ gs) p all = elim (Bool-cases (le_function x g)) [
    | inl t ↦ rw t (p, all)
    | inr n ↦ rw n (all.0, insert-All x gs p all.1)
  ]

  pub sort-All : (fs : List Function) → All P fs → All P (sort fs)
  unfolding sort
  sort-All [] all = tt
  sort-All (f ∷ fs) all = insert-All f (sort fs) all.0 (sort-All fs all.1)
