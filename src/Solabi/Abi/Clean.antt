-- ===== src/Solabi/Abi/Clean.antt =====
-- A signature has the characters of Solidity's identifiers and types only.
use safenet_arbitration_bot.Base.{
  ℕ, ◌≡◌, refl, ap, inl, inr, Bool, true, false, not, ◌&&◌, ◌||◌, Option, none, some, List, [], ◌∷◌,
  ◌++◌, All, All-append, Bool-cases, Bytes, codes, ◌==◌, bytes_eq, join, Result, ok, err, wrapped,
  wrapped-eq-ok, fail_if, fail_if-eq-ok, >>=-eq-ok, ok-injective, ◌>>=◌, arith, subst, &&-eq-true,
}
use mathlib.Core.Option.{some-injective}
use safenet_arbitration_bot.Solabi.Abi.{
  AbiParam, param, Params, nil, cons, AbiEntry, is_empty, is_lower, is_decimal, is_letter, all_of,
  is_identifier, span, array_suffixes, TypeParts, type_parts, valid_base, typed, parenthesised,
  canonical_type, canonical_types, tuple_type, signature,
}

-- A character of an identifier, or one of "(),[]".
abbrev pub is_clean : ℕ → Bool
is_clean c =
    is_letter c || is_decimal c || c == b'(' || c == b')' || c == b',' || c == b'[' || c == b']'

abbrev pub IsClean : ℕ → Type 0
IsClean c = is_clean c ≡ true

abbrev pub Clean : Bytes → Type 0
Clean = All IsClean

all_of-Clean :
    (test : ℕ → Bool) (xs : Bytes)
    → ((c : ℕ) → test c ≡ true → is_clean c ≡ true)
    → all_of test xs ≡ true
    → Clean xs
unfolding all_of
all_of-Clean test [] sound h = tt
all_of-Clean test (c ∷ cs) sound h =
    let (t, rest) = &&-eq-true (test c) (all_of test cs) h in
    (sound c t, all_of-Clean test cs sound rest)

letter-clean : (c : ℕ) → is_letter c ≡ true → is_clean c ≡ true
letter-clean c h = ground arith

name-clean : (c : ℕ) → (is_letter c || is_decimal c) ≡ true → is_clean c ≡ true
name-clean c h = ground arith

is_identifier-Clean : (xs : Bytes) → is_identifier xs ≡ true → Clean xs
unfolding is_identifier
is_identifier-Clean [] h = tt
is_identifier-Clean (c ∷ cs) h =
    let (t, rest) = &&-eq-true (is_letter c) (all_of (λ d. is_letter d || is_decimal d) cs) h in
    (letter-clean c t, all_of-Clean (λ d. is_letter d || is_decimal d) cs name-clean rest)

-- A span is a prefix of such characters.
span-Clean :
    (test : ℕ → Bool) (xs : Bytes)
    → ((c : ℕ) → test c ≡ true → is_clean c ≡ true)
    → Clean (span test xs).0 × ((span test xs).0 ++ (span test xs).1 ≡ xs)
unfolding span
span-Clean test [] sound = (tt, refl)
span-Clean test (c ∷ cs) sound =
    let (clean, same) = span-Clean test cs sound in
    elim (Bool-cases (test c)) [
      | inl t ↦ rw t ((sound c t, clean), ap (◌∷◌ c) same)
      | inr n ↦ rw n (tt, refl)
    ]

array_suffixes-Clean : (inside : Bool) (xs : Bytes) → array_suffixes inside xs ≡ true → Clean xs
unfolding array_suffixes
array_suffixes-Clean inside [] h = tt
array_suffixes-Clean true (c ∷ cs) h =
    let (t, rest) = &&-eq-true (is_decimal c || c == b']') (array_suffixes (is_decimal c) cs) h in
    (ground arith, array_suffixes-Clean (is_decimal c) cs rest)
array_suffixes-Clean false (c ∷ cs) h =
    let (t, rest) = &&-eq-true (c == b'[') (array_suffixes true cs) h in
    (ground arith, array_suffixes-Clean true cs rest)

lower-clean : (c : ℕ) → is_lower c ≡ true → is_clean c ≡ true
lower-clean c h = ground arith

size-clean : (c : ℕ) → (is_decimal c || c == b'x') ≡ true → is_clean c ≡ true
size-clean c h = ground arith

type_parts-Clean :
    (text : Bytes) {t : TypeParts} → type_parts text ≡ some t → Clean text × Clean t.arrays
unfolding type_parts
type_parts-Clean text {t} h =
    let first = span is_lower text in
    let second = span (λ c. is_decimal c || c == b'x') first.1 in
    let (clean₀, same₀) = span-Clean is_lower text lower-clean in
    let (clean₁, same₁) = span-Clean (λ c. is_decimal c || c == b'x') first.1 size-clean in
    elim (Bool-cases (not (is_empty first.0) && array_suffixes false second.1)) [
      | inr f ↦ cc (rw (f, type_parts) at h)
      | inl m ↦
          let arrays =
            array_suffixes-Clean false second.1
              (&&-eq-true (not (is_empty first.0)) (array_suffixes false second.1) m).1 in
          let e : some (record { base = first.0; size = second.0; arrays = second.1 }) ≡ some t =
            rw (m, type_parts) at h in
          (
            subst Clean same₀ (
                All-append IsClean first.0 first.1 clean₀
                  (subst Clean same₁ (All-append IsClean second.0 second.1 clean₁ arrays))),
            subst (λ (p : TypeParts). Clean p.arrays) (some-injective _ t e) arrays,
          )
    ]

-- What a call returns without an error is clean.
abbrev CleanIfOk : Result Bytes → Type 0
CleanIfOk (ok text) = Clean text
CleanIfOk (err e) = Unit

abbrev AllCleanIfOk : Result (List Bytes) → Type 0
AllCleanIfOk (ok texts) = All Clean texts
AllCleanIfOk (err e) = Unit

join-Clean : (texts : List Bytes) → All Clean texts → Clean (join (codes ",") texts)
join-Clean [] h = tt
join-Clean (x ∷ []) h = h.0
join-Clean (x ∷ y ∷ rest) h = All-append IsClean x _ h.0 (refl, join-Clean (y ∷ rest) h.1)

parenthesised-Clean : (texts : List Bytes) → All Clean texts → Clean (parenthesised texts)
parenthesised-Clean texts h =
    (refl, All-append IsClean (join (codes ",") texts) (codes ")") (join-Clean texts h) (refl, tt))

parenthesised-CleanIfOk :
    (r : Result (List Bytes)) → AllCleanIfOk r → CleanIfOk (r >>= λ types. ok (parenthesised types))
parenthesised-CleanIfOk (ok types) h = parenthesised-Clean types h
parenthesised-CleanIfOk (err e) h = tt

tuple-CleanIfOk :
    (fields : Result Bytes) (arrays : Bytes)
    → CleanIfOk fields
    → Clean arrays
    → CleanIfOk (fields >>= λ components. ok (components ++ arrays))
tuple-CleanIfOk (ok components) arrays h h' = All-append IsClean components arrays h h'
tuple-CleanIfOk (err e) arrays h h' = tt

typed-CleanIfOk :
    (text : Bytes) (fields : Result Bytes) (o : Option TypeParts)
    → CleanIfOk fields
    → ((t : TypeParts) → o ≡ some t → Clean text × Clean t.arrays)
    → CleanIfOk (typed text fields o)
unfolding typed
typed-CleanIfOk text fields none h parts = tt
typed-CleanIfOk text fields (some t) h parts =
    let (whole, arrays) = parts t refl in
    elim (Bool-cases (bytes_eq t.base (codes "tuple") && is_empty t.size)) [
      | inl a ↦ rw a (tuple-CleanIfOk fields t.arrays h arrays)
      | inr b ↦ elim (Bool-cases (not (valid_base t.base t.size))) [
        | inl bad ↦ rw (b, bad) tt
        | inr fine ↦ rw (b, fine) whole
      ]
    ]

cons-AllCleanIfOk :
    (r : Result Bytes) (rs : Result (List Bytes))
    → CleanIfOk r
    → AllCleanIfOk rs
    → AllCleanIfOk (r >>= λ t. rs >>= λ ts. ok (t ∷ ts))
cons-AllCleanIfOk (ok t) (ok ts) h h' = (h, h')
cons-AllCleanIfOk (ok t) (err e) h h' = tt
cons-AllCleanIfOk (err e) rs h h' = tt

mutual
  unfolding canonical_type

  canonical_type-CleanIfOk : (p : AbiParam) → CleanIfOk (canonical_type p)
  canonical_type-CleanIfOk (param text fields) =
      typed-CleanIfOk text _ (type_parts text)
        (parenthesised-CleanIfOk (canonical_types fields) (canonical_types-AllCleanIfOk fields))
        (λ t e. type_parts-Clean text e)

  canonical_types-AllCleanIfOk : (ps : Params) → AllCleanIfOk (canonical_types ps)
  canonical_types-AllCleanIfOk nil = tt
  canonical_types-AllCleanIfOk (cons p ps) =
      cons-AllCleanIfOk (canonical_type p) (canonical_types ps) (canonical_type-CleanIfOk p)
        (canonical_types-AllCleanIfOk ps)

-- A signature that is returned without an error has the characters of identifiers and "(),[]" only.
pub signature-Clean : (e : AbiEntry) {text : Bytes} → signature e ≡ ok text → Clean text
unfolding signature tuple_type
signature-Clean e {text} h =
    let (_, named, h₁) = >>=-eq-ok (fail_if (not (is_identifier e.name)) "invalid name") _ h in
    let (types, typed, h₂) = >>=-eq-ok (wrapped "name" (tuple_type e.inputs)) _ h₁ in
    let read = wrapped-eq-ok "name" (tuple_type e.inputs) typed in
    let identifier : is_identifier e.name ≡ true = ground (arith, fail_if-eq-ok _ _ named) in
    let clean : Clean types = subst CleanIfOk read (
      parenthesised-CleanIfOk (canonical_types e.inputs) (canonical_types-AllCleanIfOk e.inputs)) in
    subst Clean (ok-injective h₂)
      (All-append IsClean e.name types (is_identifier-Clean e.name identifier) clean)
