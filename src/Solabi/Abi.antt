-- ===== src/Solabi/Abi.antt =====
-- abi.go: the signatures of the entries of a contract's ABI. Texts are their bytes.
pub mod Clean
use safenet_arbitration_bot.Base.{
  ℕ, ◌+◌, ◌-◌, ◌*◌, ◌%◌, Bool, true, false, not, ◌&&◌, ◌||◌, Option, none, some, List, [], ◌∷◌,
  ◌++◌, join, cut, if◌then◌else◌, ltb, leb, ◌==◌, Bytes, codes, bytes_eq, Result, ok, err, message,
  wrapped, ◌>>=◌, fail_if, ◌>>◌,
}

-- `ABIParam`: its type and its components, and a list of such.
mutual
  pub data AbiParam : Type 0 where
    param : Bytes → Params → AbiParam

  pub data Params : Type 0 where
    nil : Params
    cons : AbiParam → Params → Params

pub record AbiEntry : Type 0 where
  pub type : Bytes
  pub name : Bytes
  pub inputs : Params
  pub state_mutability : Bytes
  pub payable : Bool
  pub constant : Bool

abbrev pub is_empty : Bytes → Bool
is_empty [] = true
is_empty (c ∷ cs) = false

-- `Mutability`.
unfoldable pub mutability : AbiEntry → Bytes
mutability e =
    if not (is_empty e.state_mutability)
    then e.state_mutability
    else if e.payable
    then codes "payable"
    else if e.constant
    then codes "view"
    else codes "nonpayable"

abbrev pub is_lower : ℕ → Bool
is_lower c = leb b'a' c && leb c b'z'

abbrev pub is_decimal : ℕ → Bool
is_decimal c = leb b'0' c && leb c b'9'

abbrev pub is_letter : ℕ → Bool
is_letter c = is_lower c || leb b'A' c && leb c b'Z' || c == b'_' || c == b'$'

unfoldable pub all_of : (ℕ → Bool) → Bytes → Bool
all_of test [] = true
all_of test (c ∷ cs) = test c && all_of test cs

-- `identifier`.
unfoldable pub is_identifier : Bytes → Bool
is_identifier [] = false
is_identifier (c ∷ cs) = is_letter c && all_of (λ d. is_letter d || is_decimal d) cs

-- The longest prefix of such characters, and the rest.
abbrev pub cons_span : ℕ → Bytes × Bytes → Bytes × Bytes
cons_span c (a, b) = (c ∷ a, b)

unfoldable pub span : (ℕ → Bool) → Bytes → Bytes × Bytes
span test [] = ([], [])
span test (c ∷ cs) = if test c then cons_span c (span test cs) else ([], c ∷ cs)

-- Array suffixes, from outside a pair of brackets or from inside one.
unfoldable pub array_suffixes : Bool → Bytes → Bool
array_suffixes inside [] = not inside
array_suffixes inside (c ∷ cs) =
    (if inside then is_decimal c || c == b']' else c == b'[')
    && array_suffixes (if inside then is_decimal c else true) cs

pub record TypeParts : Type 0 where
  pub base : Bytes
  pub size : Bytes
  pub arrays : Bytes

-- The match of `typePattern`.
unfoldable pub type_parts : Bytes → Option TypeParts
type_parts text =
    let (base, rest) = span is_lower text in
    let (size, arrays) = span (λ c. is_decimal c || c == b'x') rest in
    if not (is_empty base) && array_suffixes false arrays
    then some (record { base = base; size = size; arrays = arrays })
    else none

-- strconv.Atoi of a text of decimals and letters x, without a bound: a number that it refuses as too
-- large fails the tests of its callers as well.
unfoldable pub atoi_onto : ℕ → Bytes → Option ℕ
atoi_onto acc [] = some acc
atoi_onto acc (c ∷ cs) =
    let rest = atoi_onto (acc * 10 + (c - b'0')) cs in if is_decimal c then rest else none

unfoldable pub atoi : Bytes → Option ℕ
unfolding atoi_onto
atoi [] = none
atoi (c ∷ cs) = atoi_onto 0 (c ∷ cs)

abbrev no_zero : Bytes → Bool
no_zero [] = false
no_zero (c ∷ cs) = not (c == b'0')

abbrev number_is : (ℕ → Bool) → Option ℕ → Bool
number_is test none = false
number_is test (some n) = test n

is_bits : ℕ → Bool
is_bits n = leb 8 n && leb n 256 && n % 8 == 0

sized_fixed : Option (Bytes × Bytes) → Bool
sized_fixed none = false
sized_fixed (some (m, n)) =
    number_is is_bits (atoi m)
    && number_is (λ d. leb d 80) (atoi n)
    && no_zero m
    && (bytes_eq n (codes "0") || no_zero n)

-- `validBase`.
unfoldable pub valid_base : Bytes → Bytes → Bool
unfolding is_bits sized_fixed
valid_base base size =
    if bytes_eq base (codes "address")
      || bytes_eq base (codes "bool")
      || bytes_eq base (codes "string")
      || bytes_eq base (codes "function")
    then is_empty size
    else if bytes_eq base (codes "bytes")
    then is_empty size || number_is (λ n. leb 1 n && leb n 32) (atoi size) && no_zero size
    else if bytes_eq base (codes "uint") || bytes_eq base (codes "int")
    then number_is is_bits (atoi size) && no_zero size
    else if bytes_eq base (codes "ufixed") || bytes_eq base (codes "fixed")
    then sized_fixed (cut (codes "x") size)
    else false

-- The canonical type, of a type with these parts, and of a tuple whose fields' is given.
unfoldable pub typed : Bytes → Result Bytes → Option TypeParts → Result Bytes
typed text fields none = err (message "invalid type")
typed text fields (some t) =
    if bytes_eq t.base (codes "tuple") && is_empty t.size
    then (do components ← fields; ok (components ++ t.arrays))
    else if not (valid_base t.base t.size)
    then err (message "invalid type")
    else ok text

abbrev pub parenthesised : List Bytes → Bytes
parenthesised types = codes "(" ++ (join (codes ",") types ++ codes ")")

unfoldable mutual
  -- `canonicalType`.
  pub canonical_type : AbiParam → Result Bytes
  canonical_type (param text fields) =
      typed text (do types ← canonical_types fields; ok (parenthesised types)) (type_parts text)

  pub canonical_types : Params → Result (List Bytes)
  canonical_types nil = ok []
  canonical_types (cons p ps) = do t ← canonical_type p; ts ← canonical_types ps; ok (t ∷ ts)

-- `tupleType`.
unfoldable pub tuple_type : Params → Result Bytes
tuple_type params = do types ← canonical_types params; ok (parenthesised types)

-- `Signature`.
unfoldable pub signature : AbiEntry → Result Bytes
signature e = do
  fail_if (not (is_identifier e.name)) "invalid name"
  types ← wrapped "name" (tuple_type e.inputs)
  ok (e.name ++ types)
