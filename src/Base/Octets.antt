-- ===== src/Base/Octets.antt =====
-- Byte strings, their equality, and big-endian numbers: `bytes.Equal`, `big.Int.SetBytes` and
-- `FillBytes`, and `copy` into a buffer of zeros.
use Prim.Native.Nat.{ℕ, zero, suc, ◌+◌, ◌*◌, ◌/◌, ◌%◌, ◌^◌, ◌≤◌, ◌<◌}
use Prim.Native.Char.{code}
use Prim.Native.String.{String}
use mathlib.Core.Path.{◌≡◌, refl, ap}
use mathlib.Core.Logic.{◌↔◌}
use mathlib.Core.Bool.{Bool, true, false, ◌&&◌}
use mathlib.Core.List.{List, [], ◌∷◌, ◌++◌}
use native.Mathlib.Nat.{pow-suc}
use native.Mathlib.Omega.{arith}
use safenet_arbitration_bot.Base.Tests.{◌==◌}
use safenet_arbitration_bot.Base.Lists.{length, length-append, take, replicate, All}

abbrev pub Bytes : Type 0
Bytes = List ℕ

-- The bytes of an ASCII text.
abbrev pub codes : String → Bytes
codes String.[] = []
codes (String.◌∷◌ c s) = code c ∷ codes s

-- `strings.Join`, of texts as their bytes.
abbrev pub join : Bytes → List Bytes → Bytes
join separator [] = []
join separator (x ∷ []) = x
join separator (x ∷ y ∷ rest) = x ++ (separator ++ join separator (y ∷ rest))

unfoldable pub bytes_eq : Bytes → Bytes → Bool
bytes_eq [] [] = true
bytes_eq (x ∷ xs) (y ∷ ys) = x == y && bytes_eq xs ys
bytes_eq _ _ = false

pub bytes_eq_iff : (a b : Bytes) → (bytes_eq a b ≡ true) ↔ (a ≡ b)
unfolding bytes_eq
bytes_eq_iff (x ∷ a) (y ∷ b) = ground (arith, bytes_eq_iff a b)
bytes_eq_iff _ _ = ground arith

pub bytes_eq_refl : (a : Bytes) → bytes_eq a a ≡ true
bytes_eq_refl a = (bytes_eq_iff a a).1 refl

unfoldable pub is_zero : Bytes → Bool
is_zero [] = true
is_zero (x ∷ xs) = x == 0 && is_zero xs

pub is_zero-replicate : (n : ℕ) → is_zero (replicate n 0) ≡ true
unfolding is_zero
is_zero-replicate zero = refl
is_zero-replicate (suc n) = ground (arith, is_zero-replicate n)

from_be_onto : ℕ → Bytes → ℕ
from_be_onto acc [] = acc
from_be_onto acc (x ∷ xs) = from_be_onto (acc * 256 + x) xs

unfoldable pub from_be : Bytes → ℕ
unfolding from_be_onto
from_be = from_be_onto 0

unfoldable pub to_be : ℕ → ℕ → Bytes
to_be zero x = []
to_be (suc n) x = to_be n (x / 256) ++ (x % 256) ∷ []

-- `copy` of the bytes into a buffer of `n` zeros.
abbrev pub padded : ℕ → Bytes → Bytes
padded zero xs = []
padded (suc n) [] = 0 ∷ padded n []
padded (suc n) (x ∷ xs) = x ∷ padded n xs

abbrev pub IsByte : ℕ → Type 0
IsByte x = x < 256

pub length-to_be : (n x : ℕ) → length (to_be n x) ≡ n
unfolding to_be
length-to_be zero x = refl
length-to_be (suc n) x =
    omega (arith, length-append (to_be n (x / 256)) ((x % 256) ∷ []), length-to_be n (x / 256))

pub length-padded : (n : ℕ) (xs : Bytes) → length (padded n xs) ≡ n
length-padded zero xs = refl
length-padded (suc n) [] = ap suc (length-padded n [])
length-padded (suc n) (x ∷ xs) = ap suc (length-padded n xs)

pub padded-append : (n : ℕ) (xs ys : Bytes) → length xs ≡ n → padded n (xs ++ ys) ≡ xs
padded-append zero [] ys h = refl
padded-append zero (x ∷ xs) ys h = absurd (omega arith)
padded-append (suc n) [] ys h = absurd (omega arith)
padded-append (suc n) (x ∷ xs) ys h = ap (◌∷◌ x) (padded-append n xs ys (omega arith))

pub take-padded :
    (k n : ℕ) (xs ys : Bytes) → length xs ≡ k → k ≤ n → take k (padded n xs ++ ys) ≡ xs
take-padded zero n [] ys h l = refl
take-padded zero n (x ∷ xs) ys h l = absurd (omega arith)
take-padded (suc k) n [] ys h l = absurd (omega arith)
take-padded (suc k) zero (x ∷ xs) ys h l = absurd (omega arith)
take-padded (suc k) (suc n) (x ∷ xs) ys h l =
    ap (◌∷◌ x) (take-padded k n xs ys (omega arith) (omega arith))

from_be_onto-append :
    (acc : ℕ) (xs ys : Bytes) → from_be_onto acc (xs ++ ys) ≡ from_be_onto (from_be_onto acc xs) ys
unfolding from_be_onto
from_be_onto-append acc [] ys = refl
from_be_onto-append acc (x ∷ xs) ys = from_be_onto-append (acc * 256 + x) xs ys

from_be-concat : (xs : Bytes) (b : ℕ) → from_be (xs ++ b ∷ []) ≡ from_be xs * 256 + b
unfolding from_be
from_be-concat xs b = from_be_onto-append 0 xs (b ∷ [])

-- A number below `256 ^ n` is read back from its `n` big-endian bytes.
pub from_be-to_be : (n x : ℕ) → x < 256 ^ n → from_be (to_be n x) ≡ x
unfolding to_be
from_be-to_be zero x h = unfold from_be in omega arith
from_be-to_be (suc n) x h = omega (
  arith,
  from_be-concat (to_be n (x / 256)) (x % 256),
  from_be-to_be n (x / 256) (omega (arith, pow-suc 256 n)),
)

-- Leading zeros do not count.
pub from_be-zeros : (k : ℕ) (xs : Bytes) → from_be (replicate k 0 ++ xs) ≡ from_be xs
unfolding from_be
from_be-zeros zero xs = refl
from_be-zeros (suc k) xs = from_be-zeros k xs

abbrev IsBelow : ℕ → Bytes → Type 0
IsBelow acc xs = from_be_onto acc xs < (acc + 1) * 256 ^ length xs

mul_mono : (a b p : ℕ) → a ≤ b → a * p ≤ b * p
mul_mono a b p h = grind arith

from_be_onto_bound : (acc : ℕ) (xs : Bytes) → All IsByte xs → IsBelow acc xs
unfolding from_be_onto
from_be_onto_bound acc [] h = omega arith
from_be_onto_bound acc (x ∷ xs) h = rw (pow-suc 256 (length xs)) (
    omega (
      arith,
      from_be_onto_bound (acc * 256 + x) xs h.1,
      mul_mono (acc * 256 + x + 1) ((acc + 1) * 256) (256 ^ length xs) (omega (arith, h.0)),
    ))

pub from_be-lt : (xs : Bytes) → All IsByte xs → from_be xs < 256 ^ length xs
unfolding from_be
from_be-lt xs h = omega (arith, from_be_onto_bound 0 xs h)
