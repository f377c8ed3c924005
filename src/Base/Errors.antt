-- ===== src/Base/Errors.antt =====
-- Go's `error`, and calls that can fail.
use Prim.Native.Nat.{ℕ}
use Prim.Native.String.{String}
use mathlib.Core.Path.{◌≡◌, refl}
use mathlib.Core.Logic.{◌⊎◌, inl, inr}
use mathlib.Core.Bool.{Bool, true, false}
use mathlib.Core.Option.{Option}
use safenet_arbitration_bot.Base.Octets.{Bytes}

-- `rpc` is an *ethrpc.Error with its code and data, `wrap` an error that wraps another, `panic` a
-- panic of the Go runtime, `fuel` a bound of the model that ran out, and `message` any other error.
-- Messages are kept without their arguments.
pub data Error : Type 0 where
  message : String → Error
  rpc : ℕ → Option Bytes → Error
  not_found : Error
  panic : Error
  fuel : Error
  wrap : String → Error → Error

-- A Go function's results, of which the last is an error.
pub data Result {ℓ} (A : Type ℓ) : Type ℓ where
  err : Error → Result A
  ok : A → Result A

-- `errors.Is(err, ErrNotFound)`
abbrev pub is_not_found : Error → Bool
is_not_found not_found = true
is_not_found (wrap text e) = is_not_found e
is_not_found _ = false

-- `fmt.Errorf("...: %w", err)`
abbrev pub wrapped {ℓ} : {A : Type ℓ} → String → Result A → Result A
wrapped s (err e) = err (wrap s e)
wrapped s (ok a) = ok a

-- `if bad { return fmt.Errorf(...) }`
abbrev pub fail_if : Bool → String → Result (Unit {0})
fail_if false s = ok tt
fail_if true s = err (message s)

infixl 5 ◌>>=◌ ◌>>◌
-- `a, err := m; if err != nil { return err }`
abbrev pub ◌>>=◌ {ℓ κ} : {A : Type ℓ} {B : Type κ} → Result A → (A → Result B) → Result B
err e >>= rest = err e
ok a >>= rest = rest a

abbrev pub ◌>>◌ {ℓ} : {B : Type ℓ} → Result (Unit {0}) → Result B → Result B
m >> rest = m >>= λ done. rest

pub Result-cases {ℓ} :
    {A : Type ℓ} (r : Result A) → ((a : A) × (r ≡ ok a)) ⊎ ((e : Error) × (r ≡ err e))
Result-cases (ok a) = inl (a, refl)
Result-cases (err e) = inr (e, refl)

-- Where a chain of calls returns no error, its first call returns none, and the rest does so of
-- what that returns.
module _ {ℓ κ} {A : Type ℓ} {B : Type κ} where
  pub >>=-eq-ok :
      (call : Result A) (rest : A → Result B) {b : B}
      → (call >>= rest) ≡ ok b
      → (a : A) × (call ≡ ok a) × (rest a ≡ ok b)
  >>=-eq-ok (err e) rest returns = cc
  >>=-eq-ok (ok a) rest returns = (a, refl, returns)

pub fail_if-eq-ok : (b : Bool) (s : String) → fail_if b s ≡ ok tt → b ≡ false
fail_if-eq-ok true s h = cc
fail_if-eq-ok false s h = refl

pub wrapped-eq-ok {ℓ} :
    {A : Type ℓ} (s : String) (m : Result A) {a : A} → wrapped s m ≡ ok a → m ≡ ok a
wrapped-eq-ok s (ok a) h = h
wrapped-eq-ok s (err e) h = cc

pub ok-injective {ℓ} : {A : Type ℓ} {a b : A} → ok a ≡ ok b → a ≡ b
ok-injective h = cc
