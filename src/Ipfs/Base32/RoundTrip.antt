-- ===== src/Ipfs/Base32/RoundTrip.antt =====
-- Bytes are read back from their text in base 32.
use mathlib.Core.Option
use safenet_arbitration_bot.Base.{
  ℕ, ◌+◌, ◌*◌, ◌/◌, ◌%◌, ◌<◌, ◌≡◌, refl, ap, ◌∙◌, some, List, [], ◌∷◌, map, All, Bytes, IsByte,
  arith, false, ◌||◌, ◌==◌,
}
use safenet_arbitration_bot.Ipfs.Base32.{letter, quintets, encode, digit, digits, octets, decode}

abbrev IsDigit : ℕ → Type 0
IsDigit q = q < 32

digit-letter : (q : ℕ) → q < 32 → digit (letter q) ≡ some q
unfolding digit letter
digit-letter q h = ground arith

letter-is_digit : (q : ℕ) → (letter q == b'\n' || letter q == b'\r') ≡ false
unfolding letter
letter-is_digit q = ground arith

digits-letters : (qs : List ℕ) → All IsDigit qs → digits (map letter qs) ≡ some qs
unfolding digits
digits-letters [] h = refl
digits-letters (q ∷ qs) h = rw (letter-is_digit q, digit-letter q h.0, digits-letters qs h.1) refl

quintets-IsDigit : (xs : Bytes) → All IsByte xs → All IsDigit (quintets xs)
unfolding quintets
quintets-IsDigit [] h = tt
quintets-IsDigit (a ∷ []) h = omega arith
quintets-IsDigit (a ∷ b ∷ []) h = omega arith
quintets-IsDigit (a ∷ b ∷ c ∷ []) h = omega arith
quintets-IsDigit (a ∷ b ∷ c ∷ d ∷ []) h = omega arith
quintets-IsDigit (a ∷ b ∷ c ∷ d ∷ e ∷ rest) (h₀, (h₁, (h₂, (h₃, (h₄, h))))) =
    let more = quintets-IsDigit rest h in
    let p : (a / 8 < 32)
        × (a % 8 * 4 + b / 64 < 32)
        × (b / 2 % 32 < 32)
        × (b % 2 * 16 + c / 16 < 32) =
      omega arith in
    let q : (c % 16 * 2 + d / 128 < 32)
        × (d / 4 % 32 < 32)
        × (d % 4 * 8 + e / 32 < 32)
        × (e % 32 < 32) =
      omega arith in
    (p.0, (p.1, (p.2, (p.3, (q.0, (q.1, (q.2, (q.3, more))))))))

-- Each byte is put together from its digits. The next byte is 0 where there is none.
byte₀ : (a b : ℕ) → b < 256 → a / 8 * 8 + (a % 8 * 4 + b / 64) / 4 ≡ a
byte₀ a b h = omega arith

byte₁ :
    (a b c : ℕ)
    → b < 256
    → c < 256
    → (a % 8 * 4 + b / 64) % 4 * 64 + b / 2 % 32 * 2 + (b % 2 * 16 + c / 16) / 16 ≡ b
byte₁ a b c h h' = omega arith

byte₂ :
    (b c d : ℕ)
    → c < 256
    → d < 256
    → (b % 2 * 16 + c / 16) % 16 * 16 + (c % 16 * 2 + d / 128) / 2 ≡ c
byte₂ b c d h h' = omega arith

byte₃ :
    (c d e : ℕ)
    → d < 256
    → e < 256
    → (c % 16 * 2 + d / 128) % 2 * 128 + d / 4 % 32 * 4 + (d % 4 * 8 + e / 32) / 8 ≡ d
byte₃ c d e h h' = omega arith

byte₄ : (d e : ℕ) → e < 256 → (d % 4 * 8 + e / 32) % 8 * 32 + e % 32 ≡ e
byte₄ d e h = omega arith

octets-quintets : (xs : Bytes) → All IsByte xs → octets (quintets xs) ≡ xs
unfolding octets quintets
octets-quintets [] h = refl
octets-quintets (a ∷ []) h = let p : a / 8 * 8 + a % 8 * 4 / 4 ≡ a = omega arith in λ i. p i ∷ []
octets-quintets (a ∷ b ∷ []) (h₀, (h₁, _)) =
    let p = byte₀ a b h₁ in
    let q : (a % 8 * 4 + b / 64) % 4 * 64 + b / 2 % 32 * 2 + b % 2 * 16 / 16 ≡ b = omega arith in
    λ i. p i ∷ q i ∷ []
octets-quintets (a ∷ b ∷ c ∷ []) (h₀, (h₁, (h₂, _))) =
    let p = byte₀ a b h₁ in
    let q = byte₁ a b c h₁ h₂ in
    let r : (b % 2 * 16 + c / 16) % 16 * 16 + c % 16 * 2 / 2 ≡ c = omega arith in
    λ i. p i ∷ q i ∷ r i ∷ []
octets-quintets (a ∷ b ∷ c ∷ d ∷ []) (h₀, (h₁, (h₂, (h₃, _)))) =
    let p = byte₀ a b h₁ in
    let q = byte₁ a b c h₁ h₂ in
    let r = byte₂ b c d h₂ h₃ in
    let s : (c % 16 * 2 + d / 128) % 2 * 128 + d / 4 % 32 * 4 + d % 4 * 8 / 8 ≡ d = omega arith in
    λ i. p i ∷ q i ∷ r i ∷ s i ∷ []
octets-quintets (a ∷ b ∷ c ∷ d ∷ e ∷ rest) (h₀, (h₁, (h₂, (h₃, (h₄, h))))) =
    let p = byte₀ a b h₁ in
    let q = byte₁ a b c h₁ h₂ in
    let r = byte₂ b c d h₂ h₃ in
    let s = byte₃ c d e h₃ h₄ in
    let t = byte₄ d e h₄ in
    let more = octets-quintets rest h in λ i. p i ∷ q i ∷ r i ∷ s i ∷ t i ∷ more i

-- Bytes are read back from their text in base 32.
pub decode-encode : (xs : Bytes) → All IsByte xs → decode (encode xs) ≡ some xs
unfolding decode encode
decode-encode xs h =
    ap (Option.map octets) (digits-letters (quintets xs) (quintets-IsDigit xs h))
    ∙ ap some (octets-quintets xs h)
