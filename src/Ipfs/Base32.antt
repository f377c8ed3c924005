-- ===== src/Ipfs/Base32.antt =====
-- encoding/base32 of the standard library, with the alphabet and without padding, as cid.go and ens.go
-- use it: groups of five bytes, in eight digits of five bits.
pub mod RoundTrip
use mathlib.Core.Option
use safenet_arbitration_bot.Base.{
  ℕ, ◌+◌, ◌-◌, ◌*◌, ◌/◌, ◌%◌, Bool, true, false, ◌&&◌, ◌||◌, Option, none, some, List, [], ◌∷◌,
  ◌++◌, map, if◌then◌else◌, ltb, leb, ◌==◌, Bytes,
}

-- A digit of the alphabet "abcdefghijklmnopqrstuvwxyz234567".
unfoldable pub letter : ℕ → ℕ
letter q = if ltb q 26 then b'a' + q else b'2' + (q - 26)

-- The digits of the bytes. The last group may have fewer bytes, and then has fewer digits.
unfoldable pub quintets : Bytes → List ℕ
quintets [] = []
quintets (a ∷ []) = (a / 8) ∷ (a % 8 * 4) ∷ []
quintets (a ∷ b ∷ []) = (a / 8) ∷ (a % 8 * 4 + b / 64) ∷ (b / 2 % 32) ∷ (b % 2 * 16) ∷ []
quintets (a ∷ b ∷ c ∷ []) =
    (a / 8) ∷ (a % 8 * 4 + b / 64) ∷ (b / 2 % 32) ∷ (b % 2 * 16 + c / 16) ∷ (c % 16 * 2) ∷ []
quintets (a ∷ b ∷ c ∷ d ∷ []) =
    (a / 8)
    ∷ (a % 8 * 4 + b / 64)
    ∷ (b / 2 % 32)
    ∷ (b % 2 * 16 + c / 16)
    ∷ (c % 16 * 2 + d / 128)
    ∷ (d / 4 % 32)
    ∷ (d % 4 * 8)
    ∷ []
quintets (a ∷ b ∷ c ∷ d ∷ e ∷ rest) =
    (a / 8)
    ∷ (a % 8 * 4 + b / 64)
    ∷ (b / 2 % 32)
    ∷ (b % 2 * 16 + c / 16)
    ∷ (c % 16 * 2 + d / 128)
    ∷ (d / 4 % 32)
    ∷ (d % 4 * 8 + e / 32)
    ∷ (e % 32)
    ∷ quintets rest

-- EncodeToString.
unfoldable pub encode : Bytes → Bytes
encode xs = map letter (quintets xs)

-- The value of a letter.
unfoldable pub digit : ℕ → Option ℕ
digit c =
    if leb b'a' c && leb c b'z'
    then some (c - b'a')
    else if leb b'2' c && leb c b'7'
    then some (c - b'2' + 26)
    else none

-- The values of the letters; newlines are skipped.
unfoldable pub digits : Bytes → Option (List ℕ)
digits [] = some []
digits (c ∷ cs) =
    let rest = digits cs in
    if c == b'\n' || c == b'\r' then rest else elim (digit c) [
      | none ↦ none
      | some q ↦ elim rest [ none ↦ none | some qs ↦ some (q ∷ qs) ]
    ]

-- The bytes of the digits. Without padding, a last group of 2, 4, 5 or 7 digits has 1, 2, 3 or 4
-- bytes, and one of 1, 3 or 6 digits has none.
unfoldable pub octets : List ℕ → Bytes
octets (q ∷ r ∷ []) = (q * 8 + r / 4) ∷ []
octets (q ∷ r ∷ s ∷ t ∷ []) = (q * 8 + r / 4) ∷ (r % 4 * 64 + s * 2 + t / 16) ∷ []
octets (q ∷ r ∷ s ∷ t ∷ u ∷ []) =
    (q * 8 + r / 4) ∷ (r % 4 * 64 + s * 2 + t / 16) ∷ (t % 16 * 16 + u / 2) ∷ []
octets (q ∷ r ∷ s ∷ t ∷ u ∷ v ∷ w ∷ []) =
    (q * 8 + r / 4)
    ∷ (r % 4 * 64 + s * 2 + t / 16)
    ∷ (t % 16 * 16 + u / 2)
    ∷ (u % 2 * 128 + v * 4 + w / 8)
    ∷ []
octets (q ∷ r ∷ s ∷ t ∷ u ∷ v ∷ w ∷ x ∷ rest) =
    (q * 8 + r / 4)
    ∷ (r % 4 * 64 + s * 2 + t / 16)
    ∷ (t % 16 * 16 + u / 2)
    ∷ (u % 2 * 128 + v * 4 + w / 8)
    ∷ (w % 8 * 32 + x)
    ∷ octets rest
octets _ = []

-- DecodeString.
unfoldable pub decode : Bytes → Option Bytes
decode text = Option.map octets (digits text)
