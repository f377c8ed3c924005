-- ===== src/Ethrpc/Hex/RoundTrip.antt =====
-- What the marshallers of types.go write, the unmarshallers read.
use mathlib.Core.List.{concat-ne-nil}
use native.Mathlib.Nat.{pow-suc}
use safenet_arbitration_bot.Base.{
  ℕ, zero, suc, ◌+◌, ◌-◌, ◌*◌, ◌/◌, ◌%◌, ◌^◌, ◌<◌, ◌≡◌, ◌≢◌, refl, ap, ◌∙◌, Bool, ◌&&◌, some, [],
  ◌∷◌, ◌++◌, if◌then◌else◌, leb, leb-false, ltb, lt→ltb, append-nil, Bytes, IsByte, All, length, ok,
  arith, Bool-cases, inl, inr, append_assoc,
}
use safenet_arbitration_bot.Keccak.{Keccak, hash}
use safenet_arbitration_bot.Ethrpc.Hex.{
  digit, nibble, hex_text, encode_hex, hex_bytes, byte_of, decode_hex, parse_address, checksum,
  nibble_at, address_string, hex_digits, quantity_text, parse_digits, parse_quantity, parse_cut,
}

nibble-digit : (x : ℕ) → x < 16 → nibble (digit x) ≡ some x
unfolding nibble digit
nibble-digit x h = ground arith

hex_bytes-hex_text : (b : Bytes) → All IsByte b → hex_bytes (hex_text b) ≡ ok b
unfolding hex_bytes hex_text byte_of
hex_bytes-hex_text [] h = refl
hex_bytes-hex_text (x ∷ b) h =
    rw
      (
        nibble-digit (x / 16) (omega (arith, h.0)),
        nibble-digit (x % 16) (omega arith),
        hex_bytes-hex_text b h.1,
      )
      (ground arith)

-- `decodeHex` reads back what `encodeHex` writes.
pub decode_hex-encode_hex : (b : Bytes) → All IsByte b → decode_hex (encode_hex b) ≡ ok b
unfolding decode_hex encode_hex
decode_hex-encode_hex b h = hex_bytes-hex_text b h

-- A digit in the case that EIP-55 gives it has the same value.
nibble-cased :
    (x : ℕ) (up : Bool)
    → x < 16
    → nibble (if leb b'a' (digit x) && up then digit x - b'a' + b'A' else digit x) ≡ some x
unfolding nibble digit
nibble-cased x up h = ground arith

hex_bytes-checksum :
    (sum : Bytes) (i : ℕ) (b : Bytes)
    → All IsByte b
    → hex_bytes (checksum sum i (hex_text b)) ≡ ok b
unfolding hex_bytes hex_text byte_of checksum
hex_bytes-checksum sum i [] h = refl
hex_bytes-checksum sum i (x ∷ b) h =
    rw
      (
        nibble-cased (x / 16) (leb 8 (nibble_at sum i)) (omega (arith, h.0)),
        nibble-cased (x % 16) (leb 8 (nibble_at sum (i + 1))) (omega arith),
        hex_bytes-checksum sum (i + 1 + 1) b h.1,
      )
      (ground arith)

parse_digits-cons :
    (acc y : ℕ) (rest : Bytes)
    → y < 16
    → acc * 16 + y < 2 ^ 64
    → parse_digits acc (digit y ∷ rest) ≡ parse_digits (acc * 16 + y) rest
unfolding parse_digits
parse_digits-cons acc y rest h l =
    rw (nibble-digit y h, leb-false (2 ^ 64) (acc * 16 + y) l, parse_digits)

parse_digits-hex_digits :
    (f x : ℕ) (rest : Bytes)
    → x < 16 ^ suc f
    → x < 2 ^ 64
    → parse_digits 0 (hex_digits (suc f) x ++ rest) ≡ parse_digits x rest
unfolding hex_digits
parse_digits-hex_digits zero x rest h l = rw (lt→ltb x 16 (omega arith)) (
    parse_digits-cons 0 (x % 16) rest (omega arith) (omega arith)
    ∙ ap (λ y. parse_digits y rest) (omega arith))
parse_digits-hex_digits (suc f) x rest h l = elim (Bool-cases (ltb x 16)) [
  | inl small ↦ rw small (
      parse_digits-cons 0 (x % 16) rest (omega arith) (omega arith)
      ∙ ap (λ y. parse_digits y rest) (ground arith))
  | inr large ↦
      let rest' = digit (x % 16) ∷ rest in
      rw (large, append_assoc (hex_digits (suc f) (x / 16)) (digit (x % 16) ∷ []) rest)
        (parse_digits-hex_digits f (x / 16) rest' (omega (arith, pow-suc 16 (suc f))) (omega arith)
          ∙ parse_digits-cons (x / 16) (x % 16) rest (omega arith) (omega arith)
          ∙ ap (λ y. parse_digits y rest) (omega arith))
]

hex_digits-ne-nil : (f x : ℕ) → hex_digits (suc f) x ≢ []
unfolding hex_digits
hex_digits-ne-nil f x h = elim (Bool-cases (ltb x 16)) [
  | inl small ↦ cc (rw small at h)
  | inr large ↦ concat-ne-nil (digit (x % 16)) (hex_digits f (x / 16)) (rw large at h)
]

parse_cut-some : (b : Bytes) (x : ℕ) → b ≢ [] → parse_digits 0 b ≡ ok x → parse_cut (some b) ≡ ok x
unfolding parse_cut
parse_cut-some [] x n h = absurd (n refl)
parse_cut-some (c ∷ cs) x n h = rw h

-- `Quantity` reads back the text of every uint64.
pub parse_quantity-quantity_text : (q : ℕ) → q < 2 ^ 64 → parse_quantity (quantity_text q) ≡ ok q
unfolding parse_quantity quantity_text
parse_quantity-quantity_text q h =
    parse_cut-some (hex_digits 16 q) q (hex_digits-ne-nil 15 q)
      (rw (append-nil (hex_digits 16 q)) at (parse_digits-hex_digits 15 q [] h h))

module _ ⦃k : Keccak⦄ where
  -- `ParseAddress` reads back the checksummed text of every address, whatever the hash function.
  pub parse_address-address_string :
      (a : Bytes) → All IsByte a → length a ≡ 20 → parse_address (address_string a) ≡ ok a
  unfolding parse_address address_string
  parse_address-address_string a h l =
      rw (hex_bytes-checksum (hash (hex_text a ∷ [])) 0 a h) (ground arith)
