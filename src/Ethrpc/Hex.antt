-- ===== src/Ethrpc/Hex.antt =====
-- types.go: the hex text of addresses, hashes, bytes and quantities. A text is its bytes.
pub mod RoundTrip
use Prim.Native.Nat.{bit_and}
use safenet_arbitration_bot.Base.{
  ℕ, zero, suc, ◌+◌, ◌-◌, ◌*◌, ◌/◌, ◌%◌, ◌^◌, Bool, true, false, not, ◌&&◌, ◌||◌, Option, none,
  some, List, [], ◌∷◌, String, ◌++◌, if◌then◌else◌, ltb, leb, ◌==◌, Bytes, codes, length, get_elem?,
  Error, Result, ok, err, message, wrapped, fail_if, ◌>>=◌, ◌>>◌,
}
use safenet_arbitration_bot.Keccak.{Keccak, hash}
use safenet_arbitration_bot.Ethrpc.Types.{Address, Hash}

-- A digit of hex.EncodeToString.
pub digit : ℕ → ℕ
digit x = if ltb x 10 then b'0' + x else b'a' + (x - 10)

hex_text : Bytes → Bytes
hex_text [] = []
hex_text (b ∷ bs) = digit (b / 16) ∷ digit (b % 16) ∷ hex_text bs

pub encode_hex : Bytes → Bytes
unfolding hex_text digit
encode_hex b = codes "0x" ++ hex_text b

-- The value of a digit, of either case, for hex.DecodeString and strconv.ParseUint.
pub nibble : ℕ → Option ℕ
nibble c =
    if leb b'0' c && leb c b'9'
    then some (c - b'0')
    else if leb b'a' c && leb c b'f'
    then some (c - b'a' + 10)
    else if leb b'A' c && leb c b'F'
    then some (c - b'A' + 10)
    else none

byte_of : Option ℕ → Option ℕ → Result ℕ
byte_of (some x) (some y) = ok (x * 16 + y)
byte_of _ _ = err (message "encoding/hex: invalid byte")

-- hex.DecodeString.
hex_bytes : Bytes → Result Bytes
hex_bytes [] = ok []
hex_bytes (c ∷ []) = err (message "encoding/hex: odd length hex string")
hex_bytes (c ∷ d ∷ rest) = do b ← byte_of (nibble c) (nibble d); bs ← hex_bytes rest; ok (b ∷ bs)

-- `strings.CutPrefix(text, "0x")`.
cut_prefix : Bytes → Option Bytes
cut_prefix (a ∷ b ∷ rest) = if a == b'0' && b == b'x' then some rest else none
cut_prefix _ = none

decode_cut : Option Bytes → Result Bytes
decode_cut none = err (message "missing 0x prefix")
decode_cut (some digits) = hex_bytes digits

pub decode_hex : Bytes → Result Bytes
unfolding cut_prefix decode_cut hex_bytes byte_of nibble
decode_hex text = decode_cut (cut_prefix text)

-- `UnmarshalText` of an Address and of a Hash, by their size.
sized : ℕ → Bytes → Result Bytes
sized n b = do fail_if (not (length b == n)) "invalid length"; ok b

pub parse_address : Bytes → Result Address
unfolding decode_hex sized
parse_address text = do b ← wrapped "invalid address" (decode_hex text); sized 20 b

pub parse_hash : Bytes → Result Hash
unfolding decode_hex sized
parse_hash text = do b ← wrapped "invalid hash" (decode_hex text); sized 32 b

nibble_at : Bytes → ℕ → ℕ
nibble_at sum i = elim (get_elem? sum (i / 2)) [
  | none ↦ 0
  | some b ↦ if i % 2 == 0 then b / 16 else b % 16
]

-- The EIP-55 case of the digits from index `i` on, by the hash of the lowercase digits.
checksum : Bytes → ℕ → Bytes → Bytes
checksum sum i [] = []
checksum sum i (c ∷ cs) =
    (if leb b'a' c && leb 8 (nibble_at sum i) then c - b'a' + b'A' else c) ∷ checksum sum (i + 1) cs

module _ ⦃k : Keccak⦄ where
  -- `Address.String`.
  pub address_string : Address → Bytes
  unfolding checksum hex_text digit
  address_string a = let text = hex_text a in codes "0x" ++ checksum (hash (text ∷ [])) 0 text

-- strconv.FormatUint in base 16, of a number below 16 ^ fuel.
hex_digits : ℕ → ℕ → Bytes
hex_digits zero x = []
hex_digits (suc fuel) x =
    let more = hex_digits fuel (x / 16) in (if ltb x 16 then [] else more) ++ digit (x % 16) ∷ []

-- A uint64 has 16 digits at most.
pub quantity_text : ℕ → Bytes
unfolding hex_digits digit
quantity_text q = codes "0x" ++ hex_digits 16 q

-- strconv.ParseUint in base 16: the value so far, and an error past 64 bits.
parse_digits : ℕ → Bytes → Result ℕ
parse_digits acc [] = ok acc
parse_digits acc (c ∷ cs) = elim (nibble c) [
  | none ↦ err (message "invalid syntax")
  | some x ↦ elim (leb (2 ^ 64) (acc * 16 + x)) [
    | true ↦ err (message "value out of range")
    | false ↦ parse_digits (acc * 16 + x) cs
  ]
]

parse_cut : Option Bytes → Result ℕ
parse_cut none = err (message "invalid quantity: not 0x-prefixed hex")
parse_cut (some []) = err (message "invalid quantity: not 0x-prefixed hex")
parse_cut (some digits) = wrapped "invalid quantity" (parse_digits 0 digits)

pub parse_quantity : Bytes → Result ℕ
unfolding cut_prefix parse_cut parse_digits nibble
parse_quantity text = parse_cut (cut_prefix text)

or_empty : Result Address → Address
or_empty (ok a) = a
or_empty (err e) = []

-- `MustParseAddress`, of a literal that is an address.
unfoldable pub address_of : String → Address
unfolding parse_address or_empty
address_of text = or_empty (parse_address (codes text))

-- `MustParseHash`, of a literal that is a hash.
unfoldable pub hash_of : String → Hash
unfolding parse_hash or_empty
hash_of text = or_empty (parse_hash (codes text))
