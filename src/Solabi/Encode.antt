-- ===== src/Solabi/Encode.antt =====
-- solabi.go, the encoder: `Uint64`, `Uint`, `Address`, `Encode`, `Selector`, `Event` and `Call`.
pub mod Shape
use safenet_arbitration_bot.Base.{
  ℕ, zero, suc, ◌+◌, ◌*◌, ◌/◌, ◌-◌, ◌^◌, ◌≡◌, Bool, true, false, ◌||◌, List, [], ◌∷◌, ◌++◌, String,
  if◌then◌else◌, ltb, Bytes, codes, to_be, length, take, replicate, padded, Result, ok, err, panic,
  ◌>>=◌, ◌>>◌,
}
use safenet_arbitration_bot.Keccak.{Keccak, hash}

-- The values that `Encode` takes. A Word and a Hash are a `word`; []byte, ethrpc.Bytes and string
-- are `bytes`. No other Go type is passed.
mutual
  pub data Value : Type 0 where
    word : Bytes → Value
    address : Bytes → Value
    bool : Bool → Value
    uint64 : ℕ → Value
    uint : ℕ → Value
    bytes : Bytes → Value
    addresses : List Bytes → Value
    tuple : Values → Value

  pub data Values : Type 0 where
    nil : Values
    cons : Value → Values → Values

abbrev pub count : Values → ℕ
count nil = 0
count (cons v vs) = suc (count vs)

unfoldable pub encode_uint64 : ℕ → Bytes
encode_uint64 x = replicate 24 0 ++ to_be 8 x

-- `Uint` panics on a number wider than 256 bits.
unfoldable pub encode_uint : ℕ → Result Bytes
encode_uint x = if ltb x (2 ^ 256) then ok (to_be 32 x) else err panic

unfoldable pub encode_address : Bytes → Bytes
encode_address a = replicate 12 0 ++ a

encode_addresses : List Bytes → Bytes
encode_addresses [] = []
encode_addresses (a ∷ accounts) = encode_address a ++ encode_addresses accounts

-- The length, and the bytes padded with zeros to a multiple of 32.
unfoldable pub encode_bytes : Bytes → Bytes
encode_bytes b = encode_uint64 (length b) ++ padded ((length b + 31) / 32 * 32) b

unfoldable mutual
  pub is_dynamic : Value → Bool
  is_dynamic (bytes b) = true
  is_dynamic (addresses accounts) = true
  is_dynamic (tuple vs) = any_dynamic vs
  is_dynamic _ = false

  pub any_dynamic : Values → Bool
  any_dynamic nil = false
  any_dynamic (cons v vs) = is_dynamic v || any_dynamic vs

unfoldable mutual
  unfolding encode_addresses

  pub encode : Value → Result Bytes
  encode (word w) = ok w
  encode (address a) = ok (encode_address a)
  encode (bool true) = ok (replicate 31 0 ++ 1 ∷ [])
  encode (bool false) = ok (replicate 32 0)
  encode (uint64 x) = ok (encode_uint64 x)
  encode (uint x) = encode_uint x
  encode (bytes b) = ok (encode_bytes b)
  encode (addresses accounts) = ok (encode_uint64 (length accounts) ++ encode_addresses accounts)
  encode (tuple vs) = encode_onto (count vs) [] [] vs

  -- The loop of `Encode` over the rest of the `n` values.
  pub encode_onto : ℕ → Bytes → Bytes → Values → Result Bytes
  encode_onto n head tail nil = ok (head ++ tail)
  encode_onto n head tail (cons v vs) = do
    encoded ← encode v
    let dynamic = is_dynamic v
    let offset = encode_uint64 (32 * n + length tail)
    encode_onto n (head ++ (if dynamic then offset else encoded))
        (if dynamic then tail ++ encoded else tail) vs

-- `Encode`.
abbrev pub encode_values : Values → Result Bytes
encode_values vs = encode_onto (count vs) [] [] vs

module _ ⦃k : Keccak⦄ where
  -- `Selector` and `Event` of a signature that is put together.
  abbrev pub selector_of : Bytes → Bytes
  selector_of signature = take 4 (hash (signature ∷ []))

  abbrev pub event_of : Bytes → Bytes
  event_of signature = hash (signature ∷ [])

  -- `Selector`: the first four bytes of the hash of the signature.
  unfoldable pub selector : String → Bytes
  selector signature = take 4 (hash (codes signature ∷ []))

  -- `Event`.
  unfoldable pub event : String → Bytes
  event signature = hash (codes signature ∷ [])

-- `Call`.
unfoldable pub calldata : Bytes → Values → Result Bytes
calldata sel args = do encoded ← encode_values args; ok (sel ++ encoded)
