-- ===== src/Tests/Codec.antt =====
-- internal/solabi and the texts of internal/ethrpc, on concrete values.
use safenet_arbitration_bot.Base.{
  panic, false, ◌≡◌, refl, to_be, none, some, [], ◌∷◌, ◌++◌, Bytes, All, IsByte, replicate, ok,
  arith,
}
use safenet_arbitration_bot.Keccak.Stub.{stub}
use safenet_arbitration_bot.Solabi.Encode.{
  uint, bytes, Values, nil, cons, encode, encode_onto, encode_values, encode_uint64, encode_uint,
  encode_bytes, is_dynamic,
}
use safenet_arbitration_bot.Solabi.Decode
use safenet_arbitration_bot.Solabi.Decode.Sticky.{reads_sticky}
use safenet_arbitration_bot.Solabi.RoundTrip.{decode-encode}
use safenet_arbitration_bot.Ethrpc.Hex.{parse_address, address_string}
use safenet_arbitration_bot.Ethrpc.Hex.RoundTrip.{parse_address-address_string}

abbrev two_values : Values
two_values = cons (uint 7) (cons (bytes (1 ∷ 2 ∷ [])) nil)

abbrev two_values_data : Bytes
two_values_data =
    replicate 31 0
    ++ 7 ∷ []
    ++ replicate 31 0
    ++ 64 ∷ []
    ++ replicate 31 0
    ++ 2 ∷ []
    ++ 1 ∷ 2 ∷ []
    ++ replicate 30 0

encoded : encode_values two_values ≡ ok two_values_data
unfolding encode_onto encode encode_uint encode_uint64 encode_bytes is_dynamic to_be
encoded = refl

decode-encode_example : Decode.bytes two_values_data 1 none ≡ (1 ∷ 2 ∷ [], none)
decode-encode_example = decode-encode two_values 1 (tt, (tt, tt)) (omega arith) encoded refl

account-IsByte : All IsByte (replicate 19 171 ++ 1 ∷ [])
account-IsByte = ground arith

parse_address-address_string_example :
    parse_address (address_string ⦃k = stub⦄ (replicate 19 171 ++ 1 ∷ []))
    ≡ ok (replicate 19 171 ++ 1 ∷ [])
parse_address-address_string_example =
    parse_address-address_string ⦃k = stub⦄ (replicate 19 171 ++ 1 ∷ []) account-IsByte refl

reads_sticky_example :
    (Decode.uint (1 ∷ []) 0 (some panic) ≡ (0, some panic))
    × (Decode.uint64 (1 ∷ []) 0 (some panic) ≡ (0, some panic))
    × (Decode.address (1 ∷ []) 0 (some panic) ≡ (Decode.zero_address, some panic))
    × (Decode.bool (1 ∷ []) 0 (some panic) ≡ (false, some panic))
    × (Decode.bytes32 (1 ∷ []) 0 (some panic) ≡ (replicate 32 0, some panic))
    × (Decode.bytes (1 ∷ []) 0 (some panic) ≡ ([], some panic))
    × (Decode.tuple (1 ∷ []) 0 (some panic) ≡ ([], some panic))
reads_sticky_example = reads_sticky (1 ∷ []) 0 panic
