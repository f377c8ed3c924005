-- ===== src/Keccak.antt =====
-- keccak256.go: Keccak-256, whose implementation is golang.org/x/crypto/sha3.
pub mod Stub
use mathlib.Core.List.{flatten}
use safenet_arbitration_bot.Base.{◌≡◌, List, Bytes, length}

-- The hash function that the package wraps. Its hashes have 32 bytes.
pub record Keccak : Type 0 where
  pub sum : Bytes → Bytes
  pub length-sum : (message : Bytes) → length (sum message) ≡ 32

module _ ⦃k : Keccak⦄ where
  -- `Hash`: the hash of the concatenation of the data.
  unfoldable pub hash : List Bytes → Bytes
  hash data_parts = k.sum (flatten data_parts)

  pub length-hash : (data_parts : List Bytes) → length (hash data_parts) ≡ 32
  unfolding hash
  length-hash data_parts = k.length-sum (flatten data_parts)
