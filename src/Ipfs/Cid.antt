-- ===== src/Ipfs/Cid.antt =====
-- cid.go: content identifiers. Only a CIDv1 with the raw codec and a SHA2-256 multihash is one.
pub mod RoundTrip
use safenet_arbitration_bot.Base.{
  ℕ, ◌≡◌, Bool, true, false, not, Option, none, some, [], ◌∷◌, ◌++◌, if◌then◌else◌, ◌==◌, Bytes,
  codes, length, cut_prefix, Result, ok, err, message,
}
use safenet_arbitration_bot.Ipfs.Base32.{encode, decode}

-- crypto/sha256, whose hashes have 32 bytes.
pub record Sha256 : Type 0 where
  pub sum : Bytes → Bytes
  pub length-sum : (content : Bytes) → length (sum content) ≡ 32

-- A CID is its digest.
abbrev pub Cid : Type 0
Cid = Bytes

-- `prefix`: version 1, the raw codec, sha2-256, and the digest's length.
abbrev pub cid_prefix : Bytes
cid_prefix = 1 ∷ 85 ∷ 18 ∷ 32 ∷ []

abbrev pub multibase : Bytes
multibase = codes "b"

module _ ⦃h : Sha256⦄ where
  -- `ComputeCID`.
  unfoldable pub compute_cid : Bytes → Cid
  compute_cid content = h.sum content

parse_digest : Option Bytes → Result Cid
parse_digest none = err (message "only CIDv1 raw SHA2-256 CIDs are supported")
parse_digest (some digest) =
    if not (length digest == 32) then err (message "digest of another length") else ok digest

parse_raw : Option Bytes → Result Cid
unfolding parse_digest
parse_raw none = err (message "invalid CID")
parse_raw (some raw) = parse_digest (cut_prefix cid_prefix raw)

parse_encoded : Option Bytes → Result Cid
unfolding parse_raw
parse_encoded none = err (message "unsupported multibase encoding")
parse_encoded (some encoded) = parse_raw (decode encoded)

-- `ParseCID`.
unfoldable pub parse_cid : Bytes → Result Cid
unfolding parse_encoded
parse_cid text = parse_encoded (cut_prefix multibase text)

parse_url : Option Bytes → Result Cid
parse_url none = err (message "missing ipfs:// scheme")
parse_url (some text) = parse_cid text

-- `ParseCIDFromURL`.
unfoldable pub parse_cid_from_url : Bytes → Result Cid
unfolding parse_url
parse_cid_from_url url = parse_url (cut_prefix (codes "ipfs://") url)

-- `String`.
unfoldable pub cid_string : Cid → Bytes
cid_string cid = multibase ++ encode (cid_prefix ++ cid)
