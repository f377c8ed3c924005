-- ===== src/Ens/Resolved.antt =====
-- The resolution of a name whose content hash is that of a CID.
use safenet_arbitration_bot.Base.{
  ℕ, ◌^◌, ◌<◌, ◌≡◌, refl, true, false, ◌||◌, ◌++◌, All, IsByte, ◌==◌, Bytes, length, replicate,
  is_zero, is_zero-replicate, ok, arith,
}
use safenet_arbitration_bot.Keccak.{Keccak}
use safenet_arbitration_bot.Solabi.Encode.{bytes, nil, cons, encode_address, encode_values}
use safenet_arbitration_bot.Solabi.RoundTrip.{decode-encode}
use safenet_arbitration_bot.Ethrpc.Types.{Address, Client}
use safenet_arbitration_bot.Ipfs.Cid.{Cid, cid_prefix, parse_cid_from_url}
use safenet_arbitration_bot.Ens.{
  registry, is_empty, has_empty, split_dots, decode_address, decode_bytes, ipfs_namespace,
  resolver_selector, contenthash_selector, namehash, call_node, resolve,
}
use safenet_arbitration_bot.Ens.Content.{decode_bytes_iff, parse_cid_from_url-decode_content_hash}

decode_address-encode_address :
    (a : Address) → length a ≡ 20 → decode_address (encode_address a) ≡ ok a
unfolding decode_address encode_address
decode_address-encode_address a size =
    let sized : (length (replicate 12 0 ++ a) == 32) ≡ true = ground arith in
    rw (sized, is_zero-replicate 12) refl

-- The content hash record of a CID.
abbrev pub content_hash : Cid → Bytes
content_hash cid = ipfs_namespace ++ (cid_prefix ++ cid)

abbrev pub IsName : Bytes → Type 0
IsName name = (is_empty name || has_empty (split_dots name)) ≡ false

module _ ⦃k : Keccak⦄ where
  -- A name that has no empty label, whose resolver in the registry is an address other than zero that
  -- answers with the ABI encoding of a CID's content hash, is resolved to a URL that is parsed into
  -- that CID.
  pub resolve-cid :
      (client : Client) (name : Bytes) (block : ℕ) (resolver : Address) (cid : Cid) {d : Bytes}
      → IsName name
      → length resolver ≡ 20
      → is_zero resolver ≡ false
      → length cid ≡ 32
      → All IsByte cid
      → encode_values (cons (bytes (content_hash cid)) nil) ≡ ok d
      → length d < 2 ^ 64
      → call_node client registry resolver_selector (namehash name) block
        ≡ ok (encode_address resolver)
      → call_node client resolver contenthash_selector (namehash name) block ≡ ok d
      → (url : Bytes) × (resolve client name block ≡ ok url) × (parse_cid_from_url url ≡ ok cid)
  unfolding resolve
  resolve-cid client name block resolver cid {d} valid size known cid_size octets encodes short
        asked answered =
      let (url, made, parsed) = parse_cid_from_url-decode_content_hash cid cid_size octets in
      let read : decode_bytes d ≡ ok (content_hash cid) =
        (decode_bytes_iff d (content_hash cid)).1
          (decode-encode (cons (bytes (content_hash cid)) nil) 0 (tt, tt) short encodes refl) in
      let filled : (length (content_hash cid) == 0) ≡ false = ground arith in
      (
        url,
        rw
            (
              valid,
              asked,
              decode_address-encode_address resolver size,
              known,
              answered,
              read,
              filled,
              made,
            )
            refl,
        parsed,
      )
