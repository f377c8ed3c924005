-- ===== src/Ipfs/Cid/RoundTrip.antt =====
-- A CID is read back from its text.
use safenet_arbitration_bot.Base.{
  ◌≡◌, refl, ◌++◌, All, IsByte, length, cut_prefix-append, ok, ==_iff, arith,
}
use safenet_arbitration_bot.Ipfs.Base32.{encode}
use safenet_arbitration_bot.Ipfs.Base32.RoundTrip.{decode-encode}
use safenet_arbitration_bot.Ipfs.Cid.{
  Cid, cid_prefix, multibase, parse_digest, parse_raw, parse_encoded, parse_cid,
}

prefixed-IsByte : (cid : Cid) → All IsByte cid → All IsByte (cid_prefix ++ cid)
prefixed-IsByte cid h = (omega arith, (omega arith, (omega arith, (omega arith, h))))

pub parse_cid-encode :
    (cid : Cid)
    → length cid ≡ 32
    → All IsByte cid
    → parse_cid (multibase ++ encode (cid_prefix ++ cid)) ≡ ok cid
unfolding parse_cid parse_encoded parse_raw parse_digest
parse_cid-encode cid size bytes =
    let sized = (==_iff (length cid) 32).1 size in
    rw
      (
        cut_prefix-append multibase (encode (cid_prefix ++ cid)),
        decode-encode (cid_prefix ++ cid) (prefixed-IsByte cid bytes),
        cut_prefix-append cid_prefix cid,
        sized,
      )
      refl
