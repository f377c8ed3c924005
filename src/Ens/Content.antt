-- ===== src/Ens/Content.antt =====
-- The content hash record: ens.go's decoding of bytes against solabi's, and the CID in the URL.
use mathlib.Core.Option.{some-injective}
use safenet_arbitration_bot.Base.{
  ℕ, ◌+◌, ◌-◌, ◌≡◌, ◌↔◌, refl, sym, ap, ◌∙◌, inl, inr, true, false, ◌||◌, Option, none, some, [],
  ◌++◌, All, IsByte, if◌then◌else◌, ltb, Bytes, from_be, is_zero, length, take, drop,
  cut_prefix-append, Error, Result, ok, err, Bool-cases, arith, ok-injective, message,
}
use safenet_arbitration_bot.Solabi.Decode
use safenet_arbitration_bot.Ipfs.Base32.{encode}
use safenet_arbitration_bot.Ipfs.Cid.{Cid, cid_prefix, multibase, parse_cid_from_url}
use safenet_arbitration_bot.Ipfs.Cid.RoundTrip.{parse_cid-encode}
use safenet_arbitration_bot.Ens.{
  decode_length, cut_bytes, bytes_at, decode_bytes, ipfs_namespace, url_scheme, cid_url,
  decode_content_hash,
}

-- solabi's read of a length at an offset.
abbrev read_length : Bytes → ℕ → ℕ × Option Error
read_length d offset =
    Decode.word_uint64 (Decode.word d offset none).0 (Decode.word d offset none).1

read_length-some :
    (d : Bytes) (offset : ℕ) {n : ℕ}
    → decode_length d offset ≡ some n
    → read_length d offset ≡ (n, none)
unfolding decode_length Decode.word Decode.word_uint64
read_length-some d offset {n} h =
    let word = take 32 (drop offset d) in
    elim (Bool-cases (ltb (length d) offset || ltb (length d - offset) 32)) [
      | inl out ↦ cc (rw (out, decode_length) at h)
      | inr inside ↦ elim (Bool-cases (is_zero (take 24 word))) [
        | inl zero ↦
            let e : some (from_be (drop 24 word)) ≡ some n =
              rw (inside, zero, decode_length) at h in
            rw (inside, zero) (ap (λ x. (x, none)) (some-injective _ n e))
        | inr wide ↦ cc (rw (inside, wide, decode_length) at h)
      ]
    ]

read_length-none :
    (d : Bytes) (offset : ℕ)
    → decode_length d offset ≡ none
    → (e : Error) × (read_length d offset ≡ (0, some e))
unfolding decode_length Decode.word Decode.word_uint64
read_length-none d offset h =
    let word = take 32 (drop offset d) in
    elim (Bool-cases (ltb (length d) offset || ltb (length d - offset) 32)) [
      | inl out ↦ rw out (_, refl)
      | inr inside ↦ elim (Bool-cases (is_zero (take 24 word))) [
        | inl zero ↦ cc (rw (inside, zero, decode_length) at h)
        | inr wide ↦ rw (inside, wide) (_, refl)
      ]
    ]

-- An error is sticky, so a failed read of the offset or of the length fails the read of the bytes.
bytes-no_offset :
    (d : Bytes) → decode_length d 0 ≡ none → (e : Error) × (Decode.bytes d 0 none ≡ ([], some e))
unfolding Decode.bytes Decode.uint64 Decode.word Decode.word_uint64
bytes-no_offset d h = let (e, read) = read_length-none d 0 h in (e, rw read refl)

bytes-no_length :
    (d : Bytes) (offset : ℕ)
    → decode_length d 0 ≡ some offset
    → decode_length d offset ≡ none
    → (e : Error) × (Decode.bytes d 0 none ≡ ([], some e))
unfolding Decode.bytes Decode.uint64
bytes-no_length d offset first h =
    let (e, read) = read_length-none d offset h in (e, rw (read_length-some d 0 first, read) refl)

bytes-length :
    (d : Bytes) (offset n : ℕ)
    → decode_length d 0 ≡ some offset
    → decode_length d offset ≡ some n
    → Decode.bytes d 0 none ≡ (
        if ltb (length d - (offset + 32)) n
        then ([], some (message "solabi: value exceeds data"))
        else (take n (drop (offset + 32) d), none))
unfolding Decode.bytes Decode.uint64
bytes-length d offset n first second =
    rw (read_length-some d 0 first, read_length-some d offset second) refl

abbrev Agree : Result Bytes → Bytes × Option Error → Type 0
Agree r s = (b : Bytes) → (r ≡ ok b) ↔ (s ≡ (b, none))

Agree-fails :
    (e : Error) (s : Bytes × Option Error) → (x : Error) × (s ≡ ([], some x)) → Agree (err e) s
Agree-fails e s (x, h) b = (λ f. cc, λ f. cc (sym h ∙ f))

cut_bytes-Agree :
    (d : Bytes) (offset : ℕ) (o : Option ℕ)
    → decode_length d 0 ≡ some offset
    → decode_length d offset ≡ o
    → Agree (cut_bytes d offset o) (Decode.bytes d 0 none)
unfolding cut_bytes
cut_bytes-Agree d offset none first second b =
    Agree-fails _ _ (bytes-no_length d offset first second) b
cut_bytes-Agree d offset (some n) first second b =
    rw (bytes-length d offset n first second)
      (elim (Bool-cases (ltb (length d - (offset + 32)) n)) [
        | inl over ↦
            let over' : ltb (length d - offset - 32) n ≡ true = ground arith in
            rw (over, over') (λ h. cc, λ h. cc)
        | inr within ↦
            let within' : ltb (length d - offset - 32) n ≡ false = ground arith in
            rw (within, within')
              (
                λ h. ap (λ x. (x, none)) (ok-injective h),
                λ h. ap ok (ap (λ (s : Bytes × Option Error). s.0) h),
              )
      ])

bytes_at-Agree :
    (d : Bytes) (o : Option ℕ)
    → decode_length d 0 ≡ o
    → Agree (bytes_at d o) (Decode.bytes d 0 none)
unfolding bytes_at
bytes_at-Agree d none first = Agree-fails _ _ (bytes-no_offset d first)
bytes_at-Agree d (some offset) first = elim (Bool-cases (ltb (length d) offset)) [
  | inl out ↦
      let none_there : decode_length d offset ≡ none = unfold decode_length in rw out refl in
      rw out (Agree-fails _ _ (bytes-no_length d offset first none_there))
  | inr inside ↦ rw inside (cut_bytes-Agree d offset (decode_length d offset) first refl)
]

-- ens.go's decodeBytes and solabi's Bytes accept the same return values, and read the same bytes.
pub decode_bytes_iff : (d b : Bytes) → (decode_bytes d ≡ ok b) ↔ (Decode.bytes d 0 none ≡ (b, none))
unfolding decode_bytes
decode_bytes_iff d b = bytes_at-Agree d (decode_length d 0) refl b

-- The URL of a content hash for a CID is parsed into that CID.
pub parse_cid_from_url-decode_content_hash :
    (cid : Cid)
    → length cid ≡ 32
    → All IsByte cid
    → (url : Bytes) × (decode_content_hash (ipfs_namespace ++ (cid_prefix ++ cid)) ≡ ok url)
      × (parse_cid_from_url url ≡ ok cid)
unfolding decode_content_hash cid_url parse_cid_from_url
parse_cid_from_url-decode_content_hash cid size bytes = (
  url_scheme ++ (multibase ++ encode (cid_prefix ++ cid)),
  rw (cut_prefix-append ipfs_namespace (cid_prefix ++ cid)) refl,
  rw (cut_prefix-append url_scheme (multibase ++ encode (cid_prefix ++ cid)))
      (parse_cid-encode cid size bytes),
)
