-- ===== src/Solabi/RoundTrip.antt =====
-- What `Encode` writes, `Decoder` reads.
use mathlib.Core.Path.{subst}
use mathlib.Core.Option.{some-injective}
use safenet_arbitration_bot.Base.{
  ℕ, zero, suc, ◌+◌, ◌*◌, ◌/◌, ◌-◌, ◌^◌, ◌≤◌, ◌<◌, ◌≡◌, refl, sym, ap, ◌∙◌, true, false, none, some,
  [], ◌∷◌, ◌++◌, arith, ltb, Bytes, from_be, from_be-to_be, is_zero, is_zero-replicate, to_be,
  length, length-append, length-replicate, length-to_be, length-drop, take, take-append, drop,
  drop-append, drop-drop, padded, replicate, ok, length-padded, take-padded, append_assoc,
}
use safenet_arbitration_bot.Solabi.Encode.{
  Value, word, address, bool, uint64, uint, bytes, addresses, tuple, Values, nil, cons,
  encode_uint64, encode_uint, encode_address, encode_bytes, is_dynamic, encode, encode_values,
}
use safenet_arbitration_bot.Solabi.Encode.Shape.{
  IsPlain, AllPlain, value_at, Placed, encode_values-Placed, length-encode_uint64,
}
use safenet_arbitration_bot.Solabi.Decode

-- The data has the word `w` at `pos`.
abbrev WordAt : Bytes → ℕ → Bytes → Type 0
WordAt d pos w = (Decode.word d pos none ≡ (some w, none))

word-WordAt :
    (d : Bytes) (pos : ℕ) (w after : Bytes)
    → length w ≡ 32
    → drop pos d ≡ w ++ after
    → WordAt d pos w
unfolding Decode.word
word-WordAt d pos w after h e =
    let size : length d - pos ≡ 32 + length after =
      omega (arith, ap length e, length-drop pos d, length-append w after) in
    let cut = ap (take 32) e ∙ take-append 32 w after h in ground arith

zeros_then :
    (k : ℕ) (xs : Bytes)
    → (take k (replicate k 0 ++ xs) ≡ replicate k 0) × (drop k (replicate k 0 ++ xs) ≡ xs)
zeros_then k xs = (
  take-append k (replicate k 0) xs (length-replicate k 0),
  drop-append k (replicate k 0) xs (length-replicate k 0),
)

-- The words that the encoder writes are read back.
word_uint64-encode :
    (x : ℕ) → x < 2 ^ 64 → Decode.word_uint64 (some (encode_uint64 x)) none ≡ (x, none)
unfolding Decode.word_uint64 encode_uint64
word_uint64-encode x h =
    ground (arith, zeros_then 24 (to_be 8 x), is_zero-replicate 24, from_be-to_be 8 x h)

address-encode :
    (a : Bytes) (d : Bytes) (i : ℕ)
    → WordAt d (i * 32) (encode_address a)
    → Decode.address d i none ≡ (a, none)
unfolding Decode.address encode_address
address-encode a d i h = rw h (ground (arith, zeros_then 12 a, is_zero-replicate 12))

uint-encode :
    (x : ℕ) (d : Bytes) (i : ℕ) {e : Bytes}
    → encode_uint x ≡ ok e
    → WordAt d (i * 32) e
    → Decode.uint d i none ≡ (x, none)
unfolding Decode.uint encode_uint
uint-encode x d i e h = rw h (ground (arith, from_be-to_be 32 x))

length-encode_uint : (x : ℕ) {e : Bytes} → encode_uint x ≡ ok e → length e ≡ 32
unfolding encode_uint
length-encode_uint x h = ground (arith, length-to_be 32 x)

abbrev padding : Bytes → ℕ
padding b = (length b + 31) / 32 * 32

dynamic-read :
    (b d later : Bytes) (start : ℕ)
    → drop start d ≡ padded (padding b) b ++ later
    → (ltb (length d - start) (length b) ≡ false) × (take (length b) (drop start d) ≡ b)
dynamic-read b d later start e = (
  ground (
    arith,
    ap length e,
    length-drop start d,
    length-append (padded (padding b) b) later,
    length-padded (padding b) b,
  ),
  ap (take (length b)) e ∙ take-padded (length b) (padding b) b later refl (omega arith),
)

-- Dynamic bytes at `offset`.
module _ (b d later : Bytes) (i offset : ℕ) (small : length d < 2 ^ 64)
    (h : WordAt d (i * 32) (encode_uint64 offset))
    (e : drop offset d ≡ encode_bytes b ++ later) where
  content : Bytes
  content = padded (padding b) b ++ later

  length_word : drop offset d ≡ encode_uint64 (length b) ++ content
  unfolding content encode_bytes
  length_word = e ∙ append_assoc (encode_uint64 (length b)) (padded (padding b) b) later

  enough : (32 + length content + offset ≡ length d) × (length b ≤ length content)
  unfolding content
  enough =
      let size = length-encode_uint64 (length b) in
      (
        omega (
          arith,
          ap length length_word,
          length-drop offset d,
          size,
          length-append (encode_uint64 (length b)) (padded (padding b) b ++ later),
        ),
        omega (arith, length-append (padded (padding b) b) later, length-padded (padding b) b),
      )

  content_at : drop (offset + 32) d ≡ content
  content_at =
      sym (drop-drop 32 offset d)
      ∙ ap (drop 32) length_word
      ∙ drop-append 32 (encode_uint64 (length b)) content (length-encode_uint64 (length b))

  bytes-encode : Decode.bytes d i none ≡ (b, none)
  unfolding Decode.bytes Decode.uint64 content
  bytes-encode =
      let p : offset < 2 ^ 64 = omega (arith, enough.0) in
      let q : length b < 2 ^ 64 = omega (arith, enough) in
      let w =
        word-WordAt d offset (encode_uint64 (length b)) content (length-encode_uint64 _)
          length_word in
      let r = dynamic-read b d later (offset + 32) content_at in
      rw (h, word_uint64-encode offset p, w, word_uint64-encode (length b) q) (rw (r.0, r.1))

-- The read that has the type of the value gives it, with no error.
abbrev pub Decodes : Value → Bytes → ℕ → Type 0
Decodes (word w) d i = Decode.bytes32 d i none ≡ (w, none)
Decodes (address a) d i = Decode.address d i none ≡ (a, none)
Decodes (bool b) d i = Decode.bool d i none ≡ (b, none)
Decodes (uint64 x) d i = Decode.uint64 d i none ≡ (x, none)
Decodes (uint x) d i = Decode.uint d i none ≡ (x, none)
Decodes (bytes b) d i = Decode.bytes d i none ≡ (b, none)
Decodes (addresses xs) d i = Unit
Decodes (tuple vs) d i = Unit

static-WordAt :
    (d : Bytes) (pos : ℕ) (w e after : Bytes)
    → length w ≡ 32
    → ok w ≡ ok e
    → drop pos d ≡ e ++ after
    → WordAt d pos w
static-WordAt d pos w e after h s q =
    let same : e ≡ w = cc in word-WordAt d pos w after h (q ∙ ap (λ x. x ++ after) same)

length-encode_address : (a : Bytes) → length a ≡ 20 → length (encode_address a) ≡ 32
unfolding encode_address
length-encode_address a h = omega (arith, length-append (replicate 12 0) a)

Placed-Decodes :
    (v : Value) (d : Bytes) (i : ℕ)
    → IsPlain v
    → length d < 2 ^ 64
    → Placed v d (i * 32)
    → Decodes v d i
unfolding is_dynamic encode
Placed-Decodes (word w) d i p small q =
    let at = static-WordAt d (i * 32) w q.encoded q.after p q.encodes q.in_head in
    unfold Decode.bytes32 in rw at
Placed-Decodes (address a) d i p small q = address-encode a d i (
    static-WordAt d (i * 32) (encode_address a) q.encoded q.after (length-encode_address a p)
      q.encodes q.in_head)
Placed-Decodes (bool true) d i p small q =
    let at =
      static-WordAt d (i * 32) (replicate 31 0 ++ 1 ∷ []) q.encoded q.after refl q.encodes
        q.in_head in
    unfold Decode.bool is_zero from_be in rw at
Placed-Decodes (bool false) d i p small q =
    let at = static-WordAt d (i * 32) (replicate 32 0) q.encoded q.after refl q.encodes q.in_head in
    unfold Decode.bool is_zero from_be in rw at
Placed-Decodes (uint64 x) d i p small q =
    let at =
      static-WordAt d (i * 32) (encode_uint64 x) q.encoded q.after (length-encode_uint64 x)
        q.encodes q.in_head in
    unfold Decode.uint64 in rw at (word_uint64-encode x p)
Placed-Decodes (uint x) d i p small q =
    uint-encode x d i q.encodes
      (word-WordAt d (i * 32) q.encoded q.after (length-encode_uint x q.encodes) q.in_head)
Placed-Decodes (bytes b) d i p small q =
    let same : q.encoded ≡ encode_bytes b = cc (q.encodes) in
    bytes-encode b d q.later i q.offset small
      (word-WordAt d (i * 32) (encode_uint64 q.offset) q.after (length-encode_uint64 q.offset)
        q.in_head)
      (q.in_tail refl ∙ ap (λ x. x ++ q.later) same)
Placed-Decodes (addresses xs) d i p small q = tt
Placed-Decodes (tuple vs) d i p small q = tt

value_at-IsPlain :
    (vs : Values) (i : ℕ) {v : Value} → AllPlain vs → value_at vs i ≡ some v → IsPlain v
value_at-IsPlain nil i p h = cc
value_at-IsPlain (cons u vs) zero p h = subst IsPlain (some-injective u _ h) p.0
value_at-IsPlain (cons u vs) (suc i) p h = value_at-IsPlain vs i p.1 h

-- For values that are no tuples, in the ranges of their types: where `Encode` returns data below
-- 2^64 bytes, the decoder's read of value `i`, at its type, gives that value and no error. (It
-- states nothing of arrays of addresses, which the decoder has no read for.)
pub decode-encode :
    (vs : Values) (i : ℕ) {d : Bytes} {v : Value}
    → AllPlain vs
    → length d < 2 ^ 64
    → encode_values vs ≡ ok d
    → value_at vs i ≡ some v
    → Decodes v d i
decode-encode vs i {d} {v} p small h a =
    Placed-Decodes v d i (value_at-IsPlain vs i p a) small (encode_values-Placed vs i p h a)
