-- ===== src/Solabi/Encode/Shape.antt =====
-- Where `Encode` puts each value of a tuple whose values are no tuples.
use mathlib.Core.Path.{subst}
use mathlib.Core.Option.{some-injective}
use safenet_arbitration_bot.Base.{
  ℕ, zero, suc, ◌+◌, ◌*◌, ◌^◌, ◌<◌, ◌≡◌, refl, sym, ap, ◌∙◌, Bool, true, false, Option, none, some,
  [], ◌++◌, append-nil, append_assoc, arith, if◌then◌else◌, Bytes, to_be, length, length-append,
  length-to_be, drop, drop-append, replicate, ok, >>=-eq-ok, Bool-cases, inl, inr,
}
use safenet_arbitration_bot.Solabi.Encode.{
  Value, word, address, bool, uint64, uint, bytes, addresses, tuple, Values, nil, cons, count,
  encode_uint64, encode_uint, encode_address, is_dynamic, encode, encode_onto,
}

-- The values that take one word of the head, with the ranges of their Go types.
abbrev pub IsPlain : Value → Type 0
IsPlain (word w) = length w ≡ 32
IsPlain (address a) = length a ≡ 20
IsPlain (bool b) = Unit
IsPlain (uint64 x) = x < 2 ^ 64
IsPlain (uint x) = Unit
IsPlain (bytes b) = Unit
IsPlain (addresses xs) = Unit
IsPlain (tuple vs) = ⊥

abbrev pub AllPlain : Values → Type 0
AllPlain nil = Unit
AllPlain (cons v vs) = IsPlain v × AllPlain vs

abbrev pub value_at : Values → ℕ → Option Value
value_at nil i = none
value_at (cons v vs) zero = some v
value_at (cons v vs) (suc i) = value_at vs i

pub length-encode_uint64 : (x : ℕ) → length (encode_uint64 x) ≡ 32
unfolding encode_uint64
length-encode_uint64 x = omega (arith, length-append (replicate 24 0) (to_be 8 x), length-to_be 8 x)

length-encode_uint : (x : ℕ) {e : Bytes} → encode_uint x ≡ ok e → length e ≡ 32
unfolding encode_uint
length-encode_uint x h = ground (arith, length-to_be 32 x)

-- A static plain value has one word.
length-encode :
    (v : Value) {e : Bytes} → IsPlain v → is_dynamic v ≡ false → encode v ≡ ok e → length e ≡ 32
unfolding is_dynamic encode encode_address
length-encode (word w) p s h = ground arith
length-encode (address a) p s h = ground (arith, length-append (replicate 12 0) a)
length-encode (bool true) p s h = ground arith
length-encode (bool false) p s h = ground arith
length-encode (uint64 x) p s h = ground (arith, length-encode_uint64 x)
length-encode (uint x) p s h = length-encode_uint x h
length-encode (bytes b) p s h = cc
length-encode (addresses xs) p s h = cc
length-encode (tuple vs) p s h = absurd p

-- What the head gets for a value is one word.
abbrev slot : Bool → Bytes → Bytes → Bytes
slot dynamic offset encoded = if dynamic then offset else encoded

length-slot :
    (v : Value) {e : Bytes} (x : ℕ)
    → IsPlain v
    → encode v ≡ ok e
    → length (slot (is_dynamic v) (encode_uint64 x) e) ≡ 32
length-slot v x p h = elim (Bool-cases (is_dynamic v)) [
  | inl d ↦ rw d (length-encode_uint64 x)
  | inr s ↦ rw s (length-encode v p s h)
]

abbrev tail_after : Bool → Bytes → Bytes → Bytes
tail_after dynamic tail encoded = if dynamic then tail ++ encoded else tail

tail_after-append :
    (dynamic : Bool) (tail e : Bytes)
    → tail_after dynamic tail e ≡ tail ++ (if dynamic then e else [])
tail_after-append true tail e = refl
tail_after-append false tail e = sym (append-nil tail)

-- The rest of the loop adds a word for each value to the head, and only appends to the tail.
record Grows (head tail d : Bytes) (words : ℕ) : Type 0 where
  heads : Bytes
  tails : Bytes
  length_heads : length heads ≡ 32 * words
  parts : d ≡ head ++ (heads ++ (tail ++ tails))

Grows-cons :
    {head tail d : Bytes} (w t : Bytes) {tail' : Bytes} {words : ℕ}
    → length w ≡ 32
    → tail' ≡ tail ++ t
    → Grows (head ++ w) tail' d words
    → Grows head tail d (suc words)
Grows-cons {head} {tail} {d} w t {tail'} h e g = record {
  heads = w ++ g.heads;
  tails = t ++ g.tails;
  length_heads = omega (arith, length-append w g.heads, g.length_heads);
  parts = g.parts ∙ rw e (simp append_assoc);
}

encode_onto-Grows :
    (n : ℕ) (head tail : Bytes) (vs : Values) {d : Bytes}
    → AllPlain vs
    → encode_onto n head tail vs ≡ ok d
    → Grows head tail d (count vs)
unfolding encode_onto
encode_onto-Grows n head tail nil p h = record {
  heads = [];
  tails = [];
  length_heads = refl;
  parts = rw append-nil (cc);
}
encode_onto-Grows n head tail (cons v vs) {d} p h =
    let (e, encoded, rest) = >>=-eq-ok (encode v) _ h in
    let x : ℕ = 32 * n + length tail in
    let w = slot (is_dynamic v) (encode_uint64 x) e in
    Grows-cons w (if is_dynamic v then e else []) (length-slot v x p.0 encoded)
      (tail_after-append (is_dynamic v) tail e)
      (encode_onto-Grows n (head ++ w) (tail_after (is_dynamic v) tail e) vs p.1 rest)

-- Where the encoding `d` holds the value of the word at `pos`.
pub record Placed (v : Value) (d : Bytes) (pos : ℕ) : Type 0 where
  pub encoded : Bytes
  pub encodes : encode v ≡ ok encoded
  pub offset : ℕ
  pub after : Bytes
  pub later : Bytes
  pub in_head : drop pos d ≡ slot (is_dynamic v) (encode_uint64 offset) encoded ++ after
  pub in_tail : is_dynamic v ≡ true → drop offset d ≡ encoded ++ later

module _ (n k : ℕ) (head tail : Bytes) (v : Value) (vs : Values) {d : Bytes}
    (length_head : length head ≡ 32 * k) (words : n ≡ k + suc (count vs)) where
  first-Placed :
      (e : Bytes)
      → IsPlain v
      → encode v ≡ ok e
      → Grows
          (head ++ slot (is_dynamic v) (encode_uint64 (32 * n + length tail)) e)
          (tail_after (is_dynamic v) tail e)
          d
          (count vs)
      → Placed v d (32 * k)
  first-Placed e p encodes g =
      let w = slot (is_dynamic v) (encode_uint64 (32 * n + length tail)) e in
      let front : Bytes = (head ++ (w ++ g.heads)) ++ tail in
      let length_front : length front ≡ 32 * n + length tail = omega (
        arith,
        length-append (head ++ (w ++ g.heads)) tail,
        length-append head (w ++ g.heads),
        length-append w g.heads,
        g.length_heads,
        length-slot v (32 * n + length tail) p encodes,
      ) in
      record {
        encoded = e;
        encodes = encodes;
        offset = 32 * n + length tail;
        after = g.heads ++ (tail_after (is_dynamic v) tail e ++ g.tails);
        later = g.tails;
        in_head =
            ap (drop (32 * k)) (g.parts ∙ append_assoc head w _)
            ∙ drop-append (32 * k) head _ length_head;
        in_tail = λ dynamic.
            ap (drop (32 * n + length tail)) (g.parts ∙ rw dynamic (simp append_assoc))
            ∙ drop-append (32 * n + length tail) front (e ++ g.tails) length_front;
      }

encode_onto-Placed :
    (n k : ℕ) (head tail : Bytes) (vs : Values) (i : ℕ) {d : Bytes} {v : Value}
    → AllPlain vs
    → length head ≡ 32 * k
    → n ≡ k + count vs
    → encode_onto n head tail vs ≡ ok d
    → value_at vs i ≡ some v
    → Placed v d (32 * (k + i))
unfolding encode_onto
encode_onto-Placed n k head tail nil i p lh e h a = cc
encode_onto-Placed n k head tail (cons v vs) zero {d} {v = u} p lh e h a =
    let (b, encodes, rest) = >>=-eq-ok (encode v) _ h in
    let w = slot (is_dynamic v) (encode_uint64 (32 * n + length tail)) b in
    let placed =
      first-Placed n k head tail v vs lh e b p.0 encodes
        (encode_onto-Grows n (head ++ w) (tail_after (is_dynamic v) tail b) vs p.1 rest) in
    subst (λ x. Placed x d (32 * (k + 0))) (some-injective v u a)
      (subst (Placed v d) (omega arith) placed)
encode_onto-Placed n k head tail (cons v vs) (suc i) {d} {v = u} p lh e h a =
    let (b, encodes, rest) = >>=-eq-ok (encode v) _ h in
    let w = slot (is_dynamic v) (encode_uint64 (32 * n + length tail)) b in
    subst (Placed u d) (omega arith) (
      encode_onto-Placed n (suc k) (head ++ w) (tail_after (is_dynamic v) tail b) vs i p.1
        (omega (arith, length-append head w, length-slot v (32 * n + length tail) p.0 encodes))
        (omega arith) rest a)

-- `Encode` puts the value with index `i` at the word `i`.
pub encode_values-Placed :
    (vs : Values) (i : ℕ) {d : Bytes} {v : Value}
    → AllPlain vs
    → encode_onto (count vs) [] [] vs ≡ ok d
    → value_at vs i ≡ some v
    → Placed v d (i * 32)
encode_values-Placed vs i {d} {v} p h a =
    subst (Placed v d) (omega arith)
      (encode_onto-Placed (count vs) 0 [] [] vs i p refl (omega arith) h a)
