-- ===== src/Solabi/Decode/Cut.antt =====
-- Where `Bytes` reads its value.
use safenet_arbitration_bot.Base.{
  ℕ, ◌+◌, ◌≡◌, refl, ap, ◌∙◌, ◌⊎◌, inl, inr, Option, none, some, arith, Bytes, from_be, is_zero,
  take, drop, Error, Bool-cases,
}
use safenet_arbitration_bot.Solabi.Decode.{word, word_uint64, uint64, dynamic, bytes}

-- Where `Bytes` reads: the length's word, and the bytes after it.
pub record Cut (d b : Bytes) : Type 0 where
  pub offset : ℕ
  pub len : ℕ
  pub content : b ≡ take len (drop (offset + 32) d)
  pub counted : (len ≡ 0) ⊎ (len ≡ from_be (drop 24 (take 32 (drop offset d))))

dynamic-cut :
    (d : Bytes) (offset len : ℕ) (s : Option Error) {b : Bytes}
    → dynamic d offset len s ≡ (b, none)
    → (s ≡ none) × (b ≡ take len (drop (offset + 32) d))
unfolding dynamic
dynamic-cut d offset len (some e) h = ground arith
dynamic-cut d offset len none h = ground arith

word_uint64-cut :
    (w : Option Bytes) (e : Option Error)
    → (word_uint64 w e).1 ≡ none
    → (e ≡ none)
      × (((word_uint64 w e).0 ≡ 0)
          ⊎ ((v : Bytes) × (w ≡ some v) × ((word_uint64 w e).0 ≡ from_be (drop 24 v))))
unfolding word_uint64
word_uint64-cut none e h = (h, inl refl)
word_uint64-cut (some v) none h = elim (Bool-cases (is_zero (take 24 v))) [
  | inl z ↦ (refl, inr (v, refl, rw z))
  | inr n ↦ cc (rw n at h)
]
word_uint64-cut (some v) (some e) h = elim (Bool-cases (is_zero (take 24 v))) [
  | inl z ↦ cc (rw z at h)
  | inr n ↦ cc (rw n at h)
]

word-cut :
    (d : Bytes) (offset : ℕ) (e : Option Error) (v : Bytes)
    → (word d offset e).0 ≡ some v
    → v ≡ take 32 (drop offset d)
unfolding word
word-cut d offset none v h = ground arith
word-cut d offset (some e) v h = cc

pub bytes-Cut : (d : Bytes) (i : ℕ) {b : Bytes} → bytes d i none ≡ (b, none) → Cut d b
unfolding bytes
bytes-Cut d i {b} h =
    let offset = (uint64 d i none).0 in
    let w = word d offset (uint64 d i none).1 in
    let l = word_uint64 w.0 w.1 in
    let (fine, content) = dynamic-cut d offset l.0 l.1 h in
    record {
      offset = offset;
      len = l.0;
      content = content;
      counted = elim (word_uint64-cut w.0 w.1 fine).1 [
        | inl z ↦ inl z
        | inr (v, is_v, size) ↦
            inr (size ∙ ap (λ x. from_be (drop 24 x)) (word-cut d offset _ v is_v))
      ];
    }
