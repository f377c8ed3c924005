-- ===== src/Solabi/Decode/Lenient.antt =====
-- An address that `Address` reads is the low 20 bytes of the word that `Bytes32` reads.
use safenet_arbitration_bot.Base.{
  ℕ, ◌*◌, ◌≡◌, refl, ap, Option, none, some, inl, inr, Bytes, is_zero, take, drop, Error,
  Bool-cases,
}
use safenet_arbitration_bot.Solabi.Decode.{word, as_address, address, as_bytes32, bytes32}

as_bytes32-as_address :
    (w : Option Bytes) (s : Option Error) {a : Bytes}
    → as_address w s ≡ (a, none)
    → (s ≡ none) × (drop 12 (as_bytes32 w) ≡ a)
unfolding as_address as_bytes32
as_bytes32-as_address none s h =
    (ap (λ (r : Bytes × Option Error). r.1) h, ap (λ (r : Bytes × Option Error). r.0) h)
as_bytes32-as_address (some w) none h = elim (Bool-cases (is_zero (take 12 w))) [
  | inl z ↦ (refl, ap (λ (r : Bytes × Option Error). r.0) (rw z at h))
  | inr n ↦ cc (rw n at h)
]
as_bytes32-as_address (some w) (some e) h = elim (Bool-cases (is_zero (take 12 w))) [
  | inl z ↦ cc (rw z at h)
  | inr n ↦ cc (rw n at h)
]

pub bytes32-address :
    (d : Bytes) (i : ℕ) {a : Bytes}
    → address d i none ≡ (a, none)
    → (w : Bytes) × (bytes32 d i none ≡ (w, none)) × (drop 12 w ≡ a)
unfolding address bytes32
bytes32-address d i h =
    let r = word d (i * 32) none in
    let (fine, cut) = as_bytes32-as_address r.0 r.1 h in
    (as_bytes32 r.0, ap (λ s. (as_bytes32 r.0, s)) fine, cut)
