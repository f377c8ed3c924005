-- ===== src/Checks/MultiSend/Significant.antt =====
-- The number of a text's bytes without the zeros at its end, which the padding of a packed
-- transaction does not increase.
use safenet_arbitration_bot.Base.{
  ℕ, zero, suc, ◌-◌, ◌≤◌, ◌≡◌, refl, ◌&&◌, [], ◌∷◌, arith, if◌then◌else◌, ◌==◌, Bytes, from_be,
  length, take, drop, padded,
}

pub significant : Bytes → ℕ
significant [] = 0
significant (x ∷ xs) = let n = significant xs in if n == 0 && x == 0 then 0 else suc n

pub significant-le-length : (b : Bytes) → significant b ≤ length b
unfolding significant
significant-le-length [] = omega arith
significant-le-length (x ∷ b) = ground (arith, significant-le-length b)

pub significant-drop : (k : ℕ) (b : Bytes) → significant (drop k b) ≤ significant b - k
unfolding significant
significant-drop zero b = omega arith
significant-drop (suc k) [] = omega arith
significant-drop (suc k) (x ∷ b) = ground (arith, significant-drop k b)

pub significant-take : (k : ℕ) (b : Bytes) → significant (take k b) ≤ significant b
unfolding significant
significant-take zero b = omega arith
significant-take (suc k) [] = omega arith
significant-take (suc k) (x ∷ b) = ground (arith, significant-take k b)

pub significant-padded : (n : ℕ) (b : Bytes) → significant (padded n b) ≤ significant b
unfolding significant
significant-padded zero b = omega arith
significant-padded (suc n) [] = ground (arith, significant-padded n [])
significant-padded (suc n) (x ∷ b) = ground (arith, significant-padded n b)

pub from_be_zeros : (b : Bytes) → significant b ≡ 0 → from_be b ≡ 0
unfolding significant from_be
from_be_zeros [] h = refl
from_be_zeros (x ∷ b) h =
    let z : x ≡ 0 = ground arith in
    let s : significant b ≡ 0 = ground arith in rw z (from_be_zeros b s)
