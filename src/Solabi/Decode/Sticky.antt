-- ===== src/Solabi/Decode/Sticky.antt =====
-- The decoder's errors.
use safenet_arbitration_bot.Base.{
  ℕ, ◌+◌, ◌≤◌, ◌≡◌, refl, false, none, some, [], arith, Bytes, length, replicate, Error, take, drop,
}
use safenet_arbitration_bot.Solabi.Decode.{
  word, uint, uint64, zero_address, address, bool, bytes32, bytes, tuple,
}

-- Once a read has failed, every later read, at any data, returns the zero value of its type and
-- keeps the first error.
pub reads_sticky :
    (d : Bytes) (i : ℕ) (e : Error)
    → (uint d i (some e) ≡ (0, some e))
      × (uint64 d i (some e) ≡ (0, some e))
      × (address d i (some e) ≡ (zero_address, some e))
      × (bool d i (some e) ≡ (false, some e))
      × (bytes32 d i (some e) ≡ (replicate 32 0, some e))
      × (bytes d i (some e) ≡ ([], some e))
      × (tuple d i (some e) ≡ ([], some e))
unfolding word uint uint64 address bool bytes32 bytes tuple
reads_sticky d i e = (refl, refl, refl, refl, refl, refl, refl)

-- A word is read without an error exactly when its 32 bytes lie in the data, and then it is those.
pub word_in_bounds :
    (d : Bytes) (offset : ℕ)
    → ((word d offset none).1 ≡ none → offset + 32 ≤ length d)
      × (offset + 32 ≤ length d → word d offset none ≡ (some (take 32 (drop offset d)), none))
unfolding word
word_in_bounds d offset = (λ h. ground arith, λ h. ground arith)
