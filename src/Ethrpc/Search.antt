-- ===== src/Ethrpc/Search.antt =====
-- search.go: `SearchBlock` and `estimate`.
pub mod Correct
use safenet_arbitration_bot.Base.{
  ℕ, zero, suc, ◌+◌, ◌-◌, ◌*◌, ◌/◌, min, max, Bool, true, false, not, ◌&&◌, ◌||◌, Option, none,
  some, if◌then◌else◌, ltb, leb, ◌==◌, Result, ok, err, fuel, message, fail_if, ◌>>=◌, ◌>>◌,
}
use safenet_arbitration_bot.Ethrpc.Types.{Block, Client}

-- bits.Len64 of a number below 2 ^ f.
pub bit_length : ℕ → ℕ → ℕ
bit_length zero n = 0
bit_length (suc f) n = let rest = bit_length f (n / 2) in if n == 0 then 0 else suc rest

-- The float64 arithmetic at the end of `estimate`: the number of the block that would be at the
-- time if the block time were steady between two blocks. Nothing is assumed of it.
abbrev pub Extrapolation : Type 0
Extrapolation = Block → Block → ℕ → ℕ

module _ (extrapolate : Extrapolation) (t : ℕ) where
  pub estimate : Block → Block → Option ℕ
  estimate a b = if a.timestamp == b.timestamp then none else some (extrapolate a b t)

  or_zero : Option ℕ → ℕ
  or_zero none = 0
  or_zero (some n) = n

  -- The estimate from the last two blocks, or from `lo` and `hi` if that is out of their range.
  in_range : Block → Block → Option ℕ → ℕ
  in_range lo hi none = or_zero (estimate lo hi)
  in_range lo hi (some n) =
      if ltb n lo.number || ltb hi.number n then or_zero (estimate lo hi) else n

  -- The number of the block that a round of the search probes.
  pub probe : (lo hi prev last : Block) → ℕ → ℕ → ℕ
  probe lo hi prev last probes budget =
      let guess = in_range lo hi (estimate prev last) in
      let n = if leb budget probes then lo.number + (hi.number - lo.number) / 2 else guess in
      min (max n (lo.number + 1)) (hi.number - 1)

  pub search_loop : (ℕ → Result Block) → ℕ → (lo hi prev last : Block) → ℕ → ℕ → Result Block
  search_loop get zero lo hi prev last probes budget = err fuel
  search_loop get (suc f) lo hi prev last probes budget = elim (ltb 1 (hi.number - lo.number)) [
    | false ↦ ok lo
    | true ↦ do
      b ← get (probe lo hi prev last probes budget)
      let before = ltb b.timestamp t
      search_loop get f (if before then b else lo) (if before then hi else b) last b (probes + 1)
          budget
  ]

-- `SearchBlock`. The rounds are at most twice the bits of the range, and one that ends it.
pub search_block : Extrapolation → Client → ℕ → Result Block
unfolding search_loop bit_length
search_block extrapolate c t = do
  latest ← c.block_number
  hi ← c.get_block_by_number latest
  fail_if (ltb hi.timestamp t) "searching for the last block: the latest block is before the time"
  lo ← c.get_block_by_number 0
  fail_if (not (ltb lo.timestamp t))
      "searching for the last block: the genesis block is not before the time"
  let budget = bit_length 64 (hi.number - lo.number)
  search_loop extrapolate t c.get_block_by_number (budget + budget + 1) lo hi lo hi 0 budget
