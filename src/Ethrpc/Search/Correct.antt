-- ===== src/Ethrpc/Search/Correct.antt =====
-- `SearchBlock` finds the last block before the time, on any chain, for any float arithmetic.
use native.Mathlib.Nat.{pow-suc}
use safenet_arbitration_bot.Base.{
  ℕ, zero, suc, ◌+◌, ◌-◌, ◌/◌, ◌^◌, ◌<◌, ◌≤◌, ◌≡◌, ◌↔◌, ◌∙◌, true, false, if◌then◌else◌, leb, ltb,
  ltb→lt, le→leb, leb→le, lt→ltb, Result, ok, arith, Bool-cases, inl, inr, ◌==◌,
}
use safenet_arbitration_bot.Ethrpc.Types.{Block, Client}
use safenet_arbitration_bot.Ethrpc.Search.{
  bit_length, Extrapolation, probe, search_loop, search_block,
}

lt-two-pow-bit_length : (f n : ℕ) → n < 2 ^ f → n < 2 ^ bit_length f n
unfolding bit_length
lt-two-pow-bit_length zero n h = h
lt-two-pow-bit_length (suc f) n h = elim (Bool-cases (n == 0)) [
  | inl z ↦ rw z (ground arith)
  | inr p ↦
      rw (p, pow-suc 2 (bit_length f (n / 2)))
        (omega (arith, lt-two-pow-bit_length f (n / 2) (omega (arith, pow-suc 2 f))))
]

-- What a node says of a chain: its blocks up to the latest, by number, in order of time.
pub record IsChain (c : Client) (blocks : ℕ → Block) (latest : ℕ) : Type 0 where
  pub latest_number : c.block_number ≡ ok latest
  pub answers : (n : ℕ) → n ≤ latest → c.get_block_by_number n ≡ ok (blocks n)
  pub numbers : (n : ℕ) → (blocks n).number ≡ n
  pub ordered : (m n : ℕ) → m ≤ n → (blocks m).timestamp ≤ (blocks n).timestamp

-- The two ways of a round.
module _ (extrapolate : Extrapolation) (t : ℕ) (get : ℕ → Result Block) (f : ℕ)
    (lo hi prev last : Block) (probes budget : ℕ) where
  loop_narrow :
      ltb 1 (hi.number - lo.number) ≡ false
      → search_loop extrapolate t get (suc f) lo hi prev last probes budget ≡ ok lo
  unfolding search_loop
  loop_narrow h = rw (h, search_loop)

  loop_wide :
      (b : Block)
      → ltb 1 (hi.number - lo.number) ≡ true
      → get (probe extrapolate t lo hi prev last probes budget) ≡ ok b
      → search_loop extrapolate t get (suc f) lo hi prev last probes budget
        ≡ search_loop extrapolate t get f
            (if ltb b.timestamp t then b else lo)
            (if ltb b.timestamp t then hi else b)
            last
            b
            (probes + 1)
            budget
  unfolding search_loop
  loop_wide b h e = rw (h, e, search_loop)

module _ (extrapolate : Extrapolation) (c : Client) (blocks : ℕ → Block) (latest : ℕ)
    (chain : IsChain c blocks latest) (t : ℕ) where
  -- A probe lies between the ends, and halves the range once the budget is spent.
  module _ (i j : ℕ) (prev last : Block) (probes budget : ℕ) (wide : 1 < j - i) where
    abbrev probed : ℕ
    probed = probe extrapolate t (blocks i) (blocks j) prev last probes budget

    probe_bounds : (i < probed) × (probed < j)
    unfolding probe
    probe_bounds = rw (chain.numbers i, chain.numbers j) (omega arith)

    probe_halves : budget ≤ probes → probed ≡ i + (j - i) / 2
    unfolding probe
    probe_halves p = rw (chain.numbers i, chain.numbers j, le→leb budget probes p) (omega arith)

    -- The range after the probe, and the rounds that are then left.
    shrinks :
        (m f : ℕ)
        → j - i ≤ 2 ^ m
        → (budget - probes) + m < suc f
        → (m' : ℕ) × (j - probed ≤ 2 ^ m')
          × (probed - i ≤ 2 ^ m')
          × ((budget - (probes + 1)) + m' < f)
    shrinks zero f g fl = absurd (omega arith)
    shrinks (suc m) f g fl = elim (Bool-cases (ltb probes budget)) [
      | inl early ↦
          let e = ltb→lt probes budget early in
          let b = probe_bounds in (suc m, omega arith, omega arith, omega arith)
      | inr late ↦
          let h = probe_halves (ground arith) in
          let p = pow-suc 2 m in (m, omega arith, omega arith, ground arith)
    ]

  -- The block that the search looks for.
  abbrev IsLastBefore : ℕ → Type 0
  IsLastBefore k = ((blocks k).timestamp < t) × (t ≤ (blocks (suc k)).timestamp)

  abbrev Found : Result Block → Type 0
  Found r = (k : ℕ) × (r ≡ ok (blocks k)) × (k < latest) × (IsLastBefore k)

  loop :
      (f m i j : ℕ) (prev last : Block) (probes budget : ℕ)
      → i < j
      → j ≤ latest
      → (blocks i).timestamp < t
      → t ≤ (blocks j).timestamp
      → j - i ≤ 2 ^ m
      → (budget - probes) + m < f
      → Found (
          search_loop extrapolate t c.get_block_by_number f
            (blocks i)
            (blocks j)
            prev
            last
            probes
            budget)
  unfolding search_loop
  loop zero m i j prev last probes budget ij jl bi bj g fl = absurd (omega arith)
  loop (suc f) m i j prev last probes budget ij jl bi bj g fl =
      let get = c.get_block_by_number in
      elim (Bool-cases (ltb 1 ((blocks j).number - (blocks i).number))) [
        | inr narrow ↦
            let next : suc i ≡ j = ground (arith, chain.numbers i, chain.numbers j) in
            (
              i,
              loop_narrow extrapolate t get f (blocks i) (blocks j) prev last probes budget narrow,
              omega arith,
              (bi, rw next bj),
            )
        | inl wide ↦
            let w : 1 < j - i = ground (arith, chain.numbers i, chain.numbers j) in
            let n = probed i j prev last probes budget w in
            let b = probe_bounds i j prev last probes budget w in
            let (m', up, down, left) = shrinks i j prev last probes budget w m f g fl in
            let round =
              loop_wide extrapolate t get f (blocks i) (blocks j) prev last probes budget (blocks n)
                wide (chain.answers n (omega arith)) in
            rw round (elim (Bool-cases (ltb (blocks n).timestamp t)) [
              | inl before ↦ rw before (
                  loop f m' n j last (blocks n) (probes + 1) budget b.1 jl (ltb→lt _ _ before) bj up
                    left)
              | inr after ↦ rw after (
                  loop f m' i n last (blocks n) (probes + 1) budget b.0 (omega arith) bi
                    (ground arith) down left)
            ])
      ]

  -- The blocks before the time are those up to a block that is, if the next one is not.
  IsLastBefore-iff : (k : ℕ) → IsLastBefore k → (n : ℕ) → ((blocks n).timestamp < t) ↔ (n ≤ k)
  IsLastBefore-iff k l n = (
    λ h. elim (Bool-cases (leb n k)) [
      | inl le ↦ leb→le n k le
      | inr gt ↦ absurd (omega (arith, chain.ordered (suc k) n (ground arith)))
    ],
    λ h. omega (arith, chain.ordered n k h),
  )

  abbrev budget_of : ℕ
  budget_of = bit_length 64 ((blocks latest).number - (blocks 0).number)

  -- The search passes its guards, and comes to the loop.
  search_block-loop :
      ltb (blocks latest).timestamp t ≡ false
      → ltb (blocks 0).timestamp t ≡ true
      → search_block extrapolate c t
        ≡ search_loop extrapolate t c.get_block_by_number
            (budget_of + budget_of + 1)
            (blocks 0)
            (blocks latest)
            (blocks 0)
            (blocks latest)
            0
            budget_of
  unfolding search_block
  search_block-loop late early =
      let last = chain.answers latest (omega arith) in
      let first = chain.answers 0 (omega arith) in
      simp (chain.latest_number, last, late, first, early)

  -- With the genesis block before the time and the latest block not, and fewer than 2^64 blocks:
  -- the search returns a block within its rounds, and the blocks before the time are those up to
  -- and including it.
  pub search_block_lem :
      (blocks 0).timestamp < t
      → t ≤ (blocks latest).timestamp
      → latest < 2 ^ 64
      → (k : ℕ) × (search_block extrapolate c t ≡ ok (blocks k))
        × ((n : ℕ) → ((blocks n).timestamp < t) ↔ (n ≤ k))
  unfolding search_block
  search_block_lem genesis end small =
      let lo = blocks 0 in
      let hi = blocks latest in
      let positive : 0 < latest = elim (Bool-cases (latest == 0)) [
        | inl z ↦ let e : latest ≡ 0 = ground arith in absurd (omega (arith, rw e at end))
        | inr p ↦ ground arith
      ] in
      let top = chain.numbers latest in
      let bottom = chain.numbers 0 in
      let bits = lt-two-pow-bit_length 64 (hi.number - lo.number) (omega (arith, top, bottom)) in
      let (k, found, _, is_last) =
        loop (budget_of + budget_of + 1) budget_of 0 latest lo hi 0 budget_of positive (omega arith)
          genesis end (omega (arith, top, bottom)) (omega arith) in
      (
        k,
        search_block-loop (ground arith) (lt→ltb lo.timestamp t genesis) ∙ found,
        IsLastBefore-iff k is_last,
      )
