-- ===== src/Ethrpc/Logs/Complete.antt =====
-- `ScanLogs` yields the logs of the whole range, however the node limits a request.
use native.Mathlib.Nat.{pow-suc}
use safenet_arbitration_bot.Base.{
  ℕ, zero, suc, ◌+◌, ◌-◌, ◌*◌, ◌/◌, ◌^◌, ◌<◌, ◌≤◌, max, ◌≡◌, refl, ap, ◌∙◌, ◌⊎◌, inl, inr, true,
  false, ◌&&◌, none, some, List, [], ◌++◌, ltb, le→leb, ==_iff, ◌==◌, Error, Result, ok, err, arith,
  Bool-cases,
}
use safenet_arbitration_bot.Ethrpc.Types.{Client, Log, LogFilter}
use safenet_arbitration_bot.Ethrpc.Logs.{
  max_log_range, min_log_range, Scan, is_rpc, chunk, chunk_end, then_logs, scan_loop, scan_logs,
}

two_pow_pos : (m : ℕ) → 0 < 2 ^ m
two_pow_pos zero = omega arith
two_pow_pos (suc m) = omega (arith, two_pow_pos m, pow-suc 2 m)

-- Halving the step uses up a power of two.
narrower :
    (m step : ℕ)
    → min_log_range < step
    → step ≤ min_log_range * 2 ^ m
    → (m' : ℕ) × (m ≡ suc m') × (max (step / 2) min_log_range ≤ min_log_range * 2 ^ m')
narrower zero step h g = absurd (omega arith)
narrower (suc m) step h g = let p = pow-suc 2 m in (m, refl, omega (arith, two_pow_pos m))

-- `between a b` are the chain's logs that match the filter in the blocks from `a` up to, and not
-- including, `b`; the node answers a request with those of its range, or with an error.
pub record Serves (get_logs : LogFilter → Result (List Log)) (filter : LogFilter)
    (between : ℕ → ℕ → List Log) : Type 0 where
  pub between_self : (a : ℕ) → between a a ≡ []
  pub between_split : (a b c : ℕ) → a ≤ b → b ≤ c → between a c ≡ between a b ++ between b c
  pub answers :
      (a b : ℕ)
      → (get_logs (chunk filter a b) ≡ ok (between a (b + 1)))
        ⊎ ((e : Error) × (get_logs (chunk filter a b) ≡ err e))

module _ (get_logs : LogFilter → Result (List Log)) (filter : LogFilter) (f step from : ℕ)
    (within : from ≤ filter.to_block) where
  abbrev end : ℕ
  end = chunk_end filter step from

  round_last :
      (logs : List Log)
      → get_logs (chunk filter from end) ≡ ok logs
      → (end == filter.to_block) ≡ true
      → scan_loop get_logs filter (suc f) step from ≡ record { logs = logs; failure = none }
  unfolding scan_loop
  round_last logs h e = rw (le→leb from filter.to_block within, h, e, scan_loop)

  round_more :
      (logs : List Log)
      → get_logs (chunk filter from end) ≡ ok logs
      → (end == filter.to_block) ≡ false
      → scan_loop get_logs filter (suc f) step from
        ≡ then_logs logs (scan_loop get_logs filter f step (end + 1))
  unfolding scan_loop
  round_more logs h e = rw (le→leb from filter.to_block within, h, e, scan_loop)

  round_narrow :
      (e : Error)
      → get_logs (chunk filter from end) ≡ err e
      → (is_rpc e && ltb min_log_range step) ≡ true
      → scan_loop get_logs filter (suc f) step from
        ≡ scan_loop get_logs filter f (max (step / 2) min_log_range) from
  unfolding scan_loop
  round_narrow e h b = rw (le→leb from filter.to_block within, h, b, scan_loop)

  round_fail :
      (e : Error)
      → get_logs (chunk filter from end) ≡ err e
      → (is_rpc e && ltb min_log_range step) ≡ false
      → scan_loop get_logs filter (suc f) step from ≡ record { logs = []; failure = some e }
  unfolding scan_loop
  round_fail e h b = rw (le→leb from filter.to_block within, h, b, scan_loop)

module _ (get_logs : LogFilter → Result (List Log)) (filter : LogFilter)
    (between : ℕ → ℕ → List Log) (serves : Serves get_logs filter between) where
  -- The scan stopped at the error of a request for the blocks from `at` to `last`: those before
  -- `at` were yielded. The error is no JSON-RPC error, or the range was of the smallest size.
  pub record Stopped (r : Scan) (from : ℕ) : Type 0 where
    pub at : ℕ
    pub last : ℕ
    pub error : Error
    pub after : from ≤ at
    pub before : at ≤ filter.to_block
    pub refused : get_logs (chunk filter at last) ≡ err error
    pub final : (is_rpc error ≡ false) ⊎ (last < at + min_log_range)
    pub yields : r ≡ record { logs = between from at; failure = some error }

  abbrev pub Outcome : Scan → ℕ → Type 0
  Outcome r from =
      (r ≡ record { logs = between from (filter.to_block + 1); failure = none }) ⊎ Stopped r from

  then-Outcome :
      (from next : ℕ) (r : Scan)
      → from ≤ next
      → next ≤ filter.to_block
      → Outcome r next
      → Outcome (then_logs (between from next) r) from
  then-Outcome from next r le up (inl e) =
      inl (rw (e, serves.between_split from next (filter.to_block + 1) le (omega arith)))
  then-Outcome from next r le up (inr s) = inr (record {
    at = s.at;
    last = s.last;
    error = s.error;
    after = omega (arith, s.after);
    before = s.before;
    refused = s.refused;
    final = s.final;
    yields = rw (s.yields, serves.between_split from next s.at le s.after);
  })

  -- After an error that the scan does not retry.
  stop-Outcome :
      (f step from : ℕ) (e : Error)
      → from ≤ filter.to_block
      → filter.to_block + max_log_range < 2 ^ 64
      → 0 < step
      → step ≤ max_log_range
      → get_logs (chunk filter from (chunk_end filter step from)) ≡ err e
      → (is_rpc e && ltb min_log_range step) ≡ false
      → Stopped (scan_loop get_logs filter (suc f) step from) from
  stop-Outcome f step from e within small pos top answer b = record {
    at = from;
    last = chunk_end filter step from;
    error = e;
    after = omega arith;
    before = within;
    refused = answer;
    final = elim (Bool-cases (is_rpc e)) [
      | inl rpc ↦ inr (smallest (rw rpc at b))
      | inr other ↦ inl other
    ];
    yields =
        round_fail get_logs filter f step from within e answer b ∙ rw (serves.between_self from);
  }
    where
      smallest : ltb min_log_range step ≡ false → chunk_end filter step from < from + min_log_range
      smallest h = ground arith

  loop-Outcome :
      (f m step from : ℕ)
      → from ≤ filter.to_block
      → filter.to_block + max_log_range < 2 ^ 64
      → 0 < step
      → step ≤ max_log_range
      → step ≤ min_log_range * 2 ^ m
      → m + (filter.to_block + 1 - from) < f
      → Outcome (scan_loop get_logs filter f step from) from
  loop-Outcome zero m step from within small pos top g fl = absurd (omega arith)
  loop-Outcome (suc f) m step from within small pos top g fl =
      let last = chunk_end filter step from in
      elim (serves.answers from last) [
        | inl answer ↦ elim (Bool-cases (last == filter.to_block)) [
          | inl done ↦ inl (
              round_last get_logs filter f step from within _ answer done
              ∙ ap (λ (k : ℕ). record { logs = between from (k + 1); failure = none })
                  ((==_iff last filter.to_block).0 done))
          | inr more ↦
              let up : suc last ≤ filter.to_block = ground arith in
              rw (round_more get_logs filter f step from within _ answer more) (
                then-Outcome from (last + 1) _ (omega arith) (omega arith)
                  (loop-Outcome f m step (last + 1) (omega arith) small pos top g (omega arith)))
        ]
        | inr (e, answer) ↦ elim (Bool-cases (is_rpc e && ltb min_log_range step)) [
          | inl narrow ↦
              let (m', shorter, fits) = narrower m step (ground arith) g in
              rw (round_narrow get_logs filter f step from within e answer narrow) (
                loop-Outcome f m' (max (step / 2) min_log_range) from within small (omega arith)
                  (omega arith) fits (omega arith))
          | inr final ↦ inr (stop-Outcome f step from e within small pos top answer final)
        ]
      ]

  -- For a range that is not empty, with blocks well below 2^64: the scan yields the logs of the
  -- whole range and no error, or those before a request that the node refused: with an error that
  -- is no JSON-RPC error, or for a range of at most `min_log_range` blocks.
  pub scan_logs-Outcome :
      (c : Client)
      → c.get_logs ≡ get_logs
      → filter.from_block ≤ filter.to_block
      → filter.to_block + max_log_range < 2 ^ 64
      → Outcome (scan_logs c filter) filter.from_block
  unfolding scan_logs
  scan_logs-Outcome c e within small = rw e (
      loop-Outcome (10 + (filter.to_block + 1 - filter.from_block)) 8 max_log_range
        filter.from_block within small (omega arith) (omega arith) (omega arith) (omega arith))
