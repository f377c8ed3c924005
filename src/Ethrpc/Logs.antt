-- ===== src/Ethrpc/Logs.antt =====
-- logs.go: `ScanLogs`.
pub mod Complete
pub mod Filtered
use safenet_arbitration_bot.Base.{
  ℕ, zero, suc, ◌+◌, ◌-◌, ◌/◌, ◌%◌, ◌^◌, min, max, Bool, true, false, ◌&&◌, Option, none, some,
  List, [], ◌++◌, if◌then◌else◌, ltb, leb, ◌==◌, Bytes, Error, Result, ok, err, fuel,
}
use safenet_arbitration_bot.Ethrpc.Types.{Client, Log, LogFilter, as_rpc}

abbrev pub max_log_range : ℕ
max_log_range = 10000

abbrev pub min_log_range : ℕ
min_log_range = 50

-- What the iterator yields: the logs, and the error that it stops at, if any.
pub record Scan : Type 0 where
  pub logs : List Log
  pub failure : Option Error

-- Whether the error is or wraps a JSON-RPC error.
abbrev pub is_rpc : Error → Bool
is_rpc e = elim (as_rpc e) [ none ↦ false | some payload ↦ true ]

abbrev pub chunk : LogFilter → ℕ → ℕ → LogFilter
chunk filter from to = record filter { from_block = from; to_block = to }

abbrev pub then_logs : List Log → Scan → Scan
then_logs logs rest = record { logs = logs ++ rest.logs; failure = rest.failure }

-- The last block of the next chunk; the sum is a uint64.
abbrev pub chunk_end : LogFilter → ℕ → ℕ → ℕ
chunk_end filter step from = min ((from + (step - 1)) % 2 ^ 64) filter.to_block

module _ (get_logs : LogFilter → Result (List Log)) (filter : LogFilter) where
  unfoldable pub scan_loop : ℕ → ℕ → ℕ → Scan
  scan_loop zero step from = record { logs = []; failure = some fuel }
  scan_loop (suc f) step from = elim (leb from filter.to_block) [
    | false ↦ record { logs = []; failure = none }
    | true ↦ elim (get_logs (chunk filter from (chunk_end filter step from))) [
      | err e ↦ elim (is_rpc e && ltb min_log_range step) [
        | true ↦ scan_loop f (max (step / 2) min_log_range) from
        | false ↦ record { logs = []; failure = some e }
      ]
      | ok logs ↦ elim (chunk_end filter step from == filter.to_block) [
        | true ↦ record { logs = logs; failure = none }
        | false ↦ then_logs logs (scan_loop f step (chunk_end filter step from + 1))
      ]
    ]
  ]

-- `ScanLogs`. A round halves the step, which it does 8 times at most, or passes a block.
unfoldable pub scan_logs : Client → LogFilter → Scan
unfolding scan_loop
scan_logs c filter =
    scan_loop c.get_logs filter (10 + (filter.to_block + 1 - filter.from_block)) max_log_range
      filter.from_block
