-- ===== src/Executions/Finder.antt =====
-- executions.go: `Find`.
use safenet_arbitration_bot.Base.{
  ℕ, Option, none, some, List, [], ◌∷◌, length, Error, wrap, Result, ok, err,
}
use safenet_arbitration_bot.Keccak.{Keccak}
use safenet_arbitration_bot.Ethrpc.Types.{Address, Hash, Log, LogFilter}
use safenet_arbitration_bot.Ethrpc.Logs.{scan_logs}
use safenet_arbitration_bot.Safenet.Types.{SafeTransaction}
use safenet_arbitration_bot.Executions.Types.{Execution}
use safenet_arbitration_bot.Executions.Decode.{
  execution_success_event, execution_failure_event, multi_sig_event,
}
use safenet_arbitration_bot.Executions.Gather.{Finder, gather}
use safenet_arbitration_bot.Executions.Decoder.{Memo, fresh, Decoded, decode}

abbrev pub with_decoded : Execution → Decoded → Execution
with_decoded e d = record e { source = d.0; transaction = d.1 }

module _ ⦃k : Keccak⦄ (f : Finder) (safe : Address) where
  -- The loop over the executions.
  unfoldable pub decode_all :
      ℕ → List (Hash × SafeTransaction) → List Execution → Memo → List Execution × Memo
  decode_all to events [] m = ([], m)
  decode_all to events (e ∷ es) m =
      let (d, m') = decode f safe to events (length (e ∷ es)) e m in
      let (rest, m'') = decode_all to events es m' in (with_decoded e d ∷ rest, m'')

  abbrev pub find_filter : ℕ → ℕ → LogFilter
  find_filter from to = record {
    from_block = from;
    to_block = to;
    addresses = safe ∷ [];
    topics = some (execution_success_event ∷ execution_failure_event ∷ multi_sig_event ∷ []) ∷ [];
  }

  -- The end of `Find`, once the logs are read, or reading them has failed.
  unfoldable pub find_in : ℕ → Option Error → List Log → Result (List Execution × List Error)
  find_in to (some e) logs = err (wrap "listing Safe transactions" e)
  find_in to none logs =
      let g = gather f safe (record { executions = []; events = [] }) logs in
      let (es, m) = decode_all to g.events g.executions fresh in ok (es, m.warnings)

  -- `Find`, with what Warn was called with.
  unfoldable pub find : ℕ → ℕ → Result (List Execution × List Error)
  unfolding find_in
  find from to =
      let scan = scan_logs f.eth (find_filter from to) in find_in to scan.failure scan.logs
