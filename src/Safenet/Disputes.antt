-- ===== src/Safenet/Disputes.antt =====
-- safenet.go: `pending`, with `callUint64` and what it calls.
pub mod Sorted
pub mod Open
use safenet_arbitration_bot.Base.{
  ℕ, ◌-◌, min, Bool, true, false, not, ◌||◌, Option, none, some, List, [], ◌∷◌, ◌++◌, String,
  if◌then◌else◌, leb, ◌==◌, Bytes, bytes_eq, Error, message, wrap, Result, ok, err, wrapped, ◌>>=◌,
}
use safenet_arbitration_bot.Keccak.{Keccak}
use safenet_arbitration_bot.Solabi.Decode.{uint64, address, bytes}
use safenet_arbitration_bot.Solabi.Encode.{event, selector, calldata, nil}
use safenet_arbitration_bot.Ethrpc.Types.{Address, Hash, Log, LogFilter, CallRequest, Client}
use safenet_arbitration_bot.Ethrpc.Logs.{scan_logs}
use safenet_arbitration_bot.Safenet.Types.{Dispute}
use safenet_arbitration_bot.Safenet.Votes.{decoded}

-- A call of a function without arguments: `session.call`.
unfoldable pub call : Client → Address → ℕ → Bytes → Result Bytes
call client oracle block sel = do
  input ← calldata sel nil
  wrapped "calling SentinelOracle" (client.call (record { to = oracle; input = input }) block)

unfoldable pub call_uint64 : Client → Address → ℕ → Bytes → Result ℕ
call_uint64 client oracle block sel = do
  d ← call client oracle block sel
  decoded "calling SentinelOracle" (uint64 d 0 none)

unfoldable pub call_address : Client → Address → ℕ → Bytes → Result Address
call_address client oracle block sel = do
  d ← call client oracle block sel
  decoded "calling SentinelOracle" (address d 0 none)

unfoldable pub call_string : Client → Address → ℕ → Bytes → Result Bytes
call_string client oracle block sel = do
  d ← call client oracle block sel
  decoded "calling SentinelOracle" (bytes d 0 none)

-- The disputes and the settled requests of the loop of `pending`.
pub record Docket : Type 0 where
  pub disputes : List Dispute
  pub settled : List Hash

-- A lookup in the map of the settled requests.
unfoldable pub is_settled : List Hash → Hash → Bool
is_settled [] id = false
is_settled (s ∷ settled) id = bytes_eq s id || is_settled settled id

-- slices.DeleteFunc of the settled disputes.
unfoldable pub delete_settled : List Hash → List Dispute → List Dispute
delete_settled settled [] = []
delete_settled settled (d ∷ ds) =
    let rest = delete_settled settled ds in
    if is_settled settled d.request_id then rest else d ∷ rest

-- slices.SortStableFunc by the deadline.
unfoldable pub insert : Dispute → List Dispute → List Dispute
insert d [] = d ∷ []
insert d (e ∷ es) =
    let rest = insert d es in if leb d.deadline e.deadline then d ∷ e ∷ es else e ∷ rest

unfoldable pub sort_disputes : List Dispute → List Dispute
sort_disputes [] = []
sort_disputes (d ∷ ds) = insert d (sort_disputes ds)

module _ ⦃k : Keccak⦄ where
  abbrev pub dispute_triggered_event : Hash
  dispute_triggered_event = event "DisputeTriggered(bytes32,uint64)"

  abbrev pub dispute_resolved_event : Hash
  dispute_resolved_event = event "DisputeResolved(bytes32,uint8,uint128,string)"

  abbrev pub dispute_out_of_scope_event : Hash
  dispute_out_of_scope_event = event "DisputeOutOfScope(bytes32,string)"

  abbrev pub arbitration_timed_out_event : Hash
  arbitration_timed_out_event = event "ArbitrationTimedOut(bytes32)"

  -- `arbitrationEvents`.
  abbrev pub arbitration_events : List Hash
  arbitration_events =
      dispute_triggered_event ∷ dispute_resolved_event ∷ dispute_out_of_scope_event
      ∷ arbitration_timed_out_event ∷ []

  abbrev pub arbitration_timeout_selector : Bytes
  arbitration_timeout_selector = selector "ARBITRATION_TIMEOUT()"

  -- The body of the loop, for a log that was not removed.
  unfoldable pub docket_log : Docket → List Hash → Bytes → ℕ → Result Docket
  docket_log k₀ (topic ∷ id ∷ []) d block =
      if not (bytes_eq topic dispute_triggered_event)
      then ok (record k₀ { settled = id ∷ k₀.settled })
      else do
        deadline ← decoded "decoding DisputeTriggered" (uint64 d 0 none)
        ok (record k₀ {
          disputes =
              k₀.disputes
              ++ record { request_id = id; frozen_block = block; deadline = deadline } ∷ [];
        })
  docket_log k₀ _ d block = err (message "listing disputes: wrong number of topics")

  unfoldable pub docket_logs : Docket → List Log → Option Error → Result Docket
  docket_logs k₀ [] none = ok k₀
  docket_logs k₀ [] (some e) = err (wrap "listing disputes" e)
  docket_logs k₀ (log ∷ logs) failure = elim log.removed [
    | true ↦ docket_logs k₀ logs failure
    | false ↦ do
      next ← docket_log k₀ log.topics log.payload log.block_number
      docket_logs next logs failure
  ]

  abbrev pub dispute_filter : Address → ℕ → ℕ → LogFilter
  dispute_filter oracle block timeout = record {
    from_block = block - min timeout block;
    to_block = block;
    addresses = oracle ∷ [];
    topics = some arbitration_events ∷ [];
  }

  -- `session.pending`, of a session at the block.
  unfoldable pub pending : Client → Address → ℕ → Result (List Dispute)
  pending client oracle block = do
    timeout ← call_uint64 client oracle block arbitration_timeout_selector
    let scan = scan_logs client (dispute_filter oracle block timeout)
    docket ← docket_logs (record { disputes = []; settled = [] }) scan.logs scan.failure
    ok (sort_disputes (delete_settled docket.settled docket.disputes))
