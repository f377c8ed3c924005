-- ===== src/Executions/Gather.antt =====
-- executions.go: `Finder`, and the loop of `Find` over the logs.
use safenet_arbitration_bot.Base.{
  Bool, true, false, Option, none, some, List, [], ◌∷◌, ◌++◌, if◌then◌else◌, bytes_eq, Result,
}
use safenet_arbitration_bot.Keccak.{Keccak}
use safenet_arbitration_bot.Ethrpc.Types.{Address, Hash, Log, Client}
use safenet_arbitration_bot.Safenet.Types.{SafeTransaction}
use safenet_arbitration_bot.Executions.Types.{Execution, CallFrame}
use safenet_arbitration_bot.Executions.Decode.{multi_sig_event, decode_execution, decode_event}

-- `trace` is what the node answers to debug_traceTransaction with the callTracer, and `service` the
-- Safe Transaction Service's Transaction, if there is a service.
pub record Finder : Type 0 where
  pub eth : Client
  pub trace : Hash → Result CallFrame
  pub service : Option (Hash → Result SafeTransaction)

-- What the loop of `Find` gathers. The map `events` is the list of its entries, in the order in which
-- they were appended: the list at a hash is that of the entries with the hash.
pub record Gathered : Type 0 where
  pub executions : List Execution
  pub events : List (Hash × SafeTransaction)

abbrev pub add_event : Gathered → Hash → Option SafeTransaction → Gathered
add_event g h none = g
add_event g h (some tx) = record g { events = g.events ++ (h, tx) ∷ [] }

abbrev pub add_execution : Gathered → Option Execution → Gathered
add_execution g none = g
add_execution g (some e) = record g { executions = g.executions ++ e ∷ [] }

module _ ⦃k : Keccak⦄ (f : Finder) (safe : Address) where
  -- The body of the loop over the logs.
  unfoldable pub gather_log : Gathered → Log → Bool → List Hash → Gathered
  gather_log g log true topics = g
  gather_log g log false [] = g
  gather_log g log false (topic ∷ topics) =
      if bytes_eq topic multi_sig_event
      then add_event g log.transaction_hash (decode_event f.eth.chain_id safe log.payload)
      else add_execution g (decode_execution log (topic ∷ topics))

  unfoldable pub gather : Gathered → List Log → Gathered
  gather g [] = g
  gather g (log ∷ logs) = gather (gather_log g log log.removed log.topics) logs
