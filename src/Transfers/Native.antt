-- ===== src/Transfers/Native.antt =====
-- native.go: the native currency that a Safe received, from its SafeReceived events.
use safenet_arbitration_bot.Base.{
  ℕ, Bool, false, Option, none, some, List, [], ◌∷◌, ◌++◌, if◌then◌else◌, ◌==◌, from_be, length,
  drop, Error, wrap, Result, ok, err,
}
use safenet_arbitration_bot.Keccak.{Keccak}
use safenet_arbitration_bot.Solabi.Encode.{event}
use safenet_arbitration_bot.Ethrpc.Types.{Address, Hash, Log, LogFilter, Client}
use safenet_arbitration_bot.Ethrpc.Logs.{Scan, scan_logs}
use safenet_arbitration_bot.Transfers.Erc20.{last_topic}

pub record Transfer : Type 0 where
  pub block : ℕ
  pub tx_hash : Hash
  pub log_index : ℕ
  pub from : Address
  pub to : Address
  pub value : ℕ

-- The transfer to the Safe that a log shows, by whether it was removed, and its topics.
unfoldable pub received_of : Address → Log → Bool → List Hash → List Transfer
received_of safe log false (topic ∷ from ∷ []) =
    if length log.payload == 32
    then record {
      block = log.block_number;
      tx_hash = log.transaction_hash;
      log_index = log.log_index;
      from = drop 12 from;
      to = safe;
      value = from_be log.payload;
    }
      ∷ []
    else []
received_of safe log _ _ = []

-- The loop over the logs.
unfoldable pub received_in : Address → List Log → List Transfer
received_in safe [] = []
received_in safe (log ∷ logs) = received_of safe log log.removed log.topics ++ received_in safe logs

unfoldable pub received_by_scan : Address → Scan → Option Error → Result (List Transfer)
received_by_scan safe found (some e) = err (wrap "listing native transfers to the Safe" e)
received_by_scan safe found none = ok (received_in safe found.logs)

module _ ⦃k : Keccak⦄ where
  abbrev pub safe_received_event : Hash
  safe_received_event = event "SafeReceived(address,uint256)"

  abbrev pub received_filter : Address → Option Address → ℕ → ℕ → LogFilter
  received_filter safe from from_block to_block = record {
    from_block = from_block;
    to_block = to_block;
    addresses = safe ∷ [];
    topics = some (safe_received_event ∷ []) ∷ last_topic from;
  }

  -- `ReceivedBy`.
  unfoldable pub received_by : Client → Address → Option Address → ℕ → ℕ → Result (List Transfer)
  received_by client safe from from_block to_block =
      let found = scan_logs client (received_filter safe from from_block to_block) in
      received_by_scan safe found found.failure
