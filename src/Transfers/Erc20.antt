-- ===== src/Transfers/Erc20.antt =====
-- erc20.go: the Transfer events that move tokens from or to an account.
use safenet_arbitration_bot.Base.{
  ℕ, Bool, false, Option, none, some, List, [], ◌∷◌, ◌++◌, if◌then◌else◌, ◌==◌, from_be, length,
  drop, Error, Result, ok, err, wrapped,
}
use safenet_arbitration_bot.Keccak.{Keccak}
use safenet_arbitration_bot.Solabi.Encode.{event, encode_address}
use safenet_arbitration_bot.Ethrpc.Types.{Address, Hash, Log, LogFilter, Client}
use safenet_arbitration_bot.Ethrpc.Logs.{Scan, scan_logs}

pub record Transfer : Type 0 where
  pub block : ℕ
  pub tx_hash : Hash
  pub log_index : ℕ
  pub token : Address
  pub from : Address
  pub to : Address
  pub value : ℕ

-- The transfer that a log shows, by whether it was removed, and its topics.
unfoldable pub transfer_of : Log → Bool → List Hash → List Transfer
transfer_of log false (topic ∷ from ∷ to ∷ []) =
    if length log.payload == 32
    then record {
      block = log.block_number;
      tx_hash = log.transaction_hash;
      log_index = log.log_index;
      token = log.address;
      from = drop 12 from;
      to = drop 12 to;
      value = from_be log.payload;
    }
      ∷ []
    else []
transfer_of log _ _ = []

-- The loop of `scan` over the logs.
unfoldable pub transfers_in : List Log → List Transfer
transfers_in [] = []
transfers_in (log ∷ logs) = transfer_of log log.removed log.topics ++ transfers_in logs

-- The transfers of a scan that did not fail.
unfoldable pub transfers_of : Scan → Option Error → Result (List Transfer)
transfers_of found (some e) = err e
transfers_of found none = ok (transfers_in found.logs)

abbrev pub any_emitter : List (Option (List Hash)) → ℕ → ℕ → LogFilter
any_emitter topics from_block to_block = record {
  from_block = from_block;
  to_block = to_block;
  addresses = [];
  topics = topics;
}

-- `scan`.
unfoldable pub scan : Client → List (Option (List Hash)) → ℕ → ℕ → Result (List Transfer)
scan client topics from_block to_block =
    let found = scan_logs client (any_emitter topics from_block to_block) in
    transfers_of found found.failure

-- A topic for an address that is given, or for any.
abbrev pub address_topic : Option Address → Option (List Hash)
address_topic none = none
address_topic (some a) = some (encode_address a ∷ [])

-- The recipient's topic, if one is given.
abbrev pub last_topic : Option Address → List (Option (List Hash))
last_topic none = []
last_topic (some a) = some (encode_address a ∷ []) ∷ []

module _ ⦃k : Keccak⦄ where
  abbrev pub transfer_event : Hash
  transfer_event = event "Transfer(address,address,uint256)"

  -- `TransfersFrom`.
  unfoldable pub transfers_from : Client → Address → Option Address → ℕ → ℕ → Result (List Transfer)
  transfers_from client from to from_block to_block =
      wrapped "listing ERC-20 transfers from the account" (
        scan client (some (transfer_event ∷ []) ∷ some (encode_address from ∷ []) ∷ last_topic to)
          from_block to_block)

  -- `TransfersTo`.
  unfoldable pub transfers_to : Client → Address → Option Address → ℕ → ℕ → Result (List Transfer)
  transfers_to client to from from_block to_block =
      wrapped "listing ERC-20 transfers to the account" (
        scan client
          (some (transfer_event ∷ []) ∷ address_topic from ∷ some (encode_address to ∷ []) ∷ [])
          from_block to_block)
