-- ===== src/Executions/Decode.antt =====
-- executions.go: `decodeExecution`, `decodeEvent`, `decodeFields`, `decodeCall` and `matches`.
use safenet_arbitration_bot.Base.{
  ℤ, pos, negsuc, ℕ, ◌%◌, ◌^◌, Bool, true, false, not, ◌&&◌, ◌||◌, Option, none, some, List, [],
  ◌∷◌, String, if◌then◌else◌, ltb, ◌==◌, Bytes, bytes_eq, from_be, length, take, drop, Error,
  Result, ok, err,
}
use safenet_arbitration_bot.Keccak.{Keccak}
use safenet_arbitration_bot.Solabi.Decode.{Read, ◌>>=◌, pure, uint, uint64, address, bytes}
use safenet_arbitration_bot.Solabi.Encode.{event, selector}
use safenet_arbitration_bot.Ethrpc.Types.{Address, Hash, Log}
use safenet_arbitration_bot.Safenet.Types.{SafeTransaction, Operation, operation_delegate_call}
use safenet_arbitration_bot.Safenet.Proposals.{transaction_hash}
use safenet_arbitration_bot.Executions.Types.{Execution, unknown}

abbrev pub exec_transaction_signature : String
exec_transaction_signature =
    "execTransaction(address,uint256,bytes,uint8,uint256,uint256,uint256,address,address,bytes)"

module _ ⦃k : Keccak⦄ where
  abbrev pub execution_success_event : Hash
  execution_success_event = event "ExecutionSuccess(bytes32,uint256)"

  abbrev pub execution_failure_event : Hash
  execution_failure_event = event "ExecutionFailure(bytes32,uint256)"

  abbrev pub multi_sig_event : Hash
  multi_sig_event =
      event
        "SafeMultiSigTransaction(address,uint256,bytes,uint8,uint256,uint256,uint256,address,address,bytes,bytes)"

  abbrev pub exec_transaction : Bytes
  exec_transaction = selector exec_transaction_signature

  abbrev pub nonce_selector : Bytes
  nonce_selector = selector "nonce()"

abbrev executed : Log → Bool → Hash → Bytes → Execution
executed log success safe_tx_hash payment = record {
  block = log.block_number;
  tx_hash = log.transaction_hash;
  log_index = log.log_index;
  safe_tx_hash = safe_tx_hash;
  success = success;
  payment = from_be payment;
  source = unknown;
  transaction = none;
}

module _ ⦃k : Keccak⦄ where
  -- `decodeExecution`, of a log with these topics. Without topics the Go code is not called.
  unfoldable pub decode_execution : Log → List Hash → Option Execution
  decode_execution log (topic ∷ []) =
      if length log.payload == 64
      then some (
          executed log (bytes_eq topic execution_success_event) (take 32 log.payload)
            (drop 32 log.payload))
      else none
  decode_execution log (topic ∷ safe_tx_hash ∷ []) =
      if length log.payload == 32
      then some (executed log (bytes_eq topic execution_success_event) safe_tx_hash log.payload)
      else none
  decode_execution log _ = none

-- Whether the decoder has no error: `d.Err() == nil`.
unfoldable pub no_error : Read Bool
no_error none = (true, none)
no_error (some e) = (false, some e)

-- The operation, a uint8, of a transaction that the Safe rejects, or else as it was read.
unfoldable pub read_operation : ℕ → Bool → Operation
read_operation operation fine =
    if ltb operation_delegate_call operation && fine then 255 else operation % 256

-- `decodeFields`.
unfoldable pub decode_fields : Bytes → Address → ℕ → Read SafeTransaction
decode_fields d safe chain_id = do
  to ← address d 0
  value ← uint d 1
  input ← bytes d 2
  operation ← uint64 d 3
  safe_tx_gas ← uint d 4
  base_gas ← uint d 5
  gas_price ← uint d 6
  gas_token ← address d 7
  refund_receiver ← address d 8
  fine ← no_error
  pure (record {
    chain_id = some (pos chain_id);
    safe = safe;
    to = to;
    value = some (pos value);
    input = input;
    operation = read_operation operation fine;
    safe_tx_gas = some (pos safe_tx_gas);
    base_gas = some (pos base_gas);
    gas_price = some (pos gas_price);
    gas_token = gas_token;
    refund_receiver = refund_receiver;
    nonce = none;
  })

-- The event's fields, and its additional information.
unfoldable pub event_fields : Bytes → Address → ℕ → Read (SafeTransaction × Bytes)
event_fields d safe chain_id = do
  tx ← decode_fields d safe chain_id
  info ← bytes d 10
  pure (tx, info)

with_info : (SafeTransaction × Bytes) × Option Error → Option SafeTransaction
with_info (read, some e) = none
with_info ((tx, info), none) =
    if ltb (length info) 32
    then none
    else some (record tx { nonce = some (pos (from_be (take 32 info))) })

-- `decodeEvent`, with the chain ID of the finder's client.
unfoldable pub decode_event : ℕ → Address → Bytes → Option SafeTransaction
unfolding with_info
decode_event chain_id safe d = with_info (event_fields d safe chain_id none)

-- The call's fields, after its signatures are read.
unfoldable pub call_fields : Bytes → Address → ℕ → Read SafeTransaction
call_fields d safe chain_id = do tx ← decode_fields d safe chain_id; signatures ← bytes d 9; pure tx

unfoldable pub read_fully : {A : Type 0} → A × Option Error → Option A
read_fully (a, none) = some a
read_fully (a, some e) = none

-- Every amount is given, and is a uint256.
unfoldable pub in_range : List (Option ℤ) → Bool
in_range [] = true
in_range (none ∷ amounts) = false
in_range (some (pos n) ∷ amounts) = ltb n (2 ^ 256) && in_range amounts
in_range (some (negsuc n) ∷ amounts) = false

abbrev pub amounts_of : SafeTransaction → List (Option ℤ)
amounts_of tx = tx.chain_id ∷ tx.value ∷ tx.safe_tx_gas ∷ tx.base_gas ∷ tx.gas_price ∷ tx.nonce ∷ []

-- A hash that panics is no hash; `matches` asks for none.
abbrev pub is_hash : Result Hash → Hash → Bool
is_hash (ok h) want = bytes_eq h want
is_hash (err e) want = false

module _ ⦃k : Keccak⦄ where
  -- `decodeCall`.
  unfoldable pub decode_call : Address → ℕ → Bytes → Option SafeTransaction
  decode_call safe chain_id input =
      if ltb (length input) 4 || not (bytes_eq (take 4 input) exec_transaction)
      then none
      else read_fully (call_fields (drop 4 input) safe chain_id none)

  -- `matches`, of a transaction that is not nil.
  unfoldable pub matches : SafeTransaction → Hash → Bool
  matches tx want =
      if ltb operation_delegate_call tx.operation
      then false
      else if not (in_range (amounts_of tx))
      then false
      else is_hash (transaction_hash tx) want
