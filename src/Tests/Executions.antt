-- ===== src/Tests/Executions.antt =====
-- internal/executions, internal/functions and internal/checks/calls.go, on one Safe.
use mathlib.Core.List.{flatten}
use safenet_arbitration_bot.Base.{
  pos, ℕ, ◌≡◌, ◌↔◌, refl, true, false, none, some, List, [], ◌∷◌, ◌++◌, map, All, Any, Bytes, codes,
  replicate, take, ok, err, not_found, wrap, Error, arith, from_be, is_zero, to_be, bytes_eq,
}
use safenet_arbitration_bot.Keccak.{hash}
use safenet_arbitration_bot.Keccak.Stub.{stub}
use safenet_arbitration_bot.Solabi.Decode.{word, uint, word_uint64}
use safenet_arbitration_bot.Solabi.Encode as Encode
use safenet_arbitration_bot.Solabi.Encode.{Values, nil, cons, event, selector, calldata}
use safenet_arbitration_bot.Ethrpc.Types.{Address, Hash, Log, Client}
use safenet_arbitration_bot.Ethrpc.Logs.{scan_logs, scan_loop}
use safenet_arbitration_bot.Safenet.Types.{SafeTransaction}
use safenet_arbitration_bot.Safenet.Proposals.{transaction_hash}
use safenet_arbitration_bot.Executions.Types.{Execution, from_service, CallFrame, frame}
use safenet_arbitration_bot.Executions.Types as Executions
use safenet_arbitration_bot.Executions.Frames.{calls_to, Makes, calls_to_iff}
use safenet_arbitration_bot.Executions.Decode.{
  execution_success_event, exec_transaction, decode_execution, matches, in_range,
}
use safenet_arbitration_bot.Executions.Gather.{Finder, gather, gather_log}
use safenet_arbitration_bot.Executions.Decoder.{
  decode, after_events, event_match, read_nonce, call_nonce, next_nonce, nonce_warning, used_nonce,
  after_nonce, from_tx, get_tx, find_hash, found_tx, tx_warning, calldata_match, after_calldata,
  from_frames, get_inputs, trace_inputs, first_candidate, after_trace, ask_service, service_match,
  service_warning, candidate,
}
use safenet_arbitration_bot.Executions.Decode.{read_fully}
use safenet_arbitration_bot.Executions.Finder.{find_filter, decode_all, find_in, find}
use safenet_arbitration_bot.Executions.Authentic.{IsDecoded}
use safenet_arbitration_bot.Executions.Found.{
  bare, executions_in, events_in, all_anew, find-IsAuthentic, find-anew,
}
use safenet_arbitration_bot.Executions.Calldata.{
  Arguments, values_of, IsCallable, candidate-calldata,
}

abbrev safe : Address
safe = replicate 20 9

-- What the stub makes of every Safe transaction.
abbrev a_hash : Hash
a_hash = 25 ∷ 1 ∷ take 30 (codes "EIP712Domain(uint256 chainId,address verifyingContract)")

abbrev a_transaction : ℕ → SafeTransaction
a_transaction nonce = record {
  chain_id = some (pos 100);
  safe = safe;
  to = replicate 20 5;
  value = some (pos 1);
  input = [];
  operation = 0;
  safe_tx_gas = some (pos 0);
  base_gas = some (pos 0);
  gas_price = some (pos 0);
  gas_token = replicate 20 0;
  refund_receiver = replicate 20 0;
  nonce = some (pos nonce);
}

-- An ExecutionSuccess event, with the hash as a topic and no payment.
abbrev a_success : Log
a_success = record {
  address = safe;
  topics = execution_success_event ⦃k = stub⦄ ∷ a_hash ∷ [];
  payload = replicate 32 0;
  block_number = 6;
  transaction_hash = replicate 32 7;
  log_index = 2;
  removed = false;
}

-- A node with the event, that has neither the onchain transaction nor its trace.
abbrev a_node : Client
a_node = record {
  chain_id = 100;
  call = λ r b. ok (replicate 31 0 ++ 4 ∷ []);
  block_number = ok 8;
  get_code = λ a b. ok [];
  get_storage_at = λ a s b. ok (replicate 32 0);
  get_logs = λ f. ok (a_success ∷ []);
  get_transaction_by_hash = λ h. err not_found;
  get_block_by_number = λ n. err not_found;
  finalized_block = err not_found;
}

abbrev a_finder : Finder
a_finder = record {
  eth = a_node;
  trace = λ h. err not_found;
  service = some (λ h. ok (a_transaction 3));
}

abbrev an_execution : Execution
an_execution = record {
  block = 6;
  tx_hash = replicate 32 7;
  log_index = 2;
  safe_tx_hash = a_hash;
  success = true;
  payment = 0;
  source = from_service;
  transaction = some (a_transaction 3);
}

abbrev a_warning : Error
a_warning = wrap "getting transaction" not_found

find_run : find ⦃k = stub⦄ a_finder safe 5 8 ≡ ok (an_execution ∷ [], a_warning ∷ [])
unfolding find find_in scan_logs scan_loop gather gather_log decode_execution decode_all decode
    after_events event_match read_nonce call_nonce next_nonce nonce_warning used_nonce after_nonce
    from_tx get_tx find_hash found_tx tx_warning calldata_match after_calldata from_frames
    get_inputs trace_inputs first_candidate after_trace ask_service service_match service_warning
    read_fully matches in_range transaction_hash calldata event hash bytes_eq word word_uint64 uint
    from_be is_zero Encode.encode_onto Encode.encode Encode.encode_uint Encode.encode_address to_be
    flatten
find_run = refl

find-IsAuthentic_example :
    All (λ e. IsDecoded ⦃k = stub⦄ e.safe_tx_hash e.source e.transaction) (an_execution ∷ [])
    × (map bare (an_execution ∷ [])
        ≡ map bare (
            executions_in ⦃k = stub⦄
              (scan_logs a_node (find_filter ⦃k = stub⦄ a_finder safe 5 8)).logs))
find-IsAuthentic_example = find-IsAuthentic ⦃k = stub⦄ a_finder safe 5 8 find_run

scan_run : (scan_logs a_node (find_filter ⦃k = stub⦄ a_finder safe 5 8)).failure ≡ none
unfolding scan_logs scan_loop
scan_run = refl

find-anew_example :
    (warnings : List Error) × (find ⦃k = stub⦄ a_finder safe 5 8
      ≡ ok (
        all_anew ⦃k = stub⦄ a_finder safe 8
            (events_in ⦃k = stub⦄ a_finder safe
              (scan_logs a_node (find_filter ⦃k = stub⦄ a_finder safe 5 8)).logs)
            (executions_in ⦃k = stub⦄
              (scan_logs a_node (find_filter ⦃k = stub⦄ a_finder safe 5 8)).logs),
        warnings,
      ))
find-anew_example = find-anew ⦃k = stub⦄ a_finder safe 5 8 scan_run

abbrev some_arguments : Arguments
some_arguments = record {
  to = replicate 20 5;
  value = 1;
  input = [];
  operation = 0;
  safe_tx_gas = 0;
  base_gas = 0;
  gas_price = 0;
  gas_token = replicate 20 0;
  refund_receiver = replicate 20 0;
  signatures = [];
}

-- The calldata of the call: the selector, ten words of head, and two empty byte sequences.
abbrev some_calldata : Bytes
some_calldata =
    codes "exec"
    ++ replicate 12 0
    ++ replicate 20 5
    ++ replicate 31 0
    ++ 1 ∷ replicate 30 0
    ++ 1 ∷ 64 ∷ replicate 222 0
    ++ 1 ∷ 96 ∷ replicate 64 0

encoded : calldata (exec_transaction ⦃k = stub⦄) (values_of some_arguments) ≡ ok some_calldata
unfolding selector calldata hash Encode.encode_onto Encode.encode Encode.encode_uint
    Encode.encode_uint64 Encode.encode_address Encode.encode_bytes Encode.is_dynamic to_be flatten
encoded = refl

hashed : transaction_hash ⦃k = stub⦄ (a_transaction 3) ≡ ok a_hash
unfolding transaction_hash hash Encode.encode_uint Encode.encode_address to_be flatten
hashed = refl

callable : IsCallable some_arguments
callable = record { operation = omega arith; to = refl; gas_token = refl; refund_receiver = refl }

candidate-calldata_example :
    candidate ⦃k = stub⦄ a_finder safe some_calldata an_execution 3 ≡ some (a_transaction 3)
candidate-calldata_example =
    candidate-calldata ⦃k = stub⦄ a_finder some_arguments safe an_execution 3 callable (omega arith)
      encoded (omega arith, ground arith, hashed)

-- A call to the Safe, in a call of another account.
abbrev a_trace : CallFrame
a_trace = frame (codes "CALL") (some (replicate 20 5)) [] [] (
    Executions.cons (frame (codes "CALL") (some safe) (1 ∷ 2 ∷ []) [] Executions.nil)
      Executions.nil)

calls_to_iff_example :
    Any (λ x. x ≡ 1 ∷ 2 ∷ []) (calls_to safe a_trace []) ↔ Makes safe (1 ∷ 2 ∷ []) a_trace
calls_to_iff_example = calls_to_iff safe (1 ∷ 2 ∷ []) a_trace
