-- ===== src/Tests/Reports.antt =====
-- internal/functions and internal/checks/calls.go, on a transaction that cancels.
use mathlib.Core.List.{flatten}
use safenet_arbitration_bot.Base.{
  pos, ◌≡◌, refl, false, none, some, [], ◌∷◌, ◌++◌, map, All, Bytes, codes, replicate, ok, err,
  not_found, arith, bytes_eq, is_zero, to_be,
}
use safenet_arbitration_bot.Keccak.{hash}
use safenet_arbitration_bot.Keccak.Stub.{stub}
use safenet_arbitration_bot.Solabi.Encode as Encode
use safenet_arbitration_bot.Solabi.Encode.{Values, selector, selector_of, calldata}
use safenet_arbitration_bot.Ethrpc.Types.{Address, Client}
use safenet_arbitration_bot.Ethrpc.Hex.{address_of}
use safenet_arbitration_bot.Safenet.Types.{SafeTransaction}
use safenet_arbitration_bot.Functions.{
  Definition, account, number, function, define, definition_in, definition_at, decode_levels,
  all_definitions,
}
use safenet_arbitration_bot.Functions as Functions
use safenet_arbitration_bot.Functions.Encoded.{
  fits_address, fits_uint256, args_of, decode_levels-calldata,
}
use safenet_arbitration_bot.Checks.Calls.{root, call_eq}
use safenet_arbitration_bot.Checks.MultiSend.{
  expand_transaction_calls, expand_call, multi_send_at, find_address, empty_multi_send,
}
use safenet_arbitration_bot.Checks.Components.{
  Components, components, refund_amount, gas_refund, append_refund,
}
use safenet_arbitration_bot.Checks.Accounts.{no_placeholder, TransactionCalls}
use safenet_arbitration_bot.Checks.Report.{
  no_caches, code, find_code, cached_code, keep_safe, read_safe, cached_safe, safe_of,
  safe_account_of, account_of, placeholder, report_call, report_calls, is_own, calls,
}
use safenet_arbitration_bot.Checks.Report as Report
use safenet_arbitration_bot.Checks.Report.Anew.{
  account_anew, safe_anew, calls_anew, IsCoherent, calls-anew,
}
use safenet_arbitration_bot.Checks.Report.Faithful.{call_of, IsShown, calls-IsFaithful}

-- The ERC-20 transfer of seven units, as the stub's selector and the arguments encode it.
abbrev transfer : Definition
transfer = define "transfer" (
    record { name = "to"; type = Functions.address; call = false }
    ∷ record { name = "value"; type = Functions.uint256; call = false }
    ∷ [])

abbrev two_values : Values
two_values = Encode.cons (Encode.address (replicate 20 5)) (Encode.cons (Encode.uint 7) Encode.nil)

abbrev some_calldata : Bytes
some_calldata = codes "tran" ++ replicate 12 0 ++ replicate 20 5 ++ replicate 31 0 ++ 7 ∷ []

known : definition_at ⦃k = stub⦄ (codes "tran") ≡ some transfer
unfolding definition_at definition_in bytes_eq hash flatten
known = refl

encoded : calldata (codes "tran") two_values ≡ ok some_calldata
unfolding calldata Encode.encode_onto Encode.encode Encode.encode_uint Encode.encode_address
    Encode.is_dynamic to_be
encoded = refl

decode_levels-calldata_example :
    decode_levels ⦃k = stub⦄ 8 some_calldata
    ≡ some (
        function "transfer" transfer.signature (
          args_of
            (decode_levels ⦃k = stub⦄ 7)
            transfer.params
            (account (replicate 20 5) ∷ number 7 ∷ [])))
decode_levels-calldata_example =
    decode_levels-calldata ⦃k = stub⦄ 7 transfer (codes "tran") two_values
      (account (replicate 20 5) ∷ number 7 ∷ []) refl known (fits_address _, (fits_uint256 _, tt))
      (ground arith) (omega arith) encoded

abbrev safe : Address
safe = replicate 20 9

abbrev a_cancellation : SafeTransaction
a_cancellation = record {
  chain_id = some (pos 100);
  safe = safe;
  to = replicate 20 0;
  value = some (pos 0);
  input = [];
  operation = 0;
  safe_tx_gas = some (pos 0);
  base_gas = some (pos 0);
  gas_price = some (pos 0);
  gas_token = replicate 20 0;
  refund_receiver = replicate 20 0;
  nonce = some (pos 1);
}

-- A node on which no account has code, and slot 0 of each is 1.
abbrev a_node : Client
a_node = record {
  chain_id = 100;
  call = λ r b. err not_found;
  block_number = ok 8;
  get_code = λ a b. ok [];
  get_storage_at = λ a s b. ok (replicate 31 0 ++ 1 ∷ []);
  get_logs = λ f. ok [];
  get_transaction_by_hash = λ h. err not_found;
  get_block_by_number = λ n. err not_found;
  finalized_block = err not_found;
}

coherent : IsCoherent ⦃k = stub⦄ a_node 6 safe no_caches
coherent = record { code_of = tt; safe = tt }

calls-anew_example :
    ((calls ⦃k = stub⦄ a_node 6 safe a_cancellation no_caches).0
      ≡ calls_anew ⦃k = stub⦄ a_node 6 safe a_cancellation)
    × IsCoherent ⦃k = stub⦄ a_node 6 safe
        (calls ⦃k = stub⦄ a_node 6 safe a_cancellation no_caches).1
calls-anew_example = calls-anew ⦃k = stub⦄ a_node 6 safe a_cancellation no_caches coherent

abbrev a_report : TransactionCalls
a_report = record {
  chain_id = 100;
  safe_block = 6;
  safe = safe_account_of ⦃k = stub⦄ a_node 6 safe [] (replicate 31 0 ++ 1 ∷ []);
  target = account_of ⦃k = stub⦄ a_node 6 safe (replicate 20 0) [];
  calls =
      record {
        kind = root;
        placeholder = no_placeholder;
        to = account_of ⦃k = stub⦄ a_node 6 safe (replicate 20 0) [];
        value = pos 0;
        operation = 0;
        input = [];
        function = none;
      }
      ∷ [];
}

report_run : (calls ⦃k = stub⦄ a_node 6 safe a_cancellation no_caches).0 ≡ ok a_report
unfolding calls components expand_transaction_calls expand_call multi_send_at find_address
    address_of gas_refund refund_amount append_refund bytes_eq is_zero is_own safe_of cached_safe
    read_safe keep_safe code find_code cached_code Report.account report_calls report_call
    placeholder call_eq Functions.decode decode_levels empty_multi_send selector calldata hash
    flatten Encode.encode_onto Encode.encode Encode.encode_bytes Encode.encode_uint64
    Encode.is_dynamic to_be
report_run = refl

calls-IsFaithful_example :
    (parts : Components) × (components ⦃k = stub⦄ a_cancellation ≡ ok parts)
    × (a_cancellation.safe ≡ safe)
    × (map (call_of ⦃k = stub⦄ a_node 6 safe) a_report.calls ≡ parts.calls)
    × All (λ r. IsShown ⦃k = stub⦄ a_node 6 safe r.to) a_report.calls
    × (safe_anew ⦃k = stub⦄ a_node 6 safe ≡ ok a_report.safe)
    × (account_anew ⦃k = stub⦄ a_node 6 safe a_cancellation.to ≡ ok a_report.target)
calls-IsFaithful_example =
    calls-IsFaithful ⦃k = stub⦄ a_node 6 safe a_cancellation no_caches coherent report_run
