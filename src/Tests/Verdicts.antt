-- ===== src/Tests/Verdicts.antt =====
-- internal/checks, on concrete transactions.
use mathlib.Core.List.{flatten}
use safenet_arbitration_bot.Base.{
  pos, negsuc, ◌⊎◌, panic, err, ℕ, ◌≡◌, ◌↔◌, ◌<◌, refl, Bool, true, false, some, List, [], ◌∷◌,
  ◌++◌, codes, replicate, arith, ok, err, message, bytes_eq, is_zero,
}
use safenet_arbitration_bot.Keccak.{hash}
use safenet_arbitration_bot.Keccak.Stub.{stub}
use safenet_arbitration_bot.Solabi.Encode.{selector}
use safenet_arbitration_bot.Ethrpc.Hex.{address_of}
use safenet_arbitration_bot.Ethrpc.Types.{Address, Dialer}
use safenet_arbitration_bot.Safenet.Types.{SafeTransaction, Proposal}
use safenet_arbitration_bot.Checks.Calls.{SafeId, Call, root}
use safenet_arbitration_bot.Checks.MultiSend.{
  multi_send_at, find_address, expand_call, expand_transaction_calls,
}
use safenet_arbitration_bot.Checks.MultiSend.Total.{expand_transaction_calls-cons}
use safenet_arbitration_bot.Checks.Components.{
  Components, transfer_input, components, refund_amount, gas_refund, append_refund,
}
use safenet_arbitration_bot.Checks.Components.Refund.{RefundPanics, Refunds, gas_refund_lem}
use safenet_arbitration_bot.Checks.Components.Parts.{components-total}
use safenet_arbitration_bot.Checks.Rules.{
  Env, Check, self_call, arg_count, canonical_root_call, allowed_disable_module,
  allowed_settings_change, adds_invalid_owner, settings_change_fn,
}
use safenet_arbitration_bot.Checks.Rules.Settings.{
  Canonical, canonical_root_call_lem, Separates, settings_change_fn-total,
}
use safenet_arbitration_bot.Checks.Table.{
  disable_module_check, allowed_disable_module_check, set_fallback_handler_check,
  allowed_set_fallback_handler_check, off_network, off_network_fn, empty_zero_address_call_check,
  empty_zero_address_call_fn, empty_call,
}
use safenet_arbitration_bot.Checks.Table.Exceptions.{RemovesHandler, exceptions_lem}
use safenet_arbitration_bot.Checks.Classify.{
  Classification, classification, before_secure, from_secure, matches_any, first_insecure,
  first_match, secure_descriptions, after_insecure, classify_with, classify,
}
use safenet_arbitration_bot.Checks.Classify.Sound.{Justifies, classify-Justifies}
use safenet_arbitration_bot.Checks.Classify.Network.{classify-off_network}
use safenet_arbitration_bot.Checks.Rules.{secure}

abbrev account : Address
account = replicate 20 5

-- A cancellation: an empty call of the zero address.
abbrev a_cancellation : ℕ → SafeTransaction
a_cancellation n = record {
  chain_id = some (pos n);
  safe = account;
  to = replicate 20 0;
  value = some (pos 0);
  input = [];
  operation = 0;
  safe_tx_gas = some (pos 0);
  base_gas = some (pos 0);
  gas_price = some (pos 0);
  gas_token = replicate 20 0;
  refund_receiver = replicate 20 0;
  nonce = some (pos 1);
}

abbrev proposed : SafeTransaction → Proposal
proposed tx = record {
  consensus = [];
  block = 7;
  time = 1000;
  ethereum_block = 6;
  safe_block = 6;
  tx_hash = [];
  epoch = 1;
  oracle_data = [];
  safe_tx_hash = [];
  transaction = tx;
}

abbrev no_node : Dialer
no_node n = err (message "no node")

abbrev two_checks : List Check
two_checks = off_network ∷ empty_zero_address_call_check ∷ []

abbrev cancelled : Classification
cancelled = record {
  verdict = secure;
  rule = [];
  description = codes "calls the zero address with no data or value, as a cancellation does";
}

classify_run :
    classify_with ⦃k = stub⦄ two_checks no_node (proposed (a_cancellation 100)) ≡ ok cancelled
unfolding classify_with components expand_transaction_calls expand_call multi_send_at find_address
    address_of gas_refund refund_amount append_refund bytes_eq is_zero before_secure from_secure
    first_insecure matches_any first_match secure_descriptions after_insecure off_network_fn
    empty_zero_address_call_fn empty_call
classify_run = refl

classify-Justifies_example :
    (tx : Components) × (components ⦃k = stub⦄ (a_cancellation 100) ≡ ok tx)
    × Justifies
        (record { dial = no_node; block = 6 })
        tx.safe
        (before_secure two_checks)
        (from_secure two_checks)
        tx.calls
        cancelled
classify-Justifies_example =
    classify-Justifies ⦃k = stub⦄ two_checks no_node (proposed (a_cancellation 100)) classify_run

classify-off_network_example :
    classify ⦃k = stub⦄ no_node (proposed (a_cancellation 5)) ≡ ok (classification off_network)
classify-off_network_example =
    classify-off_network ⦃k = stub⦄ no_node (proposed (a_cancellation 5))
      (refl, refl, refl, refl, refl) (λ p. p.0 refl) refl refl

expand_transaction_calls-cons_example :
    (c : Call) × (cs : List Call) × (expand_transaction_calls ⦃k = stub⦄
        (a_cancellation 100)
        (pos 0)
      ≡ ok (c ∷ cs))
expand_transaction_calls-cons_example =
    expand_transaction_calls-cons ⦃k = stub⦄ (a_cancellation 100) (pos 0)

-- A transaction whose gas price is negative, with a gas token.
abbrev a_negative_price : SafeTransaction
a_negative_price = record (a_cancellation 100) {
  safe_tx_gas = some (pos 10);
  gas_price = some (negsuc 2);
  gas_token = replicate 20 6;
}

a_negative_price-RefundPanics : RefundPanics a_negative_price (pos 10) (pos 0) (negsuc 2)
unfolding is_zero
a_negative_price-RefundPanics = ((λ h. cc), refl, (29, refl))

panic_run : components ⦃k = stub⦄ a_negative_price ≡ err panic
unfolding components expand_transaction_calls expand_call multi_send_at find_address address_of
    gas_refund refund_amount bytes_eq is_zero transfer_input
panic_run = refl

components-total_example :
    (RefundPanics a_negative_price (pos 10) (pos 0) (negsuc 2)
      × (components ⦃k = stub⦄ a_negative_price ≡ err panic))
    ⊎ ((¬ RefundPanics a_negative_price (pos 10) (pos 0) (negsuc 2))
        × (c : Call) × (cs : List Call) × (components ⦃k = stub⦄ a_negative_price
            ≡ ok (record {
              safe = record { address = account; chain_id = pos 100 };
              calls = c ∷ cs;
            })))
components-total_example =
    components-total ⦃k = stub⦄ a_negative_price (refl, refl, refl, refl, refl)

gas_refund_lem_example :
    Refunds ⦃k = stub⦄ a_negative_price
      (pos 10)
      (pos 20)
      (pos 3)
      (gas_refund ⦃k = stub⦄ a_negative_price (pos 10) (pos 20) (pos 3))
gas_refund_lem_example = gas_refund_lem ⦃k = stub⦄ a_negative_price (pos 10) (pos 20) (pos 3)

-- A call of disableModule by the Safe on itself.
abbrev a_change : Call
a_change = record {
  to = account;
  value = pos 0;
  input =
      selector ⦃k = stub⦄ "disableModule(address,address)"
      ++ (replicate 31 0 ++ 1 ∷ [])
      ++ (replicate 31 0 ++ 2 ∷ []);
  operation = 0;
  kind = root;
}

abbrev safe : SafeId
safe = record { address = account; chain_id = pos 100 }

abbrev env : Env
env = record { dial = no_node; block = 6 }

canonical_root_call_lem_example :
    (b : Bool) × (canonical_root_call a_change 2 ≡ ok b) × ((b ≡ true) ↔ Canonical a_change 2)
canonical_root_call_lem_example = canonical_root_call_lem a_change 2

exceptions_lem_example :
    Separates ⦃k = stub⦄ "disableModule(address,address)" env safe a_change
      (disable_module_check ⦃k = stub⦄).fn
      (allowed_disable_module_check ⦃k = stub⦄).fn
      2
      (Canonical a_change 2)
    × Separates ⦃k = stub⦄ "setFallbackHandler(address)" env safe a_change
        (set_fallback_handler_check ⦃k = stub⦄).fn
        (allowed_set_fallback_handler_check ⦃k = stub⦄).fn
        1
        (RemovesHandler a_change)
exceptions_lem_example = exceptions_lem ⦃k = stub⦄ env safe a_change

-- The call is the exception.
a_change_run :
    ((allowed_disable_module_check ⦃k = stub⦄).fn env safe a_change ≡ ok true)
    × ((disable_module_check ⦃k = stub⦄).fn env safe a_change ≡ ok false)
unfolding settings_change_fn allowed_settings_change allowed_disable_module canonical_root_call
    arg_count self_call selector hash flatten bytes_eq is_zero
a_change_run = (refl, refl)

swap_owner-arg_count : 2 < arg_count "swapOwner(address,address,address)"
unfolding arg_count bytes_eq
swap_owner-arg_count = omega arith

settings_change_fn-total_example :
    (b : Bool) × (settings_change_fn ⦃k = stub⦄ "swapOwner(address,address,address)"
        (some (adds_invalid_owner 2))
        env
        safe
        a_change
      ≡ ok b)
settings_change_fn-total_example =
    settings_change_fn-total ⦃k = stub⦄ "swapOwner(address,address,address)" env safe a_change 2
      swap_owner-arg_count
