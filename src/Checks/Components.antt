-- ===== src/Checks/Components.antt =====
-- transaction.go: `components` and `gasRefund`.
pub mod Refund
pub mod Parts
use safenet_arbitration_bot.Base.{
  ℤ, pos, negsuc, ◌+ℤ◌, ◌*ℤ◌, ◌==ℤ◌, panic, ℕ, ◌+◌, ◌-◌, ◌*◌, ◌^◌, Bool, true, false, Option, none,
  some, List, [], ◌∷◌, ◌++◌, String, if◌then◌else◌, ltb, ◌==◌, Bytes, is_zero, Result, ok, err,
  message, ◌>>=◌,
}
use safenet_arbitration_bot.Keccak.{Keccak}
use safenet_arbitration_bot.Ethrpc.Types.{Address}
use safenet_arbitration_bot.Solabi.Encode.{address, uint, nil, cons, selector, calldata}
use safenet_arbitration_bot.Safenet.Types.{SafeTransaction, operation_call}
use safenet_arbitration_bot.Checks.Calls.{SafeId, Call, refund}
use safenet_arbitration_bot.Checks.MultiSend.{expand_transaction_calls}

pub record Components : Type 0 where
  pub safe : SafeId
  pub calls : List Call

-- An amount of the transaction, which must not be nil.
abbrev pub required : String → Option ℤ → Result ℤ
required name none = err (message name)
required name (some n) = ok n

abbrev pub max_uint256 : ℕ
max_uint256 = 2 ^ 256 - 1

-- An amount that is not more than the largest uint256 is kept, also when it is negative.
abbrev pub at_most_max : ℤ → ℤ
at_most_max (pos n) = if ltb max_uint256 n then pos max_uint256 else pos n
at_most_max (negsuc n) = negsuc n

-- The largest refund that the transaction allows.
unfoldable pub refund_amount : ℤ → ℤ → ℤ → ℤ
refund_amount safe_tx_gas base_gas gas_price = at_most_max ((safe_tx_gas +ℤ base_gas) *ℤ gas_price)

unfoldable pub append_refund : List Call → Option Call → List Call
append_refund calls none = calls
append_refund calls (some c) = calls ++ c ∷ []

module _ ⦃k : Keccak⦄ where
  abbrev pub transfer_selector : Bytes
  transfer_selector = selector "transfer(address,uint256)"

  -- `Uint` panics on a negative number.
  unfoldable pub transfer_input : Address → ℤ → Result Bytes
  transfer_input to (pos n) = calldata transfer_selector (cons (address to) (cons (uint n) nil))
  transfer_input to (negsuc n) = err panic

  pub token_refund : SafeTransaction → ℤ → Result (Option Call)
  token_refund tx amount = do
    input ← transfer_input tx.refund_receiver amount
    ok (
        some (record {
          to = tx.gas_token;
          value = pos 0;
          input = input;
          operation = operation_call;
          kind = refund;
        }))

  -- `gasRefund`, of a transaction with these amounts.
  unfoldable pub gas_refund : SafeTransaction → ℤ → ℤ → ℤ → Result (Option Call)
  unfolding token_refund
  gas_refund tx safe_tx_gas base_gas gas_price =
      let amount = refund_amount safe_tx_gas base_gas gas_price in
      if gas_price ==ℤ pos 0
      then ok none
      else if is_zero tx.gas_token
      then ok (
          some (record {
            to = tx.refund_receiver;
            value = amount;
            input = [];
            operation = operation_call;
            kind = refund;
          }))
      else token_refund tx amount

  unfoldable pub components : SafeTransaction → Result Components
  unfolding append_refund
  components tx = do
    chain_id ← required "safe transaction has no chainId" tx.chain_id
    value ← required "safe transaction has no value" tx.value
    safe_tx_gas ← required "safe transaction has no safeTxGas" tx.safe_tx_gas
    base_gas ← required "safe transaction has no baseGas" tx.base_gas
    gas_price ← required "safe transaction has no gasPrice" tx.gas_price
    calls ← expand_transaction_calls tx value
    refunded ← gas_refund tx safe_tx_gas base_gas gas_price
    ok (record {
      safe = record { address = tx.safe; chain_id = chain_id };
      calls = append_refund calls refunded;
    })
