-- ===== src/Checks/MultiSend.antt =====
-- multisend.go: the calls that a call to a MultiSend stands for.
pub mod Steps
pub mod Significant
pub mod Total
pub mod Packed
use safenet_arbitration_bot.Base.{
  ℤ, pos, ℕ, zero, suc, ◌+◌, ◌-◌, ◌^◌, Bool, true, false, not, ◌&&◌, ◌||◌, Option, none, some, List,
  [], ◌∷◌, ◌++◌, String, if◌then◌else◌, ltb, leb, ◌==◌, Bytes, codes, bytes_eq, from_be, is_zero,
  length, take, drop, padded, replicate, Result, ok, err, fuel, ◌>>=◌,
}
use safenet_arbitration_bot.Keccak.{Keccak}
use safenet_arbitration_bot.Ethrpc.Types.{Address}
use safenet_arbitration_bot.Ethrpc.Hex.{address_of}
use safenet_arbitration_bot.Solabi.Decode
use safenet_arbitration_bot.Solabi.Encode.{bytes, nil, cons, selector, calldata}
use safenet_arbitration_bot.Safenet.Types.{SafeTransaction, operation_call, operation_delegate_call}
use safenet_arbitration_bot.Checks.Calls.{Call, root, batched, call_eq}

-- The versions of § 2.1, which `multiSends` names by their text.
pub data Version : Type 0 where
  v1_3_0 v1_4_1 v1_5_0 : Version

pub record MultiSend : Type 0 where
  pub version : Version
  pub call_only : Bool

-- A map from addresses, as the list of its entries.
unfoldable pub find_address {ℓ} : {V : Type ℓ} → Address → List (Address × V) → Option V
find_address a [] = none
find_address a ((b, v) ∷ rest) = if bytes_eq a b then some v else find_address a rest

abbrev entry : Version → Bool → MultiSend
entry v b = record { version = v; call_only = b }

-- `multiSends`.
abbrev pub multi_sends : List (Address × MultiSend)
multi_sends =
    (address_of "0xA238CBeb142c10Ef7Ad8442C6D1f9E89e07e7761", entry v1_3_0 false)
    ∷ (address_of "0x998739BFdAAdde7C933B942a68053933098f9EDa", entry v1_3_0 false)
    ∷ (address_of "0x40A2aCCbd92BCA938b02010E17A5b8929b49130D", entry v1_3_0 true)
    ∷ (address_of "0xA1dabEF33b3B82c7814B6D82A79e50F4AC44102B", entry v1_3_0 true)
    ∷ (address_of "0x38869bf66a61cF6bDB996A6aE40D5853Fd43B526", entry v1_4_1 false)
    ∷ (address_of "0x9641d764fc13c8B624c04430C7356C1C7C8102e2", entry v1_4_1 true)
    ∷ (address_of "0x218543288004CD07832472D464648173c77D7eB7", entry v1_5_0 false)
    ∷ (address_of "0xA83c336B20401Af773B6219BA5027174338D1836", entry v1_5_0 true)
    ∷ []

unfoldable pub multi_send_at : Address → Option MultiSend
unfolding find_address
multi_send_at a = find_address a multi_sends

abbrev pub max_data_length : ℕ
max_data_length = 2 ^ 24

-- What a call comes to: it reverts, or the Safe makes these calls.
pub data Expansion : Type 0 where
  reverts : Expansion
  makes : List Call → Expansion

abbrev pub header_size : ℕ
header_size = 85

abbrev pub is_v1_5_0 : Version → Bool
is_v1_5_0 v1_5_0 = true
is_v1_5_0 _ = false

abbrev pub slice : ℕ → ℕ → Bytes → Bytes
slice from to b = take (to - from) (drop from b)

-- Since 1.5.0 the zero address means the Safe.
abbrev pub target : MultiSend → Address → Bytes → Address
target ms safe to = if is_zero to && is_v1_5_0 ms.version then safe else to

-- A packed transaction at the start of the bytes: its data's length, and the call.
abbrev pub packed_length : Bytes → ℕ
packed_length rest = from_be (slice 53 85 (padded header_size rest))

abbrev pub packed_operation : Bytes → ℕ
packed_operation rest = from_be (take 1 (padded header_size rest))

abbrev pub packed_call : MultiSend → Address → Bytes → Call
packed_call ms safe rest = record {
  to = target ms safe (slice 1 21 (padded header_size rest));
  value = pos (from_be (slice 21 53 (padded header_size rest)));
  input = padded (packed_length rest) (drop header_size rest);
  operation = packed_operation rest;
  kind = batched;
}

abbrev pub too_long : ℕ → Bool
too_long n = not (ltb n (2 ^ 64)) || ltb max_data_length n

abbrev pub bad_operation : MultiSend → ℕ → Bool
bad_operation ms operation =
    ltb operation_delegate_call operation || ms.call_only && not (operation == operation_call)

-- The loop of `expandMultiSendCall` over the rest of the packed transactions, after the calls so
-- far. `expand` is the recursive call. The offset is that of the rest.
pub batch :
    (Call → Option Expansion) → MultiSend → Address → ℕ → Bytes → List Call → Option Expansion
batch expand ms safe zero rest calls = none
batch expand ms safe (suc f) rest calls = elim (ltb 32 (length rest)) [
  | false ↦ some (makes calls)
  | true ↦ elim (too_long (packed_length rest)) [
    | true ↦ some reverts
    | false ↦ elim (bad_operation ms (packed_operation rest)) [
      | true ↦ some reverts
      | false ↦ elim (expand (packed_call ms safe rest)) [
        | none ↦ none
        | some e ↦ elim e [
          | reverts ↦ some reverts
          | makes sub_calls ↦
              batch expand ms safe f (drop (header_size + packed_length rest) rest)
                (calls ++ sub_calls)
        ]
      ]
    ]
  ]
]

module _ ⦃k : Keccak⦄ where
  abbrev pub multi_send_selector : Bytes
  multi_send_selector = selector "multiSend(bytes)"

  -- The data is for no function of the contract.
  abbrev pub no_function : Bytes → Bool
  no_function input = ltb (length input) 4 || not (bytes_eq (take 4 input) multi_send_selector)

  -- `expandMultiSendCall`, to a depth. `none` means that the depth was too small.
  unfoldable pub expand_call : ℕ → Address → Call → Option Expansion
  expand_call zero safe c = none
  expand_call (suc f) safe c = elim (multi_send_at c.to) [
    | none ↦ some (makes (c ∷ []))
    | some ms ↦ elim (no_function c.input) [
      | true ↦ some reverts
      | false ↦ elim (c.operation == operation_call && not ms.call_only) [
        | true ↦ some reverts
        | false ↦ elim (c.operation == operation_delegate_call) [
          | false ↦ some (makes (c ∷ []))
          | true ↦
              let read = Decode.bytes (drop 4 c.input) 0 none in
              elim read.1 [
                | some e ↦ some (makes (c ∷ []))
                | none ↦ batch (expand_call f safe) ms safe (suc (length read.0)) read.0 []
              ]
        ]
      ]
    ]
  ]

  -- `revertingMultiSend` and `emptyMultiSend`.
  abbrev pub reverting_multi_send : Address → Call
  reverting_multi_send to = record {
    to = to;
    value = pos 0;
    input = [];
    operation = operation_call;
    kind = root;
  }

  unfoldable pub empty_multi_send : Address → Result Call
  empty_multi_send to = do
    input ← calldata multi_send_selector (cons (bytes []) nil)
    ok (record {
      to = to;
      value = pos 0;
      input = input;
      operation = operation_delegate_call;
      kind = root;
    })

  expanded : Address → Option Expansion → Result (List Call)
  expanded to none = err fuel
  expanded to (some reverts) = ok (reverting_multi_send to ∷ [])
  expanded to (some (makes [])) = do c ← empty_multi_send to; ok (c ∷ [])
  expanded to (some (makes calls)) = ok calls

  -- `expandTransactionCalls`, of a transaction with a value. A call nests fewer calls than its data
  -- has bytes.
  unfoldable pub expand_transaction_calls : SafeTransaction → ℤ → Result (List Call)
  unfolding expanded
  expand_transaction_calls tx value = expanded tx.to (
      expand_call (suc (length tx.input)) tx.safe (record {
        to = tx.to;
        value = value;
        input = tx.input;
        operation = tx.operation;
        kind = root;
      }))
