-- ===== src/Tests/Batches.antt =====
-- internal/checks, multisend.go, on a batch of two calls.
use safenet_arbitration_bot.Base.{
  pos, ◌≡◌, refl, Option, some, true, [], ◌∷◌, replicate, is_zero, bytes_eq, arith,
}
use safenet_arbitration_bot.Keccak.Stub.{stub}
use safenet_arbitration_bot.Ethrpc.Hex.{address_of}
use safenet_arbitration_bot.Ethrpc.Types.{Address}
use safenet_arbitration_bot.Checks.Calls.{Call, batched}
use safenet_arbitration_bot.Checks.MultiSend.{
  MultiSend, v1_4_1, Expansion, makes, multi_send_at, find_address, expand_call, batch,
}
use safenet_arbitration_bot.Checks.MultiSend.Packed.{IsLeaf, all_packed, batch-all_packed}

abbrev call_only : MultiSend
call_only = record { version = v1_4_1; call_only = true }

abbrev account : Address
account = replicate 20 5

abbrev a_call : Call
a_call = record { to = account; value = pos 7; input = 1 ∷ 2 ∷ []; operation = 0; kind = batched }

abbrev no_data : Call
no_data = record { to = account; value = pos 0; input = []; operation = 0; kind = batched }

abbrev expand : Call → Option Expansion
expand = expand_call ⦃k = stub⦄ 1 account

a_call-IsLeaf : IsLeaf expand call_only account a_call
unfolding expand_call multi_send_at find_address address_of bytes_eq is_zero
a_call-IsLeaf = (
  record {
    account = refl;
    positive = refl;
    amount = omega arith;
    short = omega arith;
    operation = refl;
    other = refl;
    kind = refl;
  },
  refl,
)

no_data-IsLeaf : IsLeaf expand call_only account no_data
unfolding expand_call multi_send_at find_address address_of bytes_eq is_zero
no_data-IsLeaf = (
  record {
    account = refl;
    positive = refl;
    amount = omega arith;
    short = omega arith;
    operation = refl;
    other = refl;
    kind = refl;
  },
  refl,
)

batch-all_packed_example :
    batch expand call_only account 3 (all_packed (a_call ∷ no_data ∷ [])) []
    ≡ some (makes (a_call ∷ no_data ∷ []))
batch-all_packed_example =
    batch-all_packed expand call_only account 3 [] (a_call ∷ no_data ∷ []) (omega arith)
      (a_call-IsLeaf, (no_data-IsLeaf, tt))
