-- ===== src/Checks/Calls.antt =====
-- transaction.go: the calls that a Safe makes.
use safenet_arbitration_bot.Base.{
  ℤ, ◌==ℤ◌, ==ℤ_iff, ◌≡◌, ◌↔◌, Bool, true, false, ◌&&◌, ◌==◌, Bytes, bytes_eq, bytes_eq_iff, arith,
}
use safenet_arbitration_bot.Ethrpc.Types.{Address}
use safenet_arbitration_bot.Safenet.Types.{Operation}

pub data CallKind : Type 0 where
  root batched refund : CallKind

pub record SafeId : Type 0 where
  pub address : Address
  pub chain_id : ℤ

pub record Call : Type 0 where
  pub to : Address
  pub value : ℤ
  pub input : Bytes
  pub operation : Operation
  pub kind : CallKind

abbrev pub kind_eq : CallKind → CallKind → Bool
kind_eq root root = true
kind_eq batched batched = true
kind_eq refund refund = true
kind_eq _ _ = false

kind_eq_iff : (a b : CallKind) → (kind_eq a b ≡ true) ↔ (a ≡ b)
kind_eq_iff root root = ground arith
kind_eq_iff _ _ = ground arith

-- `call.equal`.
unfoldable pub call_eq : Call → Call → Bool
call_eq c o =
    bytes_eq c.to o.to
    && c.value ==ℤ o.value
    && bytes_eq c.input o.input
    && c.operation == o.operation
    && kind_eq c.kind o.kind

-- `equal` decides equality.
pub call_eq_iff : (c o : Call) → (call_eq c o ≡ true) ↔ (c ≡ o)
unfolding call_eq
call_eq_iff c o = ground (
  arith,
  bytes_eq_iff c.to o.to,
  ==ℤ_iff c.value o.value,
  bytes_eq_iff c.input o.input,
  kind_eq_iff c.kind o.kind,
)
