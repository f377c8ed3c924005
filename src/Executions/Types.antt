-- ===== src/Executions/Types.antt =====
-- executions.go: `Source` and `Execution`. decode.go: `callFrame`.
use safenet_arbitration_bot.Base.{ℕ, Bool, Option, Bytes}
use safenet_arbitration_bot.Ethrpc.Types.{Address, Hash}
use safenet_arbitration_bot.Safenet.Types.{SafeTransaction}

-- `unknown` is the empty source.
pub data Source : Type 0 where
  unknown from_event from_calldata from_trace from_service : Source

pub record Execution : Type 0 where
  pub block : ℕ
  pub tx_hash : Hash
  pub log_index : ℕ
  pub safe_tx_hash : Hash
  pub success : Bool
  pub payment : ℕ
  pub source : Source
  pub transaction : Option SafeTransaction

-- A frame's type, recipient, input, error and calls. Texts are their bytes.
mutual
  pub data CallFrame : Type 0 where
    frame : Bytes → Option Address → Bytes → Bytes → Frames → CallFrame

  pub data Frames : Type 0 where
    nil : Frames
    cons : CallFrame → Frames → Frames
