-- ===== src/Ethrpc/Types.antt =====
-- types.go and the methods of client.go: what the client of a node returns.
use safenet_arbitration_bot.Base.{
  ℕ, Bool, Option, none, some, List, Bytes, Error, Result, rpc, wrap,
}

-- An Address has 20 bytes, a Hash 32.
abbrev pub Address : Type 0
Address = Bytes

abbrev pub Hash : Type 0
Hash = Bytes

pub record CallRequest : Type 0 where
  pub to : Address
  pub input : Bytes

-- A `nil` list of topics matches any value, as in eth_getLogs.
pub record LogFilter : Type 0 where
  pub from_block : ℕ
  pub to_block : ℕ
  pub addresses : List Address
  pub topics : List (Option (List Hash))

pub record Log : Type 0 where
  pub address : Address
  pub topics : List Hash
  pub payload : Bytes
  pub block_number : ℕ
  pub transaction_hash : Hash
  pub log_index : ℕ
  pub removed : Bool

pub record Transaction : Type 0 where
  pub from : Address
  pub to : Option Address
  pub input : Bytes

-- The timestamp is in seconds, and stands for the `Time` of the block.
pub record Block : Type 0 where
  pub number : ℕ
  pub timestamp : ℕ

-- The methods of `Client`, each of which is one request to a node: what the node answers.
pub record Client : Type 0 where
  pub chain_id : ℕ
  pub call : CallRequest → ℕ → Result Bytes
  pub block_number : Result ℕ
  pub get_code : Address → ℕ → Result Bytes
  pub get_storage_at : Address → Hash → ℕ → Result Hash
  pub get_logs : LogFilter → Result (List Log)
  pub get_transaction_by_hash : Hash → Result Transaction
  pub get_block_by_number : ℕ → Result Block
  pub finalized_block : Result Block

-- `ethrpc.Dialer`.
abbrev pub Dialer : Type 0
Dialer = ℕ → Result Client

-- `errors.AsType[*Error]`: the data of the JSON-RPC error that the error is or wraps.
abbrev pub as_rpc : Error → Option (Option Bytes)
as_rpc (rpc code payload) = some payload
as_rpc (wrap text e) = as_rpc e
as_rpc _ = none
