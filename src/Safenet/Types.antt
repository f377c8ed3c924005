-- ===== src/Safenet/Types.antt =====
-- types.go. The *big.Int amounts of a transaction are `none` for nil, and of either sign, as a file
-- can give them; those of the oracle's record are from the ABI decoder, and not negative.
use safenet_arbitration_bot.Base.{ℕ, ℤ, Option, List, Bytes}
use safenet_arbitration_bot.Ethrpc.Types.{Address, Hash}

-- `Operation`, a uint8.
abbrev pub Operation : Type 0
Operation = ℕ

abbrev pub operation_call : Operation
operation_call = 0

abbrev pub operation_delegate_call : Operation
operation_delegate_call = 1

pub record SafeTransaction : Type 0 where
  pub chain_id : Option ℤ
  pub safe : Address
  pub to : Address
  pub value : Option ℤ
  pub input : Bytes
  pub operation : Operation
  pub safe_tx_gas : Option ℤ
  pub base_gas : Option ℤ
  pub gas_price : Option ℤ
  pub gas_token : Address
  pub refund_receiver : Address
  pub nonce : Option ℤ

-- `State`, a uint8, and its values that have names.
abbrev pub State : Type 0
State = ℕ

abbrev pub state_none : State
state_none = 0

abbrev pub state_pending : State
state_pending = 1

abbrev pub state_frozen : State
state_frozen = 2

abbrev pub state_resolved_approved : State
state_resolved_approved = 3

abbrev pub state_resolved_denied : State
state_resolved_denied = 4

abbrev pub state_timed_out : State
state_timed_out = 5

-- `Vote`, of which no other value is made.
pub data Vote : Type 0 where
  vote_none vote_pending vote_approved vote_denied : Vote

pub data Outcome : Type 0 where
  outcome_pending outcome_secure outcome_insecure outcome_out_of_scope outcome_timed_out : Outcome

pub record Commitment : Type 0 where
  pub sentinel : Address
  pub bond : ℕ
  pub vote : Vote
  pub reason : Bytes
  pub rules : List Bytes

pub record Dispute : Type 0 where
  pub request_id : Hash
  pub frozen_block : ℕ
  pub deadline : ℕ

pub record Proposal : Type 0 where
  pub consensus : Address
  pub block : ℕ
  pub time : ℕ
  pub ethereum_block : ℕ
  pub safe_block : ℕ
  pub tx_hash : Hash
  pub epoch : ℕ
  pub oracle_data : Bytes
  pub safe_tx_hash : Hash
  pub transaction : SafeTransaction

-- `Record`: the log that settled an arbitration.
pub record Settlement : Type 0 where
  pub block : ℕ
  pub tx_hash : Hash

pub record Arbitration : Type 0 where
  pub frozen_block : ℕ
  pub deadline : ℕ
  pub outcome : Outcome
  pub slashed : Option ℕ
  pub context : Bytes
  pub settled_by : Option Settlement

pub record Token : Type 0 where
  pub address : Address
  pub symbol : Bytes
  pub decimals : ℕ

pub record Terms : Type 0 where
  pub sponsor : Address
  pub bond : ℕ
  pub slash_amount : ℕ
  pub dao_fee_share : ℕ
  pub commit_deadline : ℕ
  pub reveal_deadline : ℕ

pub record Request : Type 0 where
  pub id : Hash
  pub oracle : Address
  pub charter : Bytes
  pub fee_token : Token
  pub state : State
  pub terms : Terms
  pub fee : ℕ
  pub proposal : Proposal
  pub votes : List Commitment
  pub disputed_rules : List Bytes
  pub arbitration : Option Arbitration
