-- ===== src/Checks/Accounts.antt =====
-- calls.go: the data of a report, and `contractAt`.
use safenet_arbitration_bot.Base.{ℤ, ℕ, Bool, Option, none, some, List, if◌then◌else◌, Bytes}
use safenet_arbitration_bot.Ethrpc.Types.{Address, Hash}
use safenet_arbitration_bot.Safenet.Types.{Operation}
use safenet_arbitration_bot.Functions.{Function}
use safenet_arbitration_bot.Checks.Calls.{CallKind}
use safenet_arbitration_bot.Checks.MultiSend.{Version, MultiSend, multi_send_at}
use safenet_arbitration_bot.Checks.Safe.{ProxyVersion, SafeVersion, singleton_at}

pub record SafeAccount : Type 0 where
  pub address : Address
  pub code_hash : Hash
  pub code_size : ℕ
  pub proxy_version : Option ProxyVersion
  pub singleton : Address
  pub singleton_version : Option SafeVersion

pub data ContractName : Type 0 where
  multi_send multi_send_call_only safe_l2 safe : ContractName

pub record Contract : Type 0 where
  pub name : ContractName
  pub version : Version

pub record Account : Type 0 where
  pub address : Address
  pub code_hash : Hash
  pub code_size : ℕ
  pub self : Bool
  pub contract : Option Contract

-- The empty placeholder is `no_placeholder`.
pub data Placeholder : Type 0 where
  no_placeholder reverting empty : Placeholder

-- The kind stands for its name in `callKinds`.
pub record ReportedCall : Type 0 where
  pub kind : CallKind
  pub placeholder : Placeholder
  pub to : Account
  pub value : ℤ
  pub operation : Operation
  pub input : Bytes
  pub function : Option Function

pub record TransactionCalls : Type 0 where
  pub chain_id : ℕ
  pub safe_block : ℕ
  pub safe : SafeAccount
  pub target : Account
  pub calls : List ReportedCall

abbrev multi_send_contract : MultiSend → Contract
multi_send_contract ms = record {
  name = if ms.call_only then multi_send_call_only else multi_send;
  version = ms.version;
}

abbrev singleton_contract : SafeVersion → Contract
singleton_contract v = record { name = if v.l2 then safe_l2 else safe; version = v.version }

-- The contract of a MultiSend, or else of a singleton.
contract_of : Option MultiSend → Option SafeVersion → Option Contract
contract_of (some ms) v = some (multi_send_contract ms)
contract_of none (some v) = some (singleton_contract v)
contract_of none none = none

-- `contractAt`.
unfoldable pub contract_at : Address → Option Contract
unfolding contract_of
contract_at a = contract_of (multi_send_at a) (singleton_at a)
