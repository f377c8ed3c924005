-- ===== src/Events.antt =====
-- events.go: the decoding of the logs of well-known events.
pub mod Fitting
pub mod Decided
use safenet_arbitration_bot.Base.{
  ℕ, zero, suc, ◌+◌, ◌*◌, Bool, true, false, not, ◌&&◌, ◌||◌, Option, none, some, List, [], ◌∷◌,
  ◌++◌, map, join, if◌then◌else◌, ltb, ◌==◌, Bytes, codes, bytes_eq, length, drop, String, Error,
}
use safenet_arbitration_bot.Keccak.{Keccak}
use safenet_arbitration_bot.Solabi.Decode
use safenet_arbitration_bot.Solabi.Encode.{event_of}
use safenet_arbitration_bot.Ethrpc.Types.{Hash, Log}

-- The types of the parameters, which the source names by their texts.
pub data ParamType : Type 0 where
  address uint256 uint8 bool bytes32 bytes : ParamType

abbrev pub type_text : ParamType → Bytes
type_text address = codes "address"
type_text uint256 = codes "uint256"
type_text uint8 = codes "uint8"
type_text bool = codes "bool"
type_text bytes32 = codes "bytes32"
type_text bytes = codes "bytes"

pub record Param : Type 0 where
  pub name : String
  pub type : ParamType
  pub indexed : Bool

pub record Definition : Type 0 where
  pub name : String
  pub signature : Bytes
  pub params : List Param

-- An argument's value; a uint8 is a number.
pub data ArgValue : Type 0 where
  account : Bytes → ArgValue
  number : ℕ → ArgValue
  flag : Bool → ArgValue
  octets : Bytes → ArgValue

pub record Arg : Type 0 where
  pub name : String
  pub type : ParamType
  pub value : ArgValue

pub record Event : Type 0 where
  pub name : String
  pub signature : Bytes
  pub args : List Arg

-- `define`.
abbrev pub define : String → List Param → Definition
define name params = record {
  name = name;
  signature =
      codes name
      ++ (codes "(" ++ (join (codes ",") (map (λ p. type_text p.type) params) ++ codes ")"));
  params = params;
}

-- `in` and `ix`.
abbrev held : ParamType → String → Param
held type name = record { name = name; type = type; indexed = false }

abbrev ix : ParamType → String → Param
ix type name = record { name = name; type = type; indexed = true }

-- `either`, before the definitions that follow it.
abbrev either : String → ParamType → String → List Definition → List Definition
either name type param rest =
    define name (held type param ∷ []) ∷ define name (ix type param ∷ []) ∷ rest

-- ExecutionSuccess and ExecutionFailure.
abbrev executed : String → List Definition → List Definition
executed name rest =
    define name (held bytes32 "txHash" ∷ held uint256 "payment" ∷ [])
    ∷ define name (ix bytes32 "txHash" ∷ held uint256 "payment" ∷ [])
    ∷ rest

abbrev multi_sig_params : List Param
multi_sig_params =
    held address "to"
    ∷ held uint256 "value"
    ∷ held bytes "data"
    ∷ held uint8 "operation"
    ∷ held uint256 "safeTxGas"
    ∷ held uint256 "baseGas"
    ∷ held uint256 "gasPrice"
    ∷ held address "gasToken"
    ∷ held address "refundReceiver"
    ∷ held bytes "signatures"
    ∷ held bytes "additionalInfo"
    ∷ []

abbrev proxy_definitions : List Definition
proxy_definitions =
    define "SafeReceived" (ix address "sender" ∷ held uint256 "value" ∷ [])
    ∷ define "ApproveHash" (ix bytes32 "approvedHash" ∷ ix address "owner" ∷ [])
    ∷ define "SignMsg" (ix bytes32 "msgHash" ∷ [])
    ∷ define "ProxyCreation" (held address "proxy" ∷ held address "singleton" ∷ [])
    ∷ define "ProxyCreation" (ix address "proxy" ∷ held address "singleton" ∷ [])
    ∷ []

abbrev safe_definitions : List Definition
safe_definitions = executed "ExecutionSuccess" (
    executed "ExecutionFailure" (
      define "SafeMultiSigTransaction" multi_sig_params
      ∷ define "SafeModuleTransaction" (
          held address "module"
          ∷ held address "to"
          ∷ held uint256 "value"
          ∷ held bytes "data"
          ∷ held uint8 "operation"
          ∷ [])
      ∷ define "ExecutionFromModuleSuccess" (ix address "module" ∷ [])
      ∷ define "ExecutionFromModuleFailure" (ix address "module" ∷ [])
      ∷ either "AddedOwner" address "owner" (
          either "RemovedOwner" address "owner" (
            either "ChangedThreshold" uint256 "threshold" (
              either "EnabledModule" address "module" (
                either "DisabledModule" address "module" (
                  either "ChangedFallbackHandler" address "handler" (
                    either "ChangedGuard" address "guard"
                      (either "ChangedModuleGuard" address "moduleGuard" proxy_definitions)))))))))

-- The definitions of `init`, in its order.
abbrev pub all_definitions : List Definition
all_definitions =
    define "Transfer" (ix address "from" ∷ ix address "to" ∷ held uint256 "value" ∷ [])
    ∷ define "Transfer" (ix address "from" ∷ ix address "to" ∷ ix uint256 "tokenId" ∷ [])
    ∷ define "Approval" (ix address "owner" ∷ ix address "spender" ∷ held uint256 "value" ∷ [])
    ∷ define "Approval" (ix address "owner" ∷ ix address "approved" ∷ ix uint256 "tokenId" ∷ [])
    ∷ define "ApprovalForAll"
        (ix address "owner" ∷ ix address "operator" ∷ held bool "approved" ∷ [])
    ∷ define "Deposit" (ix address "dst" ∷ held uint256 "wad" ∷ [])
    ∷ define "Withdrawal" (ix address "src" ∷ held uint256 "wad" ∷ [])
    ∷ safe_definitions

unfoldable pub indexed_count : List Param → ℕ
indexed_count [] = 0
indexed_count (p ∷ ps) = if p.indexed then suc (indexed_count ps) else indexed_count ps

unfoldable pub held_count : List Param → ℕ
held_count [] = 0
held_count (p ∷ ps) = if p.indexed then held_count ps else suc (held_count ps)

abbrev pub is_bytes : ParamType → Bool
is_bytes bytes = true
is_bytes _ = false

-- `dynamic`.
unfoldable pub is_dynamic : List Param → Bool
is_dynamic [] = false
is_dynamic (p ∷ ps) = is_bytes p.type || is_dynamic ps

-- The value that was read, unless the decoder has an error.
unfoldable pub valued : {A : Type 0} → (A → ArgValue) → A × Option Error → Option ArgValue
valued f (a, none) = some (f a)
valued f (a, some e) = none

small : Option ArgValue → ℕ → Option ArgValue
small o n = if ltb 255 n then none else o

-- The switch on the parameter's type. The decoder has no error before it.
unfoldable pub read_value : ParamType → Bytes → ℕ → Option ArgValue
unfolding small
read_value address d i = valued account (Decode.address d i none)
read_value uint256 d i = valued number (Decode.uint d i none)
read_value uint8 d i = let v = Decode.uint64 d i none in small (valued number v) v.0
read_value bool d i = valued flag (Decode.bool d i none)
read_value bytes32 d i = valued octets (Decode.bytes32 d i none)
read_value bytes d i = valued octets (Decode.bytes d i none)

abbrev cons_arg : Param → Option ArgValue → Option (List Arg) → Option (List Arg)
cons_arg p (some v) (some args) = some (record { name = p.name; type = p.type; value = v } ∷ args)
cons_arg p _ _ = none

-- The next topic. There is one for each indexed parameter.
abbrev first_topic : List Hash → Bytes
first_topic [] = []
first_topic (topic ∷ topics) = topic

-- The loop over the parameters: the topics that are left, and the next word of the data.
unfoldable pub read_args : Bytes → List Hash → ℕ → List Param → Option (List Arg)
read_args d topics word [] = some []
read_args d topics word (p ∷ ps) =
    cons_arg p
      (read_value p.type (if p.indexed then first_topic topics else d)
        (if p.indexed then 0 else word))
      (read_args d (if p.indexed then drop 1 topics else topics)
        (if p.indexed then word else word + 1) ps)

-- The data has nothing but a word for each parameter in it, unless one is dynamic.
unfoldable pub exact : Definition → Log → Option (List Arg) → Option (List Arg)
exact def log none = none
exact def log (some args) =
    if not (is_dynamic def.params) && not (length log.payload == 32 * held_count def.params)
    then none
    else some args

-- `definition.decode`.
unfoldable pub decode_as : Definition → Log → Option (List Arg)
decode_as def log =
    if not (length log.topics == indexed_count def.params + 1)
    then none
    else exact def log (read_args log.payload (drop 1 log.topics) 0 def.params)

abbrev pub named : Definition → List Arg → Event
named def args = record { name = def.name; signature = def.signature; args = args }

abbrev pub or_later : Definition → Option (List Arg) → Option Event → Option Event
or_later def none later = later
or_later def (some args) later = some (named def args)

module _ ⦃k : Keccak⦄ where
  -- The first definition with the topic that the log has the layout of.
  unfoldable pub decode_in : Hash → Log → List Definition → Option Event
  decode_in topic log [] = none
  decode_in topic log (def ∷ defs) =
      let later = decode_in topic log defs in
      if bytes_eq (event_of def.signature) topic
      then or_later def (decode_as def log) later
      else later

  unfoldable pub decode_topics : Log → List Hash → Option Event
  decode_topics log [] = none
  decode_topics log (topic ∷ topics) = decode_in topic log all_definitions

  -- `Decode`.
  unfoldable pub decode : Log → Option Event
  unfolding decode_in decode_topics
  decode log = decode_topics log log.topics
