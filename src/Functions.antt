-- ===== src/Functions.antt =====
-- functions.go: the decoding of the call data of well-known functions.
pub mod Encoded
use safenet_arbitration_bot.Base.{
  join, ℕ, zero, suc, ◌+◌, Bool, true, false, Option, none, some, List, [], ◌∷◌, ◌++◌, map,
  if◌then◌else◌, ltb, Bytes, codes, bytes_eq, length, take, drop, String, Error,
}
use safenet_arbitration_bot.Keccak.{Keccak}
use safenet_arbitration_bot.Solabi.Decode
use safenet_arbitration_bot.Solabi.Encode.{selector_of}

-- The types of the parameters, which the source names by their texts.
pub data ParamType : Type 0 where
  address uint256 uint8 bytes : ParamType

abbrev pub type_text : ParamType → Bytes
type_text address = codes "address"
type_text uint256 = codes "uint256"
type_text uint8 = codes "uint8"
type_text bytes = codes "bytes"

pub record Param : Type 0 where
  pub name : String
  pub type : ParamType
  pub call : Bool

pub record Definition : Type 0 where
  pub name : String
  pub signature : Bytes
  pub params : List Param

abbrev pub define : String → List Param → Definition
define name params = record {
  name = name;
  signature =
      codes name
      ++ (codes "(" ++ (join (codes ",") (map (λ p. type_text p.type) params) ++ codes ")"));
  params = params;
}

abbrev p : ParamType → String → Param
p type name = record { name = name; type = type; call = false }

abbrev call_data : String → Param
call_data name = record { name = name; type = bytes; call = true }

-- The definitions of `init`, in its order.
abbrev pub all_definitions : List Definition
all_definitions =
    define "transfer" (p address "to" ∷ p uint256 "value" ∷ [])
    ∷ define "transferFrom" (p address "from" ∷ p address "to" ∷ p uint256 "value" ∷ [])
    ∷ define "approve" (p address "spender" ∷ p uint256 "value" ∷ [])
    ∷ define "execTransaction" (
        p address "to"
        ∷ p uint256 "value"
        ∷ call_data "data"
        ∷ p uint8 "operation"
        ∷ p uint256 "safeTxGas"
        ∷ p uint256 "baseGas"
        ∷ p uint256 "gasPrice"
        ∷ p address "gasToken"
        ∷ p address "refundReceiver"
        ∷ p bytes "signatures"
        ∷ [])
    ∷ define "createProxyWithNonce"
        (p address "singleton" ∷ p bytes "initializer" ∷ p uint256 "saltNonce" ∷ [])
    ∷ []

-- An argument's value; a uint8 is a number.
pub data ArgValue : Type 0 where
  account : Bytes → ArgValue
  number : ℕ → ArgValue
  octets : Bytes → ArgValue

-- Decoded call data. An argument has the call that it is the data of, if it is one.
mutual
  pub data Function : Type 0 where
    function : String → Bytes → Args → Function

  pub data Arg : Type 0 where
    plain : String → ParamType → ArgValue → Arg
    call : String → ParamType → ArgValue → Function → Arg

  pub data Args : Type 0 where
    nil : Args
    cons : Arg → Args → Args

module _ ⦃k : Keccak⦄ where
  -- The definition with the selector. Two with one selector are a panic of `init`.
  unfoldable pub definition_in : Bytes → List Definition → Option Definition
  definition_in sel [] = none
  definition_in sel (def ∷ defs) =
      if bytes_eq (selector_of def.signature) sel then some def else definition_in sel defs

  unfoldable pub definition_at : Bytes → Option Definition
  unfolding definition_in
  definition_at sel = definition_in sel all_definitions

-- The value that was read, unless the decoder has an error.
unfoldable pub valued : {A : Type 0} → (A → ArgValue) → A × Option Error → Option ArgValue
valued f (a, none) = some (f a)
valued f (a, some e) = none

-- A number past 255 is no uint8.
small : Option ArgValue → ℕ → Option ArgValue
small o n = if ltb 255 n then none else o

-- The switch on the parameter's type, for argument `i`. The decoder has no error before it.
unfoldable pub read_value : ParamType → Bytes → ℕ → Option ArgValue
unfolding small
read_value address d i = valued (λ w. account (drop 12 w)) (Decode.bytes32 d i none)
read_value uint256 d i = valued number (Decode.uint d i none)
read_value uint8 d i = let v = Decode.uint64 d i none in small (valued number v) v.0
read_value bytes d i = valued octets (Decode.bytes d i none)

abbrev with_call : Param → ArgValue → Option Function → Arg
with_call p v none = plain p.name p.type v
with_call p v (some f) = call p.name p.type v f

-- The argument, with the call that `nested` decodes from it if the parameter is the data of a call.
unfoldable pub argument : (Bytes → Option Function) → Param → ArgValue → Arg
argument nested p (octets b) = with_call p (octets b) (if p.call then nested b else none)
argument nested p v = plain p.name p.type v

abbrev cons_args : Option Arg → Option Args → Option Args
cons_args (some a) (some rest) = some (cons a rest)
cons_args _ _ = none

abbrev pub map_value : (ArgValue → Arg) → Option ArgValue → Option Arg
map_value f none = none
map_value f (some v) = some (f v)

-- The loop over the parameters, from index `i` on.
unfoldable pub read_args : (Bytes → Option Function) → Bytes → ℕ → List Param → Option Args
read_args nested d i [] = some nil
read_args nested d i (p ∷ ps) =
    cons_args (map_value (argument nested p) (read_value p.type d i))
      (read_args nested d (i + 1) ps)

unfoldable pub made : Definition → Option Args → Option Function
made def none = none
made def (some args) = some (function def.name def.signature args)

unfoldable pub defined : (Bytes → Option Function) → Bytes → Option Definition → Option Function
unfolding made
defined nested d none = none
defined nested d (some def) = made def (read_args nested d 0 def.params)

abbrev pub max_depth : ℕ
max_depth = 8

module _ ⦃k : Keccak⦄ where
  -- `decode`, with the levels that are left: at maxDepth there are none.
  unfoldable pub decode_levels : ℕ → Bytes → Option Function
  decode_levels zero input = none
  decode_levels (suc levels) input =
      if ltb (length input) 4
      then none
      else defined (decode_levels levels) (drop 4 input) (definition_at (take 4 input))

  -- `Decode`.
  unfoldable pub decode : Bytes → Option Function
  unfolding decode_levels
  decode input = decode_levels max_depth input

-- `String`: the names of the function, and of the calls that it makes.
unfoldable mutual
  pub text : Function → Bytes
  text (function name signature args) = join (codes " > ") (codes name ∷ names_in args)

  pub names_in : Args → List Bytes
  names_in nil = []
  names_in (cons a args) = names_of a ++ names_in args

  pub names_of : Arg → List Bytes
  names_of (plain name type v) = []
  names_of (call name type v f) = text f ∷ []
