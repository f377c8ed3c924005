-- ===== src/Tests/Contracts.antt =====
-- internal/events, internal/solabi/abi.go and internal/signatures, on one log and one contract.
use mathlib.Core.List.{flatten}
use safenet_arbitration_bot.Base.{
  ◌≡◌, refl, false, none, some, [], ◌∷◌, ◌++◌, codes, replicate, padded, ok, bytes_eq, from_be,
  is_zero,
}
use safenet_arbitration_bot.Keccak.{hash}
use safenet_arbitration_bot.Keccak.Stub.{stub}
use safenet_arbitration_bot.Solabi.Decode
use safenet_arbitration_bot.Solabi.Encode.{event, encode_address}
use safenet_arbitration_bot.Solabi.Abi.{AbiEntry, AbiParam, param, Params}
use safenet_arbitration_bot.Solabi.Abi as Abi
use safenet_arbitration_bot.Ethrpc.Types.{Address, Log}
use safenet_arbitration_bot.Transfers.Erc20.{transfer_event}
use safenet_arbitration_bot.Events.{
  Event, all_definitions, indexed_count, held_count, is_dynamic, read_value, valued, read_args,
  exact, decode_as, decode_in, decode_topics, decode,
}
use safenet_arbitration_bot.Events as Events
use safenet_arbitration_bot.Events.Decided.{Decided}
use safenet_arbitration_bot.Sourcify.Lookup.{
  Contract, verified, Repository, fetch, answered, checked, SourceRecord,
}
use safenet_arbitration_bot.Sourcify.Signatures.{
  Report, lookup, by_status, report_contract, list_entries, add_entry, add_function, le_function,
  le_bytes, insert, sort, repeats,
}
use safenet_arbitration_bot.Sourcify.Covered.{Covers}
use safenet_arbitration_bot.Sourcify.Ascending.{AreListed, lookup-lists}

abbrev payer : Address
payer = replicate 20 5

abbrev payee : Address
payee = replicate 20 6

abbrev a_log : Log
a_log = record {
  address = replicate 20 8;
  topics = transfer_event ⦃k = stub⦄ ∷ encode_address payer ∷ encode_address payee ∷ [];
  payload = replicate 31 0 ++ 7 ∷ [];
  block_number = 6;
  transaction_hash = replicate 32 7;
  log_index = 2;
  removed = false;
}

abbrev an_event : Event
an_event = record {
  name = "Transfer";
  signature = codes "Transfer(address,address,uint256)";
  args =
      record { name = "from"; type = Events.address; value = Events.account payer }
      ∷ record { name = "to"; type = Events.address; value = Events.account payee }
      ∷ record { name = "value"; type = Events.uint256; value = Events.number 7 }
      ∷ [];
}

event_run : decode ⦃k = stub⦄ a_log ≡ some an_event
unfolding decode decode_topics decode_in decode_as exact read_args read_value valued indexed_count
    held_count is_dynamic event hash flatten bytes_eq encode_address from_be is_zero Decode.address
    Decode.uint Decode.word
event_run = refl

-- A function of an array of pairs.
abbrev an_entry : AbiEntry
an_entry = record {
  type = codes "function";
  name = codes "pay";
  inputs =
      Abi.cons
        (param (codes "tuple[]") (
          Abi.cons (param (codes "address") Abi.nil)
            (Abi.cons (param (codes "uint8") Abi.nil) Abi.nil)))
        Abi.nil;
  state_mutability = [];
  payable = false;
  constant = false;
}

abbrev another_entry : AbiEntry
another_entry = record {
  type = codes "function";
  name = codes "claim";
  inputs = Abi.nil;
  state_mutability = codes "view";
  payable = false;
  constant = false;
}

abbrev a_receiver : AbiEntry
a_receiver = record {
  type = codes "receive";
  name = [];
  inputs = Abi.nil;
  state_mutability = codes "payable";
  payable = false;
  constant = false;
}

abbrev a_contract : Contract
a_contract = record {
  match = codes "match";
  runtime_match = codes "match";
  verified_at = 1;
  name = codes "Pay.sol:Pay";
  compiler = codes "0.8.30";
  abi = an_entry ∷ a_receiver ∷ another_entry ∷ [];
  runtime_code = 9 ∷ [];
}

-- A repository that has verified the code of one byte.
abbrev a_repository : Repository
a_repository = record {
  url = λ chain_id a. ok (codes "https://example.com");
  contract = λ chain_id a. ok a_contract;
  now = 2;
}

abbrev a_source : SourceRecord
a_source = record {
  name = codes "sourcify";
  url = codes "https://example.com";
  observed_at = 2;
  match = codes "match";
  runtime_match = codes "match";
  verified_at = some 1;
  contract = codes "Pay.sol:Pay";
  compiler = codes "0.8.30";
}

abbrev a_report : Report
a_report = record {
  found = record {
    address = payee;
    code_hash = padded 32 (9 ∷ []);
    code_size = 1;
    status = verified;
    source = some a_source;
  };
  functions = some (
      record {
        selector = codes "clai";
        signature = codes "claim()";
        state_mutability = codes "view";
      }
      ∷ record {
        selector = codes "pay(";
        signature = codes "pay((address,uint8)[])";
        state_mutability = codes "nonpayable";
      }
      ∷ []);
  fallback = none;
  receive = some (codes "payable");
}

report_run : lookup ⦃k = stub⦄ a_repository 100 payee (9 ∷ []) ≡ ok a_report
unfolding lookup fetch answered checked by_status report_contract list_entries add_entry
    add_function le_function le_bytes insert sort repeats Abi.mutability Abi.signature
    Abi.is_identifier Abi.all_of Abi.tuple_type Abi.canonical_types Abi.typed Abi.type_parts
    Abi.span Abi.array_suffixes Abi.valid_base Abi.atoi bytes_eq hash flatten
report_run = refl

fetch_run : fetch ⦃k = stub⦄ a_repository 100 payee (9 ∷ []) ≡ ok (a_report.found, some a_contract)
unfolding fetch answered checked bytes_eq hash flatten
fetch_run = refl

lookup-lists_example :
    Covers ⦃k = stub⦄ a_contract.abi a_report.functions × AreListed ⦃k = stub⦄ a_report.functions
lookup-lists_example = lookup-lists ⦃k = stub⦄ a_repository 100 payee (9 ∷ []) fetch_run report_run
