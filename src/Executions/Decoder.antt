-- ===== src/Executions/Decoder.antt =====
-- decode.go: the decoder, whose caches are the state `Memo`.
use safenet_arbitration_bot.Base.{
  pos, ℕ, ◌-◌, Bool, true, false, ◌&&◌, Option, none, some, List, [], ◌∷◌, ◌++◌, if◌then◌else◌, ltb,
  Bytes, bytes_eq, Error, wrap, Result, ok, err, is_not_found,
}
use safenet_arbitration_bot.Keccak.{Keccak}
use safenet_arbitration_bot.Solabi.Decode.{uint}
use safenet_arbitration_bot.Solabi.Encode.{calldata, nil}
use safenet_arbitration_bot.Ethrpc.Types.{Address, Hash, Transaction}
use safenet_arbitration_bot.Safenet.Types.{SafeTransaction}
use safenet_arbitration_bot.Executions.Types.{
  Source, unknown, from_event, from_calldata, from_trace, from_service, Execution, CallFrame,
}
use safenet_arbitration_bot.Executions.Frames.{calls_to, is_to}
use safenet_arbitration_bot.Executions.Decode.{nonce_selector, decode_call, read_fully, matches}
use safenet_arbitration_bot.Executions.Gather.{Finder}

-- The caches of the decoder, and the errors that Warn was called with. A nil transaction in `txs`
-- is one that the node did not return.
pub record Memo : Type 0 where
  pub nonce_read : Bool
  pub nonce_next : Option ℕ
  pub txs : List (Hash × Option Transaction)
  pub traces : List (Hash × List Bytes)
  pub warnings : List Error

abbrev pub fresh : Memo
fresh = record { nonce_read = false; nonce_next = none; txs = []; traces = []; warnings = [] }

abbrev pub warn : Error → Memo → Memo
warn e m = record m { warnings = m.warnings ++ e ∷ [] }

-- The first of two that is not nil.
abbrev pub or_else {ℓ} : {A : Type ℓ} → Option A → Option A → Option A
or_else none o = o
or_else (some a) o = some a

-- A map from hashes, as the list of its entries.
unfoldable pub find_hash {ℓ} : {V : Type ℓ} → Hash → List (Hash × V) → Option V
find_hash h [] = none
find_hash h ((other, v) ∷ rest) = if bytes_eq other h then some v else find_hash h rest

unfoldable pub next_nonce : Result Bytes → Option ℕ
next_nonce (err e) = none
next_nonce (ok d) = read_fully (uint d 0 none)

unfoldable pub nonce_warning : Result Bytes → Memo → Memo
nonce_warning (ok d) m = m
nonce_warning (err e) m = warn (wrap "reading the nonce of the Safe" e) m

-- The nonce of an execution that `left` executions follow, itself included.
unfoldable pub used_nonce : Option ℕ → ℕ → Option ℕ
used_nonce none left = none
used_nonce (some next) left = if ltb next left then none else some (next - left)

-- The onchain transaction that is cached, or that the node returns and is cached then.
unfoldable pub found_tx : Result Transaction → Option Transaction
found_tx (ok tx) = some tx
found_tx (err e) = none

unfoldable pub tx_warning : Result Transaction → Memo → Memo
tx_warning (ok tx) m = m
tx_warning (err e) m = warn (wrap "getting transaction" e) m

module _ ⦃k : Keccak⦄ where
  -- The first transaction of the event logs of the onchain transaction that matches.
  unfoldable pub event_match : List (Hash × SafeTransaction) → Execution → Option SafeTransaction
  event_match [] e = none
  event_match ((h, tx) ∷ events) e =
      if bytes_eq h e.tx_hash && matches tx e.safe_tx_hash then some tx else event_match events e

  -- `candidate`.
  unfoldable pub set_nonce : ℕ → Option SafeTransaction → Hash → Option SafeTransaction
  set_nonce nonce none want = none
  set_nonce nonce (some tx) want =
      let tx' = record tx { nonce = some (pos nonce) } in
      if matches tx' want then some tx' else none

module _ ⦃k : Keccak⦄ (f : Finder) (safe : Address) where
  unfoldable pub candidate : Bytes → Execution → ℕ → Option SafeTransaction
  candidate input e nonce = set_nonce nonce (decode_call safe f.eth.chain_id input) e.safe_tx_hash

  -- The first of the calls' inputs that is a candidate.
  unfoldable pub first_candidate : List Bytes → Execution → ℕ → Option SafeTransaction
  first_candidate [] e nonce = none
  first_candidate (input ∷ inputs) e nonce =
      or_else (candidate input e nonce) (first_candidate inputs e nonce)

  -- The calldata of a transaction, if it is known and calls the Safe.
  unfoldable pub calldata_match : Option Transaction → Execution → ℕ → Option SafeTransaction
  calldata_match none e nonce = none
  calldata_match (some tx) e nonce = if is_to tx.to safe then candidate tx.input e nonce else none

  -- What the node answers to the call of `nonce()`, and what it says of the next nonce.
  unfoldable pub call_nonce : ℕ → Result Bytes
  call_nonce to = elim (calldata nonce_selector nil) [
    | err e ↦ err e
    | ok input ↦ f.eth.call (record { to = safe; input = input }) to
  ]

  unfoldable pub read_nonce : ℕ → Memo → Memo
  read_nonce to m =
      if m.nonce_read
      then m
      else (let answer = call_nonce to in
          record (nonce_warning answer m) { nonce_read = true; nonce_next = next_nonce answer })

  unfoldable pub get_tx : Hash → Option (Option Transaction) → Memo → Option Transaction × Memo
  get_tx h (some tx) m = (tx, m)
  get_tx h none m =
      let answer = f.eth.get_transaction_by_hash h in
      let m' = tx_warning answer m in
      (found_tx answer, record m' { txs = (h, found_tx answer) ∷ m'.txs })

  -- `fromCalldata`.
  unfoldable pub from_tx : Execution → ℕ → Memo → Option SafeTransaction × Memo
  from_tx e nonce m =
      let (tx, m') = get_tx e.tx_hash (find_hash e.tx_hash m.txs) m in
      (calldata_match tx e nonce, m')

  -- The inputs of the calls to the Safe in a trace, of which there are none if there is no trace.
  unfoldable pub trace_inputs : Result CallFrame → List Bytes
  trace_inputs (err e) = []
  trace_inputs (ok root) = calls_to safe root []

  unfoldable pub get_inputs : Hash → Option (List Bytes) → Memo → List Bytes × Memo
  get_inputs h (some inputs) m = (inputs, m)
  get_inputs h none m =
      let inputs = trace_inputs (f.trace h) in
      (inputs, record m { traces = (h, inputs) ∷ m.traces })

  -- `fromTrace`.
  unfoldable pub from_frames : Execution → ℕ → Memo → Option SafeTransaction × Memo
  from_frames e nonce m =
      let (inputs, m') = get_inputs e.tx_hash (find_hash e.tx_hash m.traces) m in
      (first_candidate inputs e nonce, m')

abbrev pub Decoded : Type 0
Decoded = Source × Option SafeTransaction

module _ ⦃k : Keccak⦄ where
  -- What the service answers: a transaction that does not match is none, and an error is one
  -- to warn of unless the service has no such transaction.
  unfoldable pub service_match : Result SafeTransaction → Execution → Decoded
  service_match (err x) e = (unknown, none)
  service_match (ok tx) e =
      if matches tx e.safe_tx_hash then (from_service, some tx) else (unknown, none)

unfoldable pub service_warning : Result SafeTransaction → Memo → Memo
service_warning (ok tx) m = m
service_warning (err x) m =
    if is_not_found x
    then m
    else warn (wrap "getting Safe transaction from the Safe Transaction Service" x) m

module _ ⦃k : Keccak⦄ where
  unfoldable pub ask_service :
      Option (Hash → Result SafeTransaction) → Execution → Memo → Decoded × Memo
  ask_service none e m = ((unknown, none), m)
  ask_service (some service) e m =
      let answer = service e.safe_tx_hash in (service_match answer e, service_warning answer m)

module _ ⦃k : Keccak⦄ (f : Finder) (safe : Address) where
  -- The sources in their order, each if the one before has no match.
  unfoldable pub after_trace : Execution → Option SafeTransaction × Memo → Decoded × Memo
  after_trace e (some tx, m) = ((from_trace, some tx), m)
  after_trace e (none, m) = ask_service f.service e m

  unfoldable pub after_calldata : Execution → ℕ → Option SafeTransaction × Memo → Decoded × Memo
  after_calldata e nonce (some tx, m) = ((from_calldata, some tx), m)
  after_calldata e nonce (none, m) = after_trace e (from_frames f safe e nonce m)

  unfoldable pub after_nonce : Execution → Option ℕ → Memo → Decoded × Memo
  after_nonce e none m = ask_service f.service e m
  after_nonce e (some nonce) m = after_calldata e nonce (from_tx f safe e nonce m)

  unfoldable pub after_events : ℕ → ℕ → Execution → Option SafeTransaction → Memo → Decoded × Memo
  after_events to left e (some tx) m = ((from_event, some tx), m)
  after_events to left e none m =
      let m' = read_nonce f safe to m in after_nonce e (used_nonce m'.nonce_next left) m'

  -- `decode`, of an execution that `left` executions follow, itself included.
  unfoldable pub decode : ℕ → List (Hash × SafeTransaction) → ℕ → Execution → Memo → Decoded × Memo
  decode to events left e m = after_events to left e (event_match events e) m
