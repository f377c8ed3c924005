-- ===== src/Safenet/Arbitrations.antt =====
-- safenet.go: `arbitration`.
pub mod Consistent
use safenet_arbitration_bot.Base.{
  ℕ, ◌-◌, ◌%◌, Bool, true, false, not, ◌&&◌, ◌||◌, Option, none, some, List, [], ◌∷◌, ◌++◌, String,
  if◌then◌else◌, ltb, ◌==◌, Bytes, bytes_eq, Error, message, wrap, Result, ok, err, fail_if, ◌>>=◌,
  ◌>>◌,
}
use safenet_arbitration_bot.Keccak.{Keccak}
use safenet_arbitration_bot.Solabi.Decode.{uint, uint64, bytes}
use safenet_arbitration_bot.Ethrpc.Types.{Address, Hash, Log, LogFilter, Client}
use safenet_arbitration_bot.Ethrpc.Logs.{scan_logs}
use safenet_arbitration_bot.Safenet.Types.{
  State, state_frozen, state_resolved_approved, state_resolved_denied, state_timed_out, Outcome,
  outcome_pending, outcome_secure, outcome_insecure, outcome_out_of_scope, outcome_timed_out,
  Settlement, Arbitration,
}
use safenet_arbitration_bot.Safenet.Disputes.{
  dispute_triggered_event, dispute_resolved_event, dispute_out_of_scope_event,
  arbitration_timed_out_event, arbitration_events,
}

-- `outcomeStates`.
unfoldable pub outcome_state : Outcome → State
outcome_state outcome_pending = state_frozen
outcome_state outcome_secure = state_resolved_approved
outcome_state outcome_insecure = state_resolved_denied
outcome_state outcome_out_of_scope = state_timed_out
outcome_state outcome_timed_out = state_timed_out

-- What the loop of `arbitration` keeps: whether the request was frozen, and the arbitration.
pub record Hearing : Type 0 where
  pub frozen : Bool
  pub arbitration : Arbitration

abbrev pub is_open : Outcome → Bool
is_open outcome_pending = true
is_open _ = false

-- The end of the loop's body: the decoder's error, and the record of a settlement.
unfoldable pub conclude : Log → Hearing → Option Error → Result Hearing
conclude log h (some e) = err (wrap "decoding arbitration log" e)
conclude log h none = ok (
    if is_open h.arbitration.outcome then h else record {
      frozen = h.frozen;
      arbitration = record h.arbitration {
        settled_by = some (record { block = log.block_number; tx_hash = log.transaction_hash });
      };
    })

-- `outcome`, `slashed` and `context`.
abbrev pub ruled : Hearing → Outcome → Option ℕ → Bytes → Hearing
ruled h outcome slashed context = record {
  frozen = h.frozen;
  arbitration = record h.arbitration { outcome = outcome; slashed = slashed; context = context };
}

-- The branch of DisputeTriggered.
unfoldable pub triggered : Log → Hearing → ℕ → Result Hearing
triggered log h deadline =
    let logged = uint64 log.payload 0 none in
    let frozen : Hearing = record h { frozen = true } in
    elim logged.1 [
      | some e ↦ conclude log frozen (some e)
      | none ↦ do
        fail_if (not (logged.0 == deadline)) "DisputeTriggered has another deadline than the oracle"
        conclude log frozen none
    ]

-- The outcome of a DisputeResolved log, whose state is a uint8.
unfoldable pub resolution : ℕ → Option Outcome
resolution state =
    if state % 256 == state_resolved_approved
    then some outcome_secure
    else if state % 256 == state_resolved_denied
    then some outcome_insecure
    else none

-- The branch of DisputeResolved.
unfoldable pub resolved : Log → Hearing → Result Hearing
resolved log h =
    let d = log.payload in
    let state = uint64 d 0 none in
    elim (resolution state.0) [
      | none ↦ err (message "DisputeResolved has invalid outcome")
      | some outcome ↦
          let slashed = uint d 1 state.1 in
          let context = bytes d 2 slashed.1 in
          conclude log (ruled h outcome (some slashed.0) context.0) context.1
    ]

module _ ⦃k : Keccak⦄ where
  -- The body of the loop, for a log of this topic that was not removed.
  unfoldable pub hear : ℕ → Log → Hash → Hearing → Result Hearing
  hear deadline log topic h =
      let context = bytes log.payload 0 none in
      if bytes_eq topic dispute_triggered_event
      then triggered log h deadline
      else if bytes_eq topic dispute_resolved_event
      then resolved log h
      else if bytes_eq topic dispute_out_of_scope_event
      then conclude log (ruled h outcome_out_of_scope h.arbitration.slashed context.0) context.1
      else if bytes_eq topic arbitration_timed_out_event
      then conclude log (ruled h outcome_timed_out h.arbitration.slashed h.arbitration.context) none
      else conclude log h none

  unfoldable pub hear_topics : ℕ → Log → List Hash → Hearing → Result Hearing
  hear_topics deadline log (topic ∷ id ∷ []) h = hear deadline log topic h
  hear_topics deadline log _ h = err (message "getting arbitration: wrong number of topics")

  -- The loop, which stops at the log that settles the arbitration.
  unfoldable pub hear_logs : ℕ → Hearing → List Log → Option Error → Result Hearing
  hear_logs deadline h [] none = ok h
  hear_logs deadline h [] (some e) = err (wrap "getting arbitration" e)
  hear_logs deadline h (log ∷ logs) failure = elim log.removed [
    | true ↦ hear_logs deadline h logs failure
    | false ↦ do
      next ← hear_topics deadline log log.topics h
      elim (is_open next.arbitration.outcome) [
        | false ↦ ok next
        | true ↦ hear_logs deadline next logs failure
      ]
  ]

  abbrev pub arbitration_filter : Address → Hash → ℕ → ℕ → LogFilter
  arbitration_filter oracle id from to = record {
    from_block = from;
    to_block = to;
    addresses = oracle ∷ [];
    topics = some arbitration_events ∷ some (id ∷ []) ∷ [];
  }

  abbrev pub opened : ℕ → ℕ → Hearing
  opened frozen_block deadline = record {
    frozen = false;
    arbitration = record {
      frozen_block = frozen_block;
      deadline = deadline;
      outcome = outcome_pending;
      slashed = none;
      context = [];
      settled_by = none;
    };
  }

  -- `session.arbitration`.
  unfoldable pub arbitration :
      Client → Address → Hash → State → (deadline timeout block : ℕ) → Result Arbitration
  arbitration client oracle id state deadline timeout block = do
    fail_if (ltb deadline timeout) "arbitration deadline is before ARBITRATION_TIMEOUT"
    let from = deadline - timeout
    let to = if state == state_frozen then from else block
    let scan = scan_logs client (arbitration_filter oracle id from to)
    h ← hear_logs deadline (opened from deadline) scan.logs scan.failure
    fail_if (not h.frozen) "no DisputeTriggered log in the block"
    fail_if (not (outcome_state h.arbitration.outcome == state))
        "the arbitration logs have another outcome than the request's state"
    ok h.arbitration
