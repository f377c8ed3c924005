-- ===== src/Safenet/Arbitrations/Consistent.antt =====
-- safenet.go: what `arbitration` returns, against the oracle's record of the request.
use safenet_arbitration_bot.Base.{
  ℕ, ◌+◌, ◌-◌, ◌≡◌, ◌⊎◌, inl, inr, refl, subst, true, false, not, Option, none, some, List, [], ◌∷◌,
  bytes_eq, Bool-cases, Option-cases, arith, Error, ok, fail_if, fail_if-eq-ok, >>=-eq-ok, ltb,
  ◌==◌, if◌then◌else◌,
}
use safenet_arbitration_bot.Keccak.{Keccak}
use safenet_arbitration_bot.Solabi.Decode.{uint64}
use safenet_arbitration_bot.Ethrpc.Types.{Address, Hash, Log, Client}
use safenet_arbitration_bot.Ethrpc.Logs.{scan_logs}
use safenet_arbitration_bot.Safenet.Types.{
  State, state_frozen, outcome_out_of_scope, outcome_timed_out, Settlement, Arbitration,
}
use safenet_arbitration_bot.Safenet.Disputes.{
  dispute_triggered_event, dispute_resolved_event, dispute_out_of_scope_event,
  arbitration_timed_out_event,
}
use safenet_arbitration_bot.Safenet.Arbitrations.{
  outcome_state, Hearing, is_open, conclude, ruled, triggered, resolution, resolved, hear,
  hear_topics, hear_logs, arbitration_filter, opened, arbitration,
}

-- An arbitration has the record of a settlement exactly when its outcome is not pending.
abbrev pub IsRecorded : Arbitration → Type 0
IsRecorded a =
    ((is_open a.outcome ≡ true) × (a.settled_by ≡ none))
    ⊎ ((is_open a.outcome ≡ false) × ((s : Settlement) × (a.settled_by ≡ some s)))

-- The blocks of the arbitration are those it was opened with.
abbrev HasBlocks : ℕ → ℕ → Arbitration → Type 0
HasBlocks frozen_block deadline a = (a.frozen_block ≡ frozen_block) × (a.deadline ≡ deadline)

-- A hearing that a step of the loop returns.
abbrev IsHearing : ℕ → ℕ → Hearing → Type 0
IsHearing f d h = HasBlocks f d h.arbitration × IsRecorded h.arbitration

-- A hearing that goes on: nothing is settled.
abbrev IsUnsettled : ℕ → ℕ → Hearing → Type 0
IsUnsettled f d h = HasBlocks f d h.arbitration × (h.arbitration.settled_by ≡ none)

module _ (f d : ℕ) where
  conclude-IsHearing :
      (log : Log) (h : Hearing) (o : Option Error) {next : Hearing}
      → IsUnsettled f d h
      → conclude log h o ≡ ok next
      → IsHearing f d next
  unfolding conclude
  conclude-IsHearing log h (some e) u made = cc
  conclude-IsHearing log h none {next} (blocks, unsettled) made =
      elim (Bool-cases (is_open h.arbitration.outcome)) [
        | inl t ↦
            let same : ok h ≡ ok next = rw t at made in
            let e : h ≡ next = cc in subst (IsHearing f d) e (blocks, inl (t, unsettled))
        | inr c ↦
            let settlement : Settlement = record {
              block = log.block_number;
              tx_hash = log.transaction_hash;
            } in
            let done : Hearing = record {
              frozen = h.frozen;
              arbitration = record h.arbitration { settled_by = some settlement };
            } in
            let same : ok done ≡ ok next = rw c at made in
            let e : done ≡ next = cc in
            subst (IsHearing f d) e (blocks, inr (c, (settlement, refl)))
      ]

  triggered-IsHearing :
      (log : Log) (h : Hearing) (deadline : ℕ) {next : Hearing}
      → IsUnsettled f d h
      → triggered log h deadline ≡ ok next
      → IsHearing f d next
  unfolding triggered
  triggered-IsHearing log h deadline u made =
      let frozen : Hearing = record h { frozen = true } in
      elim (Option-cases (uint64 log.payload 0 none).1) [
        | inr (e, m) ↦ conclude-IsHearing log frozen (some e) u (rw (m, triggered) at made)
        | inl m ↦
            let (_, _, made') =
              >>=-eq-ok
                (fail_if (not ((uint64 log.payload 0 none).0 == deadline))
                  "DisputeTriggered has another deadline than the oracle")
                _ (rw (m, triggered) at made) in
            conclude-IsHearing log frozen none u made'
      ]

  resolved-IsHearing :
      (log : Log) (h : Hearing) {next : Hearing}
      → IsUnsettled f d h
      → resolved log h ≡ ok next
      → IsHearing f d next
  unfolding resolved
  resolved-IsHearing log h u made = elim (Option-cases (resolution (uint64 log.payload 0 none).0)) [
    | inl m ↦ cc (rw (m, resolved) at made)
    | inr (outcome, m) ↦ conclude-IsHearing log (ruled h outcome _ _) _ u (rw (m, resolved) at made)
  ]

module _ ⦃k : Keccak⦄ (f d : ℕ) where
  hear-IsHearing :
      (deadline : ℕ) (log : Log) (topic : Hash) (h : Hearing) {next : Hearing}
      → IsUnsettled f d h
      → hear deadline log topic h ≡ ok next
      → IsHearing f d next
  unfolding hear
  hear-IsHearing deadline log topic h u made =
      elim (Bool-cases (bytes_eq topic dispute_triggered_event)) [
        | inl t ↦ triggered-IsHearing f d log h deadline u (rw t at made)
        | inr a ↦ elim (Bool-cases (bytes_eq topic dispute_resolved_event)) [
          | inl t ↦ resolved-IsHearing f d log h u (rw (a, t) at made)
          | inr b ↦ elim (Bool-cases (bytes_eq topic dispute_out_of_scope_event)) [
            | inl t ↦
                conclude-IsHearing f d log (ruled h outcome_out_of_scope _ _) _ u
                  (rw (a, b, t) at made)
            | inr c ↦ elim (Bool-cases (bytes_eq topic arbitration_timed_out_event)) [
              | inl t ↦
                  conclude-IsHearing f d log (ruled h outcome_timed_out _ _) none u
                    (rw (a, b, c, t) at made)
              | inr e ↦ conclude-IsHearing f d log h none u (rw (a, b, c, e) at made)
            ]
          ]
        ]
      ]

  hear_topics-IsHearing :
      (deadline : ℕ) (log : Log) (topics : List Hash) (h : Hearing) {next : Hearing}
      → IsUnsettled f d h
      → hear_topics deadline log topics h ≡ ok next
      → IsHearing f d next
  unfolding hear_topics
  hear_topics-IsHearing deadline log (topic ∷ id ∷ []) h u made =
      hear-IsHearing deadline log topic h u made
  hear_topics-IsHearing deadline log [] h u made = cc
  hear_topics-IsHearing deadline log (_ ∷ []) h u made = cc
  hear_topics-IsHearing deadline log (_ ∷ _ ∷ _ ∷ _) h u made = cc

  hear_logs-IsHearing :
      (deadline : ℕ) (h : Hearing) (logs : List Log) (failure : Option Error) {done : Hearing}
      → IsUnsettled f d h
      → is_open h.arbitration.outcome ≡ true
      → hear_logs deadline h logs failure ≡ ok done
      → IsHearing f d done
  unfolding hear_logs
  hear_logs-IsHearing deadline h [] (some e) u t made = cc
  hear_logs-IsHearing deadline h [] none {done} (blocks, unsettled) t made =
      let e : h ≡ done = cc in subst (IsHearing f d) e (blocks, inl (t, unsettled))
  hear_logs-IsHearing deadline h (log ∷ logs) failure {done} u t made =
      elim (Bool-cases log.removed) [
        | inl r ↦ hear_logs-IsHearing deadline h logs failure u t (rw r at made)
        | inr r ↦
            let (next, heard, made') =
              >>=-eq-ok (hear_topics deadline log log.topics h) _ (rw r at made) in
            let (blocks, recorded) = hear_topics-IsHearing deadline log log.topics h u heard in
            elim recorded [
              | inl (t', unsettled) ↦
                  hear_logs-IsHearing deadline next logs failure (blocks, unsettled) t'
                    (rw t' at made')
              | inr (c, s) ↦
                  let same : ok next ≡ ok done = rw c at made' in
                  let e : next ≡ done = cc in subst (IsHearing f d) e (blocks, inr (c, s))
            ]
      ]

module _ ⦃k : Keccak⦄ where
  -- An arbitration that `arbitration` returns was frozen ARBITRATION_TIMEOUT blocks before its
  -- deadline, which is the oracle's; its outcome is the one that leaves a request in the state that
  -- the oracle has; and it has the record of a settlement exactly when its outcome is not pending.
  pub arbitration-IsRecorded :
      (client : Client) (oracle : Address) (id : Hash) (state : State) (deadline timeout block : ℕ)
      {a : Arbitration}
      → arbitration client oracle id state deadline timeout block ≡ ok a
      → (a.frozen_block + timeout ≡ deadline)
        × (a.deadline ≡ deadline)
        × (outcome_state a.outcome ≡ state)
        × IsRecorded a
  unfolding arbitration
  arbitration-IsRecorded client oracle id state deadline timeout block {a} made =
      let from = deadline - timeout in
      let to = if state == state_frozen then from else block in
      let scan = scan_logs client (arbitration_filter oracle id from to) in
      let (_, guard, m₁) =
        >>=-eq-ok
          (fail_if (ltb deadline timeout) "arbitration deadline is before ARBITRATION_TIMEOUT") _
          made in
      let (h, heard, m₂) =
        >>=-eq-ok (hear_logs deadline (opened from deadline) scan.logs scan.failure) _ m₁ in
      let (_, _, m₃) =
        >>=-eq-ok (fail_if (not h.frozen) "no DisputeTriggered log in the block") _ m₂ in
      let (_, matches, m₄) =
        >>=-eq-ok
          (fail_if (not (outcome_state h.arbitration.outcome == state))
            "the arbitration logs have another outcome than the request's state")
          _ m₃ in
      let ((frozen, ends), recorded) =
        hear_logs-IsHearing from deadline deadline (opened from deadline) scan.logs scan.failure
          ((refl, refl), refl) refl heard in
      let e : h.arbitration ≡ a = cc in
      let early : ltb deadline timeout ≡ false = fail_if-eq-ok _ _ guard in
      let other : not (outcome_state h.arbitration.outcome == state) ≡ false =
        fail_if-eq-ok _ _ matches in
      subst
        (λ x.
          (x.frozen_block + timeout ≡ deadline)
          × (x.deadline ≡ deadline)
          × (outcome_state x.outcome ≡ state)
          × IsRecorded x)
        e (ground arith, ends, ground arith, recorded)
