-- ===== src/Safenet/Disputes/Open.antt =====
-- safenet.go: which disputes `pending` returns, and in which order.
use safenet_arbitration_bot.Base.{
  ℕ, ◌≡◌, ◌↔◌, ◌⊎◌, inl, inr, refl, ap, sym, ◌∙◌, subst, true, false, Option, none, some, List, [],
  ◌∷◌, ◌++◌, append-nil, append_assoc, Bytes, bytes_eq, Bool-cases, arith, Error, String, ok,
  ok-injective, >>=-eq-ok, if◌then◌else◌,
}
use safenet_arbitration_bot.Keccak.{Keccak}
use safenet_arbitration_bot.Solabi.Decode.{uint64}
use safenet_arbitration_bot.Ethrpc.Types.{Address, Hash, Log, Client}
use safenet_arbitration_bot.Ethrpc.Logs.{scan_logs}
use safenet_arbitration_bot.Safenet.Types.{Dispute}
use safenet_arbitration_bot.Safenet.Votes.{decoded}
use safenet_arbitration_bot.Safenet.Disputes.{
  call_uint64, Docket, delete_settled, sort_disputes, dispute_triggered_event, docket_log,
  docket_logs, dispute_filter, arbitration_timeout_selector, pending,
}
use safenet_arbitration_bot.Safenet.Disputes.Sorted.{
  Among, Sorted, Settles, Settles-append, sort_disputes-Among, sort_disputes-Sorted,
  delete_settled-Among,
}

decoded-eq-ok :
    {A : Type 0} (text : String) (r : A × Option Error) {a : A} → decoded text r ≡ ok a → r.0 ≡ a
decoded-eq-ok text (a, none) h = cc
decoded-eq-ok text (a, some e) h = cc

module _ ⦃k : Keccak⦄ where
  -- The dispute that a log with these topics opens, and the request that it settles.
  abbrev pub opens : List Hash → Bytes → ℕ → List Dispute
  opens (topic ∷ id ∷ []) d block =
      if bytes_eq topic dispute_triggered_event
      then record { request_id = id; frozen_block = block; deadline = (uint64 d 0 none).0 } ∷ []
      else []
  opens _ d block = []

  abbrev pub settles : List Hash → List Hash
  settles (topic ∷ id ∷ []) = if bytes_eq topic dispute_triggered_event then [] else id ∷ []
  settles _ = []

  -- The same for the logs that no reorganization removed.
  abbrev pub all_opened : List Log → List Dispute
  all_opened [] = []
  all_opened (log ∷ logs) = elim log.removed [
    | true ↦ all_opened logs
    | false ↦ opens log.topics log.payload log.block_number ++ all_opened logs
  ]

  abbrev pub all_settled : List Log → List Hash
  all_settled [] = []
  all_settled (log ∷ logs) = elim log.removed [
    | true ↦ all_settled logs
    | false ↦ settles log.topics ++ all_settled logs
  ]

  -- What logs add to a docket.
  abbrev Adds : Docket → List Dispute → List Hash → Docket → Type 0
  Adds old ds ids new =
      (new.disputes ≡ old.disputes ++ ds)
      × ((id : Hash) → Settles id new.settled ↔ (Settles id old.settled ⊎ Settles id ids))

  docket_log-Adds :
      (old : Docket) (topics : List Hash) (d : Bytes) (block : ℕ) {new : Docket}
      → docket_log old topics d block ≡ ok new
      → Adds old (opens topics d block) (settles topics) new
  unfolding docket_log
  docket_log-Adds old (topic ∷ id ∷ []) d block {new} h =
      elim (Bool-cases (bytes_eq topic dispute_triggered_event)) [
        | inr f ↦
            let done : Docket = record old { settled = id ∷ old.settled } in
            let same : ok done ≡ ok new = rw (f, docket_log) at h in
            let e : done ≡ new = cc in
            rw f
              (subst (Adds old [] (id ∷ [])) e (sym (append-nil old.disputes), λ x. ground arith))
        | inl t ↦
            let (deadline, read, h') =
              >>=-eq-ok (decoded "decoding DisputeTriggered" (uint64 d 0 none)) _
                (rw (t, docket_log) at h) in
            let at : ℕ → Dispute =
              λ n. record { request_id = id; frozen_block = block; deadline = n } in
            let put : Dispute → Docket = λ x. record old { disputes = old.disputes ++ x ∷ [] } in
            let dispute : Dispute = at (uint64 d 0 none).0 in
            let same : (uint64 d 0 none).0 ≡ deadline =
              decoded-eq-ok "decoding DisputeTriggered" (uint64 d 0 none) read in
            let e : put dispute ≡ new = ap (λ n. put (at n)) same ∙ ok-injective h' in
            rw t (subst (Adds old (dispute ∷ []) []) e (refl, λ x. ground arith))
      ]
  docket_log-Adds old [] d block h = cc
  docket_log-Adds old (_ ∷ []) d block h = cc
  docket_log-Adds old (_ ∷ _ ∷ _ ∷ _) d block h = cc

  docket_logs-Adds :
      (old : Docket) (logs : List Log) (failure : Option Error) {new : Docket}
      → docket_logs old logs failure ≡ ok new
      → Adds old (all_opened logs) (all_settled logs) new
  unfolding docket_logs
  docket_logs-Adds old [] (some e) h = cc
  docket_logs-Adds old [] none {new} h =
      let e : old ≡ new = cc in
      subst (Adds old [] []) e (sym (append-nil old.disputes), λ x. ground arith)
  docket_logs-Adds old (log ∷ logs) failure h = elim (Bool-cases log.removed) [
    | inl r ↦ rw r (docket_logs-Adds old logs failure (rw r at h))
    | inr r ↦
        let (next, added, h') =
          >>=-eq-ok (docket_log old log.topics log.payload log.block_number) _ (rw r at h) in
        let (ds, ids) = docket_log-Adds old log.topics log.payload log.block_number added in
        let (ds', ids') = docket_logs-Adds next logs failure h' in
        rw r (
          ds'
              ∙ ap (λ x. x ++ all_opened logs) ds
              ∙ append_assoc old.disputes (opens log.topics log.payload log.block_number)
                  (all_opened logs),
          λ id.
              let a = ids id in
              let b = ids' id in
              let c = Settles-append (settles log.topics) (all_settled logs) id in ground arith,
        )
  ]

  -- For the oracle's ARBITRATION_TIMEOUT, the disputes that `pending` returns are those that a
  -- DisputeTriggered log of the scan opened and that no other log of the scan settles, sorted by
  -- deadline.
  pub pending-Sorted :
      (client : Client) (oracle : Address) (block timeout : ℕ) {ds : List Dispute}
      → call_uint64 client oracle block arbitration_timeout_selector ≡ ok timeout
      → pending client oracle block ≡ ok ds
      → Sorted ds
        × ((d : Dispute)
            → Among d ds ↔ (
                Among d (all_opened (scan_logs client (dispute_filter oracle block timeout)).logs)
                × ¬ (
                    Settles d.request_id
                      (all_settled (scan_logs client (dispute_filter oracle block timeout)).logs))))
  unfolding pending
  pending-Sorted client oracle block timeout {ds} called h =
      let scan = scan_logs client (dispute_filter oracle block timeout) in
      let empty : Docket = record { disputes = []; settled = [] } in
      let (docket, listed, h') =
        >>=-eq-ok (docket_logs empty scan.logs scan.failure) _ (rw called at h) in
      let (opened, settled) = docket_logs-Adds empty scan.logs scan.failure listed in
      let e : sort_disputes (delete_settled docket.settled docket.disputes) ≡ ds =
        ok-injective h' in
      subst
        (λ xs.
          Sorted xs
          × ((d : Dispute)
              → Among d xs ↔ (
                  Among d (all_opened scan.logs)
                  × ¬ (Settles d.request_id (all_settled scan.logs)))))
        e
        (
          sort_disputes-Sorted (delete_settled docket.settled docket.disputes),
          λ d.
              let a = sort_disputes-Among (delete_settled docket.settled docket.disputes) d in
              let b = delete_settled-Among docket.settled docket.disputes d in
              let c = settled d.request_id in
              let o : Among d docket.disputes ↔ Among d (all_opened scan.logs) =
                subst (λ xs. Among d docket.disputes ↔ Among d xs) opened (λ i. i, λ i. i) in
              ground arith,
        )
