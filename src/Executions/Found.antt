-- ===== src/Executions/Found.antt =====
-- What `Find` returns, for a scan of the logs.
use safenet_arbitration_bot.Base.{
  ℕ, ◌≡◌, refl, sym, ap, ◌∙◌, inl, inr, Bool, true, false, Option, none, some, List, [], ◌∷◌, ◌++◌,
  map, append-nil, append_assoc, All, Bool-cases, bytes_eq, length, Error, wrap, ok, err,
  if◌then◌else◌, subst, ok-injective,
}
use safenet_arbitration_bot.Keccak.{Keccak}
use safenet_arbitration_bot.Ethrpc.Types.{Address, Hash, Log}
use safenet_arbitration_bot.Ethrpc.Logs.{Scan, scan_logs}
use safenet_arbitration_bot.Safenet.Types.{SafeTransaction}
use safenet_arbitration_bot.Executions.Types.{unknown, Execution}
use safenet_arbitration_bot.Executions.Decode.{multi_sig_event, decode_execution, decode_event}
use safenet_arbitration_bot.Executions.Gather.{
  Finder, Gathered, add_event, add_execution, gather_log, gather,
}
use safenet_arbitration_bot.Executions.Decoder.{Memo, fresh, decode}
use safenet_arbitration_bot.Executions.Finder.{with_decoded, decode_all, find_filter, find_in, find}
use safenet_arbitration_bot.Executions.Authentic.{IsDecoded, decode-IsDecoded}
use safenet_arbitration_bot.Executions.Coherent.{IsCoherent}
use safenet_arbitration_bot.Executions.Uncached.{decode_anew, decode-Anew}

abbrev to_list {ℓ} : {A : Type ℓ} → Option A → List A
to_list none = []
to_list (some a) = a ∷ []

-- An execution without what was decoded of it.
abbrev pub bare : Execution → Execution
bare e = record e { source = unknown; transaction = none }

module _ ⦃k : Keccak⦄ where
  -- The execution that a log shows: one that is not removed, and is no SafeMultiSigTransaction.
  abbrev shown : Log → Bool → List Hash → List Execution
  shown log true topics = []
  shown log false [] = []
  shown log false (topic ∷ topics) =
      if bytes_eq topic multi_sig_event then [] else to_list (decode_execution log (topic ∷ topics))

  abbrev pub executions_in : List Log → List Execution
  executions_in [] = []
  executions_in (log ∷ logs) = shown log log.removed log.topics ++ executions_in logs

module _ ⦃k : Keccak⦄ (f : Finder) (safe : Address) where
  -- The transaction that a SafeMultiSigTransaction log has, by the onchain transaction's hash.
  abbrev announced : Log → Bool → List Hash → List (Hash × SafeTransaction)
  announced log true topics = []
  announced log false [] = []
  announced log false (topic ∷ topics) =
      if bytes_eq topic multi_sig_event
      then map (λ tx. (log.transaction_hash, tx))
          (to_list (decode_event f.eth.chain_id safe log.payload))
      else []

  abbrev pub events_in : List Log → List (Hash × SafeTransaction)
  events_in [] = []
  events_in (log ∷ logs) = announced log log.removed log.topics ++ events_in logs

  abbrev Adds : Gathered → List Execution → List (Hash × SafeTransaction) → Gathered → Type 0
  Adds g es ts g' = (g'.executions ≡ g.executions ++ es) × (g'.events ≡ g.events ++ ts)

  add_event-Adds :
      (g : Gathered) (h : Hash) (o : Option SafeTransaction)
      → Adds g [] (map (λ tx. (h, tx)) (to_list o)) (add_event g h o)
  add_event-Adds g h none = (sym (append-nil g.executions), sym (append-nil g.events))
  add_event-Adds g h (some tx) = (sym (append-nil g.executions), refl)

  add_execution-Adds :
      (g : Gathered) (o : Option Execution) → Adds g (to_list o) [] (add_execution g o)
  add_execution-Adds g none = (sym (append-nil g.executions), sym (append-nil g.events))
  add_execution-Adds g (some e) = (refl, sym (append-nil g.events))

  gather_log-Adds :
      (g : Gathered) (log : Log) (removed : Bool) (topics : List Hash)
      → Adds g
          (shown log removed topics)
          (announced log removed topics)
          (gather_log f safe g log removed topics)
  unfolding gather_log
  gather_log-Adds g log true topics = (sym (append-nil g.executions), sym (append-nil g.events))
  gather_log-Adds g log false [] = (sym (append-nil g.executions), sym (append-nil g.events))
  gather_log-Adds g log false (topic ∷ topics) =
      elim (Bool-cases (bytes_eq topic multi_sig_event)) [
        | inl t ↦ rw t (add_event-Adds g log.transaction_hash _)
        | inr n ↦ rw n (add_execution-Adds g _)
      ]

  gather-Adds :
      (logs : List Log) (g : Gathered)
      → Adds g (executions_in logs) (events_in logs) (gather f safe g logs)
  unfolding gather
  gather-Adds [] g = (sym (append-nil g.executions), sym (append-nil g.events))
  gather-Adds (log ∷ logs) g =
      let (es, ts) = gather_log-Adds g log log.removed log.topics in
      let (es', ts') = gather-Adds logs (gather_log f safe g log log.removed log.topics) in
      (
        es' ∙ ap (λ x. x ++ executions_in logs) es ∙ append_assoc g.executions _ _,
        ts' ∙ ap (λ x. x ++ events_in logs) ts ∙ append_assoc g.events _ _,
      )

  -- Every execution with what its sources say when they are asked anew.
  abbrev pub all_anew : ℕ → List (Hash × SafeTransaction) → List Execution → List Execution
  all_anew to events [] = []
  all_anew to events (e ∷ es) =
      with_decoded e (decode_anew f safe to events (length (e ∷ es)) e) ∷ all_anew to events es

  decode_all-anew :
      (to : ℕ) (events : List (Hash × SafeTransaction)) (es : List Execution) (m : Memo)
      → IsCoherent f safe to m
      → (decode_all f safe to events es m).0 ≡ all_anew to events es
  unfolding decode_all
  decode_all-anew to events [] m c = refl
  decode_all-anew to events (e ∷ es) m c =
      let (same, c') = decode-Anew f safe to events (length (e ∷ es)) e m c in
      let rest =
        decode_all-anew to events es (decode f safe to events (length (e ∷ es)) e m).1 c' in
      λ i. with_decoded e (same i) ∷ rest i

  find_in-anew :
      (to : ℕ) (o : Option Error) (logs : List Log)
      → o ≡ none
      → (warnings : List Error) × (find_in f safe to o logs
          ≡ ok (all_anew to (events_in logs) (executions_in logs), warnings))
  unfolding find_in
  find_in-anew to (some e) logs h = cc
  find_in-anew to none logs h =
      let none_yet : Gathered = record { executions = []; events = [] } in
      let (es, ts) = gather-Adds logs none_yet in
      let g = gather f safe none_yet logs in
      let c : IsCoherent f safe to fresh = record { nonce = λ h. cc; txs = tt; traces = tt } in
      let m = (decode_all f safe to g.events g.executions fresh).1 in
      (
        m.warnings,
        ap (λ x. ok (x, m.warnings))
            (decode_all-anew to g.events g.executions fresh c ∙ (λ i. all_anew to (ts i) (es i))),
      )

  find_in-fails :
      (to : ℕ) (o : Option Error) (logs : List Log) (e : Error)
      → o ≡ some e
      → find_in f safe to o logs ≡ err (wrap "listing Safe transactions" e)
  unfolding find_in
  find_in-fails to (some x) logs e h = cc
  find_in-fails to none logs e h = cc

  abbrev pub scanned : ℕ → ℕ → Scan
  scanned from to = scan_logs f.eth (find_filter f safe from to)

  -- Where the scan of the Safe's logs does not fail, Find returns the executions of the logs in their
  -- order, each with what a decoder that caches nothing gives for it: the first of the event, the
  -- calldata, the trace and the service that has its transaction.
  pub find-anew :
      (from to : ℕ)
      → (scanned from to).failure ≡ none
      → (warnings : List Error) × (find f safe from to
          ≡ ok (
            all_anew to (events_in (scanned from to).logs) (executions_in (scanned from to).logs),
            warnings,
          ))
  unfolding find
  find-anew from to = find_in-anew to _ _

  -- Find fails where the scan does.
  pub find-fails :
      (from to : ℕ) (e : Error)
      → (scanned from to).failure ≡ some e
      → find f safe from to ≡ err (wrap "listing Safe transactions" e)
  unfolding find
  find-fails from to e = find_in-fails to _ _ e

  abbrev IsAuthentic : Execution → Type 0
  IsAuthentic e = IsDecoded e.safe_tx_hash e.source e.transaction

  decode_all-IsAuthentic :
      (to : ℕ) (events : List (Hash × SafeTransaction)) (es : List Execution) (m : Memo)
      → All IsAuthentic (decode_all f safe to events es m).0
        × (map bare (decode_all f safe to events es m).0 ≡ map bare es)
  unfolding decode_all
  decode_all-IsAuthentic to events [] m = (tt, refl)
  decode_all-IsAuthentic to events (e ∷ es) m =
      let r = decode f safe to events (length (e ∷ es)) e m in
      let (all, same) = decode_all-IsAuthentic to events es r.1 in
      ((decode-IsDecoded f safe to events (length (e ∷ es)) e m, all), ap (◌∷◌ (bare e)) same)

  find_in-IsAuthentic :
      (to : ℕ) (o : Option Error) (logs : List Log) {es : List Execution} {warnings : List Error}
      → find_in f safe to o logs ≡ ok (es, warnings)
      → All IsAuthentic es × (map bare es ≡ map bare (executions_in logs))
  unfolding find_in
  find_in-IsAuthentic to (some e) logs h = cc
  find_in-IsAuthentic to none logs {es} h =
      let none_yet : Gathered = record { executions = []; events = [] } in
      let g = gather f safe none_yet logs in
      let (all, same) = decode_all-IsAuthentic to g.events g.executions fresh in
      let r = decode_all f safe to g.events g.executions fresh in
      let e : r.0 ≡ es = ap (λ (x : List Execution × List Error). x.0) (ok-injective h) in
      (
        subst (All IsAuthentic) e all,
        ap (map bare) (sym e) ∙ same ∙ ap (map bare) (gather-Adds logs none_yet).0,
      )

  -- The executions that Find returns are those that the scan's logs show, in their order. One with a
  -- source has a transaction, which is a call or a delegate call with amounts that are uint256s, and
  -- whose EIP-712 hash is the one that the Safe logged; one without has none.
  pub find-IsAuthentic :
      (from to : ℕ) {es : List Execution} {warnings : List Error}
      → find f safe from to ≡ ok (es, warnings)
      → All (λ e. IsDecoded e.safe_tx_hash e.source e.transaction) es
        × (map bare es ≡ map bare (executions_in (scanned from to).logs))
  unfolding find
  find-IsAuthentic from to h = find_in-IsAuthentic to _ _ h
