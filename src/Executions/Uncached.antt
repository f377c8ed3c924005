-- ===== src/Executions/Uncached.antt =====
-- The decoder against one that caches nothing: each source asked anew for each execution.
use safenet_arbitration_bot.Base.{ℕ, ◌≡◌, refl, ap, Option, none, some, List, subst, Result}
use safenet_arbitration_bot.Keccak.{Keccak}
use safenet_arbitration_bot.Ethrpc.Types.{Address, Hash}
use safenet_arbitration_bot.Safenet.Types.{SafeTransaction}
use safenet_arbitration_bot.Executions.Types.{
  Source, unknown, from_event, from_calldata, from_trace, Execution,
}
use safenet_arbitration_bot.Executions.Gather.{Finder}
use safenet_arbitration_bot.Executions.Decoder.{
  Memo, Decoded, find_hash, next_nonce, used_nonce, found_tx, event_match, first_candidate,
  calldata_match, call_nonce, read_nonce, from_tx, trace_inputs, from_frames, service_match,
  ask_service, after_trace, after_calldata, after_nonce, after_events, decode,
}
use safenet_arbitration_bot.Executions.Coherent.{
  IsCoherent, find_hash-All, service_warning-IsCoherent, read_nonce-IsCoherent, get_tx-IsCoherent,
  get_inputs-IsCoherent,
}

abbrev or_source : Source → Option SafeTransaction → Decoded → Decoded
or_source s none d = d
or_source s (some tx) d = (s, some tx)

module _ ⦃k : Keccak⦄ (f : Finder) (safe : Address) (to : ℕ) where
  abbrev by_calldata : Execution → Option ℕ → Option SafeTransaction
  by_calldata e none = none
  by_calldata e (some nonce) =
      calldata_match f safe (found_tx (f.eth.get_transaction_by_hash e.tx_hash)) e nonce

  abbrev by_trace : Execution → Option ℕ → Option SafeTransaction
  by_trace e none = none
  by_trace e (some nonce) = first_candidate f safe (trace_inputs f safe (f.trace e.tx_hash)) e nonce

  abbrev by_service : Option (Hash → Result SafeTransaction) → Execution → Decoded
  by_service none e = (unknown, none)
  by_service (some service) e = service_match (service e.safe_tx_hash) e

  -- The nonce of an execution that `left` executions follow, itself included.
  abbrev nonce_anew : ℕ → Option ℕ
  nonce_anew left = used_nonce (next_nonce (call_nonce f safe to)) left

  -- The first of the sources that has the execution's transaction: the events, the calldata, the
  -- trace, and the service.
  abbrev pub decode_anew : List (Hash × SafeTransaction) → ℕ → Execution → Decoded
  decode_anew events left e = or_source from_event (event_match events e) (
      or_source from_calldata (by_calldata e (nonce_anew left))
        (or_source from_trace (by_trace e (nonce_anew left)) (by_service f.service e)))

  abbrev Anew : Decoded → Decoded × Memo → Type 0
  Anew d r = (r.0 ≡ d) × IsCoherent f safe to r.1

  ask_service-Anew :
      (o : Option (Hash → Result SafeTransaction)) (e : Execution) (m : Memo)
      → IsCoherent f safe to m
      → Anew (by_service o e) (ask_service o e m)
  unfolding ask_service
  ask_service-Anew none e m c = (refl, c)
  ask_service-Anew (some service) e m c =
      (refl, service_warning-IsCoherent f safe to (service e.safe_tx_hash) m c)

  after_trace-Anew :
      (e : Execution) (o : Option SafeTransaction) (m : Memo)
      → IsCoherent f safe to m
      → Anew (or_source from_trace o (by_service f.service e)) (after_trace f safe e (o, m))
  unfolding after_trace
  after_trace-Anew e (some tx) m c = (refl, c)
  after_trace-Anew e none m c = ask_service-Anew f.service e m c

  from_frames-Anew :
      (e : Execution) (nonce : ℕ) (m : Memo)
      → IsCoherent f safe to m
      → ((from_frames f safe e nonce m).0 ≡ by_trace e (some nonce))
        × IsCoherent f safe to (from_frames f safe e nonce m).1
  unfolding from_frames
  from_frames-Anew e nonce m c =
      let (same, c') =
        get_inputs-IsCoherent f safe to e.tx_hash (find_hash e.tx_hash m.traces) m c (λ inputs s.
          find_hash-All (λ h. trace_inputs f safe (f.trace h)) e.tx_hash m.traces c.traces s) in
      (ap (λ inputs. first_candidate f safe inputs e nonce) same, c')

  from_tx-Anew :
      (e : Execution) (nonce : ℕ) (m : Memo)
      → IsCoherent f safe to m
      → ((from_tx f safe e nonce m).0 ≡ by_calldata e (some nonce))
        × IsCoherent f safe to (from_tx f safe e nonce m).1
  unfolding from_tx
  from_tx-Anew e nonce m c =
      let (same, c') =
        get_tx-IsCoherent f safe to e.tx_hash (find_hash e.tx_hash m.txs) m c (λ tx s.
          find_hash-All (λ h. found_tx (f.eth.get_transaction_by_hash h)) e.tx_hash m.txs c.txs
            s) in
      (ap (λ tx. calldata_match f safe tx e nonce) same, c')

  after_calldata-Anew :
      (e : Execution) (nonce : ℕ) (o : Option SafeTransaction) (m : Memo)
      → IsCoherent f safe to m
      → Anew
          (or_source from_calldata o
            (or_source from_trace (by_trace e (some nonce)) (by_service f.service e)))
          (after_calldata f safe e nonce (o, m))
  unfolding after_calldata
  after_calldata-Anew e nonce (some tx) m c = (refl, c)
  after_calldata-Anew e nonce none m c =
      let (same, c') = from_frames-Anew e nonce m c in
      subst
        (λ o.
          Anew (or_source from_trace o (by_service f.service e))
            (after_trace f safe e (from_frames f safe e nonce m)))
        same (after_trace-Anew e _ _ c')

  after_nonce-Anew :
      (e : Execution) (nonce : Option ℕ) (m : Memo)
      → IsCoherent f safe to m
      → Anew
          (or_source from_calldata
            (by_calldata e nonce)
            (or_source from_trace (by_trace e nonce) (by_service f.service e)))
          (after_nonce f safe e nonce m)
  unfolding after_nonce
  after_nonce-Anew e none m c = ask_service-Anew f.service e m c
  after_nonce-Anew e (some nonce) m c =
      let (same, c') = from_tx-Anew e nonce m c in
      subst
        (λ o.
          Anew
            (or_source from_calldata o
              (or_source from_trace (by_trace e (some nonce)) (by_service f.service e)))
            (after_calldata f safe e nonce (from_tx f safe e nonce m)))
        same (after_calldata-Anew e nonce _ _ c')

  after_events-Anew :
      (left : ℕ) (e : Execution) (o : Option SafeTransaction) (m : Memo)
      → IsCoherent f safe to m
      → Anew
          (or_source from_event o (
            or_source from_calldata
              (by_calldata e (nonce_anew left))
              (or_source from_trace (by_trace e (nonce_anew left)) (by_service f.service e))))
          (after_events f safe to left e o m)
  unfolding after_events
  after_events-Anew left e (some tx) m c = (refl, c)
  after_events-Anew left e none m c =
      let (c', next) = read_nonce-IsCoherent f safe to m c in
      let m' = read_nonce f safe to m in
      subst
        (λ n.
          Anew
            (or_source from_calldata (by_calldata e (used_nonce n left))
              (or_source from_trace (by_trace e (used_nonce n left)) (by_service f.service e)))
            (after_nonce f safe e (used_nonce m'.nonce_next left) m'))
        next (after_nonce-Anew e (used_nonce m'.nonce_next left) m' c')

  -- From a coherent cache, `decode` gives what asking every source anew would, and leaves a coherent
  -- cache.
  pub decode-Anew :
      (events : List (Hash × SafeTransaction)) (left : ℕ) (e : Execution) (m : Memo)
      → IsCoherent f safe to m
      → ((decode f safe to events left e m).0 ≡ decode_anew events left e)
        × IsCoherent f safe to (decode f safe to events left e m).1
  unfolding decode
  decode-Anew events left e m c = after_events-Anew left e (event_match events e) m c
