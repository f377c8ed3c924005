-- ===== src/Executions/Authentic.antt =====
-- A transaction that `Find` reports is what the Safe executed, whatever the sources answered.
use safenet_arbitration_bot.Base.{
  pos, ℕ, inl, inr, Option, none, some, List, [], ◌∷◌, ◌&&◌, Bool-cases, Bytes, bytes_eq, Result,
  ok, err, &&-eq-true,
}
use safenet_arbitration_bot.Keccak.{Keccak}
use safenet_arbitration_bot.Ethrpc.Types.{Address, Hash, Transaction}
use safenet_arbitration_bot.Safenet.Types.{SafeTransaction}
use safenet_arbitration_bot.Executions.Types.{Source, unknown, Execution}
use safenet_arbitration_bot.Executions.Frames.{is_to}
use safenet_arbitration_bot.Executions.Decode.{matches}
use safenet_arbitration_bot.Executions.Matched.{IsMatch, matches_iff}
use safenet_arbitration_bot.Executions.Gather.{Finder}
use safenet_arbitration_bot.Executions.Decoder.{
  Memo, Decoded, or_else, event_match, set_nonce, candidate, first_candidate, calldata_match,
  from_tx, from_frames, service_match, ask_service, after_trace, after_calldata, after_nonce,
  after_events, decode,
}

module _ ⦃k : Keccak⦄ where
  abbrev pub OptionMatch : Hash → Option SafeTransaction → Type 0
  OptionMatch want none = Unit
  OptionMatch want (some tx) = IsMatch tx want

  -- A source is named exactly where there is a transaction, which has the hash then.
  abbrev pub IsDecoded : Hash → Source → Option SafeTransaction → Type 0
  IsDecoded want unknown none = Unit
  IsDecoded want unknown (some tx) = ⊥
  IsDecoded want _ none = ⊥
  IsDecoded want _ (some tx) = IsMatch tx want

  event_match-OptionMatch :
      (events : List (Hash × SafeTransaction)) (e : Execution)
      → OptionMatch e.safe_tx_hash (event_match events e)
  unfolding event_match
  event_match-OptionMatch [] e = tt
  event_match-OptionMatch ((h, tx) ∷ events) e =
      elim (Bool-cases (bytes_eq h e.tx_hash && matches tx e.safe_tx_hash)) [
        | inl t ↦
            let m = (&&-eq-true (bytes_eq h e.tx_hash) (matches tx e.safe_tx_hash) t).1 in
            rw t ((matches_iff tx e.safe_tx_hash).0 m)
        | inr n ↦ rw n (event_match-OptionMatch events e)
      ]

  set_nonce-OptionMatch :
      (nonce : ℕ) (o : Option SafeTransaction) (want : Hash)
      → OptionMatch want (set_nonce nonce o want)
  unfolding set_nonce
  set_nonce-OptionMatch nonce none want = tt
  set_nonce-OptionMatch nonce (some tx) want =
      let tx' : SafeTransaction = record tx { nonce = some (pos nonce) } in
      elim (Bool-cases (matches tx' want)) [
        | inl t ↦ rw t ((matches_iff tx' want).0 t)
        | inr n ↦ rw n tt
      ]

  or_else-OptionMatch :
      (want : Hash) (o p : Option SafeTransaction)
      → OptionMatch want o
      → OptionMatch want p
      → OptionMatch want (or_else o p)
  or_else-OptionMatch want none p h h' = h'
  or_else-OptionMatch want (some tx) p h h' = h

module _ ⦃k : Keccak⦄ (f : Finder) (safe : Address) where
  candidate-OptionMatch :
      (input : Bytes) (e : Execution) (nonce : ℕ)
      → OptionMatch e.safe_tx_hash (candidate f safe input e nonce)
  unfolding candidate
  candidate-OptionMatch input e nonce = set_nonce-OptionMatch nonce _ e.safe_tx_hash

  first_candidate-OptionMatch :
      (inputs : List Bytes) (e : Execution) (nonce : ℕ)
      → OptionMatch e.safe_tx_hash (first_candidate f safe inputs e nonce)
  unfolding first_candidate
  first_candidate-OptionMatch [] e nonce = tt
  first_candidate-OptionMatch (input ∷ inputs) e nonce =
      or_else-OptionMatch _ _ _ (candidate-OptionMatch input e nonce)
        (first_candidate-OptionMatch inputs e nonce)

  calldata_match-OptionMatch :
      (o : Option Transaction) (e : Execution) (nonce : ℕ)
      → OptionMatch e.safe_tx_hash (calldata_match f safe o e nonce)
  unfolding calldata_match
  calldata_match-OptionMatch none e nonce = tt
  calldata_match-OptionMatch (some tx) e nonce = elim (Bool-cases (is_to tx.to safe)) [
    | inl t ↦ rw t (candidate-OptionMatch tx.input e nonce)
    | inr n ↦ rw n tt
  ]

  service_match-IsDecoded :
      (r : Result SafeTransaction) (e : Execution)
      → IsDecoded e.safe_tx_hash (service_match r e).0 (service_match r e).1
  unfolding service_match
  service_match-IsDecoded (err x) e = tt
  service_match-IsDecoded (ok tx) e = elim (Bool-cases (matches tx e.safe_tx_hash)) [
    | inl t ↦ rw t ((matches_iff tx e.safe_tx_hash).0 t)
    | inr n ↦ rw n tt
  ]

  abbrev DecodedOf : Execution → Decoded × Memo → Type 0
  DecodedOf e r = IsDecoded e.safe_tx_hash r.0.0 r.0.1

  ask_service-IsDecoded :
      (o : Option (Hash → Result SafeTransaction)) (e : Execution) (m : Memo)
      → DecodedOf e (ask_service o e m)
  unfolding ask_service
  ask_service-IsDecoded none e m = tt
  ask_service-IsDecoded (some service) e m = service_match-IsDecoded (service e.safe_tx_hash) e

  after_trace-IsDecoded :
      (e : Execution) (o : Option SafeTransaction) (m : Memo)
      → OptionMatch e.safe_tx_hash o
      → DecodedOf e (after_trace f safe e (o, m))
  unfolding after_trace
  after_trace-IsDecoded e (some tx) m h = h
  after_trace-IsDecoded e none m h = ask_service-IsDecoded f.service e m

  after_calldata-IsDecoded :
      (e : Execution) (nonce : ℕ) (o : Option SafeTransaction) (m : Memo)
      → OptionMatch e.safe_tx_hash o
      → DecodedOf e (after_calldata f safe e nonce (o, m))
  unfolding after_calldata from_frames
  after_calldata-IsDecoded e nonce (some tx) m h = h
  after_calldata-IsDecoded e nonce none m h =
      after_trace-IsDecoded e _ _ (first_candidate-OptionMatch _ e nonce)

  after_nonce-IsDecoded :
      (e : Execution) (nonce : Option ℕ) (m : Memo) → DecodedOf e (after_nonce f safe e nonce m)
  unfolding after_nonce from_tx
  after_nonce-IsDecoded e none m = ask_service-IsDecoded f.service e m
  after_nonce-IsDecoded e (some nonce) m =
      after_calldata-IsDecoded e nonce _ _ (calldata_match-OptionMatch _ e nonce)

  after_events-IsDecoded :
      (to left : ℕ) (e : Execution) (o : Option SafeTransaction) (m : Memo)
      → OptionMatch e.safe_tx_hash o
      → DecodedOf e (after_events f safe to left e o m)
  unfolding after_events
  after_events-IsDecoded to left e (some tx) m h = h
  after_events-IsDecoded to left e none m h = after_nonce-IsDecoded e _ _

  pub decode-IsDecoded :
      (to : ℕ) (events : List (Hash × SafeTransaction)) (left : ℕ) (e : Execution) (m : Memo)
      → DecodedOf e (decode f safe to events left e m)
  unfolding decode
  decode-IsDecoded to events left e m =
      after_events-IsDecoded to left e _ m (event_match-OptionMatch events e)
