-- ===== src/Executions/Coherent.antt =====
-- The caches of the decoder hold what the node answers.
use safenet_arbitration_bot.Base.{
  ℕ, ◌≡◌, refl, sym, ap, ◌∙◌, inl, inr, Bool, true, false, Option, none, some, List, [], ◌∷◌, All,
  Bool-cases, bytes_eq, bytes_eq_iff, Bytes, if◌then◌else◌, Result, ok, err, is_not_found,
}
use mathlib.Core.Option.{some-injective}
use safenet_arbitration_bot.Keccak.{Keccak}
use safenet_arbitration_bot.Ethrpc.Types.{Address, Hash, Transaction}
use safenet_arbitration_bot.Safenet.Types.{SafeTransaction}
use safenet_arbitration_bot.Executions.Gather.{Finder}
use safenet_arbitration_bot.Executions.Decoder.{
  Memo, find_hash, next_nonce, nonce_warning, found_tx, tx_warning, call_nonce, read_nonce, get_tx,
  trace_inputs, get_inputs, service_warning,
}

pub find_hash-All {ℓ} :
    {V : Type ℓ} (spec : Hash → V) (h : Hash) (entries : List (Hash × V)) {v : V}
    → All (λ (entry : Hash × V). entry.1 ≡ spec entry.0) entries
    → find_hash h entries ≡ some v
    → v ≡ spec h
unfolding find_hash
find_hash-All spec h [] all e = cc
find_hash-All spec h ((other, w) ∷ rest) {v} all e = elim (Bool-cases (bytes_eq other h)) [
  | inl t ↦
      let same : w ≡ v = some-injective w v (rw t at e) in
      sym same ∙ all.0 ∙ ap spec ((bytes_eq_iff other h).0 t)
  | inr n ↦ find_hash-All spec h rest all.1 (rw n at e)
]

module _ ⦃k : Keccak⦄ (f : Finder) (safe : Address) (to : ℕ) where
  abbrev IsTx : Hash × Option Transaction → Type 0
  IsTx entry = entry.1 ≡ found_tx (f.eth.get_transaction_by_hash entry.0)

  abbrev IsTrace : Hash × List Bytes → Type 0
  IsTrace entry = entry.1 ≡ trace_inputs f safe (f.trace entry.0)

  -- What is cached is what the node answers.
  pub record IsCoherent (m : Memo) : Type 0 where
    pub nonce : m.nonce_read ≡ true → m.nonce_next ≡ next_nonce (call_nonce f safe to)
    pub txs : All IsTx m.txs
    pub traces : All IsTrace m.traces

  tx_warning-IsCoherent :
      (r : Result Transaction) (m : Memo) → IsCoherent m → IsCoherent (tx_warning r m)
  unfolding tx_warning
  tx_warning-IsCoherent (ok tx) m c = c
  tx_warning-IsCoherent (err e) m c = record { nonce = c.nonce; txs = c.txs; traces = c.traces }

  pub service_warning-IsCoherent :
      (r : Result SafeTransaction) (m : Memo) → IsCoherent m → IsCoherent (service_warning r m)
  unfolding service_warning
  service_warning-IsCoherent (ok tx) m c = c
  service_warning-IsCoherent (err e) m c = elim (Bool-cases (is_not_found e)) [
    | inl t ↦ rw t c
    | inr n ↦ rw n (record { nonce = c.nonce; txs = c.txs; traces = c.traces })
  ]

  nonce_warning-IsCoherent :
      (r : Result (Bytes)) (m : Memo) → IsCoherent m → IsCoherent (nonce_warning r m)
  unfolding nonce_warning
  nonce_warning-IsCoherent (ok d) m c = c
  nonce_warning-IsCoherent (err e) m c = record { nonce = c.nonce; txs = c.txs; traces = c.traces }

  -- The two branches of `read_nonce`, by whether the nonce was read.
  read-IsCoherent :
      (read : Bool) (m : Memo)
      → IsCoherent m
      → (read ≡ true → m.nonce_next ≡ next_nonce (call_nonce f safe to))
      → let after : Memo = if read then m else record (nonce_warning (call_nonce f safe to) m) {
        nonce_read = true;
        nonce_next = next_nonce (call_nonce f safe to);
      } in
        IsCoherent after × (after.nonce_next ≡ next_nonce (call_nonce f safe to))
  read-IsCoherent true m c known = (c, known refl)
  read-IsCoherent false m c known =
      let c' = nonce_warning-IsCoherent (call_nonce f safe to) m c in
      (record { nonce = λ _. refl; txs = c'.txs; traces = c'.traces }, refl)

  pub read_nonce-IsCoherent :
      (m : Memo)
      → IsCoherent m
      → IsCoherent (read_nonce f safe to m)
        × ((read_nonce f safe to m).nonce_next ≡ next_nonce (call_nonce f safe to))
  unfolding read_nonce
  read_nonce-IsCoherent m c = read-IsCoherent m.nonce_read m c c.nonce

  pub get_tx-IsCoherent :
      (h : Hash) (o : Option (Option Transaction)) (m : Memo)
      → IsCoherent m
      → ((tx : Option Transaction) → o ≡ some tx → tx ≡ found_tx (f.eth.get_transaction_by_hash h))
      → ((get_tx f safe h o m).0 ≡ found_tx (f.eth.get_transaction_by_hash h))
        × IsCoherent (get_tx f safe h o m).1
  unfolding get_tx
  get_tx-IsCoherent h (some tx) m c known = (known tx refl, c)
  get_tx-IsCoherent h none m c known =
      let c' = tx_warning-IsCoherent (f.eth.get_transaction_by_hash h) m c in
      (refl, record { nonce = c'.nonce; txs = (refl, c'.txs); traces = c'.traces })

  pub get_inputs-IsCoherent :
      (h : Hash) (o : Option (List (Bytes))) (m : Memo)
      → IsCoherent m
      → ((inputs : List (Bytes)) → o ≡ some inputs → inputs ≡ trace_inputs f safe (f.trace h))
      → ((get_inputs f safe h o m).0 ≡ trace_inputs f safe (f.trace h))
        × IsCoherent (get_inputs f safe h o m).1
  unfolding get_inputs
  get_inputs-IsCoherent h (some inputs) m c known = (known inputs refl, c)
  get_inputs-IsCoherent h none m c known =
      (refl, record { nonce = c.nonce; txs = c.txs; traces = (refl, c.traces) })
