-- ===== src/Safenet/Proposals/Authentic.antt =====
-- safenet.go: which proposal `proposal` accepts.
use safenet_arbitration_bot.Base.{
  ℕ, ◌≤◌, ◌≡◌, refl, inl, inr, ap, ◌∙◌, subst, Bool, true, false, not, none, some, List, [], ◌∷◌,
  bytes_eq, bytes_eq_iff, Bool-cases, Option-cases, arith, ok, fail_if, fail_if-eq-ok, wrapped,
  >>=-eq-ok, ltb,
}
use safenet_arbitration_bot.Keccak.{Keccak}
use safenet_arbitration_bot.Ethrpc.Types.{Address, Hash, Log, Client}
use safenet_arbitration_bot.Safenet.Types.{Proposal}
use safenet_arbitration_bot.Safenet.Reads.{read_proposal}
use safenet_arbitration_bot.Safenet.Votes.{decoded}
use safenet_arbitration_bot.Safenet.Proposals.{
  transaction_hash, request_id, decode_proposal, accept, try_log, try_logs, proposal_filter,
  proposal,
}

module _ ⦃k : Keccak⦄ (client : Client) (oracle consensus : Address) (id : Hash) where
  -- The proposal is the one that the request's ID commits to, and its transaction is the one that
  -- the Safe's owners sign.
  abbrev pub IsAuthentic : Proposal → Type 0
  IsAuthentic p =
      (request_id client.chain_id consensus p.epoch oracle p.oracle_data p.safe_tx_hash ≡ id)
      × (transaction_hash p.transaction ≡ ok p.safe_tx_hash)
      × (p.consensus ≡ consensus)
      × (p.transaction.operation ≤ 1)

  accept-IsAuthentic :
      (log : Log) (q p : Proposal)
      → q.transaction.operation ≤ 1
      → accept client oracle consensus id log q ≡ ok (some p)
      → IsAuthentic p
  unfolding accept
  accept-IsAuthentic log q p op h =
      let rid = request_id client.chain_id consensus q.epoch oracle q.oracle_data q.safe_tx_hash in
      elim (Bool-cases (bytes_eq rid id)) [
        | inr f ↦ cc (rw (f, accept) at h)
        | inl t ↦
            let (hashed, hashes, h₁) =
              >>=-eq-ok (transaction_hash q.transaction) _ (rw (t, accept) at h) in
            let (_, guard, h₂) =
              >>=-eq-ok
                (fail_if (not (bytes_eq hashed q.safe_tx_hash))
                  "the Safe transaction has another hash")
                _ h₁ in
            let (header, _, made) =
              >>=-eq-ok
                (wrapped "getting proposal block" (client.get_block_by_number log.block_number)) _
                h₂ in
            let same : bytes_eq hashed q.safe_tx_hash ≡ true =
              ground (arith, fail_if-eq-ok _ _ guard) in
            let done : Proposal = record q { consensus = consensus; time = header.timestamp } in
            let e : done ≡ p = cc in
            subst IsAuthentic e (
              (bytes_eq_iff rid id).0 t,
              hashes ∙ ap ok ((bytes_eq_iff hashed q.safe_tx_hash).0 same),
              refl,
              op,
            )
      ]

  decode_proposal-operation :
      (log : Log) (h : Hash) {p : Proposal}
      → decode_proposal log h ≡ ok p
      → p.transaction.operation ≤ 1
  unfolding decode_proposal
  decode_proposal-operation log h {p} made =
      let (q, _, h₁) = >>=-eq-ok (decoded "decoding proposal" (read_proposal log h none)) _ made in
      let (_, guard, h₂) =
        >>=-eq-ok (fail_if (ltb 1 q.transaction.operation) "invalid operation") _ h₁ in
      let small : q.transaction.operation ≤ 1 = ground (arith, fail_if-eq-ok _ _ guard) in
      let e : q ≡ p = cc in subst (λ x. x.transaction.operation ≤ 1) e small

  try_log-IsAuthentic :
      (log : Log) (removed : Bool) (topics : List Hash) (p : Proposal)
      → try_log client oracle consensus id log removed topics ≡ ok (some p)
      → IsAuthentic p
  unfolding try_log
  try_log-IsAuthentic log false (_ ∷ hashed ∷ _ ∷ _ ∷ []) p h =
      let (q, reads, h') = >>=-eq-ok (decode_proposal log hashed) _ h in
      accept-IsAuthentic log q p (decode_proposal-operation log hashed reads) h'
  try_log-IsAuthentic log false [] p h = cc
  try_log-IsAuthentic log false (_ ∷ []) p h = cc
  try_log-IsAuthentic log false (_ ∷ _ ∷ []) p h = cc
  try_log-IsAuthentic log false (_ ∷ _ ∷ _ ∷ []) p h = cc
  try_log-IsAuthentic log false (_ ∷ _ ∷ _ ∷ _ ∷ _ ∷ _) p h = cc
  try_log-IsAuthentic log true topics p h = cc

  try_logs-IsAuthentic :
      (logs : List Log) {p : Proposal}
      → try_logs client oracle consensus id logs ≡ ok p
      → IsAuthentic p
  unfolding try_logs
  try_logs-IsAuthentic [] h = cc
  try_logs-IsAuthentic (log ∷ logs) {p} h =
      let (found, tried, h') =
        >>=-eq-ok (try_log client oracle consensus id log log.removed log.topics) _ h in
      elim (Option-cases found) [
        | inl n ↦ try_logs-IsAuthentic logs (rw n at h')
        | inr (q, s) ↦
            let e : ok q ≡ ok p = rw s at h' in
            let e' : q ≡ p = cc in
            try_log-IsAuthentic log log.removed log.topics p (tried ∙ ap ok (s ∙ ap some e'))
      ]

  -- A proposal that `proposal` returns hashes to the request's ID, with the fields that the log
  -- has; its Safe transaction hashes to the logged Safe transaction hash; and its operation is CALL
  -- or DELEGATECALL.
  pub proposal-IsAuthentic :
      (block : ℕ) {p : Proposal} → proposal client oracle consensus id block ≡ ok p → IsAuthentic p
  unfolding proposal
  proposal-IsAuthentic block h =
      let (logs, _, h') =
        >>=-eq-ok
          (wrapped "getting proposal"
            (client.get_logs (proposal_filter client oracle consensus id block)))
          _ h in
      try_logs-IsAuthentic logs h'
