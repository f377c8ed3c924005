-- ===== src/Transfers/Filtered.antt =====
-- The transfers that are returned are between the accounts that were asked for.
use safenet_arbitration_bot.Base.{
  ℕ, ◌≡◌, refl, sym, ap, ◌∙◌, inl, inr, Bool, true, false, Option, none, some, List, [], ◌∷◌, All,
  All-append, Any, ◌==◌, Bool-cases, length, drop, Error, ok, subst, wrapped-eq-ok, ok-injective,
}
use safenet_arbitration_bot.Keccak.{Keccak}
use safenet_arbitration_bot.Solabi.Encode.{encode_address}
use safenet_arbitration_bot.Ethrpc.Types.{Address, Hash, Log, Client}
use safenet_arbitration_bot.Ethrpc.Logs.{Scan}
use safenet_arbitration_bot.Ethrpc.Logs.Filtered.{
  IsEmitter, MatchesTopics, Filters, scan_logs-Matches,
}
use safenet_arbitration_bot.Transfers.Erc20.{
  Transfer, transfer_of, transfers_in, transfers_of, any_emitter, scan, transfer_event,
  address_topic, last_topic, transfers_from, transfers_to,
}

-- The account that was asked for, if one was.
abbrev pub IsAsked : Option Address → Address → Type 0
IsAsked none a = Unit
IsAsked (some b) a = a ≡ b

-- A topic that is the word of an address has the address in its low 20 bytes.
topic-address :
    (a : Address) (topic : Hash) → Any (λ w. w ≡ topic) (encode_address a ∷ []) → drop 12 topic ≡ a
unfolding encode_address
topic-address a topic (inl e) = sym (ap (drop 12) e)
topic-address a topic (inr m) = elim m [ ]

last_topic-IsAsked :
    (o : Option Address) (topic : Hash)
    → MatchesTopics (last_topic o) (topic ∷ [])
    → IsAsked o (drop 12 topic)
last_topic-IsAsked none topic h = tt
last_topic-IsAsked (some a) topic h = topic-address a topic h.0

address_topic-IsAsked :
    (o : Option Address) (a : Address) (topic f r : Hash)
    → MatchesTopics
        (some (topic ∷ []) ∷ address_topic o ∷ some (encode_address a ∷ []) ∷ [])
        (topic ∷ f ∷ r ∷ [])
    → (drop 12 r ≡ a) × IsAsked o (drop 12 f)
address_topic-IsAsked none a topic f r h = (topic-address a r h.1.0, tt)
address_topic-IsAsked (some b) a topic f r h = (topic-address a r h.1.1.0, topic-address b f h.1.0)

module _ (T : Transfer → Type 0) (places : List (Option (List Hash))) where
  -- Every transfer of the logs has `T`, where that of each log which matches the places has it.
  transfers_in-All :
      ((log : Log) (removed : Bool) (topics : List Hash)
        → MatchesTopics places topics
        → All T (transfer_of log removed topics))
      → (logs : List Log) → All (λ log. MatchesTopics places log.topics) logs
      → All T (transfers_in logs)
  unfolding transfers_in
  transfers_in-All each [] h = tt
  transfers_in-All each (log ∷ logs) h =
      All-append T _ _ (each log log.removed log.topics h.0) (transfers_in-All each logs h.1)

  -- A log with three topics, and no other, shows a transfer.
  transfer_of-All :
      ((log : Log) (topic from to : Hash)
        → MatchesTopics places (topic ∷ from ∷ to ∷ [])
        → (t : Transfer) → t.from ≡ drop 12 from
        → t.to ≡ drop 12 to
        → T t)
      → (log : Log) (removed : Bool) (topics : List Hash) → MatchesTopics places topics
      → All T (transfer_of log removed topics)
  unfolding transfer_of
  transfer_of-All each log true topics h = tt
  transfer_of-All each log false [] h = tt
  transfer_of-All each log false (_ ∷ []) h = tt
  transfer_of-All each log false (_ ∷ _ ∷ []) h = tt
  transfer_of-All each log false (topic ∷ from ∷ to ∷ []) h =
      elim (Bool-cases (length log.payload == 32)) [
        | inl t ↦ rw t (each log topic from to h _ refl refl, tt)
        | inr n ↦ rw n tt
      ]
  transfer_of-All each log false (_ ∷ _ ∷ _ ∷ _ ∷ _) h = tt

  transfers_of-All :
      (found : Scan) (o : Option Error) {ts : List Transfer}
      → All T (transfers_in found.logs)
      → transfers_of found o ≡ ok ts
      → All T ts
  unfolding transfers_of
  transfers_of-All found (some e) all h = cc
  transfers_of-All found none all h = subst (All T) (ok-injective h) all

Matches-topics :
    (a : List Address) (places : List (Option (List Hash))) (logs : List Log)
    → All (λ log. IsEmitter log.address a × MatchesTopics places log.topics) logs
    → All (λ log. MatchesTopics places log.topics) logs
Matches-topics a places [] h = tt
Matches-topics a places (log ∷ logs) h = (h.0.1, Matches-topics a places logs h.1)

module _ ⦃k : Keccak⦄ (client : Client) (honest : Filters client) where
  -- The transfers that TransfersFrom returns are all from the account, and to the other account if one
  -- is given, on a node that answers with logs that match its filters.
  pub transfers_from-IsAsked :
      (from : Address) (to : Option Address) (from_block to_block : ℕ) {ts : List Transfer}
      → transfers_from client from to from_block to_block ≡ ok ts
      → All (λ t. (t.from ≡ from) × IsAsked to t.to) ts
  unfolding transfers_from scan
  transfers_from-IsAsked from to from_block to_block h =
      let places = some (transfer_event ∷ []) ∷ some (encode_address from ∷ []) ∷ last_topic to in
      let T : Transfer → Type 0 = λ t. (t.from ≡ from) × IsAsked to t.to in
      let filter = any_emitter places from_block to_block in
      transfers_of-All T places _ _
        (transfers_in-All T places
          (transfer_of-All T places (λ log topic f r m t e e'. (
            e ∙ topic-address from f m.1.0,
            subst (IsAsked to) (sym e') (last_topic-IsAsked to r m.1.1),
          )))
          _ (Matches-topics [] places _ (scan_logs-Matches client filter honest)))
        (wrapped-eq-ok _ _ h)

  -- The transfers that TransfersTo returns are all to the account, and from the other account if one
  -- is given.
  transfers_to-IsAsked :
      (to : Address) (from : Option Address) (from_block to_block : ℕ) {ts : List Transfer}
      → transfers_to client to from from_block to_block ≡ ok ts
      → All (λ t. (t.to ≡ to) × IsAsked from t.from) ts
  unfolding transfers_to scan
  transfers_to-IsAsked to from from_block to_block h =
      let places =
        some (transfer_event ∷ []) ∷ address_topic from ∷ some (encode_address to ∷ []) ∷ [] in
      let T : Transfer → Type 0 = λ t. (t.to ≡ to) × IsAsked from t.from in
      transfers_of-All T places _ _
        (transfers_in-All T places
          (transfer_of-All T places (λ log topic f r m t e e'.
            let asked = address_topic-IsAsked from to topic f r (inl refl, m.1) in
            (e' ∙ asked.0, subst (IsAsked from) (sym e) asked.1)))
          _
          (Matches-topics [] places _
            (scan_logs-Matches client (any_emitter places from_block to_block) honest)))
        (wrapped-eq-ok _ _ h)
