-- ===== src/Ethrpc/Logs/Filtered.antt =====
-- The logs of a scan are those of its requests to the node, which match the scan's filter.
use safenet_arbitration_bot.Base.{
  ℕ, zero, suc, ◌+◌, ◌/◌, ◌≡◌, inl, inr, ◌&&◌, max, Option, none, some, List, [], ◌∷◌, All,
  All-append, Any, leb, ltb, ◌==◌, Bool-cases, Result-cases, Result, ok,
}
use safenet_arbitration_bot.Ethrpc.Types.{Address, Hash, Client, Log, LogFilter}
use safenet_arbitration_bot.Ethrpc.Logs.{
  min_log_range, is_rpc, chunk, chunk_end, scan_loop, scan_logs,
}

-- A log has one of the topics that each place of a filter names.
abbrev pub MatchesTopics : List (Option (List Hash)) → List Hash → Type 0
MatchesTopics [] topics = Unit
MatchesTopics (none ∷ places) [] = MatchesTopics places []
MatchesTopics (none ∷ places) (topic ∷ topics) = MatchesTopics places topics
MatchesTopics (some choices ∷ places) [] = ⊥
MatchesTopics (some choices ∷ places) (topic ∷ topics) =
    Any (λ choice. choice ≡ topic) choices × MatchesTopics places topics

-- The emitter is one of the addresses, or there are none.
abbrev pub IsEmitter : Address → List Address → Type 0
IsEmitter a [] = Unit
IsEmitter a (b ∷ bs) = Any (λ x. x ≡ a) (b ∷ bs)

abbrev pub Matches : LogFilter → Log → Type 0
Matches filter log = IsEmitter log.address filter.addresses × MatchesTopics filter.topics log.topics

-- What eth_getLogs is documented to answer: logs that match the filter.
abbrev pub Filters : Client → Type 0
Filters client =
    (filter : LogFilter) (logs : List Log)
    → client.get_logs filter ≡ ok logs
    → All (Matches filter) logs

module _ (get_logs : LogFilter → Result (List Log)) (filter : LogFilter) (P : Log → Type 0)
    (answers : (from to : ℕ) (logs : List Log)
      → get_logs (chunk filter from to) ≡ ok logs
      → All P logs) where
  scan_loop-All : (f step from : ℕ) → All P (scan_loop get_logs filter f step from).logs
  unfolding scan_loop
  scan_loop-All zero step from = tt
  scan_loop-All (suc f) step from =
      let end = chunk_end filter step from in
      elim (Bool-cases (leb from filter.to_block)) [
        | inr past ↦ rw (past, scan_loop) tt
        | inl within ↦ elim (Result-cases (get_logs (chunk filter from end))) [
          | inr (e, failed) ↦ elim (Bool-cases (is_rpc e && ltb min_log_range step)) [
            | inl narrow ↦
                rw (within, failed, narrow, scan_loop)
                  (scan_loop-All f (max (step / 2) min_log_range) from)
            | inr stop ↦ rw (within, failed, stop, scan_loop) tt
          ]
          | inl (logs, read) ↦ elim (Bool-cases (end == filter.to_block)) [
            | inl last ↦ rw (within, read, last, scan_loop) (answers from end logs read)
            | inr more ↦
                rw (within, read, more, scan_loop)
                  (All-append P logs _ (answers from end logs read)
                    (scan_loop-All f step (end + 1)))
          ]
        ]
      ]

pub scan_logs-Matches :
    (client : Client) (filter : LogFilter)
    → Filters client
    → All (Matches filter) (scan_logs client filter).logs
unfolding scan_logs
scan_logs-Matches client filter honest =
    scan_loop-All client.get_logs filter (Matches filter)
      (λ from to logs read. honest (chunk filter from to) logs read) _ _ _
