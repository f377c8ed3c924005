-- ===== src/Safenet/Votes.antt =====
-- safenet.go: `votes` and `progress.check`.
pub mod Indexed
pub mod Cast
pub mod Ballot
pub mod Counted
use safenet_arbitration_bot.Base.{
  ℕ, ◌+◌, Bool, true, false, not, ◌&&◌, ◌||◌, Option, none, some, List, [], ◌∷◌, ◌++◌,
  if◌then◌else◌, ◌==◌, Bytes, bytes_eq, String, length, get_elem?, set, drop, Error, message, panic,
  wrap, Result, ok, err, fail_if, ◌>>=◌, ◌>>◌,
}
use safenet_arbitration_bot.Keccak.{Keccak}
use safenet_arbitration_bot.Solabi.Decode.{Read, pure, uint, bool, bytes}
use safenet_arbitration_bot.Solabi.Encode.{event}
use safenet_arbitration_bot.Ethrpc.Types.{Address, Hash, Log, LogFilter, Client}
use safenet_arbitration_bot.Ethrpc.Logs.{Scan, scan_logs}
use safenet_arbitration_bot.Safenet.Types.{
  Vote, vote_none, vote_pending, vote_approved, vote_denied, Commitment,
}
use safenet_arbitration_bot.Safenet.Rules.{cited_rules}

-- The map from the sentinels to the positions of their votes.
abbrev pub Index : Type 0
Index = List (Address × ℕ)

unfoldable pub lookup : Index → Address → Option ℕ
lookup [] s = none
lookup ((t, i) ∷ index) s = if bytes_eq t s then some i else lookup index s

-- What the loop of `votes` has collected.
pub record Tally : Type 0 where
  pub votes : List Commitment
  pub index : Index

abbrev pub no_votes : Tally
no_votes = record { votes = []; index = [] }

-- `d.Err()`, of a decoder that has read a value.
abbrev pub decoded {ℓ} : {A : Type ℓ} → String → A × Option Error → Result A
decoded text (a, none) = ok a
decoded text (a, some e) = err (wrap text e)

abbrev pub commitment : Address → ℕ → Commitment
commitment s bond = record {
  sentinel = s;
  bond = bond;
  vote = vote_pending;
  reason = [];
  rules = [];
}

-- The branch of a Committed log, for the position that the sentinel's vote has already.
unfoldable pub commit : Tally → Address → Bytes → Option ℕ → Result Tally
commit st s d (some i) = err (message "sentinel committed twice")
commit st s d none = do
  bond ← decoded "decoding vote" (uint d 0 none)
  ok (record {
    votes = st.votes ++ commitment s bond ∷ [];
    index = (s, length st.votes) ∷ st.index;
  })

abbrev pub is_pending : Vote → Bool
is_pending vote_pending = true
is_pending _ = false

-- The approval and the reason of a Revealed log.
abbrev pub revealed : Bytes → Read (Bool × Bytes)
revealed d s =
    let approved = bool d 0 s in
    let reason = bytes d 2 approved.1 in ((approved.0, reason.0), reason.1)

unfoldable pub revealed_vote : Commitment → Bool → Bytes → Commitment
revealed_vote v true reason = record v { vote = vote_approved; reason = reason }
revealed_vote v false reason = record v {
  vote = vote_denied;
  reason = reason;
  rules = cited_rules reason;
}

-- `votes[i]`.
abbrev pub vote_at : List Commitment → ℕ → Result Commitment
vote_at votes i = elim (get_elem? votes i) [ none ↦ err panic | some v ↦ ok v ]

-- The branch of a Revealed log.
unfoldable pub reveal : Tally → Bytes → Option ℕ → Result Tally
reveal st d none = err (message "sentinel revealed a vote it didn't commit")
reveal st d (some i) = do
  v ← vote_at st.votes i
  fail_if (not (is_pending v.vote)) "sentinel revealed a vote it didn't commit"
  content ← decoded "decoding vote" (revealed d none)
  ok (record st { votes = set st.votes i (revealed_vote v content.0 content.1) })

module _ ⦃k : Keccak⦄ where
  abbrev pub committed_event : Hash
  committed_event = event "Committed(bytes32,address,uint96)"

  abbrev pub revealed_event : Hash
  revealed_event = event "Revealed(bytes32,address,bool,uint96,string)"

  -- The body of the loop, for a log of these topics that was not removed.
  unfoldable pub count_log : Tally → List Hash → Bytes → Result Tally
  count_log st (topic ∷ id ∷ account ∷ []) d =
      let s = drop 12 account in
      if bytes_eq topic committed_event
      then commit st s d (lookup st.index s)
      else reveal st d (lookup st.index s)
  count_log st _ d = err (message "getting votes: wrong number of topics")

  unfoldable pub count_logs : Tally → List Log → Option Error → Result (List Commitment)
  count_logs st [] none = ok st.votes
  count_logs st [] (some e) = err (wrap "getting votes" e)
  count_logs st (log ∷ logs) failure = elim log.removed [
    | true ↦ count_logs st logs failure
    | false ↦ do counted ← count_log st log.topics log.payload; count_logs counted logs failure
  ]

  abbrev pub vote_filter : Address → Hash → ℕ → ℕ → LogFilter
  vote_filter oracle id from to = record {
    from_block = from;
    to_block = to;
    addresses = oracle ∷ [];
    topics = some (committed_event ∷ revealed_event ∷ []) ∷ some (id ∷ []) ∷ [];
  }

  -- `session.votes`.
  unfoldable pub votes : Client → Address → Hash → ℕ → ℕ → Result (List Commitment)
  votes client oracle id from to =
      let scan = scan_logs client (vote_filter oracle id from to) in
      count_logs no_votes scan.logs scan.failure

-- `progress`.
pub record Progress : Type 0 where
  pub arbitration_deadline : ℕ
  pub committed : ℕ
  pub revealed : ℕ
  pub approvals : ℕ
  pub denials : ℕ

-- The counts of the loop of `check`, from those of a progress.
pub tally : Progress → List Commitment → Progress
tally p [] = p
tally p (v ∷ vs) = elim v.vote [
  | vote_approved ↦ tally (record p { revealed = p.revealed + 1; approvals = p.approvals + 1 }) vs
  | vote_denied ↦ tally (record p { revealed = p.revealed + 1; denials = p.denials + 1 }) vs
  | vote_pending ↦ tally p vs
  | vote_none ↦ tally p vs
]

progress_eq : Progress → Progress → Bool
progress_eq p q =
    p.arbitration_deadline == q.arbitration_deadline
    && p.committed == q.committed
    && p.revealed == q.revealed
    && p.approvals == q.approvals
    && p.denials == q.denials

-- `progress.check`.
pub check_progress : Progress → List Commitment → Result (Unit {0})
unfolding progress_eq
check_progress p vs =
    let none_yet : Progress = record {
      arbitration_deadline = p.arbitration_deadline;
      committed = length vs;
      revealed = 0;
      approvals = 0;
      denials = 0;
    } in
    fail_if (not (progress_eq (tally none_yet vs) p)) "the oracle has other counts than the logs"
