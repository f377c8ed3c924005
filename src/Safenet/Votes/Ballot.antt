-- ===== src/Safenet/Votes/Ballot.antt =====
-- safenet.go: what `votes` collects.
use safenet_arbitration_bot.Base.{
  ℕ, ◌≡◌, inl, inr, refl, ap, sym, ◌∙◌, subst, true, false, not, Option, none, some, List, [], ◌∷◌,
  ◌++◌, append-nil, append_assoc, All, Bytes, bytes_eq, length, get_elem?, set, drop, if◌then◌else◌,
  Bool-cases, Option-cases, arith, Error, ok, fail_if, >>=-eq-ok,
}
use mathlib.Core.Option.{some-injective}
use safenet_arbitration_bot.Keccak.{Keccak}
use safenet_arbitration_bot.Solabi.Decode.{uint}
use safenet_arbitration_bot.Ethrpc.Types.{Address, Hash, Log, Client}
use safenet_arbitration_bot.Ethrpc.Logs.{scan_logs}
use safenet_arbitration_bot.Safenet.Types.{Commitment}
use safenet_arbitration_bot.Safenet.Votes.{
  Tally, no_votes, lookup, commit, commitment, reveal, revealed_vote, revealed, vote_at, is_pending,
  decoded, committed_event, count_log, count_logs, vote_filter, votes,
}
use safenet_arbitration_bot.Safenet.Votes.Indexed.{sentinels, Indexed, Indexed-nil, Indexed-concat}
use safenet_arbitration_bot.Safenet.Votes.Cast.{
  IsVote, unrevealed, revealed_vote-IsVote, revealed_vote-sentinel, sentinels-append,
  length-sentinels, All-concat, sentinels-set, All-set, All-at,
}

-- The invariant of the loop.
abbrev pub IsTally : Tally → Type 0
IsTally st = Indexed st.index (sentinels st.votes) × All IsVote st.votes

-- What a log does to the tally: its sentinels get the new ones at the end.
abbrev Counts : Tally → List Address → Tally → Type 0
Counts st new counted = IsTally counted × (sentinels counted.votes ≡ sentinels st.votes ++ new)

commit-Counts :
    (st : Tally) (s : Address) (d : Bytes) {counted : Tally}
    → IsTally st
    → commit st s d (lookup st.index s) ≡ ok counted
    → Counts st (s ∷ []) counted
unfolding commit
commit-Counts st s d {counted} (indexed, all) h = elim (Option-cases (lookup st.index s)) [
  | inr (i, m) ↦ cc (rw m at h)
  | inl m ↦
      let (bond, _, made) = >>=-eq-ok (decoded "decoding vote" (uint d 0 none)) _ (rw m at h) in
      let names = sentinels-append st.votes (commitment s bond ∷ []) in
      let added : Indexed ((s, length st.votes) ∷ st.index) (sentinels st.votes ++ s ∷ []) =
        subst (λ n. Indexed ((s, n) ∷ st.index) (sentinels st.votes ++ s ∷ []))
          (length-sentinels st.votes) (Indexed-concat st.index (sentinels st.votes) s indexed m) in
      let done : Tally = record {
        votes = st.votes ++ commitment s bond ∷ [];
        index = (s, length st.votes) ∷ st.index;
      } in
      let e : done ≡ counted = cc in
      subst (Counts st (s ∷ [])) e (
        (
          subst (Indexed ((s, length st.votes) ∷ st.index)) (sym names) added,
          All-concat st.votes (commitment s bond) all (unrevealed refl refl refl),
        ),
        names,
      )
]

vote_at-eq-ok :
    (vs : List Commitment) (i : ℕ) {v : Commitment} → vote_at vs i ≡ ok v → get_elem? vs i ≡ some v
vote_at-eq-ok vs i {v} h = elim (Option-cases (get_elem? vs i)) [
  | inl m ↦ cc (rw (m, vote_at) at h)
  | inr (w, m) ↦ let e : ok w ≡ ok v = rw (m, vote_at) at h in cc
]

reveal-Counts :
    (st : Tally) (d : Bytes) (o : Option ℕ) {counted : Tally}
    → IsTally st
    → reveal st d o ≡ ok counted
    → Counts st [] counted
unfolding reveal
reveal-Counts st d none t h = cc
reveal-Counts st d (some i) {counted} (indexed, all) h =
    let (v, at, h₁) = >>=-eq-ok (vote_at st.votes i) _ h in
    let (_, pending, h₂) =
      >>=-eq-ok (fail_if (not (is_pending v.vote)) "sentinel revealed a vote it didn't commit") _
        h₁ in
    let (content, _, made) = >>=-eq-ok (decoded "decoding vote" (revealed d none)) _ h₂ in
    let w = revealed_vote v content.0 content.1 in
    let found = vote_at-eq-ok st.votes i at in
    let names = sentinels-set st.votes i v w found (revealed_vote-sentinel v content.0 content.1) in
    let is_vote =
      revealed_vote-IsVote v content.0 content.1 (ground arith) (All-at st.votes i v all found) in
    let done : Tally = record st { votes = set st.votes i w } in
    let e : done ≡ counted = cc in
    subst (Counts st []) e (
      (subst (Indexed st.index) (sym names) indexed, All-set st.votes i w all is_vote),
      names ∙ sym (append-nil (sentinels st.votes)),
    )

module _ ⦃k : Keccak⦄ where
  -- The sentinel of a Committed log.
  abbrev pub committing : List Hash → List Address
  committing (topic ∷ id ∷ account ∷ []) =
      if bytes_eq topic committed_event then drop 12 account ∷ [] else []
  committing _ = []

  -- The sentinels of the Committed logs, without the logs that a reorganization removed.
  abbrev pub committers : List Log → List Address
  committers [] = []
  committers (log ∷ logs) = elim log.removed [
    | true ↦ committers logs
    | false ↦ committing log.topics ++ committers logs
  ]

  count_log-Counts :
      (st : Tally) (topics : List Hash) (d : Bytes) {counted : Tally}
      → IsTally st
      → count_log st topics d ≡ ok counted
      → Counts st (committing topics) counted
  unfolding count_log
  count_log-Counts st (topic ∷ id ∷ account ∷ []) d t h =
      elim (Bool-cases (bytes_eq topic committed_event)) [
        | inl c ↦ rw c (commit-Counts st (drop 12 account) d t (rw c at h))
        | inr c ↦ rw c (reveal-Counts st d (lookup st.index (drop 12 account)) t (rw c at h))
      ]
  count_log-Counts st [] d t h = cc
  count_log-Counts st (_ ∷ []) d t h = cc
  count_log-Counts st (_ ∷ _ ∷ []) d t h = cc
  count_log-Counts st (_ ∷ _ ∷ _ ∷ _ ∷ _) d t h = cc

  count_logs-Counts :
      (st : Tally) (logs : List Log) (failure : Option Error) {vs : List Commitment}
      → IsTally st
      → count_logs st logs failure ≡ ok vs
      → (counted : Tally) × (counted.votes ≡ vs) × Counts st (committers logs) counted
  unfolding count_logs
  count_logs-Counts st [] none t h = (st, cc, (t, sym (append-nil (sentinels st.votes))))
  count_logs-Counts st [] (some e) t h = cc
  count_logs-Counts st (log ∷ logs) failure t h = elim (Bool-cases log.removed) [
    | inl r ↦ rw r (count_logs-Counts st logs failure t (rw r at h))
    | inr r ↦
        let (next, counts, h') = >>=-eq-ok (count_log st log.topics log.payload) _ (rw r at h) in
        let (t', names) = count_log-Counts st log.topics log.payload t counts in
        let (done, same, (t'', names')) = count_logs-Counts next logs failure t' h' in
        rw r (
          done,
          same,
          (
            t'',
            names'
                ∙ ap (λ s. s ++ committers logs) names
                ∙ append_assoc (sentinels st.votes) (committing log.topics) (committers logs),
          ),
        )
  ]

  -- The votes that `votes` returns are those of the sentinels that committed, one for each
  -- Committed log and in the order of the logs; no sentinel has two; and each is unrevealed, an
  -- approval without rules, or a denial with the rules that its reason cites.
  pub votes-committers :
      (client : Client) (oracle : Address) (id : Hash) (from to : ℕ) {vs : List Commitment}
      → votes client oracle id from to ≡ ok vs
      → (sentinels vs ≡ committers (scan_logs client (vote_filter oracle id from to)).logs)
        × All IsVote vs
        × ((i j : ℕ) (s : Address)
            → get_elem? (sentinels vs) i ≡ some s
            → get_elem? (sentinels vs) j ≡ some s
            → i ≡ j)
  unfolding votes
  votes-committers client oracle id from to {vs} h =
      let scan = scan_logs client (vote_filter oracle id from to) in
      let (st, same, ((indexed, all), names)) =
        count_logs-Counts no_votes scan.logs scan.failure (Indexed-nil, tt) h in
      subst
        (λ ws.
          (sentinels ws ≡ committers scan.logs)
          × All IsVote ws
          × ((i j : ℕ) (s : Address)
              → get_elem? (sentinels ws) i ≡ some s
              → get_elem? (sentinels ws) j ≡ some s
              → i ≡ j))
        same
        (
          names,
          all,
          λ i j s at at'. some-injective i j (sym ((indexed s i).1 at) ∙ (indexed s j).1 at'),
        )
