-- ===== src/Tests/Oracle.antt =====
-- internal/safenet, on the logs of one request.
use mathlib.Core.List.{flatten}
use safenet_arbitration_bot.Base.{
  ℕ, ◌+◌, ◌≡◌, ◌↔◌, refl, true, false, some, List, [], ◌∷◌, ◌++◌, map, All, Any, Bytes, codes,
  replicate, get_elem?, ok, err, not_found, from_be, is_zero, bytes_eq,
}
use safenet_arbitration_bot.Keccak.{hash}
use safenet_arbitration_bot.Keccak.Stub.{stub}
use safenet_arbitration_bot.Solabi.Decode.{word, uint, word_uint64, uint64, bool, bytes}
use safenet_arbitration_bot.Solabi.Encode.{event, selector, calldata, encode_onto}
use safenet_arbitration_bot.Ethrpc.Types.{Address, Hash, Log, Client}
use safenet_arbitration_bot.Ethrpc.Logs.{scan_logs, scan_loop}
use safenet_arbitration_bot.Safenet.Types.{
  vote_denied, Commitment, Dispute, Arbitration, state_resolved_denied, outcome_insecure,
}
use safenet_arbitration_bot.Safenet.Rules.{
  split_commas, trim_space, is_rule, contains_rule, add_rule, cite_parts, cited_rules,
  disputed_rules,
}
use safenet_arbitration_bot.Safenet.Rules.Cited.{
  In, Distinct, Denies, cited_rules_lem, disputed_rules_lem,
}
use safenet_arbitration_bot.Safenet.Votes.{
  Progress, check_progress, lookup, commit, reveal, revealed_vote, committed_event, revealed_event,
  count_log, count_logs, vote_filter, votes,
}
use safenet_arbitration_bot.Safenet.Votes.Indexed.{sentinels}
use safenet_arbitration_bot.Safenet.Votes.Counted.{approvals_in, denials_in, check_progress_iff}
use safenet_arbitration_bot.Safenet.Votes.Cast.{IsVote}
use safenet_arbitration_bot.Safenet.Votes.Ballot.{committers, votes-committers}
use safenet_arbitration_bot.Safenet.Disputes.{
  call, call_uint64, is_settled, delete_settled, insert, sort_disputes, dispute_triggered_event,
  dispute_resolved_event, docket_log, docket_logs, dispute_filter, arbitration_timeout_selector,
  pending,
}
use safenet_arbitration_bot.Safenet.Disputes.Sorted.{Sorted, Among, Settles}
use safenet_arbitration_bot.Safenet.Disputes.Open.{all_opened, all_settled, pending-Sorted}
use safenet_arbitration_bot.Safenet.Arbitrations.{
  outcome_state, conclude, triggered, resolution, resolved, hear, hear_topics, hear_logs,
  arbitration,
}
use safenet_arbitration_bot.Safenet.Arbitrations.Consistent.{IsRecorded, arbitration-IsRecorded}

abbrev pub oracle : Address
oracle = replicate 20 9

abbrev an_id : Hash
an_id = replicate 32 8

-- The word of an address, of a small number, and of a text of less than 32 bytes.
abbrev pub account : ℕ → Hash
account n = replicate 31 0 ++ n ∷ []

abbrev pub number : ℕ → Bytes
number n = replicate 31 0 ++ n ∷ []

abbrev pub log_of : List Hash → Bytes → ℕ → Log
log_of topics d block = record {
  address = oracle;
  topics = topics;
  payload = d;
  block_number = block;
  transaction_hash = replicate 32 7;
  log_index = 0;
  removed = false;
}

abbrev pub node_of : List Log → Client
node_of logs = record {
  chain_id = 100;
  call = λ r b. ok (number 4);
  block_number = ok 8;
  get_code = λ a b. ok [];
  get_storage_at = λ a s b. ok (replicate 32 0);
  get_logs = λ f. ok logs;
  get_transaction_by_hash = λ h. err not_found;
  get_block_by_number = λ n. err not_found;
  finalized_block = err not_found;
}

abbrev reason : Bytes
reason = codes "R-4.1, R-4.2,why"

cited_rules_lem_example :
    Distinct (cited_rules reason)
    × ((r : Bytes)
        → In r (cited_rules reason)
          ↔ ((is_rule r ≡ true) × In r (map trim_space (split_commas reason))))
cited_rules_lem_example = cited_rules_lem reason

cited_rules_test : cited_rules reason ≡ codes "R-4.1" ∷ codes "R-4.2" ∷ []
unfolding cited_rules cite_parts split_commas trim_space is_rule contains_rule add_rule bytes_eq
cited_rules_test = refl

abbrev cast : List Commitment
cast =
    record {
      sentinel = replicate 19 0 ++ 1 ∷ [];
      bond = 5;
      vote = vote_denied;
      reason = codes "R-4.1";
      rules = codes "R-4.1" ∷ [];
    }
    ∷ []

disputed_rules_lem_example :
    Distinct (disputed_rules cast)
    × ((r : Bytes) → In r (disputed_rules cast) ↔ Any (Denies r) cast)
disputed_rules_lem_example = disputed_rules_lem cast

abbrev vote_logs : List Log
vote_logs =
    log_of (committed_event ⦃k = stub⦄ ∷ an_id ∷ account 1 ∷ []) (number 5) 1
    ∷ log_of (revealed_event ⦃k = stub⦄ ∷ an_id ∷ account 1 ∷ [])
        (number 0 ++ number 5 ++ number 96 ++ number 5 ++ codes "R-4.1" ++ replicate 27 0) 2
    ∷ []

votes_run : votes ⦃k = stub⦄ (node_of vote_logs) oracle an_id 1 2 ≡ ok cast
unfolding votes count_logs count_log commit reveal lookup revealed_vote word uint word_uint64 uint64
    bool bytes event hash scan_logs scan_loop cited_rules cite_parts split_commas trim_space is_rule
    contains_rule add_rule bytes_eq from_be is_zero flatten
votes_run = refl

votes-committers_example :
    (sentinels cast
      ≡ committers ⦃k = stub⦄
          (scan_logs (node_of vote_logs) (vote_filter ⦃k = stub⦄ oracle an_id 1 2)).logs)
    × All IsVote cast
    × ((i j : ℕ) (s : Address)
        → get_elem? (sentinels cast) i ≡ some s
        → get_elem? (sentinels cast) j ≡ some s
        → i ≡ j)
votes-committers_example =
    votes-committers ⦃k = stub⦄ (node_of vote_logs) oracle an_id 1 2 votes_run

abbrev other_id : Hash
other_id = replicate 32 6

abbrev docket_events : List Log
docket_events =
    log_of (dispute_triggered_event ⦃k = stub⦄ ∷ an_id ∷ []) (number 9) 5
    ∷ log_of (dispute_triggered_event ⦃k = stub⦄ ∷ other_id ∷ []) (number 8) 4
    ∷ log_of (dispute_resolved_event ⦃k = stub⦄ ∷ an_id ∷ []) [] 6
    ∷ []

abbrev open_disputes : List Dispute
open_disputes = record { request_id = other_id; frozen_block = 4; deadline = 8 } ∷ []

timeout_run :
    call_uint64 (node_of docket_events) oracle 8 (arbitration_timeout_selector ⦃k = stub⦄) ≡ ok 4
unfolding call call_uint64 calldata encode_onto selector hash flatten word word_uint64 uint64
    from_be is_zero
timeout_run = refl

pending_run : pending ⦃k = stub⦄ (node_of docket_events) oracle 8 ≡ ok open_disputes
unfolding pending call call_uint64 calldata encode_onto selector hash flatten word word_uint64
    uint64 from_be is_zero event scan_logs scan_loop docket_logs docket_log delete_settled
    is_settled insert sort_disputes bytes_eq
pending_run = refl

pending-Sorted_example :
    Sorted open_disputes
    × ((d : Dispute)
        → Among d open_disputes ↔ (
            Among d (
              all_opened ⦃k = stub⦄
                (scan_logs (node_of docket_events) (dispute_filter ⦃k = stub⦄ oracle 8 4)).logs)
            × ¬ (
                Settles d.request_id (
                  all_settled ⦃k = stub⦄
                    (scan_logs
                      (node_of docket_events)
                      (dispute_filter ⦃k = stub⦄ oracle 8 4)).logs))))
pending-Sorted_example =
    pending-Sorted ⦃k = stub⦄ (node_of docket_events) oracle 8 4 timeout_run pending_run

abbrev ruling_logs : List Log
ruling_logs =
    log_of (dispute_triggered_event ⦃k = stub⦄ ∷ an_id ∷ []) (number 9) 5
    ∷ log_of (dispute_resolved_event ⦃k = stub⦄ ∷ an_id ∷ [])
        (number 4 ++ number 3 ++ number 96 ++ number 2 ++ codes "no" ++ replicate 30 0) 6
    ∷ []

abbrev a_ruling : Arbitration
a_ruling = record {
  frozen_block = 5;
  deadline = 9;
  outcome = outcome_insecure;
  slashed = some 3;
  context = codes "no";
  settled_by = some (record { block = 6; tx_hash = replicate 32 7 });
}

arbitration_run :
    arbitration ⦃k = stub⦄ (node_of ruling_logs) oracle an_id state_resolved_denied 9 4 8
    ≡ ok a_ruling
unfolding arbitration hear_logs hear_topics hear triggered resolved resolution conclude
    outcome_state word word_uint64 uint64 uint bytes from_be is_zero event hash flatten scan_logs
    scan_loop bytes_eq
arbitration_run = refl

arbitration-IsRecorded_example :
    (a_ruling.frozen_block + 4 ≡ 9)
    × (a_ruling.deadline ≡ 9)
    × (outcome_state a_ruling.outcome ≡ state_resolved_denied)
    × IsRecorded a_ruling
arbitration-IsRecorded_example =
    arbitration-IsRecorded ⦃k = stub⦄ (node_of ruling_logs) oracle an_id state_resolved_denied 9 4 8
      arbitration_run

abbrev counted : Progress
counted = record {
  arbitration_deadline = 0;
  committed = 1;
  revealed = 1;
  approvals = 0;
  denials = 1;
}

check_progress_iff_example : (check_progress counted cast ≡ ok tt) ↔ (
    (counted.committed ≡ 1)
    × (counted.approvals ≡ approvals_in cast)
    × (counted.denials ≡ denials_in cast)
    × (counted.revealed ≡ approvals_in cast + denials_in cast))
check_progress_iff_example = check_progress_iff counted cast
