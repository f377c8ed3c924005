-- ===== src/Safenet/Requests.antt =====
-- safenet.go: `connect`, `FinalizedBlock`, `getRequest`, `feeToken`, `request`, `Request`,
-- `Pending` and `Rulings`.
use safenet_arbitration_bot.Base.{
  ℕ, ◌-◌, min, Bool, true, false, not, Option, none, some, List, [], ◌∷◌, ◌++◌, if◌then◌else◌, ltb,
  ◌==◌, Bytes, bytes_eq, Error, message, not_found, wrap, Result, ok, err, fail_if, wrapped, ◌>>=◌,
  ◌>>◌,
}
use safenet_arbitration_bot.Keccak.{Keccak}
use safenet_arbitration_bot.Solabi.Decode.{uint64, bytes}
use safenet_arbitration_bot.Solabi.Encode.{selector, calldata, nil, cons, word}
use safenet_arbitration_bot.Ethrpc.Types.{Address, Hash, Log, Client, Dialer, as_rpc}
use safenet_arbitration_bot.Ethrpc.Logs.{scan_logs}
use safenet_arbitration_bot.Ethrpc.Search.{Extrapolation}
use safenet_arbitration_bot.Safenet.Types.{Dispute, Token, Arbitration, Request}
use safenet_arbitration_bot.Safenet.Reads.{Recorded, read_request}
use safenet_arbitration_bot.Safenet.Rules.{disputed_rules}
use safenet_arbitration_bot.Safenet.Votes.{decoded, votes, check_progress}
use safenet_arbitration_bot.Safenet.Disputes.{
  call_uint64, call_address, call_string, pending, dispute_resolved_event,
  dispute_out_of_scope_event, arbitration_timeout_selector,
}
use safenet_arbitration_bot.Safenet.Arbitrations.{arbitration}
use safenet_arbitration_bot.Safenet.Proposals.{gnosis, proposal, proposal_blocks}

-- `isRevert`.
unfoldable pub is_revert : Error → Bytes → Bool
is_revert e sel = elim (as_rpc e) [ some (some payload) ↦ bytes_eq payload sel | _ ↦ false ]

-- `Safenet`, with what the searches of its queries extrapolate by.
pub record Safenet : Type 0 where
  pub dial : Dialer
  pub oracle : Address
  pub consensus : Address
  pub extrapolate : Extrapolation

-- `session`.
pub record Session : Type 0 where
  pub safenet : Safenet
  pub client : Client
  pub block : ℕ

unfoldable pub connect : Safenet → Result Session
connect s = do
  client ← wrapped "connecting to Gnosis Chain" (s.dial gnosis)
  block ← wrapped "getting the latest Gnosis Chain block" client.block_number
  ok (record { safenet = s; client = client; block = block })

unfoldable pub finalized_block : Safenet → Result ℕ
finalized_block s = do
  q ← connect s
  block ← wrapped "getting the finalized Gnosis Chain block" q.client.finalized_block
  ok block.number

module _ ⦃k : Keccak⦄ where
  unfoldable pub get_request : Session → Hash → Result Recorded
  get_request q id = do
    input ← calldata (selector "getRequest(bytes32)") (cons (word id) nil)
    elim (q.client.call (record { to = q.safenet.oracle; input = input }) q.block) [
      | err e ↦
          if is_revert e (selector "RequestNotFound()")
          then err (wrap "request" not_found)
          else err (wrap "getting request" e)
      | ok d ↦ decoded "decoding request" (read_request d none)
    ]

  -- `feeToken`.
  unfoldable pub fee_token : Session → Result Token
  fee_token q = do
    account ← call_address q.client q.safenet.oracle q.block (selector "FEE_TOKEN()")
    symbol_call ← calldata (selector "symbol()") nil
    symbol_data ←
        wrapped "getting the symbol of fee token"
          (q.client.call (record { to = account; input = symbol_call }) q.block)
    symbol ← decoded "getting the symbol of fee token" (bytes symbol_data 0 none)
    decimals_call ← calldata (selector "decimals()") nil
    decimals_data ←
        wrapped "getting the decimals of fee token"
          (q.client.call (record { to = account; input = decimals_call }) q.block)
    decimals ← decoded "getting the decimals of fee token" (uint64 decimals_data 0 none)
    fail_if (ltb 255 decimals) "getting the decimals of fee token: too many"
    ok (record { address = account; symbol = symbol; decimals = decimals })

  -- The arbitration of a request, which it has once it was frozen.
  unfoldable pub request_arbitration : Session → Hash → Recorded → Result (Option Arbitration)
  request_arbitration q id r = if r.progress.arbitration_deadline == 0 then ok none else do
    timeout ← call_uint64 q.client q.safenet.oracle q.block arbitration_timeout_selector
    found ←
        arbitration q.client q.safenet.oracle id r.state r.progress.arbitration_deadline timeout
          q.block
    ok (some found)

  -- `session.request`.
  unfoldable pub read_full_request : Session → Hash → Result Request
  read_full_request q id = do
    r ← get_request q id
    commit_window ← call_uint64 q.client q.safenet.oracle q.block (selector "COMMIT_WINDOW()")
    proposer ← call_address q.client q.safenet.oracle q.block (selector "PROPOSER()")
    fail_if (not (bytes_eq proposer q.safenet.consensus)) "SentinelOracle has another PROPOSER"
    charter ← call_string q.client q.safenet.oracle q.block (selector "charterEns()")
    token ← fee_token q
    fail_if (ltb r.terms.commit_deadline commit_window) "commit deadline is before COMMIT_WINDOW"
    logged ←
        proposal q.client q.safenet.oracle q.safenet.consensus id
          (r.terms.commit_deadline - commit_window)
    placed ← wrapped "request" (
        proposal_blocks q.safenet.extrapolate q.safenet.dial q.client logged
          logged.transaction.chain_id)
    cast ← votes q.client q.safenet.oracle id placed.block (min r.terms.reveal_deadline q.block)
    wrapped "request" (check_progress r.progress cast)
    settlement ← request_arbitration q id r
    ok (record {
      id = id;
      oracle = q.safenet.oracle;
      charter = charter;
      fee_token = token;
      state = r.state;
      terms = r.terms;
      fee = r.fee;
      proposal = placed;
      votes = cast;
      disputed_rules = disputed_rules cast;
      arbitration = settlement;
    })

  -- `Request` and `Pending`.
  unfoldable pub request : Safenet → Hash → Result Request
  request s id = do q ← connect s; read_full_request q id

  unfoldable pub pending_disputes : Safenet → Result (List Dispute)
  pending_disputes s = do q ← connect s; pending q.client s.oracle q.block

  -- The loop of `Rulings` over the logs: the IDs of the requests.
  unfoldable pub ruling_ids : List Hash → List Log → Option Error → Result (List Hash)
  ruling_ids ids [] none = ok ids
  ruling_ids ids [] (some e) = err (wrap "listing rulings" e)
  ruling_ids ids (log ∷ logs) failure = elim log.removed [
    | true ↦ ruling_ids ids logs failure
    | false ↦ elim log.topics [
      | topic ∷ id ∷ [] ↦ ruling_ids (ids ++ id ∷ []) logs failure
      | _ ↦ err (message "listing rulings: wrong number of topics")
    ]
  ]

  unfoldable pub read_requests : Session → List Hash → Result (List Request)
  read_requests q [] = ok []
  read_requests q (id ∷ ids) = do
    r ← read_full_request q id
    rest ← read_requests q ids
    ok (r ∷ rest)

  -- `Rulings`.
  unfoldable pub rulings : Safenet → ℕ → ℕ → Result (List Request)
  rulings s from to = do
    q ← connect s
    fail_if (ltb q.block to) "block is after the latest Gnosis Chain block"
    let scan = scan_logs q.client (record {
      from_block = from;
      to_block = to;
      addresses = s.oracle ∷ [];
      topics = some (dispute_resolved_event ∷ dispute_out_of_scope_event ∷ []) ∷ [];
    })
    ids ← ruling_ids [] scan.logs scan.failure
    read_requests q ids
