-- ===== src/Tests/Chain.antt =====
-- internal/ethrpc and the reads of internal/checks, on a chain of nine blocks with one log.
use mathlib.Core.List.{flatten}
use safenet_arbitration_bot.Base.{
  pos, bytes_eq, ℕ, ◌+◌, ◌-◌, ◌*◌, ◌≡◌, ◌↔◌, ◌≤◌, ◌<◌, refl, false, ◌&&◌, none, List, [], ◌∷◌,
  replicate, Bool-cases, Result, ok, err, message, rpc, not_found, if◌then◌else◌, ltb, leb, arith,
  inl, inr, ◌⊎◌, Error,
}
use safenet_arbitration_bot.Keccak.{hash}
use safenet_arbitration_bot.Keccak.Stub.{stub}
use safenet_arbitration_bot.Ethrpc.Types.{Block, Log, LogFilter, Client, Dialer}
use safenet_arbitration_bot.Ethrpc.Hex.{hash_of}
use safenet_arbitration_bot.Ethrpc.Search.{Extrapolation, search_block}
use safenet_arbitration_bot.Ethrpc.Search.Correct.{IsChain, search_block_lem}
use safenet_arbitration_bot.Ethrpc.Logs.{chunk, scan_logs}
use safenet_arbitration_bot.Ethrpc.Logs.Complete.{Serves, Outcome, scan_logs-Outcome}
use safenet_arbitration_bot.Checks.Calls.{SafeId}
use safenet_arbitration_bot.Checks.Safe.{Cache, key_of, proxy_version, read_version, safe_version}
use safenet_arbitration_bot.Checks.Safe.Cached.{IsCoherent, safe_version-read}

abbrev pub blocks : ℕ → Block
blocks n = record { number = n; timestamp = 10 * n }

abbrev pub a_log : Log
a_log = record {
  address = [];
  topics = [];
  payload = [];
  block_number = 3;
  transaction_hash = [];
  log_index = 0;
  removed = false;
}

-- The logs of the blocks from `a` up to, and not including, `b`.
abbrev pub between : ℕ → ℕ → List Log
between a b = if leb a 3 && ltb 3 b then a_log ∷ [] else []

-- A node that refuses requests for more than 100 blocks.
abbrev pub node_logs : LogFilter → Result (List Log)
node_logs f =
    if ltb 100 (f.to_block - f.from_block)
    then err (rpc 1 none)
    else ok (between f.from_block (f.to_block + 1))

abbrev pub node : Client
node = record {
  chain_id = 100;
  call = λ r b. err (message "no contract");
  block_number = ok 8;
  get_code = λ a b. ok [];
  get_storage_at = λ a s b. ok (replicate 32 0);
  get_logs = node_logs;
  get_transaction_by_hash = λ h. err not_found;
  get_block_by_number = λ n. if leb n 8 then ok (blocks n) else err not_found;
  finalized_block = ok (blocks 8);
}

node-IsChain : IsChain node blocks 8
node-IsChain = record {
  latest_number = refl;
  answers = λ n h. ground arith;
  numbers = λ n. refl;
  ordered = λ m n h. omega arith;
}

abbrev middle : Extrapolation
middle a b t = a.number

search_block_lem_example :
    (k : ℕ) × (search_block middle node 45 ≡ ok (blocks k))
    × ((n : ℕ) → ((blocks n).timestamp < 45) ↔ (n ≤ k))
search_block_lem_example =
    search_block_lem middle node blocks 8 node-IsChain 45 (omega arith) (omega arith) (omega arith)

abbrev pub whole_chain : LogFilter
whole_chain = record { from_block = 0; to_block = 300; addresses = []; topics = [] }

node_logs-answers :
    (a b : ℕ)
    → (node_logs (chunk whole_chain a b) ≡ ok (between a (b + 1)))
      ⊎ ((e : Error) × (node_logs (chunk whole_chain a b) ≡ err e))
node_logs-answers a b = elim (Bool-cases (ltb 100 (b - a))) [
  | inl t ↦ rw t (inr (rpc 1 none, refl))
  | inr f ↦ rw f (inl refl)
]

node_logs-Serves : Serves node_logs whole_chain between
node_logs-Serves = record {
  between_self = λ a. ground arith;
  between_split = λ a b c h g. ground arith;
  answers = node_logs-answers;
}

scan_logs-Outcome_example :
    Outcome node_logs whole_chain between node_logs-Serves (scan_logs node whole_chain) 0
scan_logs-Outcome_example =
    scan_logs-Outcome node_logs whole_chain between node_logs-Serves node refl (omega arith)
      (omega arith)

abbrev safe : SafeId
safe = record { address = replicate 20 5; chain_id = pos 100 }

abbrev dial : Dialer
dial n = ok node

abbrev one_entry : Cache
one_entry = (key_of 7 safe, none) ∷ []

one_entry-IsCoherent : IsCoherent ⦃k = stub⦄ dial one_entry
unfolding read_version proxy_version hash bytes_eq flatten hash_of
one_entry-IsCoherent = (refl, tt)

safe_version-read_example :
    ((safe_version ⦃k = stub⦄ one_entry dial 8 safe).0
      ≡ read_version ⦃k = stub⦄ dial (key_of 8 safe))
    × IsCoherent ⦃k = stub⦄ dial (safe_version ⦃k = stub⦄ one_entry dial 8 safe).1
safe_version-read_example = safe_version-read ⦃k = stub⦄ dial one_entry 8 safe one_entry-IsCoherent
