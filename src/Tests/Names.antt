-- ===== src/Tests/Names.antt =====
-- internal/erc20, internal/ens and internal/ipfs, on concrete logs, names and contents.
use mathlib.Core.List.{flatten}
use safenet_arbitration_bot.Base.{
  ◌≡◌, ◌≤◌, ◌↔◌, ◌⊎◌, refl, inl, inr, Bool, true, false, ◌&&◌, ◌||◌, Option, none, some, List, [],
  ◌∷◌, ◌++◌, All, Any, Bytes, codes, replicate, padded, length-padded, length, if◌then◌else◌, ok,
  ok-injective, not_found, err, arith, bytes_eq, bytes_eq_iff, Bool-cases, from_be, is_zero, to_be,
  &&-eq-true, subst,
}
use safenet_arbitration_bot.Keccak.{hash}
use safenet_arbitration_bot.Keccak.Stub.{stub}
use safenet_arbitration_bot.Solabi.Decode
use safenet_arbitration_bot.Solabi.Encode as Encode
use safenet_arbitration_bot.Solabi.Encode.{event, selector, calldata, encode_address, encode_values}
use safenet_arbitration_bot.Ethrpc.Types.{Address, Hash, Log, LogFilter, Client}
use safenet_arbitration_bot.Ethrpc.Hex.{address_of}
use safenet_arbitration_bot.Ethrpc.Logs.{scan_logs, scan_loop}
use safenet_arbitration_bot.Ethrpc.Logs.Filtered.{MatchesTopics, IsEmitter, Matches, Filters}
use safenet_arbitration_bot.Transfers.Erc20.{
  Transfer, transfer_event, transfer_of, transfers_in, transfers_of, scan, transfers_from,
}
use safenet_arbitration_bot.Transfers.Filtered.{IsAsked}
use safenet_arbitration_bot.Transfers.Shown.{Shows, In, scan_from, transfers_from_lem}
use safenet_arbitration_bot.Ipfs.Cid.{Sha256, Cid, compute_cid, parse_cid_from_url}
use safenet_arbitration_bot.Ipfs.Client.{
  World, file_of, valid_copy, cached, max_content_size, verified, download_from, served, race,
  picked, pick, download, kept, store, stored, written, fetched, fetch,
}
use safenet_arbitration_bot.Ipfs.Client as Ipfs
use safenet_arbitration_bot.Ipfs.Client.Verified.{fetch-verified}
use safenet_arbitration_bot.Ipfs.Client.Served.{Serves, fetch-Serves}
use safenet_arbitration_bot.Ens.{
  registry, resolver_selector, contenthash_selector, namehash, node_of, split_dots, has_empty,
  call_node, decode_bytes, resolve,
}
use safenet_arbitration_bot.Ens.Content.{decode_bytes_iff}
use safenet_arbitration_bot.Ens.Resolved.{content_hash, IsName, resolve-cid}

abbrev payer : Address
payer = replicate 20 5

abbrev payee : Address
payee = replicate 20 6

abbrev a_log : Log
a_log = record {
  address = replicate 20 8;
  topics = transfer_event ⦃k = stub⦄ ∷ encode_address payer ∷ encode_address payee ∷ [];
  payload = replicate 31 0 ++ 7 ∷ [];
  block_number = 6;
  transaction_hash = replicate 32 7;
  log_index = 2;
  removed = false;
}

abbrev one_of : Bytes → List Bytes → Bool
one_of x [] = false
one_of x (y ∷ ys) = bytes_eq y x || one_of x ys

-- Whether topics match the places of a filter, and the emitter its addresses.
abbrev topics_match : List (Option (List Hash)) → List Hash → Bool
topics_match [] topics = true
topics_match (none ∷ places) [] = topics_match places []
topics_match (none ∷ places) (topic ∷ topics) = topics_match places topics
topics_match (some choices ∷ places) [] = false
topics_match (some choices ∷ places) (topic ∷ topics) =
    one_of topic choices && topics_match places topics

abbrev emitter_matches : Address → List Address → Bool
emitter_matches a [] = true
emitter_matches a (b ∷ bs) = one_of a (b ∷ bs)

one_of-Any : (x : Bytes) (ys : List Bytes) → one_of x ys ≡ true → Any (λ y. y ≡ x) ys
one_of-Any x [] h = cc
one_of-Any x (y ∷ ys) h = elim (Bool-cases (bytes_eq y x)) [
  | inl t ↦ inl ((bytes_eq_iff y x).0 t)
  | inr n ↦ inr (one_of-Any x ys (rw n at h))
]

topics_match-MatchesTopics :
    (places : List (Option (List Hash))) (topics : List Hash)
    → topics_match places topics ≡ true
    → MatchesTopics places topics
topics_match-MatchesTopics [] topics h = tt
topics_match-MatchesTopics (none ∷ places) [] h = topics_match-MatchesTopics places [] h
topics_match-MatchesTopics (none ∷ places) (topic ∷ topics) h =
    topics_match-MatchesTopics places topics h
topics_match-MatchesTopics (some choices ∷ places) [] h = cc
topics_match-MatchesTopics (some choices ∷ places) (topic ∷ topics) h =
    let (first, rest) = &&-eq-true (one_of topic choices) (topics_match places topics) h in
    (one_of-Any topic choices first, topics_match-MatchesTopics places topics rest)

emitter_matches-IsEmitter :
    (a : Address) (bs : List Address) → emitter_matches a bs ≡ true → IsEmitter a bs
emitter_matches-IsEmitter a [] h = tt
emitter_matches-IsEmitter a (b ∷ bs) h = one_of-Any a (b ∷ bs) h

abbrev is_match : LogFilter → Log → Bool
is_match filter log =
    emitter_matches log.address filter.addresses && topics_match filter.topics log.topics

-- A node with one log, which it returns where the filter matches it.
abbrev matching : LogFilter → List Log
matching filter = if is_match filter a_log then a_log ∷ [] else []

matching-Matches : (filter : LogFilter) → All (Matches filter) (matching filter)
matching-Matches filter = elim (Bool-cases (is_match filter a_log)) [
  | inl t ↦
      let (e, topics) =
        &&-eq-true (emitter_matches a_log.address filter.addresses)
          (topics_match filter.topics a_log.topics) t in
      rw t (
        (
          emitter_matches-IsEmitter a_log.address filter.addresses e,
          topics_match-MatchesTopics filter.topics a_log.topics topics,
        ),
        tt,
      )
  | inr n ↦ rw n tt
]

-- The content hash of a CID, as the resolver's answer encodes it.
abbrev a_cid : Cid
a_cid = replicate 32 3

abbrev an_answer : Bytes
an_answer = replicate 31 0 ++ 32 ∷ replicate 31 0 ++ 38 ∷ content_hash a_cid ++ replicate 26 0

abbrev a_node : Client
a_node = record {
  chain_id = 1;
  call = λ r b. if bytes_eq r.to registry then ok (encode_address payee) else ok an_answer;
  block_number = ok 8;
  get_code = λ a b. ok [];
  get_storage_at = λ a s b. ok (replicate 32 0);
  get_logs = λ f. ok (matching f);
  get_transaction_by_hash = λ h. err not_found;
  get_block_by_number = λ n. err not_found;
  finalized_block = err not_found;
}

a_node-Filters : Filters a_node
a_node-Filters filter logs h =
    subst (All (Matches filter)) (ok-injective h) (matching-Matches filter)

abbrev a_transfer : Transfer
a_transfer = record {
  block = 6;
  tx_hash = replicate 32 7;
  log_index = 2;
  token = replicate 20 8;
  from = payer;
  to = payee;
  value = 7;
}

transfers_run : transfers_from ⦃k = stub⦄ a_node payer (some payee) 1 8 ≡ ok (a_transfer ∷ [])
unfolding transfers_from scan scan_logs scan_loop transfers_of transfers_in transfer_of event hash
    flatten bytes_eq encode_address from_be
transfers_run = refl

transfers_from_lem_example :
    All (λ t. (t.from ≡ payer) × IsAsked (some payee) t.to) (a_transfer ∷ [])
    × ((t : Transfer)
        → In t (a_transfer ∷ [])
          ↔ Any (Shows t) (scan_from ⦃k = stub⦄ a_node a_node-Filters payer (some payee) 1 8).logs)
transfers_from_lem_example =
    transfers_from_lem ⦃k = stub⦄ a_node a_node-Filters payer (some payee) 1 8 transfers_run

decode_bytes_iff_example :
    (decode_bytes an_answer ≡ ok (content_hash a_cid))
    ↔ (Decode.bytes an_answer 0 none ≡ (content_hash a_cid, none))
decode_bytes_iff_example = decode_bytes_iff an_answer (content_hash a_cid)

abbrev a_name : Bytes
a_name = codes "charter.eth"

answer-encoded :
    encode_values (Encode.cons (Encode.bytes (content_hash a_cid)) Encode.nil) ≡ ok an_answer
unfolding Encode.encode_onto Encode.encode Encode.encode_uint64 Encode.encode_bytes
    Encode.is_dynamic to_be
answer-encoded = refl

resolver-answered :
    call_node ⦃k = stub⦄ a_node registry
      (resolver_selector ⦃k = stub⦄)
      (namehash ⦃k = stub⦄ a_name)
      8
    ≡ ok (encode_address payee)
unfolding call_node calldata namehash node_of split_dots bytes_eq address_of hash flatten selector
    Encode.encode_onto Encode.encode Encode.is_dynamic
resolver-answered = refl

content-answered :
    call_node ⦃k = stub⦄ a_node payee
      (contenthash_selector ⦃k = stub⦄)
      (namehash ⦃k = stub⦄ a_name)
      8
    ≡ ok an_answer
unfolding call_node calldata namehash node_of split_dots bytes_eq address_of hash flatten selector
    Encode.encode_onto Encode.encode Encode.is_dynamic
content-answered = refl

a_name-IsName : IsName a_name
unfolding has_empty split_dots
a_name-IsName = refl

known : is_zero payee ≡ false
unfolding is_zero
known = refl

resolve-cid_example :
    (url : Bytes) × (resolve ⦃k = stub⦄ a_node a_name 8 ≡ ok url)
    × (parse_cid_from_url url ≡ ok a_cid)
resolve-cid_example =
    resolve-cid ⦃k = stub⦄ a_node a_name 8 payee a_cid a_name-IsName refl known refl (ground arith)
      answer-encoded (omega arith) resolver-answered content-answered

-- A stub of SHA2-256: the first 32 bytes of the content, filled up with zeros.
abbrev sha : Sha256
sha = record { sum = padded 32; length-sum = length-padded 32 }

abbrev a_text : Bytes
a_text = codes "The rules."

-- A network with two gateways, of which the first serves other content.
abbrev a_world : World
a_world = record {
  get = λ g cid.
      ok (record { status = 200; body = ok (if bytes_eq g (codes "b") then a_text else []) });
  default_gateways = ok (codes "a" ∷ codes "b" ∷ []);
  answers = λ gs. gs;
  context_error = none;
  writes = λ cid. true;
}

abbrev a_client : Ipfs.Client
a_client = record { cache = some []; gateway = none }

fetch_run : (fetch ⦃h = sha⦄ a_world a_client (padded 32 a_text)).0 ≡ ok a_text
unfolding fetch fetched cached valid_copy file_of download pick picked race served download_from
    verified kept store stored written compute_cid bytes_eq max_content_size
fetch_run = refl

fetch-verified_example :
    (compute_cid ⦃h = sha⦄ a_text ≡ padded 32 a_text)
    × ((cached ⦃h = sha⦄ (some []) (padded 32 a_text) ≡ some a_text)
        ⊎ (length a_text ≤ max_content_size))
fetch-verified_example = fetch-verified ⦃h = sha⦄ a_world a_client (padded 32 a_text) fetch_run

second-Serves : Any (Serves ⦃h = sha⦄ a_world (padded 32 a_text)) (codes "a" ∷ codes "b" ∷ [])
unfolding bytes_eq compute_cid max_content_size
second-Serves = inr (inl (a_text, refl, refl, omega arith))

fetch-Serves_example :
    (content : Bytes) × ((fetch ⦃h = sha⦄ a_world a_client (padded 32 a_text)).0 ≡ ok content)
fetch-Serves_example =
    fetch-Serves ⦃h = sha⦄ a_world a_client (padded 32 a_text) (codes "a" ∷ codes "b" ∷ []) refl
      refl second-Serves
