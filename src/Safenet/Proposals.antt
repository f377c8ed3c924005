-- ===== src/Safenet/Proposals.antt =====
-- hash.go, and `proposal`, `decodeProposal`, `proposalBlocks`, `parentBlock` and `blockBefore` of
-- safenet.go. The chains are searched one after the other, and of two errors the first is kept.
pub mod Authentic
use safenet_arbitration_bot.Base.{
  is_uint64, low_uint64, ℕ, ℤ, pos, negsuc, ◌+◌, ◌-◌, ◌%◌, ◌^◌, Bool, true, false, not, ◌&&◌, ◌||◌,
  Option, none, some, List, [], ◌∷◌, ◌++◌, String, if◌then◌else◌, ltb, ◌==◌, Bytes, codes, bytes_eq,
  length, Error, message, panic, wrap, Result, ok, err, fail_if, wrapped, ◌>>=◌, ◌>>◌,
}
use safenet_arbitration_bot.Keccak.{Keccak, hash}
use safenet_arbitration_bot.Solabi.Encode.{event, encode_uint, encode_uint64, encode_address}
use safenet_arbitration_bot.Ethrpc.Types.{Address, Hash, Log, LogFilter, Block, Client, Dialer}
use safenet_arbitration_bot.Ethrpc.Search.{Extrapolation, search_block}
use safenet_arbitration_bot.Safenet.Types.{SafeTransaction, Proposal}
use safenet_arbitration_bot.Safenet.Reads.{read_proposal}
use safenet_arbitration_bot.Safenet.Votes.{decoded}

-- `solabi.Uint` of a number that may be nil or negative, of which it panics.
abbrev pub uint_word : Option ℤ → Result Bytes
uint_word none = err panic
uint_word (some (pos n)) = encode_uint n
uint_word (some (negsuc n)) = err panic

module _ ⦃k : Keccak⦄ where
  abbrev pub type_hash : String → Hash
  type_hash type = hash (codes type ∷ [])

  abbrev pub domain_type_hash : Hash
  domain_type_hash = type_hash "EIP712Domain(uint256 chainId,address verifyingContract)"

  abbrev pub safe_tx_type_hash : Hash
  safe_tx_type_hash =
      type_hash
        "SafeTx(address to,uint256 value,bytes data,uint8 operation,uint256 safeTxGas,uint256 baseGas,uint256 gasPrice,address gasToken,address refundReceiver,uint256 nonce)"

  abbrev pub transaction_proposal_type_hash : Hash
  transaction_proposal_type_hash =
      type_hash
        "TransactionProposal(uint64 epoch,address oracle,bytes oracleData,bytes32 safeTxHash)"

  -- `hashWords` and `typedDataHash`.
  abbrev pub hash_words : List Bytes → Hash
  hash_words words = hash words

  abbrev pub typed_data_hash : Hash → Hash → Hash
  typed_data_hash domain text = hash ((25 ∷ 1 ∷ []) ∷ domain ∷ text ∷ [])

  -- `SafeTransaction.Hash`.
  unfoldable pub transaction_hash : SafeTransaction → Result Hash
  transaction_hash tx = do
    chain_id ← uint_word tx.chain_id
    value ← uint_word tx.value
    safe_tx_gas ← uint_word tx.safe_tx_gas
    base_gas ← uint_word tx.base_gas
    gas_price ← uint_word tx.gas_price
    nonce ← uint_word tx.nonce
    ok (
        typed_data_hash (hash_words (domain_type_hash ∷ chain_id ∷ encode_address tx.safe ∷ [])) (
          hash_words (
            safe_tx_type_hash
            ∷ encode_address tx.to
            ∷ value
            ∷ hash (tx.input ∷ [])
            ∷ encode_uint64 tx.operation
            ∷ safe_tx_gas
            ∷ base_gas
            ∷ gas_price
            ∷ encode_address tx.gas_token
            ∷ encode_address tx.refund_receiver
            ∷ nonce
            ∷ [])))

  -- `requestID`.
  unfoldable pub request_id : ℕ → Address → ℕ → Address → Bytes → Hash → Hash
  request_id chain_id consensus epoch oracle oracle_data safe_tx_hash =
      typed_data_hash
        (hash_words (domain_type_hash ∷ encode_uint64 chain_id ∷ encode_address consensus ∷ []))
        (hash_words (
          transaction_proposal_type_hash
          ∷ encode_uint64 epoch
          ∷ encode_address oracle
          ∷ hash (oracle_data ∷ [])
          ∷ safe_tx_hash
          ∷ []))

unfoldable pub decode_proposal : Log → Hash → Result Proposal
decode_proposal log safe_tx_hash = do
  p ← decoded "decoding proposal" (read_proposal log safe_tx_hash none)
  fail_if (ltb 1 p.transaction.operation) "invalid operation"
  ok p

module _ ⦃k : Keccak⦄ (client : Client) (oracle consensus : Address) (id : Hash) where
  -- A log whose proposal hashes to the request's ID is the proposal, if its transaction hashes as
  -- the log says; `none` goes on to the next log.
  unfoldable pub accept : Log → Proposal → Result (Option Proposal)
  accept log p =
      let same =
        bytes_eq (request_id client.chain_id consensus p.epoch oracle p.oracle_data p.safe_tx_hash)
          id in
      elim same [
        | false ↦ ok none
        | true ↦ do
          h ← transaction_hash p.transaction
          fail_if (not (bytes_eq h p.safe_tx_hash)) "the Safe transaction has another hash"
          header ← wrapped "getting proposal block" (client.get_block_by_number log.block_number)
          ok (some (record p { consensus = consensus; time = header.timestamp }))
      ]

  -- The body of the loop of `proposal`, for a log that was removed or not, and has these topics.
  unfoldable pub try_log : Log → Bool → List Hash → Result (Option Proposal)
  try_log log false (_ ∷ safe_tx_hash ∷ _ ∷ _ ∷ []) = do
    p ← decode_proposal log safe_tx_hash
    accept log p
  try_log log _ _ = ok none

  unfoldable pub try_logs : List Log → Result Proposal
  try_logs [] = err (message "no proposal in the block hashes to the request ID")
  try_logs (log ∷ logs) = do
    found ← try_log log log.removed log.topics
    elim found [ none ↦ try_logs logs | some p ↦ ok p ]

  abbrev pub transaction_proposed_event : Hash
  transaction_proposed_event =
      event
        "TransactionProposed(bytes32,bytes32,address,uint64,bytes,(uint256,address,address,uint256,bytes,uint8,uint256,uint256,uint256,address,address,uint256))"

  abbrev pub proposal_filter : ℕ → LogFilter
  proposal_filter block = record {
    from_block = block;
    to_block = block;
    addresses = consensus ∷ [];
    topics =
        some (transaction_proposed_event ∷ [])
        ∷ none
        ∷ none
        ∷ some (encode_address oracle ∷ [])
        ∷ [];
  }

  -- `session.proposal`.
  unfoldable pub proposal : ℕ → Result Proposal
  proposal block = do
    logs ← wrapped "getting proposal" (client.get_logs (proposal_filter block))
    try_logs logs

abbrev pub mainnet : ℕ
mainnet = 1

abbrev pub gnosis : ℕ
gnosis = 100

module _ (extrapolate : Extrapolation) (dial : Dialer) (client : Client) where
  -- `blockBefore`.
  unfoldable pub block_before : ℕ → ℕ → Result ℕ
  block_before chain_id t = do
    other ← wrapped "connecting to chain" (dial chain_id)
    block ← wrapped "chain" (search_block extrapolate other t)
    ok block.number

  -- `parentBlock`. The block before the proposal's is a uint64.
  unfoldable pub parent_block : Proposal → Result ℕ
  parent_block p = do
    parent ←
        wrapped "getting the block before the proposal"
          (client.get_block_by_number ((p.block + (2 ^ 64 - 1)) % 2 ^ 64))
    (if not (ltb parent.timestamp p.time)
        then (do block ← search_block extrapolate client p.time; ok block.number)
        else ok parent.number)

  -- The block of the Safe's chain.
  unfoldable pub safe_block : Proposal → ℕ → ℕ → Result ℕ
  safe_block p safe_chain ethereum_block =
      if safe_chain == client.chain_id
      then parent_block p
      else if safe_chain == mainnet
      then ok ethereum_block
      else block_before safe_chain p.time

  -- `proposalBlocks`, of a transaction whose chain ID is a number.
  unfoldable pub proposal_blocks : Proposal → Option ℤ → Result Proposal
  proposal_blocks p none = err panic
  proposal_blocks p (some safe_chain) = do
    fail_if (not (is_uint64 safe_chain)) "the Safe transaction's chain ID is out of range"
    ethereum_block ← block_before mainnet p.time
    block ← safe_block p (low_uint64 safe_chain) ethereum_block
    ok (record p { ethereum_block = ethereum_block; safe_block = block })
