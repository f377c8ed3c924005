-- ===== src/Tests/Proposals.antt =====
-- internal/safenet, on the log of one proposal.
use mathlib.Core.List.{flatten}
use safenet_arbitration_bot.Base.{
  pos, ◌≡◌, refl, some, [], ◌∷◌, ◌++◌, Bytes, codes, replicate, take, ok, from_be, is_zero, to_be,
  bytes_eq,
}
use safenet_arbitration_bot.Keccak.{hash}
use safenet_arbitration_bot.Keccak.Stub.{stub}
use safenet_arbitration_bot.Solabi.Decode.{word, uint, word_uint64, uint64, address, bytes, tuple}
use safenet_arbitration_bot.Solabi.Encode.{event, encode_uint, encode_uint64, encode_address}
use safenet_arbitration_bot.Ethrpc.Types.{Hash, Client}
use safenet_arbitration_bot.Safenet.Types.{Proposal}
use safenet_arbitration_bot.Safenet.Reads.{read_proposal}
use safenet_arbitration_bot.Safenet.Proposals.{
  transaction_hash, request_id, decode_proposal, accept, try_log, try_logs,
  transaction_proposed_event, proposal,
}
use safenet_arbitration_bot.Safenet.Proposals.Authentic.{IsAuthentic, proposal-IsAuthentic}
use safenet_arbitration_bot.Tests.Oracle.{oracle, account, number, log_of, node_of}

-- What the stand-in for the hash function makes of any typed data.
abbrev typed_hash : Hash
typed_hash = take 32 (25 ∷ 1 ∷ codes "EIP712Domain(uint256 chainId,address")

abbrev proposal_data : Bytes
proposal_data =
    number 1
    ++ number 96
    ++ number 128
    ++ number 0
    ++ (number 100 ++ account 2 ++ account 3 ++ number 5 ++ number 192 ++ number 1)
    ++ (number 0 ++ number 0 ++ number 0 ++ account 0 ++ account 0 ++ number 4)

abbrev proposing_node : Client
proposing_node =
    record (node_of (
      log_of
        (transaction_proposed_event ⦃k = stub⦄ (node_of []) oracle (replicate 20 4) typed_hash
          ∷ typed_hash
          ∷ account 9
          ∷ account 9
          ∷ [])
        proposal_data 7
      ∷ [])) { get_block_by_number = λ n. ok (record { number = n; timestamp = 1000 }) }

abbrev a_proposal : Proposal
a_proposal = record {
  consensus = replicate 20 4;
  block = 7;
  time = 1000;
  ethereum_block = 0;
  safe_block = 0;
  tx_hash = replicate 32 7;
  epoch = 1;
  oracle_data = [];
  safe_tx_hash = typed_hash;
  transaction = record {
    chain_id = some (pos 100);
    safe = replicate 19 0 ++ 2 ∷ [];
    to = replicate 19 0 ++ 3 ∷ [];
    value = some (pos 5);
    input = [];
    operation = 1;
    safe_tx_gas = some (pos 0);
    base_gas = some (pos 0);
    gas_price = some (pos 0);
    gas_token = replicate 20 0;
    refund_receiver = replicate 20 0;
    nonce = some (pos 4);
  };
}

proposal_run :
    proposal ⦃k = stub⦄ proposing_node oracle (replicate 20 4) typed_hash 7 ≡ ok a_proposal
unfolding proposal try_logs try_log accept decode_proposal read_proposal transaction_hash request_id
    word word_uint64 uint64 uint address tuple bytes from_be is_zero event hash flatten bytes_eq
    encode_uint encode_uint64 encode_address to_be
proposal_run = refl

proposal-IsAuthentic_example :
    IsAuthentic ⦃k = stub⦄ proposing_node oracle (replicate 20 4) typed_hash a_proposal
proposal-IsAuthentic_example =
    proposal-IsAuthentic ⦃k = stub⦄ proposing_node oracle (replicate 20 4) typed_hash 7 proposal_run
