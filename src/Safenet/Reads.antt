-- ===== src/Safenet/Reads.antt =====
-- safenet.go: the reads of `decodeProposal` and `getRequest`, in their order.
use safenet_arbitration_bot.Base.{ℕ, pos, ◌%◌, ◌^◌, some, [], Bytes}
use safenet_arbitration_bot.Solabi.Decode.{Read, ◌>>=◌, pure, uint, uint64, address, bytes, tuple}
use safenet_arbitration_bot.Ethrpc.Types.{Hash, Log}
use safenet_arbitration_bot.Safenet.Types.{Proposal, Terms}
use safenet_arbitration_bot.Safenet.Votes.{Progress}

-- The reads of `decodeProposal`, of a log whose second topic is the hash. The operation is a uint8.
unfoldable pub read_proposal : Log → Hash → Read Proposal
read_proposal log safe_tx_hash = do
  tx ← tuple log.payload 2
  epoch ← uint64 log.payload 0
  oracle_data ← bytes log.payload 1
  chain_id ← uint tx 0
  safe ← address tx 1
  to ← address tx 2
  value ← uint tx 3
  input ← bytes tx 4
  operation ← uint64 tx 5
  safe_tx_gas ← uint tx 6
  base_gas ← uint tx 7
  gas_price ← uint tx 8
  gas_token ← address tx 9
  refund_receiver ← address tx 10
  nonce ← uint tx 11
  pure (record {
    consensus = [];
    block = log.block_number;
    time = 0;
    ethereum_block = 0;
    safe_block = 0;
    tx_hash = log.transaction_hash;
    epoch = epoch;
    oracle_data = oracle_data;
    safe_tx_hash = safe_tx_hash;
    transaction = record {
      chain_id = some (pos chain_id);
      safe = safe;
      to = to;
      value = some (pos value);
      input = input;
      operation = operation % 256;
      safe_tx_gas = some (pos safe_tx_gas);
      base_gas = some (pos base_gas);
      gas_price = some (pos gas_price);
      gas_token = gas_token;
      refund_receiver = refund_receiver;
      nonce = some (pos nonce);
    };
  })

-- What the oracle's record of a request has.
pub record Recorded : Type 0 where
  pub state : ℕ
  pub terms : Terms
  pub fee : ℕ
  pub progress : Progress

-- The reads of `getRequest`. A state is a uint8, and the DAO's share a uint32.
unfoldable pub read_request : Bytes → Read Recorded
read_request d = do
  commit_deadline ← uint64 d 0
  dao_fee_share ← uint64 d 1
  reveal_deadline ← uint64 d 2
  bond ← uint d 3
  sponsor ← address d 5
  slash_amount ← uint d 6
  state ← uint64 d 7
  fee ← uint d 8
  arbitration_deadline ← uint64 d 9
  committed ← uint64 d 10
  revealed ← uint64 d 11
  approvals ← uint64 d 12
  denials ← uint64 d 13
  pure (record {
    state = state % 256;
    terms = record {
      sponsor = sponsor;
      bond = bond;
      slash_amount = slash_amount;
      dao_fee_share = dao_fee_share % 2 ^ 32;
      commit_deadline = commit_deadline;
      reveal_deadline = reveal_deadline;
    };
    fee = fee;
    progress = record {
      arbitration_deadline = arbitration_deadline;
      committed = committed;
      revealed = revealed;
      approvals = approvals;
      denials = denials;
    };
  })
