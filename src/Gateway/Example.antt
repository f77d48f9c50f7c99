-- ===== src/Gateway/Example.antt =====
-- A small chain to evaluate the gateway with: block `n` has the hash `100 + n`. The chain's height is
-- its only parameter. It has one transaction, in block 1.
use oasis_ethwasi_runtime.Prelude.{ℕ, ◌+◌, [], ◌∷◌, none, some, leb, if◌then◌else◌, true, ok, inr}
use oasis_ethwasi_runtime.Runtime.Types.{
  UnverifiedTransaction, LogEntry, ExecutionResult, method_tx,
}
use oasis_ethwasi_runtime.Gateway.Client.{
  BlockSnapshot, TransactionSnapshot, success, Filter, latest, number_id, Client, Codec,
}

abbrev pub block : ℕ → BlockSnapshot
block n = record {
  header = record { round = n; timestamp = 50; previous_hash = 0; state_root = 4; io_root = 5 };
  block_hash = 100 + n;
}

abbrev pub txn : TransactionSnapshot
txn = record {
  block_snapshot = block 1;
  index = 0;
  input = record { method = method_tx; args = 3 ∷ [] };
  output = success (9 ∷ []);
}

abbrev pub chain : ℕ → Client
chain height = record {
  get_latest_block = ok (block height);
  get_block = λ round. ok (if leb round height then some (block round) else none);
  get_block_by_hash = λ hash. ok none;
  query_tx = λ key hash. ok (some txn);
  get_tx = λ round index. ok (some txn);
  get_tx_by_block_hash = λ hash index. ok none;
  query_txs = λ q. ok (txn ∷ []);
  wait_block_indexed = λ round. ok tt;
  get_txs = λ round root. ok ((3 ∷ []) ∷ []);
  round_latest = 0;
}

abbrev pub tx : UnverifiedTransaction
tx = record { hash = 11; gas = 3; gas_price = 1; nonce = 0; action = some 5; input = [] }

abbrev pub log : LogEntry
log = record { address = 5; topics = []; payload = [] }

abbrev pub result : ExecutionResult
result = record {
  cumulative_gas_used = 3;
  gas_used = 3;
  log_bloom = 0;
  logs = log ∷ log ∷ [];
  status_code = 1;
  output = [];
}

abbrev pub codec : Codec
codec = record {
  parse_call = λ bytes. some (record { method = method_tx; args = bytes });
  parse_args = λ bytes. some bytes;
  parse_result = λ bytes. some result;
  rlp_decode = λ bytes. inr tx;
  recover = λ t. inr 7;
  sender = λ t. some 7;
  contract_address = λ number sender nonce bytes. 0;
  matches = λ f e. true;
}

abbrev pub everything : Filter
everything = record {
  from_block = number_id 0;
  to_block = latest;
  address = none;
  topics = [];
  limit = none;
}
