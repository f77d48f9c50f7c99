-- ===== src/Gateway/Eth.antt =====
-- gateway/src/impls/eth.rs and gateway/src/util.rs: the `eth` RPC calls that read the chain or send to
-- it. The metrics, the log and the conversions to RPC types are left out, and here so is the wrapping of
-- an error as a JSON-RPC error.
pub mod Consistency
pub mod Calls
pub mod State
use oasis_ethwasi_runtime.Prelude.{
  ℕ, List, Option, none, some, String, Bool, map, length, Outcome, ok, err, panic, ◌>>=◌, ok_or,
}
use oasis_ethwasi_runtime.Prelude.Bytes.{Bytes}
use oasis_ethwasi_runtime.Runtime.Types.{ExecutionResult}
use oasis_ethwasi_runtime.Gateway.Client.{
  BlockSnapshot, TransactionSnapshot, Filter, BlockId, hash_id, number_id, latest as latest_id,
  earliest as earliest_id, Error, block_not_found, Client, Codec,
}
use oasis_ethwasi_runtime.Gateway.Translator.{
  get_block, get_block_unwrap, get_txn_by_hash, get_txn, LocalizedTransaction, LocalizedReceipt,
  LocalizedLogEntry, transaction, receipt, raw_transactions,
}
use oasis_ethwasi_runtime.Gateway.Translator.Blocks.{RichBlock, rich_block}
use oasis_ethwasi_runtime.Gateway.Translator.Logs.{logs}
use oasis_ethwasi_runtime.Gateway.Translator.Submission.{send_raw_transaction}

pub data BlockNumber : Type 0 where
  num : ℕ → BlockNumber
  latest earliest pending : BlockNumber

-- For "pending", just use latest block.
unfoldable pub block_number_to_id : BlockNumber → BlockId
block_number_to_id (num n) = number_id n
block_number_to_id earliest = earliest_id
block_number_to_id latest = latest_id
block_number_to_id pending = latest_id

pub block_number : Client → Outcome Error ℕ
block_number c = c.get_latest_block >>= λ blk. ok blk.header.round

-- `balance`, `storage_at`, `transaction_count` and `code_at`: a question to the state of a block.
unfoldable pub at_block :
    {State A : Type 0}
    → (BlockSnapshot → Outcome Error State)
    → (State → Outcome Error A)
    → Client
    → BlockNumber
    → Outcome Error A
unfolding block_number_to_id
at_block state ask c n = get_block_unwrap c (block_number_to_id n) >>= λ blk. state blk >>= ask

-- An answer about a block that may be missing, or about a transaction that may be.
abbrev pub of_found : {A B : Type 0} → (A → Outcome Error B) → Option A → Outcome Error (Option B)
of_found f none = ok none
of_found f (some a) = f a >>= λ b. ok (some b)

pub count_transactions : Client → Codec → BlockSnapshot → Outcome Error ℕ
count_transactions c k blk = raw_transactions c k blk >>= λ txns. ok (length txns)

pub block_transaction_count_by_hash : Client → Codec → ℕ → Outcome Error (Option ℕ)
unfolding count_transactions
block_transaction_count_by_hash c k hash =
    c.get_block_by_hash hash >>= of_found (count_transactions c k)

pub numbered_count : Client → Codec → BlockId → Outcome Error (Option ℕ)
unfolding count_transactions
numbered_count c k id = get_block c id >>= of_found (count_transactions c k)

-- There are no pending transactions.
pub block_transaction_count_by_number : Client → Codec → BlockNumber → Outcome Error (Option ℕ)
unfolding numbered_count block_number_to_id
block_transaction_count_by_number c k pending = ok (some 0)
block_transaction_count_by_number c k (num n) = numbered_count c k (block_number_to_id (num n))
block_transaction_count_by_number c k latest = numbered_count c k (block_number_to_id latest)
block_transaction_count_by_number c k earliest = numbered_count c k (block_number_to_id earliest)

module _ (keccak : ℕ) (info : List (String × String)) where
  pub block_by_hash : Client → Codec → ℕ → Bool → Outcome Error (Option RichBlock)
  block_by_hash c k hash include_txs =
      c.get_block_by_hash hash >>= of_found (λ blk. rich_block keccak info c k blk include_txs)

  pub block_by_number : Client → Codec → BlockNumber → Bool → Outcome Error (Option RichBlock)
  unfolding block_number_to_id
  block_by_number c k n include_txs =
      get_block c (block_number_to_id n)
      >>= of_found (λ blk. rich_block keccak info c k blk include_txs)

pub transaction_by_hash : Client → Codec → ℕ → Outcome Error (Option LocalizedTransaction)
transaction_by_hash c k hash = get_txn_by_hash c hash >>= of_found (transaction k)

pub transaction_by_block_hash_and_index :
    Client → Codec → ℕ → ℕ → Outcome Error (Option LocalizedTransaction)
transaction_by_block_hash_and_index c k hash index =
    c.get_tx_by_block_hash hash index >>= of_found (transaction k)

pub numbered_transaction :
    Client → Codec → BlockId → ℕ → Outcome Error (Option LocalizedTransaction)
numbered_transaction c k id index = get_txn c id index >>= of_found (transaction k)

pub transaction_by_block_number_and_index :
    Client → Codec → BlockNumber → ℕ → Outcome Error (Option LocalizedTransaction)
unfolding numbered_transaction block_number_to_id
transaction_by_block_number_and_index c k pending index = ok none
transaction_by_block_number_and_index c k (num n) index =
    numbered_transaction c k (block_number_to_id (num n)) index
transaction_by_block_number_and_index c k latest index =
    numbered_transaction c k (block_number_to_id latest) index
transaction_by_block_number_and_index c k earliest index =
    numbered_transaction c k (block_number_to_id earliest) index

pub transaction_receipt : Client → Codec → ℕ → Outcome Error (Option LocalizedReceipt)
transaction_receipt c k hash = get_txn_by_hash c hash >>= of_found (receipt k)

pub eth_logs : Client → Codec → Filter → Outcome Error (List LocalizedLogEntry)
eth_logs c k f = logs c k f

-- The hash is kept and the result dropped.
unfoldable pub eth_send_raw_transaction :
    {Chain : Type 0}
    → (Bytes → Chain → Chain × Outcome Error ExecutionResult)
    → Codec
    → Bytes
    → Chain
    → Chain × Outcome Error ℕ
eth_send_raw_transaction tx k raw chain =
    let (chain', r) = send_raw_transaction tx k raw chain in (chain', r >>= λ sent. ok (sent.0))
