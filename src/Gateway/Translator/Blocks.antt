-- ===== src/Gateway/Translator/Blocks.antt =====
-- Headers and blocks as the RPC shows them (`EthereumBlock` of gateway/src/translator.rs). A hash or a
-- number that keeps its default is zero.
pub mod Modes
use oasis_ethwasi_runtime.Prelude.{
  ℕ, suc, List, [], ◌∷◌, Option, none, some, String, Bool, true, false, map, Outcome, ok, ◌>>=◌,
}
use oasis_ethwasi_runtime.Prelude.Bytes.{Bytes}
use oasis_ethwasi_runtime.Runtime.Types.{UnverifiedTransaction}
use oasis_ethwasi_runtime.Gateway.Client.{BlockSnapshot, Error, Client, Codec}
use oasis_ethwasi_runtime.Gateway.Translator.{LocalizedTransaction, transactions}

pub record RichHeader : Type 0 where
  pub hash : Option ℕ
  pub size : Option ℕ
  pub parent_hash : ℕ
  pub uncles_hash : ℕ
  pub author : ℕ
  pub miner : ℕ
  pub state_root : ℕ
  pub transactions_root : ℕ
  pub receipts_root : ℕ
  pub number : Option ℕ
  pub gas_used : ℕ
  pub gas_limit : ℕ
  pub logs_bloom : ℕ
  pub timestamp : ℕ
  pub difficulty : ℕ
  pub seal_fields : List Bytes
  pub extra_data : Bytes
  pub extra_info : List (String × String)

pub data BlockTransactions : Type 0 where
  full : List LocalizedTransaction → BlockTransactions
  tx_hashes : List ℕ → BlockTransactions

pub record RichBlock : Type 0 where
  pub hash : Option ℕ
  pub size : Option ℕ
  pub parent_hash : ℕ
  pub uncles_hash : ℕ
  pub author : ℕ
  pub miner : ℕ
  pub state_root : ℕ
  pub transactions_root : ℕ
  pub receipts_root : ℕ
  pub number : Option ℕ
  pub gas_used : ℕ
  pub gas_limit : ℕ
  pub logs_bloom : Option ℕ
  pub timestamp : ℕ
  pub difficulty : ℕ
  pub total_difficulty : Option ℕ
  pub seal_fields : List Bytes
  pub uncles : List ℕ
  pub transactions : BlockTransactions
  pub extra_data : Bytes
  pub extra_info : List (String × String)

-- The transactions from the `i`-th on, localized by their place among the block's Ethereum
-- transactions.
unfoldable pub enumerate_txns :
    BlockSnapshot → ℕ → List UnverifiedTransaction → List LocalizedTransaction
enumerate_txns blk i [] = []
enumerate_txns blk i (t ∷ ts) =
    record {
      signed = t;
      block_number = blk.header.round;
      block_hash = blk.block_hash;
      transaction_index = i;
    }
    ∷ enumerate_txns blk (suc i) ts

unfoldable pub block_transactions :
    BlockSnapshot → Bool → List UnverifiedTransaction → BlockTransactions
unfolding enumerate_txns
block_transactions blk true txns = full (enumerate_txns blk 0 txns)
block_transactions blk false txns = tx_hashes (map (λ t. t.hash) txns)

-- The hash of an empty list of uncles and the texts of the proof-of-work fields are constants of other
-- libraries.
module _ (keccak_empty_list_rlp : ℕ) (extra_info : List (String × String)) where
  unfoldable pub rich_header : BlockSnapshot → RichHeader
  rich_header blk = record {
    hash = some blk.block_hash;
    size = none;
    parent_hash = blk.header.previous_hash;
    uncles_hash = keccak_empty_list_rlp;
    author = 0;
    miner = 0;
    state_root = blk.header.state_root;
    transactions_root = 0;
    receipts_root = 0;
    number = some blk.header.round;
    gas_used = 0;
    gas_limit = 0;
    logs_bloom = 0;
    timestamp = blk.header.timestamp;
    difficulty = 0;
    seal_fields = [];
    extra_data = [];
    extra_info = extra_info;
  }

  unfoldable pub block_of : RichHeader → BlockTransactions → RichBlock
  block_of h txns = record {
    hash = h.hash;
    size = h.size;
    parent_hash = h.parent_hash;
    uncles_hash = h.uncles_hash;
    author = h.author;
    miner = h.miner;
    state_root = h.state_root;
    transactions_root = h.transactions_root;
    receipts_root = h.receipts_root;
    number = h.number;
    gas_used = h.gas_used;
    gas_limit = h.gas_limit;
    logs_bloom = some h.logs_bloom;
    timestamp = h.timestamp;
    difficulty = h.difficulty;
    total_difficulty = none;
    seal_fields = h.seal_fields;
    uncles = [];
    transactions = txns;
    extra_data = h.extra_data;
    extra_info = h.extra_info;
  }

  unfoldable pub rich_block : Client → Codec → BlockSnapshot → Bool → Outcome Error RichBlock
  unfolding rich_header block_of block_transactions
  rich_block c k blk include_txns = transactions c k blk >>= λ txns.
      ok (block_of (rich_header blk) (block_transactions blk include_txns txns))
