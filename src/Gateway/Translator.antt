-- ===== src/Gateway/Translator.antt =====
-- gateway/src/translator.rs: an Oasis Core chain that runs the runtime, shown as an Ethereum chain.
pub mod Submission
pub mod Blocks
pub mod Logs
mod Tests
use text.Mathlib.Text.{◌==◌ as str_eq}
use oasis_ethwasi_runtime.Prelude.{
  ℕ, suc, List, [], ◌∷◌, Option, none, some, map, Outcome, ok, err, panic, ◌>>=◌, ◌>>◌, ensure,
  ok_or, inl, inr, >>=-eq-ok, ◌≡◌, if◌then◌else◌,
}
use oasis_ethwasi_runtime.Prelude.Bytes.{Bytes}
use oasis_ethwasi_runtime.Runtime.Types.{
  LogEntry, ExecutionResult, UnverifiedTransaction, TxnCall, method_tx, tag_eth_tx_hash,
}
use oasis_ethwasi_runtime.Gateway.Client.{
  BlockHeader, BlockSnapshot, TransactionSnapshot, TxnOutput, success, error, BlockId, hash_id,
  number_id, latest, earliest, Error, block_not_found, not_ethereum, receipt_not_available,
  cbor_error, rlp_error, Client, Codec, from_result,
}

-- The client is an argument of the functions, and the pool of threads is left out.
pub record Translator : Type 0 where
  pub gas_price : ℕ

abbrev pub new_translator : ℕ → Translator
new_translator price = record { gas_price = price }

unfoldable pub get_block : Client → BlockId → Outcome Error (Option BlockSnapshot)
get_block c (hash_id hash) = c.get_block_by_hash hash
get_block c (number_id round) = c.get_block round
get_block c latest = c.get_latest_block >>= λ blk. ok (some blk)
get_block c earliest = c.get_block 0

unfoldable pub get_block_unwrap : Client → BlockId → Outcome Error BlockSnapshot
unfolding get_block
get_block_unwrap c id = get_block c id >>= λ blk. ok_or blk block_not_found

unfoldable pub get_txn_by_hash : Client → ℕ → Outcome Error (Option TransactionSnapshot)
get_txn_by_hash c hash = c.query_tx tag_eth_tx_hash hash

pub get_txn : Client → BlockId → ℕ → Outcome Error (Option TransactionSnapshot)
get_txn c (hash_id hash) index = c.get_tx_by_block_hash hash index
get_txn c (number_id round) index = c.get_tx round index
get_txn c latest index = c.get_tx c.round_latest index
get_txn c earliest index = c.get_tx 0 index

pub record LocalizedTransaction : Type 0 where
  pub signed : UnverifiedTransaction
  pub open signed use *
  pub block_number : ℕ
  pub block_hash : ℕ
  pub transaction_index : ℕ

pub record LocalizedLogEntry : Type 0 where
  pub entry : LogEntry
  pub block_hash : ℕ
  pub block_number : ℕ
  pub transaction_hash : ℕ
  pub transaction_index : ℕ
  pub log_index : ℕ
  pub transaction_log_index : ℕ

pub record LocalizedReceipt : Type 0 where
  pub transaction_hash : ℕ
  pub transaction_index : ℕ
  pub block_hash : ℕ
  pub block_number : ℕ
  pub cumulative_gas_used : ℕ
  pub gas_used : ℕ
  pub contract_address : Option ℕ
  pub logs : List LocalizedLogEntry
  pub log_bloom : ℕ
  pub outcome : ℕ

abbrev pub localized_transaction :
    TransactionSnapshot → UnverifiedTransaction → LocalizedTransaction
localized_transaction t signed = record {
  signed = signed;
  block_number = t.block_snapshot.header.round;
  block_hash = t.block_snapshot.block_hash;
  transaction_index = t.index;
}

-- `EthereumTransaction::transaction`.
unfoldable pub transaction : Codec → TransactionSnapshot → Outcome Error LocalizedTransaction
transaction k t =
    ensure (str_eq t.input.method method_tx) not_ethereum
    >> (ok_or (k.parse_args t.input.args) cbor_error >>= λ raw.
        from_result rlp_error (k.rlp_decode raw) >>= λ signed. ok (localized_transaction t signed))

-- The address that a creation makes. ethcore's `sender` may panic.
unfoldable pub created : Codec → LocalizedTransaction → Option ℕ → Outcome Error (Option ℕ)
created k tx (some to) = ok none
created k tx none = elim (k.sender tx.signed) [
  | none ↦ panic
  | some sender ↦ ok (some (k.contract_address tx.block_number sender tx.nonce tx.input))
]

abbrev pub localized_log : LocalizedTransaction → ℕ → LogEntry → LocalizedLogEntry
localized_log tx i e = record {
  entry = e;
  block_hash = tx.block_hash;
  block_number = tx.block_number;
  transaction_hash = tx.hash;
  transaction_index = tx.transaction_index;
  log_index = i;
  transaction_log_index = i;
}

-- The log entries of a transaction from the `i`-th on.
unfoldable pub localize : LocalizedTransaction → ℕ → List LogEntry → List LocalizedLogEntry
localize tx i [] = []
localize tx i (e ∷ es) = localized_log tx i e ∷ localize tx (suc i) es

abbrev pub localized_receipt : ExecutionResult → LocalizedTransaction → Option ℕ → LocalizedReceipt
localized_receipt result tx contract = record {
  transaction_hash = tx.hash;
  transaction_index = tx.transaction_index;
  block_hash = tx.block_hash;
  block_number = tx.block_number;
  cumulative_gas_used = result.cumulative_gas_used;
  gas_used = result.gas_used;
  contract_address = contract;
  logs = localize tx 0 result.logs;
  log_bloom = result.log_bloom;
  outcome = result.status_code;
}

-- `EthereumTransaction::receipt`.
unfoldable pub receipt_of : Codec → TransactionSnapshot → TxnOutput → Outcome Error LocalizedReceipt
unfolding transaction created localize
receipt_of k t (success value) = ok_or (k.parse_result value) cbor_error >>= λ result.
    transaction k t >>= λ tx.
    created k tx tx.action >>= λ contract. ok (localized_receipt result tx contract)
receipt_of k t (error message) = err receipt_not_available

unfoldable pub receipt : Codec → TransactionSnapshot → Outcome Error LocalizedReceipt
unfolding receipt_of
receipt k t = receipt_of k t t.output

-- `EthereumBlock::raw_transactions`: the block's calls of the Ethereum method.
unfoldable pub raw_call : Codec → Bytes → Option TxnCall
raw_call k bytes = elim (k.parse_call bytes) [
  | none ↦ none
  | some call ↦ if str_eq call.method method_tx then some call else none
]

abbrev pub keep : {A : Type 0} → Option A → List A → List A
keep none rest = rest
keep (some a) rest = a ∷ rest

abbrev pub filter_map : {A B : Type 0} → (A → Option B) → List A → List B
filter_map f [] = []
filter_map f (x ∷ xs) = keep (f x) (filter_map f xs)

unfoldable pub raw_transactions : Client → Codec → BlockSnapshot → Outcome Error (List TxnCall)
unfolding raw_call
raw_transactions c k blk =
    c.get_txs blk.header.round blk.header.io_root >>= λ txns. ok (filter_map (raw_call k) txns)

unfoldable pub decode_call : Codec → TxnCall → Option UnverifiedTransaction
decode_call k call = elim (k.parse_args call.args) [
  | none ↦ none
  | some raw ↦ elim (k.rlp_decode raw) [ inl e ↦ none | inr tx ↦ some tx ]
]

unfoldable pub transactions :
    Client → Codec → BlockSnapshot → Outcome Error (List UnverifiedTransaction)
unfolding raw_transactions decode_call
transactions c k blk = raw_transactions c k blk >>= λ calls. ok (filter_map (decode_call k) calls)

-- Where a block's transactions are returned, they are those of its calls that decode.
pub transactions-calls :
    (c : Client) (k : Codec) (blk : BlockSnapshot) (ts : List UnverifiedTransaction)
    → transactions c k blk ≡ ok ts
    → (calls : List TxnCall) × (raw_transactions c k blk ≡ ok calls)
      × (ts ≡ filter_map (decode_call k) calls)
unfolding transactions
transactions-calls c k blk ts h =
    let (calls, e, h1) =
      >>=-eq-ok (raw_transactions c k blk) (λ calls. ok (filter_map (decode_call k) calls)) h in
    (calls, e, cc)
