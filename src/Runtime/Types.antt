-- ===== src/Runtime/Types.antt =====
-- The data of the runtime (api/src/api.rs, common/src/lib.rs, src/block.rs), and what it takes from
-- ethcore and oasis_core_runtime. Hashes, addresses and U256 values are numbers.
use oasis_ethwasi_runtime.Prelude.{
  ℕ, ◌+◌, ◌≤◌, ◌≡◌, ◌≢◌, List, [], ◌∷◌, Option, String, true, Outcome, ok, panic, is_some,
}
use oasis_ethwasi_runtime.Prelude.Bytes.{Bytes}

abbrev pub block_gas_limit : ℕ
block_gas_limit = 16_000_000

abbrev pub min_gas_price_gwei : ℕ
min_gas_price_gwei = 1

abbrev pub tag_eth_tx_hash : String
tag_eth_tx_hash = "heth"

abbrev pub tag_eth_log_address : String
tag_eth_log_address = "ladd"

abbrev pub tag_eth_log_topics : List String
tag_eth_log_topics = "ltp1" ∷ "ltp2" ∷ "ltp3" ∷ "ltp4" ∷ []

abbrev pub method_tx : String
method_tx = "tx"

pub record LogEntry : Type 0 where
  pub address : ℕ
  pub topics : List ℕ
  pub payload : Bytes

pub record ExecutionResult : Type 0 where
  pub cumulative_gas_used : ℕ
  pub gas_used : ℕ
  pub log_bloom : ℕ
  pub logs : List LogEntry
  pub status_code : ℕ
  pub output : Bytes

pub data TransactionError : Type 0 where
  block_gas_limit_reached duplicate_transaction insufficient_gas_price too_much_gas :
      TransactionError
  execution_failure : String → TransactionError

-- ethcore's transactions: `action` is the receiver of a call, or none for a creation.
pub record UnverifiedTransaction : Type 0 where
  pub hash : ℕ
  pub gas : ℕ
  pub gas_price : ℕ
  pub nonce : ℕ
  pub action : Option ℕ
  pub input : Bytes

pub record SignedTransaction : Type 0 where
  pub unsigned : UnverifiedTransaction
  pub open unsigned use *
  pub sender : ℕ

-- `author` and `difficulty` keep their default, zero.
pub record EnvInfo : Type 0 where
  pub number : ℕ
  pub timestamp : ℕ
  pub gas_limit : ℕ
  pub last_hashes : List ℕ
  pub gas_used : ℕ

-- A receipt; `outcome` is the status code of EIP-658, or none for the older kinds.
pub record Receipt : Type 0 where
  pub gas_used : ℕ
  pub log_bloom : ℕ
  pub logs : List LogEntry
  pub outcome : Option ℕ

pub record ApplyOutcome : Type 0 where
  pub receipt : Receipt
  pub output : Bytes

-- A CBOR value is given by its encoding.
pub record TxnCall : Type 0 where
  pub method : String
  pub args : Bytes

pub record Header : Type 0 where
  pub round : ℕ
  pub timestamp : ℕ
  pub previous_hash : ℕ

pub record Tag : Type 0 where
  pub key : String
  pub value : ℕ

-- `State` is ethcore's; `apply` returns the state that it leaves, also where it fails. `from_existing` and
-- `commit` are none where they fail. `apply` runs the contracts' code, with the context that encrypts
-- for confidential ones, and may panic.
pub record Ethcore (State : Type 0) : Type 0 where
  pub parse_call : Bytes → Option TxnCall
  pub parse_args : Bytes → Option Bytes
  pub rlp_decode : Bytes → Outcome String UnverifiedTransaction
  pub recover : UnverifiedTransaction → Outcome String ℕ
  pub from_existing : ℕ → Option State
  pub apply : State → EnvInfo → SignedTransaction → State × Outcome String ApplyOutcome
  pub commit : State → Option State

-- A receipt counts the gas used so far in the block. A transaction uses no more than it asked for,
-- and the receipts carry a status code. The RLP decoder and the recovery of the sender report what is wrong
-- as an error.
pub record EthcoreLaws {State : Type 0} (e : Ethcore State) : Type 0 where
  pub grows :
      (s : State) (env : EnvInfo) (t : SignedTransaction) (r : ApplyOutcome)
      → (e.apply s env t).1 ≡ ok r
      → env.gas_used ≤ r.receipt.gas_used
  pub bounded :
      (s : State) (env : EnvInfo) (t : SignedTransaction) (r : ApplyOutcome)
      → (e.apply s env t).1 ≡ ok r
      → r.receipt.gas_used ≤ env.gas_used + t.gas
  pub coded :
      (s : State) (env : EnvInfo) (t : SignedTransaction) (r : ApplyOutcome)
      → (e.apply s env t).1 ≡ ok r
      → is_some r.receipt.outcome ≡ true
  pub rlp_total : (bytes : Bytes) → e.rlp_decode bytes ≢ panic
  pub recover_total : (t : UnverifiedTransaction) → e.recover t ≢ panic

-- What a method can fail with. The errors of the RLP decoder and of the signature check carry their
-- texts.
pub data Error : Type 0 where
  unable_to_parse_call unable_to_parse_arguments : Error
  invalid_rlp invalid_signature method_not_found : String → Error
  transaction : TransactionError → Error
  check_only_success batch_aborted : Error
