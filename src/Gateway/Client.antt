-- ===== src/Gateway/Client.antt =====
-- What the gateway takes from oasis_core_client, ethcore and the codecs: the types of a chain's blocks
-- and transactions, and the functions that it calls, which are parameters.
use oasis_ethwasi_runtime.Prelude.{ℕ, List, Option, String, Bool, Outcome, ok, err, ◌⊎◌, inl, inr}
use oasis_ethwasi_runtime.Prelude.Bytes.{Bytes}
use oasis_ethwasi_runtime.Runtime.Types.{
  LogEntry, ExecutionResult, TransactionError, UnverifiedTransaction, TxnCall,
}

pub record BlockHeader : Type 0 where
  pub round : ℕ
  pub timestamp : ℕ
  pub previous_hash : ℕ
  pub state_root : ℕ
  pub io_root : ℕ

pub record BlockSnapshot : Type 0 where
  pub header : BlockHeader
  pub block_hash : ℕ

-- `success` has the encoding of the value.
pub data TxnOutput : Type 0 where
  success : Bytes → TxnOutput
  error : String → TxnOutput

pub record TransactionSnapshot : Type 0 where
  pub block_snapshot : BlockSnapshot
  pub index : ℕ
  pub input : TxnCall
  pub output : TxnOutput

pub record QueryCondition : Type 0 where
  pub key : String
  pub values : List ℕ

pub record Query : Type 0 where
  pub round_min : ℕ
  pub round_max : ℕ
  pub conditions : List QueryCondition
  pub limit : ℕ

pub data BlockId : Type 0 where
  hash_id number_id : ℕ → BlockId
  latest earliest : BlockId

pub record Filter : Type 0 where
  pub from_block : BlockId
  pub to_block : BlockId
  pub address : Option (List ℕ)
  pub topics : List (Option (List ℕ))
  pub limit : Option ℕ

-- What the gateway's futures fail with; texts of other libraries' errors are kept.
pub data Error : Type 0 where
  client_error : String → Error
  block_not_found not_ethereum receipt_not_available cbor_error filter_not_found : Error
  rlp_error signature_error : String → Error
  transaction_error : TransactionError → Error

-- A library's result, its error wrapped.
abbrev pub from_result : {A : Type 0} → (String → Error) → String ⊎ A → Outcome Error A
from_result wrap (inl e) = err (wrap e)
from_result wrap (inr a) = ok a

-- `TxnClient`, on the chain as it stands when the calls are made.
pub record Client : Type 0 where
  pub get_latest_block : Outcome Error BlockSnapshot
  pub get_block : ℕ → Outcome Error (Option BlockSnapshot)
  pub get_block_by_hash : ℕ → Outcome Error (Option BlockSnapshot)
  pub query_tx : String → ℕ → Outcome Error (Option TransactionSnapshot)
  pub get_tx : ℕ → ℕ → Outcome Error (Option TransactionSnapshot)
  pub get_tx_by_block_hash : ℕ → ℕ → Outcome Error (Option TransactionSnapshot)
  pub query_txs : Query → Outcome Error (List TransactionSnapshot)
  pub wait_block_indexed : ℕ → Outcome Error (Unit {0})
  pub get_txs : ℕ → ℕ → Outcome Error (List Bytes)
  pub round_latest : ℕ

pub record Codec : Type 0 where
  pub parse_call : Bytes → Option TxnCall
  pub parse_args : Bytes → Option Bytes
  pub parse_result : Bytes → Option ExecutionResult
  pub rlp_decode : Bytes → String ⊎ UnverifiedTransaction
  pub recover : UnverifiedTransaction → String ⊎ ℕ
  -- `LocalizedTransaction::sender`, none where it panics.
  pub sender : UnverifiedTransaction → Option ℕ
  pub contract_address : ℕ → ℕ → ℕ → Bytes → ℕ
  pub matches : Filter → LogEntry → Bool
