-- ===== src/Runtime/Methods.antt =====
-- src/methods.rs: the checks on a transaction, and its execution in the current block.
pub mod Check
pub mod Execution
mod Tests
use oasis_ethwasi_runtime.Prelude.{
  ℕ, ◌+◌, ◌-◌, ◌<◌, List, [], ◌∷◌, ◌++◌, Option, none, some, String, Bool, true, false, Outcome, ok,
  err, panic, ◌>>=◌, ◌>>◌, ensure, map_err, leb, ltb, contains, if◌then◌else◌,
}
use oasis_ethwasi_runtime.Prelude.Bytes.{Bytes}
use oasis_ethwasi_runtime.Runtime.Types.{
  SignedTransaction, ApplyOutcome, LogEntry, ExecutionResult, Tag, Ethcore, Error, TransactionError,
  invalid_rlp, invalid_signature, transaction, check_only_success, too_much_gas,
  insufficient_gas_price, duplicate_transaction, block_gas_limit_reached, execution_failure,
  block_gas_limit, min_gas_price_gwei, tag_eth_tx_hash, tag_eth_log_address, tag_eth_log_topics,
}
use oasis_ethwasi_runtime.Runtime.Block.{BlockContext, TxnContext}

-- The topics of a log, each under the tag of its position; there are four tags.
unfoldable pub topic_tags : List ℕ → List String → List Tag
topic_tags [] keys = []
topic_tags (t ∷ ts) [] = []
topic_tags (t ∷ ts) (k ∷ ks) = record { key = k; value = t } ∷ topic_tags ts ks

unfoldable pub log_tags : List LogEntry → List Tag
unfolding topic_tags
log_tags [] = []
log_tags (log ∷ logs) =
    record { key = tag_eth_log_address; value = log.address }
    ∷ (topic_tags log.topics tag_eth_log_topics ++ log_tags logs)

unfoldable pub txn_tags : ℕ → List LogEntry → List Tag
unfolding log_tags
txn_tags hash logs = record { key = tag_eth_tx_hash; value = hash } ∷ log_tags logs

module _ {State : Type 0} (e : Ethcore State) where
  unfoldable pub check_tx : Bytes → Outcome Error SignedTransaction
  check_tx txn = do
    decoded ← map_err invalid_rlp (e.rlp_decode txn)
    ensure (leb decoded.gas block_gas_limit) (transaction too_much_gas)
    sender ← map_err invalid_signature (e.recover decoded)
    ensure (leb min_gas_price_gwei decoded.gas_price) (transaction insufficient_gas_price)
    ok (record { unsigned = decoded; sender = sender })

  abbrev pub Executed : Type 0
  Executed = TxnContext State × Outcome Error ExecutionResult

  -- What follows a successful `apply`. U256's `-` panics below zero, and so does a receipt without a
  -- status code.
  unfoldable pub record_outcome :
      TxnContext State → SignedTransaction → State → ApplyOutcome → Executed
  unfolding txn_tags
  record_outcome ctx txn state outcome =
      let block = ctx.runtime in
      let receipt = outcome.receipt in
      let ctx' = record ctx {
        runtime = record block {
          state = state;
          env_info = record (block.env_info) { gas_used = receipt.gas_used };
          transaction_set = txn.hash ∷ block.transaction_set;
        };
        tags = ctx.tags ++ txn_tags txn.hash receipt.logs;
      } in
      if ltb receipt.gas_used block.env_info.gas_used then (ctx, panic) else elim receipt.outcome [
        | none ↦ (ctx', panic)
        | some code ↦ (
          ctx',
          ok (record {
            cumulative_gas_used = receipt.gas_used;
            gas_used = receipt.gas_used - block.env_info.gas_used;
            log_bloom = receipt.log_bloom;
            logs = receipt.logs;
            status_code = code;
            output = outcome.output;
          }),
        )
      ]

  -- What follows the checks.
  unfoldable pub apply_tx : TxnContext State → SignedTransaction → Executed
  unfolding record_outcome
  apply_tx ctx txn =
      let block = ctx.runtime in
      let (state, result) = e.apply block.state block.env_info txn in
      elim result [
        | ok outcome ↦ record_outcome ctx txn state outcome
        | err message ↦ (
          record ctx { runtime = record block { state = state } },
          err (transaction (execution_failure message)),
        )
        | panic ↦ (ctx, panic)
      ]

  unfoldable pub execute_tx : TxnContext State → SignedTransaction → Executed
  unfolding apply_tx
  execute_tx ctx txn =
      let block = ctx.runtime in
      let rest = apply_tx ctx txn in
      if ctx.check_only
      then (ctx, err check_only_success)
      else if contains txn.hash block.transaction_set
      then (ctx, err (transaction duplicate_transaction))
      else if ltb block_gas_limit block.env_info.gas_used
      then (ctx, panic)
      else if ltb (block_gas_limit - block.env_info.gas_used) txn.gas
      then (ctx, err (transaction block_gas_limit_reached))
      else rest
