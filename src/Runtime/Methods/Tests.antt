-- ===== src/Runtime/Methods/Tests.antt =====
-- Transactions checked and executed.
use oasis_ethwasi_runtime.Prelude.{ℕ, ◌≡◌, ◌≤◌, ◌↔◌, refl, arith, [], ◌∷◌, ok, false}
use oasis_ethwasi_runtime.Runtime.Types.{
  ExecutionResult, duplicate_transaction, transaction, block_gas_limit, min_gas_price_gwei,
}
use oasis_ethwasi_runtime.Runtime.Block.{TxnContext, BlockContext, new_context}
use oasis_ethwasi_runtime.Runtime.Example.{toy, toy_laws, header, signed, unsigned, raw}
use oasis_ethwasi_runtime.Runtime.Methods.{check_tx, execute_tx, apply_tx, record_outcome, txn_tags}
use oasis_ethwasi_runtime.Runtime.Methods.Check.{check_tx_iff}
use oasis_ethwasi_runtime.Runtime.Methods.Execution.{
  IsSound, Records, Leaves, execute_tx-ok, execute_tx-err,
}

abbrev started : TxnContext ℕ
started = new_context 0 header false

check_tx_iff_example : (check_tx toy raw ≡ ok signed) ↔ (
    (toy.rlp_decode raw ≡ ok unsigned)
    × (signed.gas ≤ block_gas_limit)
    × (toy.recover unsigned ≡ ok 7)
    × (min_gas_price_gwei ≤ signed.gas_price))
check_tx_iff_example = check_tx_iff toy raw signed

abbrev executed : ExecutionResult
executed = record {
  cumulative_gas_used = 21000;
  gas_used = 21000;
  log_bloom = 0;
  logs = [];
  status_code = 1;
  output = [];
}

execute_tx-ok_example : Records started (execute_tx toy started signed).0 signed executed
unfolding execute_tx apply_tx record_outcome txn_tags
execute_tx-ok_example = execute_tx-ok toy toy_laws started signed executed refl

abbrev again : TxnContext ℕ
again = record started { runtime = record block { transaction_set = 11 ∷ [] } }
  where
    block : BlockContext ℕ
    block = started.runtime

execute_tx-err_example : Leaves again (execute_tx toy again signed).0
unfolding execute_tx apply_tx record_outcome
execute_tx-err_example =
    execute_tx-err toy toy_laws again signed (transaction duplicate_transaction) refl

started-IsSound : IsSound started
started-IsSound = record { within = omega arith; distinct = tt }
