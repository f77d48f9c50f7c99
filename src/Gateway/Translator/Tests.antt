-- ===== src/Gateway/Translator/Tests.antt =====
-- Transactions sent and read back.
use oasis_ethwasi_runtime.Prelude.{ℕ, zero, suc, ◌≡◌, refl, List, [], ◌∷◌, none, Outcome, ok, err}
use oasis_ethwasi_runtime.Prelude.Bytes.{Bytes}
use oasis_ethwasi_runtime.Runtime.Types.{ExecutionResult, block_gas_limit_reached}
use oasis_ethwasi_runtime.Gateway.Client.{
  BlockSnapshot, TransactionSnapshot, Filter, Error, transaction_error,
}
use oasis_ethwasi_runtime.Gateway.Example.{chain, codec, txn, tx, result, log, everything}
use oasis_ethwasi_runtime.Gateway.Translator.{
  get_block, get_block_unwrap, LocalizedReceipt, LocalizedLogEntry, LocalizedTransaction,
  localized_transaction, localized_receipt, localized_log, localize, created, transaction, receipt,
  receipt_of,
}
use oasis_ethwasi_runtime.Gateway.Translator.Submission.{send_raw_transaction}
use oasis_ethwasi_runtime.Gateway.Translator.Submission.Retries.{Sent, send_raw_transaction-Sent}
use oasis_ethwasi_runtime.Gateway.Translator.Logs.{
  logs, search, log_query, flat_map_logs, txn_logs, method_logs, decoded_logs, output_logs,
  matching_logs, sort_logs, insert_log,
}
use oasis_ethwasi_runtime.Gateway.Translator.Logs.Order.{IsSorted, of_block, logs-IsSorted}
use oasis_ethwasi_runtime.Gateway.Translator.Logs.Agreement.{Agrees, matching, receipt-Agrees}

-- The block is full for the first two submissions.
abbrev client_tx : Bytes → ℕ → ℕ × Outcome Error ExecutionResult
client_tx payload zero = (1, err (transaction_error block_gas_limit_reached))
client_tx payload (suc zero) = (2, err (transaction_error block_gas_limit_reached))
client_tx payload (suc (suc n)) = (suc (suc n), ok result)

send_raw_transaction-Sent_example :
    Sent client_tx codec (3 ∷ []) 0 (send_raw_transaction client_tx codec (3 ∷ []) 0)
send_raw_transaction-Sent_example = send_raw_transaction-Sent client_tx codec (3 ∷ []) 0

abbrev entries : List LocalizedLogEntry
entries = localized_log place 0 log ∷ localized_log place 1 log ∷ []
  where
    place : LocalizedTransaction
    place = localized_transaction txn tx

logs-IsSorted_example :
    IsSorted entries
    × ((from : BlockSnapshot) × (to : BlockSnapshot) × (txns : List TransactionSnapshot)
        × (get_block_unwrap (chain 2) everything.from_block ≡ ok from)
        × (get_block_unwrap (chain 2) everything.to_block ≡ ok to)
        × ((chain 2).wait_block_indexed to.header.round ≡ ok tt)
        × ((chain 2).query_txs (log_query everything from to) ≡ ok txns)
        × ((n : ℕ) → of_block n entries ≡ of_block n (flat_map_logs codec everything txns)))
unfolding logs search get_block_unwrap get_block sort_logs insert_log flat_map_logs txn_logs
    method_logs decoded_logs output_logs matching_logs
logs-IsSorted_example = logs-IsSorted (chain 2) codec everything entries refl

abbrev known : LocalizedReceipt
known = localized_receipt result (localized_transaction txn tx) none

receipt-Agrees_example :
    Agrees codec txn txn.output known
    × ((f : Filter) → txn_logs codec f txn ≡ matching codec f known.logs)
unfolding receipt receipt_of transaction created localize
receipt-Agrees_example = receipt-Agrees codec txn known refl
