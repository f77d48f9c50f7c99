-- ===== src/Runtime/Dispatcher/Tests.antt =====
-- Batches checked and executed.
use oasis_ethwasi_runtime.Prelude.{
  ℕ, ◌≡◌, ◌⊎◌, refl, List, [], ◌∷◌, some, true, false, Outcome, ok, err, panic, get_elem?,
}
use oasis_ethwasi_runtime.Prelude.Bytes.{Bytes}
use oasis_ethwasi_runtime.Runtime.Block.{TxnContext, start_batch, end_batch}
use oasis_ethwasi_runtime.Runtime.Example.{toy, toy_laws, header, raw}
use oasis_ethwasi_runtime.Runtime.Methods.{check_tx, execute_tx, apply_tx, record_outcome}
use oasis_ethwasi_runtime.Runtime.Dispatcher.{
  Dispatcher, new_dispatcher, ExecuteTxResult, failed, decode_calls, decode_transaction,
  check_batch, check_results, check_result, error_message, execute_batch, run_batch, process_calls,
  process_call, process_decoded, encode_response, respond, serialize_error,
}
use oasis_ethwasi_runtime.Runtime.Dispatcher.Effects.{total_gas}
use oasis_ethwasi_runtime.Runtime.Dispatcher.Batch.{Cause, Ends, execute_batch-accounts}
use oasis_ethwasi_runtime.Runtime.Dispatcher.Refusals.{check_batch-execute_batch}

abbrev map_ok : {E A B : Type 0} → (A → B) → Outcome E A → Outcome E B
map_ok f (ok a) = ok (f a)
map_ok f (err e) = err e
map_ok f panic = panic

abbrev running : Dispatcher
running = new_dispatcher

-- The second call is the first again, the third does not decode.
abbrev batch : List Bytes
batch = raw ∷ raw ∷ (1 ∷ []) ∷ []

execute_batch-accounts_example :
    Ends toy toy_laws running header false batch (execute_batch toy running header false batch)
execute_batch-accounts_example = execute_batch-accounts toy toy_laws running header false batch

-- It returns: the first call is executed, the second is refused and the third does not decode.
executed_once :
    map_ok (λ r. total_gas r.1) (execute_batch toy running header false batch) ≡ ok 21000
unfolding execute_batch run_batch start_batch end_batch process_calls process_call process_decoded
    encode_response respond serialize_error error_message decode_calls decode_transaction check_tx
    execute_tx apply_tx record_outcome
executed_once = refl

check_batch-execute_batch_example :
    ((last : TxnContext ℕ) × (xs : List ExecuteTxResult) × (execute_batch toy running header false
          batch
        ≡ ok (last, xs))
      × (get_elem? xs 2 ≡ some (record { output = failed "not a transaction"; tags = [] })))
    ⊎ ((execute_batch toy running header false batch ≡ panic)
        × Cause toy toy_laws running header false batch)
unfolding check_batch check_results check_result decode_calls decode_transaction error_message
    check_tx start_batch end_batch
check_batch-execute_batch_example =
    check_batch-execute_batch toy toy_laws running header header true false batch
      (record { code = 0; message = "" }
        ∷ record { code = 0; message = "" }
        ∷ record { code = 1; message = "not a transaction" }
        ∷ [])
      2 "not a transaction" (λ j. refl) refl refl
