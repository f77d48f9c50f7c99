-- ===== src/Runtime/Dispatcher.antt =====
-- src/dispatcher.rs: batches of calls, checked or executed. The `prefetch` feature is off by default
-- and only warms a cache; it is left out.
pub mod Effects
pub mod Batch
pub mod Modes
pub mod Refusals
mod Tests
use Prim.Native.String.{◌++◌ as concat}
use text.Mathlib.Text.{◌==◌ as str_eq}
use oasis_ethwasi_runtime.Prelude.{
  ℕ, suc, ◌+◌, List, [], ◌∷◌, Option, none, some, String, Bool, false, Outcome, ok, err, panic,
  ◌>>=◌, ◌>>◌, ensure, ok_or, length, if◌then◌else◌,
}
use oasis_ethwasi_runtime.Prelude.Bytes.{Bytes}
use oasis_ethwasi_runtime.Runtime.Types.{
  SignedTransaction, ExecutionResult, Header, Tag, Ethcore, Error, TransactionError,
  unable_to_parse_call, unable_to_parse_arguments, invalid_rlp, invalid_signature, method_not_found,
  transaction, check_only_success, batch_aborted, block_gas_limit_reached, duplicate_transaction,
  insufficient_gas_price, too_much_gas, execution_failure, method_tx,
}
use oasis_ethwasi_runtime.Runtime.Block.{TxnContext, start_batch, end_batch}
use oasis_ethwasi_runtime.Runtime.Methods.{check_tx, execute_tx}

-- `TxnOutput`, before its CBOR encoding.
pub data TxnOutput : Type 0 where
  success : ExecutionResult → TxnOutput
  checked : TxnOutput
  failed : String → TxnOutput

pub record CheckTxResult : Type 0 where
  pub code : ℕ
  pub message : String

pub record ExecuteTxResult : Type 0 where
  pub output : TxnOutput
  pub tags : List Tag

pub record Dispatcher : Type 0 where
  -- What each load of the abort flag reads, numbered from the first; none before the flag is set.
  pub abort_batch : Option (ℕ → Bool)

abbrev pub new_dispatcher : Dispatcher
new_dispatcher = record { abort_batch = none }

-- The flag is shared with the host, so later loads may read other values.
abbrev pub set_abort_batch_flag : (ℕ → Bool) → Dispatcher → Dispatcher
set_abort_batch_flag flag d = record d { abort_batch = some flag }

abbrev pub aborted : Dispatcher → ℕ → Bool
aborted d i = elim d.abort_batch [ none ↦ false | some flag ↦ flag i ]

pub transaction_message : TransactionError → String
transaction_message block_gas_limit_reached = "block gas limit reached"
transaction_message duplicate_transaction = "duplicate transaction"
transaction_message (execution_failure message) = concat "execution failed: " message
transaction_message insufficient_gas_price = "insufficient gas price"
transaction_message too_much_gas = "requested gas greater than block gas limit"

-- The display of an error. `serialize_error` treats `CheckOnlySuccess` apart, and no check returns it,
-- so its text is never shown.
pub error_message : Error → String
unfolding transaction_message
error_message unable_to_parse_call = "unable to parse call"
error_message unable_to_parse_arguments = "unable to parse call arguments"
error_message (invalid_rlp text) = text
error_message (invalid_signature text) = text
error_message (method_not_found method) = concat "method not found: " method
error_message (transaction e) = transaction_message e
error_message check_only_success = ""
error_message batch_aborted = "batch aborted"

pub serialize_error : Error → TxnOutput
unfolding error_message
serialize_error check_only_success = checked
serialize_error e = failed (error_message e)

module _ {State : Type 0} (e : Ethcore State) (d : Dispatcher) where
  pub decode_transaction : Bytes → Outcome Error SignedTransaction
  decode_transaction bytes = do
    call ← ok_or (e.parse_call bytes) unable_to_parse_call
    ensure (str_eq call.method method_tx) (method_not_found call.method)
    call_args ← ok_or (e.parse_args call.args) unable_to_parse_arguments
    check_tx e call_args

  -- The first loop of both batch methods, from the load number `i` of the abort flag on.
  pub decode_calls : ℕ → List Bytes → List (Outcome Error SignedTransaction)
  decode_calls i [] = []
  decode_calls i (call ∷ batch) =
      (if aborted d i then err batch_aborted else decode_transaction call)
      ∷ decode_calls (suc i) batch

  pub check_result : Outcome Error SignedTransaction → CheckTxResult
  unfolding error_message
  check_result (err error) = record { code = 1; message = error_message error }
  check_result _ = record { code = 0; message = "" }

  pub check_results : List (Outcome Error SignedTransaction) → List CheckTxResult
  unfolding check_result
  check_results [] = []
  check_results (c ∷ cs) = check_result c ∷ check_results cs

  -- The block is started and ended around the checks, which do not look at it.
  pub check_batch : Header → Bool → List Bytes → Outcome Error (List CheckTxResult)
  unfolding check_results decode_calls
  check_batch header check_only batch = do
    ctx ← start_batch e header check_only
    last ← end_batch e ctx
    ok (check_results (decode_calls 0 batch))

  respond :
      TxnContext State
      → Outcome Error ExecutionResult
      → TxnContext State × Outcome Error ExecuteTxResult
  unfolding serialize_error
  respond ctx (ok r) =
      (record ctx { tags = [] }, ok (record { output = success r; tags = ctx.tags }))
  respond ctx (err error) = (ctx, ok (record { output = serialize_error error; tags = [] }))
  respond ctx panic = (ctx, panic)

  -- `encode_response` with what `execute_batch` makes of its result: the tags are taken only when the
  -- call succeeds.
  pub encode_response :
      TxnContext State → SignedTransaction → TxnContext State × Outcome Error ExecuteTxResult
  unfolding respond
  encode_response ctx txn = let (ctx', result) = execute_tx e ctx txn in respond ctx' result

  pub process_decoded :
      TxnContext State
      → Outcome Error SignedTransaction
      → TxnContext State × Outcome Error ExecuteTxResult
  unfolding encode_response serialize_error
  process_decoded ctx (ok txn) = encode_response ctx txn
  process_decoded ctx (err error) = (ctx, ok (record { output = serialize_error error; tags = [] }))
  process_decoded ctx panic = (ctx, panic)

  pub process_call :
      ℕ
      → TxnContext State
      → Outcome Error SignedTransaction
      → TxnContext State × Outcome Error ExecuteTxResult
  unfolding process_decoded
  process_call i ctx call =
      if aborted d i
      then (ctx, ok (record { output = serialize_error batch_aborted; tags = [] }))
      else process_decoded ctx call

  -- The second loop of `execute_batch`. A panic ends the process.
  pub process_calls :
      ℕ
      → TxnContext State
      → List (Outcome Error SignedTransaction)
      → TxnContext State × Outcome Error (List ExecuteTxResult)
  unfolding process_call
  process_calls i ctx [] = (ctx, ok [])
  process_calls i ctx (call ∷ calls) =
      let (ctx', first) = process_call i ctx call in
      let (ctx'', rest) = process_calls (suc i) ctx' calls in
      (ctx'', do r ← first; rs ← rest; ok (r ∷ rs))

  -- The second loop of `execute_batch` in the block that was started, and the end of the block.
  pub run_batch :
      List Bytes → TxnContext State → Outcome Error (TxnContext State × List ExecuteTxResult)
  unfolding decode_calls
  run_batch batch ctx =
      let (ctx', outputs) = process_calls (length batch) ctx (decode_calls 0 batch) in
      do results ← outputs; last ← end_batch e ctx'; ok (last, results)

  pub execute_batch :
      Header → Bool → List Bytes → Outcome Error (TxnContext State × List ExecuteTxResult)
  unfolding run_batch
  execute_batch header check_only batch = start_batch e header check_only >>= run_batch batch
