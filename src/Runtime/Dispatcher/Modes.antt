-- ===== src/Runtime/Dispatcher/Modes.antt =====
-- Batches that execute nothing: check-only contexts and aborted batches
-- (src/dispatcher.rs).
use oasis_ethwasi_runtime.Prelude.{
  ℕ, suc, ◌≤◌, ◌≡◌, ◌≢◌, refl, ap, List, [], ◌∷◌, map, Bool, true, false, arith, Outcome, ok, err,
  panic, ◌>>=◌, All, length, Option-cases, inl, inr,
}
use oasis_ethwasi_runtime.Prelude.Bytes.{Bytes}
use oasis_ethwasi_runtime.Runtime.Types.{SignedTransaction, Header, Ethcore, EthcoreLaws, Error}
use oasis_ethwasi_runtime.Runtime.Block.{TxnContext, new_context, start_batch, end_batch}
use oasis_ethwasi_runtime.Runtime.Methods.Execution.{execute_tx_check_only}
use oasis_ethwasi_runtime.Runtime.Dispatcher.Batch.{decode_calls-NoPanic}
use oasis_ethwasi_runtime.Runtime.Dispatcher.{
  Dispatcher, TxnOutput, ExecuteTxResult, checked, failed, aborted, serialize_error, process_call,
  process_calls, decode_calls, run_batch, execute_batch,
}

abbrev pub output_when_checking : Outcome Error SignedTransaction → TxnOutput
output_when_checking (ok t) = checked
output_when_checking (err x) = serialize_error x
output_when_checking panic = checked

abbrev pub untagged : TxnOutput → ExecuteTxResult
untagged o = record { output = o; tags = [] }

module _ {State : Type 0} (e : Ethcore State) (d : Dispatcher) where
  -- A loop whose calls all leave the context alone only collects their results.
  process_calls_idle :
      (f : Outcome Error SignedTransaction → ExecuteTxResult) (ctx : TxnContext State) (i : ℕ)
      (calls : List (Outcome Error SignedTransaction))
      → ((j : ℕ) (c : Outcome Error SignedTransaction)
          → i ≤ j
          → c ≢ panic
          → process_call e d j ctx c ≡ (ctx, ok (f c)))
      → All (λ c. c ≢ panic) calls
      → process_calls e d i ctx calls ≡ (ctx, ok (map f calls))
  unfolding process_calls
  process_calls_idle f ctx i [] idle n = refl
  process_calls_idle f ctx i (c ∷ calls) idle n = rw (
    idle i c (omega arith) n.0,
    process_calls_idle f ctx (suc i) calls (λ j c' h. idle j c' (omega arith)) n.1,
  )

  process_call_check_only :
      (i : ℕ) (ctx : TxnContext State) (c : Outcome Error SignedTransaction)
      → ctx.check_only ≡ true
      → aborted d i ≡ false
      → c ≢ panic
      → process_call e d i ctx c ≡ (ctx, ok (untagged (output_when_checking c)))
  unfolding process_call
  process_call_check_only i ctx (ok t) on run n =
      rw (run, process_call) (rw (execute_tx_check_only e ctx t on))
  process_call_check_only i ctx (err x) on run n = rw (run, process_call)
  process_call_check_only i ctx panic on run n = absurd (n refl)

  process_call_aborted :
      (i : ℕ) (ctx : TxnContext State) (c : Outcome Error SignedTransaction)
      → aborted d i ≡ true
      → process_call e d i ctx c ≡ (ctx, ok (untagged (failed "batch aborted")))
  unfolding process_call
  process_call_aborted i ctx c on = rw (on, process_call)

map-decode_calls :
    {State : Type 0} (e : Ethcore State) (d : Dispatcher) (x : ExecuteTxResult) (i : ℕ)
    (batch : List Bytes)
    → map (λ c. x) (decode_calls e d i batch) ≡ map (λ c. x) batch
unfolding decode_calls
map-decode_calls e d x i [] = refl
map-decode_calls e d x i (call ∷ batch) = ap (◌∷◌ x) (map-decode_calls e d x (suc i) batch)

module _ {State : Type 0} (e : Ethcore State) (laws : EthcoreLaws e) (d : Dispatcher)
    (header : Header) (batch : List Bytes) where
  -- While the abort flag stays down, a check-only batch executes nothing: each call that decodes
  -- is answered with the check result, each other one with its error, and the block stays the one
  -- that was started, under ethcore's laws.
  pub execute_batch_check_only :
      ((j : ℕ) → aborted d j ≡ false)
      → execute_batch e d header true batch ≡ (
          start_batch e header true >>= λ ctx. end_batch e ctx >>= λ last.
          ok (last, map (λ c. untagged (output_when_checking c)) (decode_calls e d 0 batch)))
  unfolding execute_batch run_batch start_batch
  execute_batch_check_only run = elim (Option-cases (e.from_existing header.previous_hash)) [
    | inl unopened ↦ rw (unopened)
    | inr (state, opened) ↦
        let ctx = new_context state header true in
        rw (
          opened,
          process_calls_idle e d (λ c. untagged (output_when_checking c)) ctx (length batch)
              (decode_calls e d 0 batch)
              (λ j c h n. process_call_check_only e d j ctx c refl (run j) n)
              (decode_calls-NoPanic e laws d 0 batch),
        )
  ]

  -- Under ethcore's laws, once the abort flag is up by the time the calls are executed, every
  -- call is answered with "batch aborted", and the block stays the one that was started.
  pub execute_batch_aborted :
      (check_only : Bool)
      → ((j : ℕ) → length batch ≤ j → aborted d j ≡ true)
      → execute_batch e d header check_only batch ≡ (
          start_batch e header check_only >>= λ ctx.
          end_batch e ctx >>= λ last. ok (last, map (λ c. untagged (failed "batch aborted")) batch))
  unfolding execute_batch run_batch start_batch
  execute_batch_aborted check_only up =
      let answer = untagged (failed "batch aborted") in
      elim (Option-cases (e.from_existing header.previous_hash)) [
        | inl unopened ↦ rw (unopened)
        | inr (state, opened) ↦
            let ctx = new_context state header check_only in
            rw (
              opened,
              process_calls_idle e d (λ c. answer) ctx (length batch) (decode_calls e d 0 batch)
                  (λ j c h n. process_call_aborted e d j ctx c (up j h))
                  (decode_calls-NoPanic e laws d 0 batch),
              map-decode_calls e d answer 0 batch,
            )
      ]
