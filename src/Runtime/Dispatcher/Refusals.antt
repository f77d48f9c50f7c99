-- ===== src/Runtime/Dispatcher/Refusals.antt =====
-- That a check of a batch and its execution refuse the same calls (src/dispatcher.rs).
use oasis_ethwasi_runtime.Prelude.{
  ℕ, suc, ◌≡◌, ◌≢◌, sym, ap, subst, ◌∙◌, inl, inr, List, [], ◌∷◌, some, String, Bool, false, arith,
  Outcome, ok, err, panic, ◌⊎◌, >>=-eq-ok, Option-cases, Outcome-cases, length, get_elem?,
  get_elem?-cons,
}
use oasis_ethwasi_runtime.Prelude.Bytes.{Bytes}
use oasis_ethwasi_runtime.Runtime.Types.{
  SignedTransaction, Header, Ethcore, EthcoreLaws, Error, check_only_success,
}
use oasis_ethwasi_runtime.Runtime.Block.{TxnContext, start_batch, end_batch}
use oasis_ethwasi_runtime.Runtime.Methods.Check.{check_tx-ne-check_only}
use oasis_ethwasi_runtime.Runtime.Dispatcher.Modes.{untagged}
use oasis_ethwasi_runtime.Runtime.Dispatcher.Batch.{Cause, execute_batch-accounts}
use oasis_ethwasi_runtime.Runtime.Dispatcher.{
  Dispatcher, ExecuteTxResult, CheckTxResult, failed, aborted, serialize_error, process_call,
  process_calls, decode_transaction, decode_calls, run_batch, execute_batch, check_batch,
  check_results, check_result, error_message,
}

abbrev rejection : String → CheckTxResult
rejection m = record { code = 1; message = m }

module _ {State : Type 0} (e : Ethcore State) (d : Dispatcher)
    (run : (j : ℕ) → aborted d j ≡ false) where
  serialize_failed :
      (x : Error) → x ≢ check_only_success → serialize_error x ≡ failed (error_message x)
  unfolding serialize_error
  serialize_failed x n = ground arith

  decode-ne-check_only : (call : Bytes) → decode_transaction e d call ≢ err check_only_success
  unfolding decode_transaction
  decode-ne-check_only call h = elim (Option-cases (e.parse_call call)) [
    | inl p ↦ ground arith
    | inr (c, p) ↦ elim (Option-cases (e.parse_args c.args)) [
      | inl q ↦ ground arith
      | inr (a, q) ↦ ground (arith, check_tx-ne-check_only e a)
    ]
  ]

  message_of :
      {m : String} (x : Error) → check_result e d (err x) ≡ rejection m → error_message x ≡ m
  unfolding check_result
  message_of x h = ap (λ (r : CheckTxResult). r.message) h

  refused_outcome :
      (call : Bytes) (m : String)
      → check_result e d (decode_transaction e d call) ≡ rejection m
      → (x : Error) × (decode_transaction e d call ≡ err x) × (serialize_error x ≡ failed m)
  unfolding check_result
  refused_outcome call m h = elim (Outcome-cases (decode_transaction e d call)) [
    | inl (t, p) ↦ absurd (ground arith)
    | inr (inl (x, p)) ↦ (
      x,
      p,
      serialize_failed x (λ q. decode-ne-check_only call (p ∙ ap err q))
          ∙ ap failed (message_of x (rw p at h)),
    )
    | inr (inr p) ↦ absurd (ground arith)
  ]

  decode_calls_cons :
      (j : ℕ) (call : Bytes) (batch : List Bytes)
      → decode_calls e d j (call ∷ batch)
        ≡ decode_transaction e d call ∷ decode_calls e d (suc j) batch
  unfolding decode_calls
  decode_calls_cons j call batch = rw (run j)

  process_calls_cons :
      (k : ℕ) (ctx : TxnContext State) (c : Outcome Error SignedTransaction)
      (cs : List (Outcome Error SignedTransaction)) (xs : List ExecuteTxResult)
      → (process_calls e d k ctx (c ∷ cs)).1 ≡ ok xs
      → (r : ExecuteTxResult) × (rs : List ExecuteTxResult) × ((process_call e d k ctx c).1 ≡ ok r)
        × ((process_calls e d (suc k) (process_call e d k ctx c).0 cs).1 ≡ ok rs)
        × (xs ≡ r ∷ rs)
  unfolding process_calls
  process_calls_cons k ctx c cs xs h =
      let (r, e1, h1) = >>=-eq-ok (process_call e d k ctx c).1 _ h in
      let (rs, e2, h2) =
        >>=-eq-ok (process_calls e d (suc k) (process_call e d k ctx c).0 cs).1 _ h1 in
      (r, rs, e1, e2, cc h2)

  refused_call :
      (k : ℕ) (ctx : TxnContext State) (x : Error)
      → (process_call e d k ctx (err x)).1 ≡ ok (untagged (serialize_error x))
  unfolding process_call
  refused_call k ctx x = rw (run k, process_call)

  refused_alike :
      (batch : List Bytes) (k j i : ℕ) (ctx : TxnContext State) (xs : List ExecuteTxResult)
      (m : String)
      → (process_calls e d k ctx (decode_calls e d j batch)).1 ≡ ok xs
      → get_elem? (check_results e d (decode_calls e d j batch)) i ≡ some (rejection m)
      → get_elem? xs i ≡ some (untagged (failed m))
  refused_alike [] k j i ctx xs m h at = unfold decode_calls check_results in cc
  refused_alike (call ∷ batch) k j i ctx xs m h at =
      let c = decode_transaction e d call in
      let (r, rs, first, rest, eq) =
        process_calls_cons k ctx c _ xs (rw (decode_calls_cons j call batch) at h) in
      let at' : get_elem? (check_result e d c ∷ check_results e d (decode_calls e d (suc j) batch))
            i
          ≡ some (rejection m) =
        unfold check_results in (rw (decode_calls_cons j call batch) at at) in
      elim (get_elem?-cons i _ _ _ at') [
        | inl (zero_i, here) ↦
            let (x, refused, shown) = refused_outcome call m here in
            let moved : (process_call e d k ctx (err x)).1 ≡ ok r =
              subst (λ (y : Outcome Error SignedTransaction). (process_call e d k ctx y).1 ≡ ok r)
                refused first in
            let same : ok (untagged (serialize_error x)) ≡ ok r =
              sym (refused_call k ctx x) ∙ moved in
            let given : r ≡ untagged (failed m) = cc (same, ap untagged shown) in
            rw (zero_i, eq, given)
        | inr (i', suc_i, there) ↦
            rw (suc_i, eq)
              (refused_alike batch (suc k) (suc j) i' (process_call e d k ctx c).0 rs m rest there)
      ]

  checked :
      (header : Header) (check_only : Bool) (batch : List Bytes) (checks : List CheckTxResult)
      → check_batch e d header check_only batch ≡ ok checks
      → check_results e d (decode_calls e d 0 batch) ≡ checks
  unfolding check_batch
  checked header check_only batch checks h =
      let (ctx, started, h1) = >>=-eq-ok (start_batch e header check_only) _ h in
      let (last, ended, h2) = >>=-eq-ok (end_batch e ctx) _ h1 in cc h2

  -- The results of an execution are those of the calls in some block.
  processed :
      (header : Header) (check_only : Bool) (batch : List Bytes) (last : TxnContext State)
      (xs : List ExecuteTxResult)
      → execute_batch e d header check_only batch ≡ ok (last, xs)
      → (ctx : TxnContext State) × ((process_calls e d
            (length batch)
            ctx
            (decode_calls e d 0 batch)).1
          ≡ ok xs)
  unfolding execute_batch run_batch
  processed header check_only batch last xs h =
      let (ctx, started, h1) =
        >>=-eq-ok (start_batch e header check_only) (run_batch e d batch) h in
      let (ys, finished, h2) =
        >>=-eq-ok (process_calls e d (length batch) ctx (decode_calls e d 0 batch)).1 _ h1 in
      let (end, ended, h3) =
        >>=-eq-ok (end_batch e (process_calls e d (length batch) ctx (decode_calls e d 0 batch)).0)
          _ h2 in
      let same : ys ≡ xs = cc h3 in (ctx, finished ∙ ap ok same)

-- Under ethcore's laws, and while the abort flag stays down: what a check of a batch refuses, its
-- execution refuses too, with the same message and no tags, whatever the other calls return. The check
-- and the execution may be in different blocks. The execution returns unless the state cannot be opened
-- or committed, or ethcore panics as it applies one of the transactions.
pub check_batch-execute_batch :
    {State : Type 0} (e : Ethcore State) (laws : EthcoreLaws e) (d : Dispatcher)
    (checked_at header : Header) (check_only check_only' : Bool) (batch : List Bytes)
    (checks : List CheckTxResult) (i : ℕ) (m : String)
    → ((j : ℕ) → aborted d j ≡ false)
    → check_batch e d checked_at check_only batch ≡ ok checks
    → get_elem? checks i ≡ some (record { code = 1; message = m })
    → ((last : TxnContext State) × (xs : List ExecuteTxResult) × (execute_batch e d header
            check_only' batch
          ≡ ok (last, xs))
        × (get_elem? xs i ≡ some (record { output = failed m; tags = [] })))
      ⊎ ((execute_batch e d header check_only' batch ≡ panic)
          × Cause e laws d header check_only' batch)
check_batch-execute_batch e laws d checked_at header check_only check_only' batch checks i m run h
      at =
    elim (execute_batch-accounts e laws d header check_only' batch) [
      | inr panicked ↦ inr panicked
      | inl (last, xs, returned, _) ↦
          let (ctx, results) = processed e d run header check_only' batch last xs returned in
          let same = checked e d run checked_at check_only batch checks h in
          let at' = subst (λ rs. get_elem? rs i ≡ some (rejection m)) (sym same) at in
          inl (
            last,
            xs,
            returned,
            refused_alike e d run batch (length batch) 0 i ctx xs m results at',
          )
    ]
