-- ===== src/Runtime/Dispatcher/Batch.antt =====
-- A whole batch (`execute_batch` of src/dispatcher.rs): what its results say of its block.
use oasis_ethwasi_runtime.Prelude.{
  ℕ, zero, suc, ◌+◌, none, some, get_elem?, ◌⊎◌, ◌≤◌, ◌≡◌, ◌≢◌, refl, ap, sym, subst, ◌∙◌, inl, inr,
  List, [], ◌∷◌, Bool, arith, Outcome, ok, err, panic, Distinct, Outcome-cases, Bool-cases, All,
  Option-cases, length,
}
use oasis_ethwasi_runtime.Prelude.Bytes.{Bytes}
use oasis_ethwasi_runtime.Runtime.Types.{
  SignedTransaction, EnvInfo, Header, Ethcore, EthcoreLaws, Error, block_gas_limit, batch_aborted,
}
use oasis_ethwasi_runtime.Runtime.Block.{
  TxnContext, new_context, with_state, start_batch, end_batch,
}
use oasis_ethwasi_runtime.Runtime.Methods.{execute_tx, txn_tags}
use oasis_ethwasi_runtime.Runtime.Methods.Check.{check_tx-total}
use oasis_ethwasi_runtime.Runtime.Methods.Execution.{
  IsSound, execute_tx-ok, execute_tx-err, execute_tx-panic, execute_tx_ok-IsSound,
  execute_tx_err-IsSound,
}
use oasis_ethwasi_runtime.Runtime.Dispatcher.{
  Dispatcher, TxnOutput, ExecuteTxResult, success, aborted, serialize_error, encode_response,
  respond, process_decoded, process_call, process_calls, decode_transaction, decode_calls,
  run_batch, execute_batch,
}
use oasis_ethwasi_runtime.Runtime.Dispatcher.Effects.{
  gas_of, total_gas, Effect, Effects, tagged_hashes, executed, refused, done, then_call,
}

gas_of-serialize_error : (x : Error) → gas_of (serialize_error x) ≡ 0
unfolding serialize_error
gas_of-serialize_error x = ground arith

pub length-decode_calls :
    {State : Type 0} (e : Ethcore State) (d : Dispatcher) (i : ℕ) (batch : List Bytes)
    → length (decode_calls e d i batch) ≡ length batch
unfolding decode_calls
length-decode_calls e d i [] = refl
length-decode_calls e d i (call ∷ batch) = ap suc (length-decode_calls e d (suc i) batch)

module _ {State : Type 0} (e : Ethcore State) (laws : EthcoreLaws e) (d : Dispatcher) where
  -- Between calls the block is sound and the log of tags is empty.
  pub record IsReady (ctx : TxnContext State) : Type 0 where
    pub sound : IsSound ctx
    pub untagged : ctx.tags ≡ []

  -- ethcore panics as it applies the transaction of one of the calls.
  abbrev pub ApplyPanics : List (Outcome Error SignedTransaction) → Type 0
  ApplyPanics calls =
      (state : State) × (env : EnvInfo) × (t : SignedTransaction) × (i : ℕ) × (get_elem? calls i
        ≡ some (ok t))
      × ((e.apply state env t).1 ≡ panic)

  later_panics :
      (call : Outcome Error SignedTransaction) (calls : List (Outcome Error SignedTransaction))
      → ApplyPanics calls
      → ApplyPanics (call ∷ calls)
  later_panics call calls (state, env, t, i, at, panicked) = (state, env, t, suc i, at, panicked)

  first_panics :
      (call : Outcome Error SignedTransaction) (calls : List (Outcome Error SignedTransaction))
      (state : State) (env : EnvInfo) (t : SignedTransaction) (i : ℕ)
      → get_elem? (call ∷ []) i ≡ some (ok t)
      → (e.apply state env t).1 ≡ panic
      → ApplyPanics (call ∷ calls)
  first_panics call calls state env t zero at panicked = (state, env, t, 0, at, panicked)
  first_panics call calls state env t (suc i) at panicked = cc

  abbrev Stepped :
      TxnContext State
      → Outcome Error SignedTransaction
      → TxnContext State × Outcome Error ExecuteTxResult
      → Type 0
  Stepped ctx call s =
      ((r : ExecuteTxResult) × (s.1 ≡ ok r) × IsReady s.0 × Effect ctx s.0 r)
      ⊎ ((s.1 ≡ panic) × ApplyPanics (call ∷ []))

  encode_response-steps :
      (ctx : TxnContext State) (t : SignedTransaction)
      → IsReady ctx
      → Stepped ctx (ok t) (encode_response e d ctx t)
  unfolding encode_response
  encode_response-steps ctx t v = elim (Outcome-cases (execute_tx e ctx t).1) [
    | inl (r, h) ↦
        let done = execute_tx-ok e laws ctx t r h in
        let after = execute_tx_ok-IsSound e laws ctx t r h v.sound in
        rw (h, respond)
          (inl (
            record { output = success r; tags = (execute_tx e ctx t).0.tags },
            refl,
            record {
              sound = record { within = after.within; distinct = after.distinct };
              untagged = refl;
            },
            executed t r refl (done.tagged ∙ rw v.untagged) done.is_new done.added done.cumulated
                done.bounded,
          ))
    | inr (inl (x, h)) ↦
        let kept = execute_tx-err e laws ctx t x h in
        rw (h, respond)
          (inl (
            record { output = serialize_error x; tags = [] },
            refl,
            record {
              sound = execute_tx_err-IsSound e laws ctx t x h v.sound;
              untagged = kept.same_tags ∙ v.untagged;
            },
            refused (gas_of-serialize_error x) refl kept.same_set (rw kept.same_env),
          ))
    | inr (inr h) ↦
        rw (h, respond) (inr (refl, (_, _, t, 0, refl, execute_tx-panic e laws ctx t v.sound h)))
  ]

  process_call-steps :
      (i : ℕ) (ctx : TxnContext State) (call : Outcome Error SignedTransaction)
      → call ≢ panic
      → IsReady ctx
      → Stepped ctx call (process_call e d i ctx call)
  unfolding process_call
  process_call-steps i ctx call h v = elim (Bool-cases (aborted d i)) [
    | inl on ↦
        rw (on, process_call)
          (skipped call (serialize_error batch_aborted) (gas_of-serialize_error batch_aborted))
    | inr off ↦ rw (off, process_call) (decoded call h)
  ]
    where
      skipped :
          (c : Outcome Error SignedTransaction) (o : TxnOutput)
          → gas_of o ≡ 0
          → Stepped ctx c (ctx, ok (record { output = o; tags = [] }))
      skipped c o z = inl (record { output = o; tags = [] }, refl, v, refused z refl refl refl)

      decoded :
          (c : Outcome Error SignedTransaction)
          → c ≢ panic
          → Stepped ctx c (process_decoded e d ctx c)
      decoded (ok t) n = encode_response-steps ctx t v
      decoded (err x) n = skipped (err x) (serialize_error x) (gas_of-serialize_error x)
      decoded panic n = absurd (n refl)

  decode_transaction-total : (call : Bytes) → decode_transaction e d call ≢ panic
  unfolding decode_transaction
  decode_transaction-total call h = elim (Option-cases (e.parse_call call)) [
    | inl p ↦ ground arith
    | inr (c, p) ↦ elim (Option-cases (e.parse_args c.args)) [
      | inl q ↦ ground arith
      | inr (a, q) ↦ ground (arith, check_tx-total e laws a)
    ]
  ]

  abbrev pub NoPanic : List (Outcome Error SignedTransaction) → Type 0
  NoPanic = All (λ c. c ≢ panic)

  pub decode_calls-NoPanic : (i : ℕ) (batch : List Bytes) → NoPanic (decode_calls e d i batch)
  unfolding decode_calls
  decode_calls-NoPanic i [] = tt
  decode_calls-NoPanic i (call ∷ batch) =
      (λ h. ground (arith, decode_transaction-total call), decode_calls-NoPanic (suc i) batch)

  abbrev Finished :
      TxnContext State
      → List (Outcome Error SignedTransaction)
      → TxnContext State × Outcome Error (List ExecuteTxResult)
      → Type 0
  Finished ctx calls s =
      ((xs : List ExecuteTxResult) × (s.1 ≡ ok xs)
        × (length xs ≡ length calls)
        × IsReady s.0
        × Effects ctx s.0 xs)
      ⊎ ((s.1 ≡ panic) × ApplyPanics calls)

  process_calls-steps :
      (i : ℕ) (ctx : TxnContext State) (calls : List (Outcome Error SignedTransaction))
      → NoPanic calls
      → IsReady ctx
      → Finished ctx calls (process_calls e d i ctx calls)
  unfolding process_calls
  process_calls-steps i ctx [] n v = inl ([], refl, refl, v, done)
  process_calls-steps i ctx (call ∷ calls) n v = elim (process_call-steps i ctx call n.0 v) [
    | inr (e1, (state, env, t, j, at, panicked)) ↦
        inr (rw (e1), first_panics call calls state env t j at panicked)
    | inl (x, e1, v1, f1) ↦
        let ctx' = (process_call e d i ctx call).0 in
        elim (process_calls-steps (suc i) ctx' calls n.1 v1) [
          | inr (e2, cause) ↦ inr (rw (e1, e2), later_panics call calls cause)
          | inl (xs, e2, len, v2, f2) ↦ inl (x ∷ xs, rw (e1, e2), ap suc len, v2, then_call f1 f2)
        ]
  ]

Effects-gas :
    {State : Type 0} {ctx last : TxnContext State} {xs : List ExecuteTxResult}
    → Effects ctx last xs
    → last.runtime.env_info.gas_used ≡ ctx.runtime.env_info.gas_used + total_gas xs
Effects-gas done = omega arith
Effects-gas (then_call (executed t r o tags is_new set gas bound) rest) =
    omega (arith, Effects-gas rest, ap gas_of o)
Effects-gas (then_call (refused no_gas tags set gas) rest) = omega (arith, Effects-gas rest)

Effects-set :
    {State : Type 0} {ctx last : TxnContext State} {xs : List ExecuteTxResult}
    → Effects ctx last xs
    → last.runtime.transaction_set ≡ tagged_hashes ctx.runtime.transaction_set xs
unfolding txn_tags
Effects-set done = refl
Effects-set (then_call (executed t r o tags is_new set gas bound) rest) =
    rw (tags, ← set) (Effects-set rest)
Effects-set (then_call (refused no_gas tags set gas) rest) = rw (tags, ← set) (Effects-set rest)

module _ {State : Type 0} (e : Ethcore State) (laws : EthcoreLaws e) (d : Dispatcher)
    (header : Header) (check_only : Bool) (batch : List Bytes) where
  new_context-IsReady : (state : State) → IsReady e laws d (new_context state header check_only)
  new_context-IsReady state = record {
    sound = record { within = omega arith; distinct = tt };
    untagged = refl;
  }

  -- One result for each call; the gas account and the set of transactions agree with the results.
  abbrev pub Accounted : TxnContext State → List ExecuteTxResult → Type 0
  Accounted last xs =
      (length xs ≡ length batch)
      × (last.runtime.env_info.gas_used ≡ total_gas xs)
      × (total_gas xs ≤ block_gas_limit)
      × (last.runtime.transaction_set ≡ tagged_hashes [] xs)
      × Distinct (tagged_hashes [] xs)

  -- What a panic comes from: the state cannot be opened, ethcore panics as it applies one of the transactions,
  -- or the state that the calls lead to cannot be committed.
  abbrev pub Cause : Type 0
  Cause =
      (e.from_existing header.previous_hash ≡ none)
      ⊎ ApplyPanics e laws d (decode_calls e d 0 batch)
      ⊎ ((state : State) × (e.from_existing header.previous_hash ≡ some state)
          × (e.commit
                (process_calls e d (length batch) (new_context state header check_only)
                  (decode_calls e d 0 batch)).0.runtime.state
              ≡ none))

  abbrev pub Ends : Outcome Error (TxnContext State × List ExecuteTxResult) → Type 0
  Ends r =
      ((last : TxnContext State) × (xs : List ExecuteTxResult) × (r ≡ ok (last, xs))
        × Accounted last xs)
      ⊎ ((r ≡ panic) × Cause)

  run_batch-Ends :
      (state : State)
      → e.from_existing header.previous_hash ≡ some state
      → Ends (run_batch e d batch (new_context state header check_only))
  unfolding run_batch end_batch
  run_batch-Ends state opened =
      let ctx = new_context state header check_only in
      elim (process_calls-steps e laws d (length batch) ctx (decode_calls e d 0 batch)
        (decode_calls-NoPanic e laws d 0 batch) (new_context-IsReady state)) [
          | inr (panicked, cause) ↦ inr (rw (panicked), inr (inl cause))
          | inl (xs, finished, len, ready, effects) ↦
              let after = (process_calls e d (length batch) ctx (decode_calls e d 0 batch)).0 in
              let gas = Effects-gas effects in
              let set = Effects-set effects in
              elim (Option-cases (e.commit after.runtime.state)) [
                | inl uncommitted ↦
                    inr (rw (finished, uncommitted), inr (inr (state, opened, uncommitted)))
                | inr (state', committed) ↦ inl (
                  with_state after state',
                  xs,
                  rw (finished, committed),
                  (
                    len ∙ length-decode_calls e d 0 batch,
                    omega arith,
                    omega (arith, ready.sound.within),
                    set,
                    rw (← set) ready.sound.distinct,
                  ),
                )
              ]
        ]

  -- Under ethcore's laws the execution of a batch returns or panics. Where it returns, it has one result
  -- for each call; the block's gas account is the sum of what the results report and stays within the
  -- block gas limit, and no two results are tagged with the same transaction hash: no transaction is
  -- executed twice in a block. It panics only if the state cannot be opened, if the state that the calls
  -- lead to cannot be committed, or if ethcore panics as it applies the transaction of one of the calls.
  pub execute_batch-accounts : Ends (execute_batch e d header check_only batch)
  unfolding execute_batch start_batch
  execute_batch-accounts = elim (Option-cases (e.from_existing header.previous_hash)) [
    | inl unopened ↦ inr (rw (unopened), inl unopened)
    | inr (state, opened) ↦
        let run = run_batch e d batch (new_context state header check_only) in
        let same : execute_batch e d header check_only batch ≡ run = rw (opened) in
        subst Ends (sym same) (run_batch-Ends state opened)
  ]
