-- ===== src/Runtime/Methods/Execution.antt =====
-- One transaction executed in a block (`execute::tx` of src/methods.rs).
use oasis_ethwasi_runtime.Prelude.{
  ◌+◌, ◌≤◌, ◌≡◌, inl, inr, ◌∷◌, ◌++◌, arith, ok, err, panic, true, false, contains, Distinct,
  Outcome-cases,
}
use oasis_ethwasi_runtime.Runtime.Types.{
  SignedTransaction, ExecutionResult, Ethcore, EthcoreLaws, Error, check_only_success,
  block_gas_limit,
}
use oasis_ethwasi_runtime.Runtime.Block.{TxnContext}
use oasis_ethwasi_runtime.Runtime.Methods.{execute_tx, txn_tags}

-- The gas used fits the block, and no transaction is in the set of the executed ones twice.
pub record IsSound {State : Type 0} (ctx : TxnContext State) : Type 0 where
  pub within : ctx.runtime.env_info.gas_used ≤ block_gas_limit
  pub distinct : Distinct ctx.runtime.transaction_set

-- What a successful execution leaves behind.
pub record Records {State : Type 0} (ctx ctx' : TxnContext State) (t : SignedTransaction)
    (r : ExecutionResult) : Type 0 where
  pub is_new : contains t.hash ctx.runtime.transaction_set ≡ false
  pub added : ctx'.runtime.transaction_set ≡ t.hash ∷ ctx.runtime.transaction_set
  pub cumulated : ctx'.runtime.env_info.gas_used ≡ ctx.runtime.env_info.gas_used + r.gas_used
  pub cumulative : r.cumulative_gas_used ≡ ctx'.runtime.env_info.gas_used
  pub fits : ctx.runtime.env_info.gas_used + t.gas ≤ block_gas_limit
  pub bounded : r.gas_used ≤ t.gas
  pub fitting : ctx'.runtime.env_info.gas_used ≤ block_gas_limit
  pub tagged : ctx'.tags ≡ ctx.tags ++ txn_tags t.hash r.logs

-- What a failed one leaves behind.
pub record Leaves {State : Type 0} (ctx ctx' : TxnContext State) : Type 0 where
  pub same_set : ctx'.runtime.transaction_set ≡ ctx.runtime.transaction_set
  pub same_env : ctx'.runtime.env_info ≡ ctx.runtime.env_info
  pub same_tags : ctx'.tags ≡ ctx.tags

module _ {State : Type 0} (e : Ethcore State) (laws : EthcoreLaws e) (ctx : TxnContext State)
    (t : SignedTransaction) where
  -- Under ethcore's laws a successful execution is of a transaction that is new to the block and
  -- whose gas fits what was left of the block's before it; the gas used is at most that; it adds the hash to the set, the gas to the block's account and
  -- its tags to the log.
  pub execute_tx-ok :
      (r : ExecutionResult) → (execute_tx e ctx t).1 ≡ ok r → Records ctx (execute_tx e ctx t).0 t r
  unfolding execute_tx
  execute_tx-ok r h = elim (Outcome-cases (e.apply ctx.runtime.state ctx.runtime.env_info t).1) [
    | inl (o, a) ↦ ground (
      arith,
      laws.grows ctx.runtime.state ctx.runtime.env_info t o a,
      laws.bounded ctx.runtime.state ctx.runtime.env_info t o a,
    )
    | inr (inl (x, a)) ↦ ground arith
    | inr (inr a) ↦ ground arith
  ]

  -- Under ethcore's laws an execution that fails leaves the set, the block's account and the log
  -- as they were.
  pub execute_tx-err :
      (x : Error) → (execute_tx e ctx t).1 ≡ err x → Leaves ctx (execute_tx e ctx t).0
  unfolding execute_tx
  execute_tx-err x h = elim (Outcome-cases (e.apply ctx.runtime.state ctx.runtime.env_info t).1) [
    | inl (o, a) ↦ ground (arith, laws.coded ctx.runtime.state ctx.runtime.env_info t o a)
    | inr (inl (y, a)) ↦ ground arith
    | inr (inr a) ↦ ground arith
  ]

  -- Under ethcore's laws an execution in a sound block panics only as ethcore does: no subtraction of gas goes
  -- below zero.
  pub execute_tx-panic :
      IsSound ctx
      → (execute_tx e ctx t).1 ≡ panic
      → (e.apply ctx.runtime.state ctx.runtime.env_info t).1 ≡ panic
  unfolding execute_tx
  execute_tx-panic v h = elim (Outcome-cases (e.apply ctx.runtime.state ctx.runtime.env_info t).1) [
    | inl (o, a) ↦ absurd (
        ground (
          arith,
          laws.grows ctx.runtime.state ctx.runtime.env_info t o a,
          laws.coded ctx.runtime.state ctx.runtime.env_info t o a,
        ))
    | inr (inl (y, a)) ↦ absurd (ground arith)
    | inr (inr a) ↦ a
  ]

  pub execute_tx_ok-IsSound :
      (r : ExecutionResult)
      → (execute_tx e ctx t).1 ≡ ok r
      → IsSound ctx
      → IsSound (execute_tx e ctx t).0
  execute_tx_ok-IsSound r h v =
      let done = execute_tx-ok r h in
      record { within = done.fitting; distinct = rw done.added (done.is_new, v.distinct) }

  pub execute_tx_err-IsSound :
      (x : Error) → (execute_tx e ctx t).1 ≡ err x → IsSound ctx → IsSound (execute_tx e ctx t).0
  execute_tx_err-IsSound x h v =
      let kept = execute_tx-err x h in
      record { within = rw kept.same_env v.within; distinct = rw kept.same_set v.distinct }

-- In a check-only context nothing is executed.
pub execute_tx_check_only :
    {State : Type 0} (e : Ethcore State) (ctx : TxnContext State) (t : SignedTransaction)
    → ctx.check_only ≡ true
    → execute_tx e ctx t ≡ (ctx, err check_only_success)
unfolding execute_tx
execute_tx_check_only e ctx t on = rw on
