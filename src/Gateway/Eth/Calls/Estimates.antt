-- ===== src/Gateway/Eth/Calls/Estimates.antt =====
-- That `eth_call` and `eth_estimateGas` (gateway/src/impls/eth.rs) judge a transaction alike, and that a
-- price in wei is exact.
use oasis_ethwasi_runtime.Prelude.{
  ℕ, ◌+◌, ◌*◌, ◌^◌, ◌<◌, ◌≤◌, ◌≡◌, Option, none, some, ap, ◌∙◌, Bool, true, leb, le→leb, map_err,
  Outcome, ok, err, panic, >>=-eq-ok, Outcome-cases, Option-cases, ◌⊎◌, inl, inr, arith, ok_or,
}
use oasis_ethwasi_runtime.Prelude.Bytes.{Bytes}
use oasis_ethwasi_runtime.Runtime.Types.{SignedTransaction, EnvInfo}
use oasis_ethwasi_runtime.Gateway.Client.{BlockSnapshot, Client}
use oasis_ethwasi_runtime.Gateway.Translator.{get_block}
use oasis_ethwasi_runtime.Gateway.Translator.Submission.{
  CallError, u256_max, state_corrupt, state_pruned, simulation_env, simulate_transaction,
}
use oasis_ethwasi_runtime.Gateway.Eth.{BlockNumber, block_number_to_id}
use oasis_ethwasi_runtime.Gateway.Eth.Calls.{
  gwei_to_wei, Rpc, Executed, execution_error, estimate_gas, vm_checked, eth_call, eth_estimate_gas,
}

-- A gas price of 64 bits in gwei is converted exactly.
pub gwei_to_wei_exact : (gwei : ℕ) → gwei < 2 ^ 64 → gwei_to_wei gwei ≡ gwei * 1000000000
unfolding gwei_to_wei
gwei_to_wei_exact gwei h = omega arith

map_err_ok : {E F A : Type 0} (f : E → F) (r : Outcome E A) (a : A) → map_err f r ≡ ok a → r ≡ ok a
map_err_ok f (ok b) a h = cc
map_err_ok f (err e) a h = cc
map_err_ok f panic a h = cc

ok_or_ok : {E A : Type 0} (o : Option A) (e : E) (a : A) → ok_or o e ≡ ok a → o ≡ some a
ok_or_ok none e a h = cc
ok_or_ok (some b) e a h = cc

module _ {Request State : Type 0} (rpc : Rpc Request) (state : BlockSnapshot → Option State)
    (transact_virtual : State → EnvInfo → SignedTransaction → Outcome CallError Executed)
    (c : Client) (request : Request) (is_dapp : Bool) (number : BlockNumber) where
  -- The transaction ran on the state and in the environment of the block that the number names.
  abbrev pub Ran : SignedTransaction → Executed → Type 0
  Ran t ex =
      (blk : BlockSnapshot) × (s : State) × (get_block c (block_number_to_id number)
        ≡ ok (some blk))
      × (state blk ≡ some s)
      × (transact_virtual s (simulation_env state transact_virtual blk) t ≡ ok ex)

  -- The estimate adds the refunds to the gas used; the call returns the output where there was no exception.
  abbrev pub Estimated : SignedTransaction → Type 0
  Estimated t =
      (ex : Executed) × Ran t ex
      × (eth_estimate_gas rpc state transact_virtual c request is_dapp number
          ≡ ok (ex.gas_used + ex.refunded))
      × (ex.gas_used + ex.refunded ≤ t.gas)
      × (((ex.exception ≡ none)
            × (eth_call rpc state transact_virtual c request is_dapp number ≡ ok ex.output))
          ⊎ ((exception : Bytes) × (ex.exception ≡ some exception)
              × (eth_call rpc state transact_virtual c request is_dapp number
                  ≡ err (rpc.vm_error exception ex.output))))

  abbrev pub BothFail : SignedTransaction → Type 0
  BothFail t =
      (e : CallError) × (simulate_transaction state transact_virtual c t (block_number_to_id number)
        ≡ err e)
      × (eth_estimate_gas rpc state transact_virtual c request is_dapp number
          ≡ err (execution_error rpc.execution_code (rpc.call_text e)))
      × (eth_call rpc state transact_virtual c request is_dapp number ≡ err (rpc.call_error e))

  abbrev pub BothPanic : SignedTransaction → Type 0
  BothPanic t =
      (simulate_transaction state transact_virtual c t (block_number_to_id number) ≡ panic)
      × (eth_estimate_gas rpc state transact_virtual c request is_dapp number ≡ panic)
      × (eth_call rpc state transact_virtual c request is_dapp number ≡ panic)

  simulated :
      (t : SignedTransaction) (ex : Executed)
      → simulate_transaction state transact_virtual c t (block_number_to_id number) ≡ ok ex
      → Ran t ex
  unfolding simulate_transaction
  simulated t ex h =
      let (b, hb, h1) =
        >>=-eq-ok (map_err (λ e. state_corrupt) (get_block c (block_number_to_id number))) _ h in
      let (blk, hk, h2) = >>=-eq-ok (ok_or b state_pruned) _ h1 in
      let (s, hs, h3) = >>=-eq-ok (ok_or (state blk) state_corrupt) _ h2 in
      let found = map_err_ok (λ e. state_corrupt) (get_block c (block_number_to_id number)) b hb in
      (
        blk,
        s,
        found ∙ ap ok (ok_or_ok b state_pruned blk hk),
        ok_or_ok (state blk) state_corrupt s hs,
        h3,
      )

  -- Where running a transaction takes no more gas, before refunds, than the transaction has, which is a
  -- U256: for a request that is signed, either the simulation on the block's state succeeds; then the
  -- estimate is the gas that it used and the refunds, no more than the transaction's gas, and the call
  -- returns its output, or, if it ended with an exception, that exception and output as an error. Or
  -- it fails, and both calls report its error, each in its wrapping; or it panics, and so do both.
  pub eth_call-estimate_gas :
      (t : SignedTransaction)
      → ((s : State) (env : EnvInfo) (ex : Executed)
          → transact_virtual s env t ≡ ok ex
          → ex.gas_used + ex.refunded ≤ t.gas)
      → t.gas ≤ u256_max
      → rpc.sign_call request is_dapp ≡ inr t
      → Estimated t ⊎ BothFail t ⊎ BothPanic t
  unfolding eth_call eth_estimate_gas estimate_gas vm_checked
  eth_call-estimate_gas t bounded small signed =
      elim (Outcome-cases
        (simulate_transaction state transact_virtual c t (block_number_to_id number))) [
          | inl (ex, done) ↦
              let ran = simulated t ex done in
              let within : ex.gas_used + ex.refunded ≤ t.gas = bounded _ _ ex ran.4 in
              let fits : leb (ex.gas_used + ex.refunded) u256_max ≡ true =
                le→leb (ex.gas_used + ex.refunded) u256_max (omega (arith, within, small)) in
              inl (
                ex,
                ran,
                rw (signed, done, fits),
                within,
                elim (Option-cases ex.exception) [
                  | inl fine ↦ inl (fine, rw (signed, done, fine))
                  | inr (x, e) ↦ inr (x, e, rw (signed, done, e))
                ],
              )
          | inr (inl (e, failed)) ↦ inr (inl (e, failed, rw (signed, failed), rw (signed, failed)))
          | inr (inr failed) ↦ inr (inr (failed, rw (signed, failed), rw (signed, failed)))
        ]
