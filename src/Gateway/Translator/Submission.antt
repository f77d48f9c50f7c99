-- ===== src/Gateway/Translator/Submission.antt =====
-- Transactions sent and simulated (`send_raw_transaction`, `simulate_transaction`, `estimate_gas` of
-- gateway/src/translator.rs).
pub mod Retries
use oasis_ethwasi_runtime.Prelude.{
  ℕ, zero, suc, ◌+◌, ◌-◌, ◌^◌, List, [], ◌∷◌, Option, Bool, true, false, if◌then◌else◌, map_err,
  ok_or, Outcome, ok, err, panic, ◌>>=◌,
}
use oasis_ethwasi_runtime.Prelude.Bytes.{Bytes}
use oasis_ethwasi_runtime.Runtime.Types.{
  UnverifiedTransaction, ExecutionResult, TransactionError, block_gas_limit_reached, EnvInfo,
  SignedTransaction,
}
use oasis_ethwasi_runtime.Gateway.Client.{
  BlockSnapshot, BlockId, Error, rlp_error, signature_error, transaction_error, Client, Codec,
  from_result,
}
use oasis_ethwasi_runtime.Gateway.Translator.{get_block}

abbrev pub max_retries : ℕ
max_retries = 5

-- The one error that a submission is repeated for.
abbrev pub is_full : Outcome Error ExecutionResult → Bool
is_full (err (transaction_error block_gas_limit_reached)) = true
is_full _ = false

-- What the loop breaks with.
abbrev pub with_hash : ℕ → Outcome Error ExecutionResult → Outcome Error (ℕ × ExecutionResult)
with_hash hash r = r >>= λ result. ok (hash, result)

-- The chain that the client submits to has a state of its own, which `tx` moves.
module _ {Chain : Type 0} (tx : Bytes → Chain → Chain × Outcome Error ExecutionResult) where
  -- The loop, with the retries left.
  unfoldable pub submit : ℕ → Bytes → ℕ → Chain → Chain × Outcome Error (ℕ × ExecutionResult)
  submit zero payload hash chain = let (chain', r) = tx payload chain in (chain', with_hash hash r)
  submit (suc retries) payload hash chain =
      let (chain', r) = tx payload chain in
      let again = submit retries payload hash chain' in
      if is_full r then again else (chain', with_hash hash r)

  unfoldable pub submit_decoded :
      Bytes
      → Outcome Error (UnverifiedTransaction × ℕ)
      → Chain
      → Chain × Outcome Error (ℕ × ExecutionResult)
  unfolding submit
  submit_decoded raw (ok (decoded, sender)) chain = submit max_retries raw decoded.hash chain
  submit_decoded raw (err e) chain = (chain, err e)
  submit_decoded raw panic chain = (chain, panic)

  unfoldable pub send_raw_transaction :
      Codec → Bytes → Chain → Chain × Outcome Error (ℕ × ExecutionResult)
  unfolding submit_decoded
  send_raw_transaction k raw chain =
      submit_decoded raw
        (from_result rlp_error (k.rlp_decode raw) >>= λ decoded.
          from_result signature_error (k.recover decoded) >>= λ sender. ok (decoded, sender))
        chain

pub data CallError : Type 0 where
  state_corrupt state_pruned execution : CallError

abbrev pub u256_max : ℕ
u256_max = 2 ^ 256 - 1

-- `state` opens the state of a block, `transact_virtual` runs a transaction on it without checking its
-- nonce; the thread pool is left out.
module _ {State Executed : Type 0} (state : BlockSnapshot → Option State)
    (transact_virtual : State → EnvInfo → SignedTransaction → Outcome CallError Executed) where
  unfoldable pub simulation_env : BlockSnapshot → EnvInfo
  simulation_env blk = record {
    number = blk.header.round + 1;
    timestamp = blk.header.timestamp;
    gas_limit = u256_max;
    last_hashes = blk.header.previous_hash ∷ [];
    gas_used = 0;
  }

  unfoldable pub simulate_transaction :
      Client → SignedTransaction → BlockId → Outcome CallError Executed
  unfolding simulation_env
  simulate_transaction c t id = map_err (λ e. state_corrupt) (get_block c id) >>= λ blk.
      ok_or blk state_pruned >>= λ b.
      ok_or (state b) state_corrupt >>= λ s. transact_virtual s (simulation_env b) t
