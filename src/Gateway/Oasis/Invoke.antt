-- ===== src/Gateway/Oasis/Invoke.antt =====
-- `oasis_invoke` (gateway/src/impls/oasis.rs) and `eth_sendRawTransaction` (gateway/src/impls/eth.rs).
use oasis_ethwasi_runtime.Prelude.{◌≡◌, refl, Outcome, ok, ◌>>=◌, map_err, Outcome-cases, inl, inr}
use oasis_ethwasi_runtime.Prelude.Bytes.{Bytes}
use oasis_ethwasi_runtime.Runtime.Types.{ExecutionResult}
use oasis_ethwasi_runtime.Gateway.Client.{Codec, Error}
use oasis_ethwasi_runtime.Gateway.Middleware.{ℤ}
use oasis_ethwasi_runtime.Gateway.Translator.Submission.{send_raw_transaction}
use oasis_ethwasi_runtime.Gateway.Eth.{eth_send_raw_transaction}
use oasis_ethwasi_runtime.Gateway.Eth.Calls.{execution_error}
use oasis_ethwasi_runtime.Gateway.Oasis.{execution_payload, invoke}

-- On the same payload and the same chain, `oasis_invoke` leaves the chain that `eth_sendRawTransaction`
-- leaves, answers where that answers and with the same hash, and reports its errors.
pub invoke-send_raw_transaction :
    {Chain : Type 0} (show : Error → Bytes) (code : ℤ)
    (tx : Bytes → Chain → Chain × Outcome Error ExecutionResult) (k : Codec) (raw : Bytes)
    (chain : Chain)
    → let (after, payload) = invoke show code tx k raw chain in
      (after ≡ (eth_send_raw_transaction tx k raw chain).0)
      × ((payload >>= λ p. ok p.transaction_hash)
          ≡ map_err
              (λ e. execution_error code (show e))
              (eth_send_raw_transaction tx k raw chain).1)
unfolding invoke eth_send_raw_transaction execution_payload
invoke-send_raw_transaction show code tx k raw chain =
    elim (Outcome-cases (send_raw_transaction tx k raw chain).1) [
      | inl (sent, e) ↦ (refl, rw (e))
      | inr (inl (x, e)) ↦ (refl, rw (e))
      | inr (inr e) ↦ (refl, rw (e))
    ]
