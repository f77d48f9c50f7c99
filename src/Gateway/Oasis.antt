-- ===== src/Gateway/Oasis.antt =====
-- gateway/src/impls/oasis.rs: the `oasis` RPC calls. The key manager's client, the hash of an address and
-- the texts of errors are other libraries', parameters. Metrics and logs are left out.
pub mod Invoke
use oasis_ethwasi_runtime.Prelude.{
  ℕ, Option, none, some, Bool, map_err, Outcome, ok, err, panic, ◌>>=◌, String,
}
use oasis_ethwasi_runtime.Prelude.Bytes.{Bytes}
use oasis_ethwasi_runtime.Runtime.Types.{ExecutionResult}
use oasis_ethwasi_runtime.Gateway.Client.{BlockSnapshot, Client, Codec, Error}
use oasis_ethwasi_runtime.Gateway.Middleware.{ℤ}
use oasis_ethwasi_runtime.Gateway.Translator.Submission.{send_raw_transaction}
use oasis_ethwasi_runtime.Gateway.Eth.{BlockNumber, at_block}
use oasis_ethwasi_runtime.Gateway.Eth.Calls.{RpcError, jsonrpc_error, execution_error}

-- What the key manager has of a contract's public key: the key, the checksum and the signature.
pub record RpcPublicKeyPayload : Type 0 where
  pub public_key : Bytes
  pub checksum : Bytes
  pub signature : Bytes

pub record RpcExecutionPayload : Type 0 where
  pub transaction_hash : ℕ
  pub status_code : ℕ
  pub output : Bytes

-- `get_public_key` of the key manager's client, the hash by which it knows a contract, and what an error
-- of it becomes.
pub record KeyManager (KmError : Type 0) : Type 0 where
  pub get_public_key : ℕ → Outcome KmError (Option RpcPublicKeyPayload)
  pub contract_id : ℕ → ℕ
  pub invalid_params : ℕ → KmError → RpcError

unfoldable pub public_key :
    {KmError : Type 0} → KeyManager KmError → ℕ → Outcome RpcError (Option RpcPublicKeyPayload)
public_key km contract =
    map_err (km.invalid_params contract) (km.get_public_key (km.contract_id contract))

-- `show` is the text of an error, `state` and `storage_expiry` are ethcore's.
unfoldable pub get_expiry :
    {State : Type 0}
    → (Error → Bytes)
    → (BlockSnapshot → Outcome Error State)
    → (State → ℕ → Outcome Error ℕ)
    → Client
    → ℕ
    → BlockNumber
    → Outcome RpcError ℕ
unfolding at_block jsonrpc_error
get_expiry show state storage_expiry c address number =
    map_err (λ e. jsonrpc_error (show e)) (at_block state (λ s. storage_expiry s address) c number)

unfoldable pub execution_payload : ℕ × ExecutionResult → RpcExecutionPayload
execution_payload (hash, result) = record {
  transaction_hash = hash;
  status_code = result.status_code;
  output = result.output;
}

unfoldable pub invoke :
    {Chain : Type 0}
    → (Error → Bytes)
    → ℤ
    → (Bytes → Chain → Chain × Outcome Error ExecutionResult)
    → Codec
    → Bytes
    → Chain
    → Chain × Outcome RpcError RpcExecutionPayload
unfolding send_raw_transaction execution_payload execution_error
invoke show code tx k raw chain =
    let (chain', r) = send_raw_transaction tx k raw chain in
    (chain', map_err (λ e. execution_error code (show e)) r >>= λ sent. ok (execution_payload sent))
