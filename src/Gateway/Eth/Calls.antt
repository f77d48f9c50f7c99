-- ===== src/Gateway/Eth/Calls.antt =====
-- gateway/src/impls/eth.rs and gateway/src/util.rs: `eth_call` and `eth_estimateGas`, the wrapping of
-- errors, the price in wei, and the calls that return a constant. An amount is a U256, whose `+` panics
-- where it overflows and whose `saturating_mul` stops at the greatest value.
pub mod Estimates
mod Tests
use oasis_ethwasi_runtime.Prelude.{
  ℕ, ◌+◌, ◌*◌, min, List, [], Option, none, some, Bool, true, false, ◌++◌, leb, if◌then◌else◌,
  map_err, Outcome, ok, err, panic, ◌>>=◌, ◌⊎◌, inl, inr,
}
use oasis_ethwasi_runtime.Prelude.Bytes.{Bytes}
use oasis_ethwasi_runtime.Prelude.Texts.{codes}
use oasis_ethwasi_runtime.Runtime.Types.{SignedTransaction, EnvInfo}
use oasis_ethwasi_runtime.Gateway.Client.{BlockSnapshot, BlockId, Client}
use oasis_ethwasi_runtime.Gateway.Middleware.{ℤ, negsuc}
use oasis_ethwasi_runtime.Gateway.Translator.{Translator}
use oasis_ethwasi_runtime.Gateway.Translator.Submission.{CallError, u256_max, simulate_transaction}
use oasis_ethwasi_runtime.Gateway.Eth.{BlockNumber, block_number_to_id}

unfoldable pub gwei_to_wei : ℕ → ℕ
gwei_to_wei gwei = min (gwei * 1000000000) u256_max

pub record RpcError : Type 0 where
  pub code : ℤ
  pub message : Bytes
  pub payload : Option Bytes

-- The code of an internal error is -32603. The text is that of the error.
unfoldable pub jsonrpc_error : Bytes → RpcError
jsonrpc_error text = record { code = negsuc 32602; message = text; payload = none }

-- The code is a constant of parity_rpc.
unfoldable pub execution_error : ℤ → Bytes → RpcError
execution_error execution_code text = record {
  code = execution_code;
  message = codes "Transaction execution error with cause: " ++ text;
  payload = some text;
}

-- What ethcore says of a transaction that was run; an exception is kept as its text.
pub record Executed : Type 0 where
  pub gas_used : ℕ
  pub refunded : ℕ
  pub exception : Option Bytes
  pub output : Bytes

-- parity_rpc's signing of a call that has no signature, and its errors.
pub record Rpc (Request : Type 0) : Type 0 where
  pub sign_call : Request → Bool → RpcError ⊎ SignedTransaction
  pub call_error : CallError → RpcError
  pub vm_error : Bytes → Bytes → RpcError
  pub call_text : CallError → Bytes
  pub execution_code : ℤ

abbrev pub u256_add : {E : Type 0} → ℕ → ℕ → Outcome E ℕ
u256_add a b = if leb (a + b) u256_max then ok (a + b) else panic

abbrev pub try_signed :
    {A : Type 0}
    → RpcError ⊎ SignedTransaction
    → (SignedTransaction → Outcome RpcError A)
    → Outcome RpcError A
try_signed (inl e) next = err e
try_signed (inr signed) next = next signed

module _ {Request State : Type 0} (rpc : Rpc Request) (state : BlockSnapshot → Option State)
    (transact_virtual : State → EnvInfo → SignedTransaction → Outcome CallError Executed) where
  -- `Translator::estimate_gas`.
  unfoldable pub estimate_gas : Client → SignedTransaction → BlockId → Outcome CallError ℕ
  unfolding simulate_transaction
  estimate_gas c t id = simulate_transaction state transact_virtual c t id >>= λ executed.
      u256_add executed.gas_used executed.refunded

  -- `executed.exception`, which is an error of the call.
  unfoldable pub vm_checked : Option Bytes → Executed → Outcome RpcError Executed
  vm_checked none executed = ok executed
  vm_checked (some exception) executed = err (rpc.vm_error exception executed.output)

  unfoldable pub eth_call : Client → Request → Bool → BlockNumber → Outcome RpcError Bytes
  unfolding simulate_transaction vm_checked block_number_to_id
  eth_call c request is_dapp number = try_signed (rpc.sign_call request is_dapp) (λ signed.
      map_err rpc.call_error
        (simulate_transaction state transact_virtual c signed (block_number_to_id number))
      >>= λ executed. vm_checked executed.exception executed >>= λ fine. ok fine.output)

  unfoldable pub eth_estimate_gas : Client → Request → Bool → BlockNumber → Outcome RpcError ℕ
  unfolding estimate_gas execution_error block_number_to_id
  eth_estimate_gas c request is_dapp number = try_signed (rpc.sign_call request is_dapp) (λ signed.
      map_err (λ e. execution_error rpc.execution_code (rpc.call_text e))
        (estimate_gas c signed (block_number_to_id number)))

unfoldable pub eth_gas_price : Translator → ℕ
eth_gas_price translator = translator.gas_price

-- The calls that do not look at the chain.
abbrev pub protocol_version : Bytes
protocol_version = codes "63"

abbrev pub syncing : Bool
syncing = false

abbrev pub author : ℕ
author = 0

abbrev pub is_mining : Bool
is_mining = true

abbrev pub hashrate : ℕ
hashrate = 0

abbrev pub accounts : List ℕ
accounts = []

abbrev pub block_uncles_count_by_hash : ℕ → Option ℕ
block_uncles_count_by_hash hash = none

abbrev pub block_uncles_count_by_number : BlockNumber → Option ℕ
block_uncles_count_by_number number = none
