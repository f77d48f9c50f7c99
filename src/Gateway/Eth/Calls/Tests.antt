-- ===== src/Gateway/Eth/Calls/Tests.antt =====
-- A request that is signed and simulated on a small chain.
use oasis_ethwasi_runtime.Prelude.{
  ℕ, ◌≤◌, ◌≡◌, refl, arith, ◌⊎◌, inr, some, true, ok, Outcome, [], ap, ◌+◌,
}
use oasis_ethwasi_runtime.Prelude.Texts.{codes}
use oasis_ethwasi_runtime.Runtime.Types.{SignedTransaction, EnvInfo}
use oasis_ethwasi_runtime.Runtime.Example.{signed}
use oasis_ethwasi_runtime.Gateway.Example.{chain}
use oasis_ethwasi_runtime.Gateway.Translator.Submission.{CallError}
use oasis_ethwasi_runtime.Gateway.Eth.{latest}
use oasis_ethwasi_runtime.Gateway.Eth.Calls.{Rpc, Executed, jsonrpc_error}
use oasis_ethwasi_runtime.Gateway.Eth.Calls.Estimates.{
  Estimated, BothFail, BothPanic, eth_call-estimate_gas,
}
use oasis_ethwasi_runtime.Gateway.Middleware.{pos}

abbrev rpc : Rpc ℕ
rpc = record {
  sign_call = λ request is_dapp. inr signed;
  call_error = λ e. jsonrpc_error (codes "call");
  vm_error = λ exception output. jsonrpc_error exception;
  call_text = λ e. codes "call";
  execution_code = pos 1;
}

abbrev ran : Executed
ran = record { gas_used = 20000; refunded = 500; exception = some (codes "revert"); output = [] }

abbrev run : ℕ → EnvInfo → SignedTransaction → Outcome CallError Executed
run s env t = ok ran

ran_bounded :
    (s : ℕ) (env : EnvInfo) (ex : Executed)
    → run s env signed ≡ ok ex
    → ex.gas_used + ex.refunded ≤ 21000
ran_bounded s env ex h =
    let same : ran ≡ ex = cc in omega (arith, ap (λ x. x.gas_used) same, ap (λ x. x.refunded) same)

eth_call-estimate_gas_example :
    Estimated rpc (λ blk. some 0) run (chain 2) 5 true latest signed
    ⊎ BothFail rpc (λ blk. some 0) run (chain 2) 5 true latest signed
    ⊎ BothPanic rpc (λ blk. some 0) run (chain 2) 5 true latest signed
eth_call-estimate_gas_example =
    eth_call-estimate_gas rpc (λ blk. some 0) run (chain 2) 5 true latest signed ran_bounded
      (omega arith) refl
