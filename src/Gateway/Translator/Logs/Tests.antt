-- ===== src/Gateway/Translator/Logs/Tests.antt =====
-- A transaction whose execution logs something that a filter asks for.
use oasis_ethwasi_runtime.Prelude.{
  ℕ, suc, ◌+◌, ◌≡◌, refl, ap, sym, [], ◌∷◌, none, some, true, false, ok, is_some, arith,
}
use oasis_ethwasi_runtime.Runtime.Types.{
  LogEntry, EnvInfo, SignedTransaction, ApplyOutcome, ExecutionResult, Ethcore, EthcoreLaws,
  tag_eth_tx_hash,
}
use oasis_ethwasi_runtime.Runtime.Block.{TxnContext, new_context}
use oasis_ethwasi_runtime.Runtime.Methods.{execute_tx, apply_tx, record_outcome, txn_tags}
use oasis_ethwasi_runtime.Runtime.Example.{toy, toy_laws, header, signed}
use oasis_ethwasi_runtime.Gateway.Client.{Filter}
use oasis_ethwasi_runtime.Gateway.Example.{block, everything}
use oasis_ethwasi_runtime.Gateway.Translator.Logs.{log_query}
use oasis_ethwasi_runtime.Gateway.Translator.Logs.Index.{meets, AllMet, execute_tx-AllMet}

abbrev transfer : LogEntry
transfer = record { address = 5; topics = 40 ∷ 41 ∷ []; payload = [] }

abbrev logged : EnvInfo → SignedTransaction → ApplyOutcome
logged env t = record {
  receipt = record {
    gas_used = env.gas_used + t.gas;
    log_bloom = 0;
    logs = transfer ∷ [];
    outcome = some 1;
  };
  output = [];
}

abbrev logging : Ethcore ℕ
logging = record toy { apply = λ s env t. (suc s, ok (logged env t)) }

logging_laws : EthcoreLaws logging
logging_laws = record {
  grows = λ s env t r h.
      let same : logged env t ≡ r = cc in
      let gas = ap (λ o. o.receipt.gas_used) same in omega arith;
  bounded = λ s env t r h.
      let same : logged env t ≡ r = cc in
      let gas = ap (λ o. o.receipt.gas_used) same in omega arith;
  coded = λ s env t r h.
      let same : logged env t ≡ r = cc in ap (λ o. is_some o.receipt.outcome) (sym same);
  rlp_total = toy_laws.rlp_total;
  recover_total = toy_laws.recover_total;
}

abbrev transfers : Filter
transfers = record everything { address = some (6 ∷ 5 ∷ []); topics = none ∷ some (41 ∷ []) ∷ [] }

abbrev started : TxnContext ℕ
started = new_context 0 header false

abbrev executed : ExecutionResult
executed = record {
  cumulative_gas_used = 21000;
  gas_used = 21000;
  log_bloom = 0;
  logs = transfer ∷ [];
  status_code = 1;
  output = [];
}

execute_tx-AllMet_example :
    (meets
        (execute_tx logging started signed).0.tags
        (record { key = tag_eth_tx_hash; values = 11 ∷ [] })
      ≡ true)
    × AllMet
        (execute_tx logging started signed).0.tags
        (log_query transfers (block 1) (block 2)).conditions
unfolding execute_tx apply_tx record_outcome txn_tags
execute_tx-AllMet_example =
    execute_tx-AllMet logging logging_laws started signed executed transfers (block 1) (block 2) 0
      transfer refl refl refl (refl, tt)
