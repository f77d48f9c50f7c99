-- ===== src/Runtime/Example.antt =====
-- A small ethcore to evaluate the runtime with. A transaction is encoded as its hash, its gas and its
-- gas price; applying it uses all of its gas. A state counts the transactions applied.
use oasis_ethwasi_runtime.Prelude.{
  ℕ, suc, ◌+◌, ◌≡◌, ◌≢◌, arith, [], ◌∷◌, some, String, Outcome, ok, err, panic, ap, sym, is_some,
}
use oasis_ethwasi_runtime.Prelude.Bytes.{Bytes}
use oasis_ethwasi_runtime.Runtime.Types.{
  UnverifiedTransaction, SignedTransaction, EnvInfo, ApplyOutcome, Header, Ethcore, EthcoreLaws,
  method_tx,
}

abbrev pub decode : Bytes → Outcome String UnverifiedTransaction
decode (h ∷ g ∷ p ∷ []) =
    ok (record { hash = h; gas = g; gas_price = p; nonce = 0; action = some 5; input = [] })
decode _ = err "not a transaction"

abbrev pub outcome : EnvInfo → SignedTransaction → ApplyOutcome
outcome env t = record {
  receipt = record { gas_used = env.gas_used + t.gas; log_bloom = 0; logs = []; outcome = some 1 };
  output = [];
}

abbrev pub toy : Ethcore ℕ
toy = record {
  parse_call = λ bytes. some (record { method = method_tx; args = bytes });
  parse_args = λ bytes. some bytes;
  rlp_decode = decode;
  recover = λ t. ok 7;
  from_existing = λ root. some 0;
  apply = λ s env t. (suc s, ok (outcome env t));
  commit = λ s. some s;
}

decode_total : (bytes : Bytes) → decode bytes ≢ panic
decode_total [] h = cc
decode_total (a ∷ []) h = cc
decode_total (a ∷ b ∷ []) h = cc
decode_total (a ∷ b ∷ c ∷ []) h = cc
decode_total (a ∷ b ∷ c ∷ d ∷ bytes) h = cc

pub toy_laws : EthcoreLaws toy
toy_laws = record {
  grows = λ s env t r h.
      let same : outcome env t ≡ r = cc in
      let gas = ap (λ o. o.receipt.gas_used) same in omega arith;
  bounded = λ s env t r h.
      let same : outcome env t ≡ r = cc in
      let gas = ap (λ o. o.receipt.gas_used) same in omega arith;
  coded = λ s env t r h.
      let same : outcome env t ≡ r = cc in ap (λ o. is_some o.receipt.outcome) (sym same);
  rlp_total = decode_total;
  recover_total = λ t h. cc;
}

abbrev pub header : Header
header = record { round = 3; timestamp = 100; previous_hash = 9 }

abbrev pub unsigned : UnverifiedTransaction
unsigned = record { hash = 11; gas = 21000; gas_price = 1; nonce = 0; action = some 5; input = [] }

abbrev pub signed : SignedTransaction
signed = record { unsigned = unsigned; sender = 7 }

abbrev pub raw : Bytes
raw = 11 ∷ 21000 ∷ 1 ∷ []
