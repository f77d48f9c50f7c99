-- ===== src/Gateway/Translator/Logs/Agreement.antt =====
-- The logs of the search and those of the receipts (gateway/src/translator.rs).
use text.Mathlib.Text.{◌==◌ as str_eq}
use oasis_ethwasi_runtime.Prelude.{
  ℕ, suc, ◌≡◌, refl, ap, String, ◌⊎◌, ◌∙◌, List, [], ◌∷◌, true, if◌then◌else◌, Option, none, some,
  ok, inl, inr, ◌>>=◌, >>=-eq-ok, ensure, ok_or, ensure-eq-ok, sym,
}
use oasis_ethwasi_runtime.Prelude.Bytes.{Bytes}
use oasis_ethwasi_runtime.Runtime.Types.{UnverifiedTransaction, LogEntry, method_tx}
use oasis_ethwasi_runtime.Gateway.Client.{
  TransactionSnapshot, TxnOutput, success, error, Filter, Codec, cbor_error, not_ethereum,
  rlp_error, from_result, Error,
}
use oasis_ethwasi_runtime.Gateway.Translator.{
  LocalizedTransaction, LocalizedLogEntry, LocalizedReceipt, transaction, created, localize,
  receipt_of, receipt, localized_transaction, localized_log, localized_receipt,
}
use oasis_ethwasi_runtime.Gateway.Translator.Logs.{
  matching_logs, output_logs, decoded_logs, method_logs, txn_logs,
}

ok_or-eq-ok : {A : Type 0} (o : Option A) (e : Error) {a : A} → ok_or o e ≡ ok a → o ≡ some a
ok_or-eq-ok none e h = cc
ok_or-eq-ok (some a) e h = cc

from_result-eq-ok :
    {A : Type 0} (wrap : String → Error) (r : String ⊎ A) {a : A}
    → from_result wrap r ≡ ok a
    → r ≡ inr a
from_result-eq-ok wrap (inl e) h = cc
from_result-eq-ok wrap (inr a) h = cc

-- The entries that match a filter.
pub matching : Codec → Filter → List LocalizedLogEntry → List LocalizedLogEntry
matching k f [] = []
matching k f (l ∷ ls) = let rest = matching k f ls in if k.matches f l.entry then l ∷ rest else rest

matching_logs-localize :
    (k : Codec) (f : Filter) (tx : LocalizedTransaction) (i : ℕ) (es : List LogEntry)
    → matching_logs k f tx i es ≡ matching k f (localize tx i es)
unfolding matching_logs matching localize
matching_logs-localize k f tx i [] = refl
matching_logs-localize k f tx i (e ∷ es) =
    ap (λ r. if k.matches f e then localized_log tx i e ∷ r else r)
      (matching_logs-localize k f tx (suc i) es)

-- What a transaction that decodes is made of.
record IsDecoded (k : Codec) (t : TransactionSnapshot) (tx : LocalizedTransaction) : Type 0 where
  method : str_eq t.input.method method_tx ≡ true
  raw : Bytes
  args : k.parse_args t.input.args ≡ some raw
  signed : UnverifiedTransaction
  decoded : k.rlp_decode raw ≡ inr signed
  made : localized_transaction t signed ≡ tx

transaction-IsDecoded :
    (k : Codec) (t : TransactionSnapshot) (tx : LocalizedTransaction)
    → transaction k t ≡ ok tx
    → IsDecoded k t tx
unfolding transaction
transaction-IsDecoded k t tx h =
    let tail = λ (raw : Bytes).
      from_result rlp_error (k.rlp_decode raw) >>= λ signed. ok (localized_transaction t signed) in
    let (u, e, h1) =
      >>=-eq-ok (ensure (str_eq t.input.method method_tx) not_ethereum)
        (λ u. ok_or (k.parse_args t.input.args) cbor_error >>= tail) h in
    let (raw, e1, h2) = >>=-eq-ok (ok_or (k.parse_args t.input.args) cbor_error) tail h1 in
    let (signed, e2, h3) =
      >>=-eq-ok (from_result rlp_error (k.rlp_decode raw))
        (λ signed. ok (localized_transaction t signed)) h2 in
    record {
      method = ensure-eq-ok _ _ e;
      raw = raw;
      args = ok_or-eq-ok _ _ e1;
      signed = signed;
      decoded = from_result-eq-ok rlp_error (k.rlp_decode raw) e2;
      made = cc;
    }

txn_logs-transaction :
    (k : Codec) (f : Filter) (t : TransactionSnapshot) (tx : LocalizedTransaction)
    → transaction k t ≡ ok tx
    → txn_logs k f t ≡ output_logs k f tx t.output
unfolding txn_logs method_logs decoded_logs
txn_logs-transaction k f t tx h =
    let d = transaction-IsDecoded k t tx h in
    ap (λ b. if b then method_logs k f t else []) d.method
    ∙ rw (d.args, method_logs, d.decoded, decoded_logs)
        (ap (λ x. output_logs k f x t.output) d.made)

-- A receipt speaks of the same transaction and the same logs as the other two answers.
pub record Agrees (k : Codec) (t : TransactionSnapshot) (o : TxnOutput) (r : LocalizedReceipt)
    : Type 0 where
  pub tx : LocalizedTransaction
  pub decodes : transaction k t ≡ ok tx
  pub hash : r.transaction_hash ≡ tx.hash
  pub index : r.transaction_index ≡ tx.transaction_index
  pub number : r.block_number ≡ tx.block_number
  pub block : r.block_hash ≡ tx.block_hash
  pub placed : localized_transaction t tx.signed ≡ tx
  pub contract : created k tx tx.action ≡ ok r.contract_address
  pub found : (f : Filter) → output_logs k f tx o ≡ matching k f r.logs

receipt_of-Agrees :
    (k : Codec) (t : TransactionSnapshot) (o : TxnOutput) (r : LocalizedReceipt)
    → receipt_of k t o ≡ ok r
    → Agrees k t o r
unfolding receipt_of output_logs
receipt_of-Agrees k t (success value) r h =
    let (result, e, h1) =
      >>=-eq-ok (ok_or (k.parse_result value) cbor_error)
        (λ result. transaction k t >>= λ tx.
          created k tx tx.action >>= λ contract. ok (localized_receipt result tx contract))
        h in
    let (tx, e1, h2) =
      >>=-eq-ok (transaction k t)
        (λ tx. created k tx tx.action >>= λ contract. ok (localized_receipt result tx contract))
        h1 in
    let (contract, e2, h3) =
      >>=-eq-ok (created k tx tx.action) (λ contract. ok (localized_receipt result tx contract))
        h2 in
    let same : localized_receipt result tx contract ≡ r = cc in
    let d = transaction-IsDecoded k t tx e1 in
    let result_eq : k.parse_result value ≡ some result = ok_or-eq-ok _ _ e in
    record {
      tx = tx;
      decodes = e1;
      hash = ap (λ r. r.transaction_hash) (sym same);
      index = ap (λ r. r.transaction_index) (sym same);
      number = ap (λ r. r.block_number) (sym same);
      block = ap (λ r. r.block_hash) (sym same);
      placed = ap (λ x. localized_transaction t x.signed) (sym d.made) ∙ d.made;
      contract = e2 ∙ ap (λ r. ok r.contract_address) same;
      found = λ f.
          rw (result_eq, output_logs)
            (matching_logs-localize k f tx 0 result.logs ∙ ap (λ r. matching k f r.logs) same);
    }
receipt_of-Agrees k t (error message) r h = cc

-- A transaction that has a receipt also decodes as a transaction, of the same hash, index and block;
-- the receipt names a contract exactly as the transaction's action says. A search whose query finds
-- the transaction reports of it just the logs of the receipt that match the filter, in their order.
pub receipt-Agrees :
    (k : Codec) (t : TransactionSnapshot) (r : LocalizedReceipt)
    → receipt k t ≡ ok r
    → Agrees k t t.output r × ((f : Filter) → txn_logs k f t ≡ matching k f r.logs)
unfolding receipt
receipt-Agrees k t r h =
    let a = receipt_of-Agrees k t t.output r h in
    (a, λ f. txn_logs-transaction k f t a.tx a.decodes ∙ a.found f)
