-- ===== src/Gateway/Translator/Logs.antt =====
-- The search for logs (`logs` of gateway/src/translator.rs). Messages to the log are left out.
pub mod Order
pub mod Agreement
pub mod Index
mod Tests
use text.Mathlib.Text.{◌==◌ as str_eq}
use oasis_ethwasi_runtime.Prelude.{
  ℕ, suc, List, [], ◌∷◌, ◌++◌, Option, none, some, String, Bool, leb, if◌then◌else◌, Outcome, ok,
  ◌>>=◌, ◌>>◌, inl, inr,
}
use oasis_ethwasi_runtime.Runtime.Types.{
  LogEntry, UnverifiedTransaction, method_tx, tag_eth_log_address, tag_eth_log_topics,
}
use oasis_ethwasi_runtime.Gateway.Client.{
  BlockSnapshot, TransactionSnapshot, TxnOutput, success, error, QueryCondition, Query, Filter,
  Error, Client, Codec,
}
use oasis_ethwasi_runtime.Gateway.Translator.{
  get_block_unwrap, LocalizedTransaction, LocalizedLogEntry, localized_transaction, localized_log,
}

-- A transaction must emit logs for one of the addresses, if the filter names addresses.
pub address_conditions : Option (List ℕ) → List QueryCondition
address_conditions none = []
address_conditions (some addresses) = record { key = tag_eth_log_address; values = addresses } ∷ []

-- Each topic that is given goes with the tag of its place; there are four tags.
pub topic_conditions : List (Option (List ℕ)) → List String → List QueryCondition
topic_conditions [] tags = []
topic_conditions (t ∷ ts) [] = []
topic_conditions (none ∷ ts) (tag ∷ tags) = topic_conditions ts tags
topic_conditions (some values ∷ ts) (tag ∷ tags) =
    record { key = tag; values = values } ∷ topic_conditions ts tags

abbrev pub or_zero : Option ℕ → ℕ
or_zero none = 0
or_zero (some n) = n

unfoldable pub log_query : Filter → BlockSnapshot → BlockSnapshot → Query
unfolding address_conditions topic_conditions
log_query f from to = record {
  round_min = from.header.round;
  round_max = to.header.round;
  conditions = address_conditions f.address ++ topic_conditions f.topics tag_eth_log_topics;
  limit = or_zero f.limit;
}

-- The entries from the `i`-th on that match the filter.
unfoldable pub matching_logs :
    Codec → Filter → LocalizedTransaction → ℕ → List LogEntry → List LocalizedLogEntry
matching_logs k f tx i [] = []
matching_logs k f tx i (e ∷ es) =
    let rest = matching_logs k f tx (suc i) es in
    if k.matches f e then localized_log tx i e ∷ rest else rest

unfoldable pub output_logs :
    Codec → Filter → LocalizedTransaction → TxnOutput → List LocalizedLogEntry
unfolding matching_logs
output_logs k f tx (success value) = elim (k.parse_result value) [
  | none ↦ []
  | some result ↦ matching_logs k f tx 0 result.logs
]
output_logs k f tx (error message) = []

unfoldable pub decoded_logs :
    Codec → Filter → TransactionSnapshot → UnverifiedTransaction → List LocalizedLogEntry
unfolding output_logs
decoded_logs k f t signed = output_logs k f (localized_transaction t signed) t.output

unfoldable pub method_logs : Codec → Filter → TransactionSnapshot → List LocalizedLogEntry
unfolding decoded_logs
method_logs k f t = elim (k.parse_args t.input.args) [
  | none ↦ []
  | some raw ↦ elim (k.rlp_decode raw) [ inl e ↦ [] | inr signed ↦ decoded_logs k f t signed ]
]

unfoldable pub txn_logs : Codec → Filter → TransactionSnapshot → List LocalizedLogEntry
unfolding method_logs
txn_logs k f t = if str_eq t.input.method method_tx then method_logs k f t else []

unfoldable pub flat_map_logs : Codec → Filter → List TransactionSnapshot → List LocalizedLogEntry
unfolding txn_logs
flat_map_logs k f [] = []
flat_map_logs k f (t ∷ ts) = txn_logs k f t ++ flat_map_logs k f ts

-- `sort_by` on block numbers, which is stable.
unfoldable pub insert_log : LocalizedLogEntry → List LocalizedLogEntry → List LocalizedLogEntry
insert_log x [] = x ∷ []
insert_log x (y ∷ ys) =
    let rest = insert_log x ys in if leb x.block_number y.block_number then x ∷ y ∷ ys else y ∷ rest

unfoldable pub sort_logs : List LocalizedLogEntry → List LocalizedLogEntry
unfolding insert_log
sort_logs [] = []
sort_logs (x ∷ xs) = insert_log x (sort_logs xs)

-- The last block is waited for until it is indexed.
unfoldable pub search :
    Client → Codec → Filter → BlockSnapshot → BlockSnapshot → Outcome Error (List LocalizedLogEntry)
unfolding log_query flat_map_logs sort_logs
search c k f from to =
    c.wait_block_indexed to.header.round
    >> (c.query_txs (log_query f from to) >>= λ txns. ok (sort_logs (flat_map_logs k f txns)))

-- Both blocks are resolved first.
unfoldable pub logs : Client → Codec → Filter → Outcome Error (List LocalizedLogEntry)
unfolding search
logs c k f = get_block_unwrap c f.from_block >>= λ from.
    get_block_unwrap c f.to_block >>= λ to. search c k f from to
