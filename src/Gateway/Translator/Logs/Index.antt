-- ===== src/Gateway/Translator/Logs/Index.antt =====
-- The tags that the runtime emits (src/methods.rs) and the query that the gateway's search makes of a
-- filter (gateway/src/translator.rs).
use text.Mathlib.Text.{◌==◌ as str_eq}
use text.Mathlib.TextEquality.{eq_iff}
use oasis_ethwasi_runtime.Prelude.{
  ℕ, ◌≡◌, refl, sym, subst, List, [], ◌∷◌, ◌++◌, Option, none, some, String, Bool, true, false,
  ◌&&◌, ◌||◌, All, contains, get_elem?, ok, arith, suc, zero,
}
use oasis_ethwasi_runtime.Runtime.Types.{
  LogEntry, ExecutionResult, SignedTransaction, Tag, Ethcore, EthcoreLaws, tag_eth_tx_hash,
  tag_eth_log_address, tag_eth_log_topics,
}
use oasis_ethwasi_runtime.Runtime.Block.{TxnContext}
use oasis_ethwasi_runtime.Runtime.Methods.{topic_tags, log_tags, txn_tags, execute_tx}
use oasis_ethwasi_runtime.Runtime.Methods.Execution.{execute_tx-ok}
use oasis_ethwasi_runtime.Gateway.Client.{BlockSnapshot, QueryCondition, Filter}
use oasis_ethwasi_runtime.Gateway.Translator.Logs.{address_conditions, topic_conditions, log_query}

-- A tagged transaction meets a condition by one tag of the condition's key with one of its values.
pub meets : List Tag → QueryCondition → Bool
meets [] c = false
meets (t ∷ tags) c = (str_eq t.key c.key && contains t.value c.values) || meets tags c

-- A log that a filter asks for: it comes from one of the addresses, if there are any given, and has at
-- each place where topics are given one of them.
abbrev pub IsFrom : Option (List ℕ) → ℕ → Type 0
IsFrom none a = Unit
IsFrom (some addresses) a = contains a addresses ≡ true

abbrev pub HasTopics : List (Option (List ℕ)) → List ℕ → Type 0
HasTopics [] topics = Unit
HasTopics (none ∷ fs) [] = HasTopics fs []
HasTopics (none ∷ fs) (t ∷ ts) = HasTopics fs ts
HasTopics (some values ∷ fs) [] = Path Bool true false
HasTopics (some values ∷ fs) (t ∷ ts) = (contains t values ≡ true) × HasTopics fs ts

abbrev pub AllMet : List Tag → List QueryCondition → Type 0
AllMet tags cs = All (λ c. meets tags c ≡ true) cs

meets_first :
    (key : String) (value : ℕ) (values : List ℕ) (tags : List Tag)
    → contains value values ≡ true
    → meets (record { key = key; value = value } ∷ tags) (record { key = key; values = values })
      ≡ true
unfolding meets
meets_first key value values tags h =
    let same : str_eq key key ≡ true = (eq_iff key key).1 refl in ground arith

meets_later :
    (t : Tag) (tags : List Tag) (c : QueryCondition)
    → meets tags c ≡ true
    → meets (t ∷ tags) c ≡ true
unfolding meets
meets_later t tags c h = ground arith

meets-append_left :
    (xs ys : List Tag) (c : QueryCondition) → meets xs c ≡ true → meets (xs ++ ys) c ≡ true
unfolding meets
meets-append_left [] ys c h = cc
meets-append_left (t ∷ xs) ys c h = ground (arith, meets-append_left xs ys c)

meets-append_right :
    (xs ys : List Tag) (c : QueryCondition) → meets ys c ≡ true → meets (xs ++ ys) c ≡ true
meets-append_right [] ys c h = h
meets-append_right (t ∷ xs) ys c h = meets_later t (xs ++ ys) c (meets-append_right xs ys c h)

AllMet-mono :
    (xs ys : List Tag) (cs : List QueryCondition)
    → ((c : QueryCondition) → meets xs c ≡ true → meets ys c ≡ true)
    → AllMet xs cs
    → AllMet ys cs
AllMet-mono xs ys [] up all = tt
AllMet-mono xs ys (c ∷ cs) up all = (up c all.0, AllMet-mono xs ys cs up all.1)

AllMet-append :
    (tags : List Tag) (cs ds : List QueryCondition)
    → AllMet tags cs
    → AllMet tags ds
    → AllMet tags (cs ++ ds)
AllMet-append tags [] ds a b = b
AllMet-append tags (c ∷ cs) ds a b = (a.0, AllMet-append tags cs ds a.1 b)

topics_met :
    (fs : List (Option (List ℕ))) (topics : List ℕ) (keys : List String)
    → HasTopics fs topics
    → AllMet (topic_tags topics keys) (topic_conditions fs keys)
unfolding topic_tags topic_conditions
topics_met [] topics keys h = tt
topics_met (f ∷ fs) topics [] h = tt
topics_met (none ∷ fs) [] (k ∷ keys) h = topics_met fs [] keys h
topics_met (none ∷ fs) (t ∷ ts) (k ∷ keys) h =
    AllMet-mono (topic_tags ts keys) _ (topic_conditions fs keys) (λ c. meets_later _ _ c)
      (topics_met fs ts keys h)
topics_met (some values ∷ fs) [] (k ∷ keys) h = cc
topics_met (some values ∷ fs) (t ∷ ts) (k ∷ keys) h = (
  meets_first k t values (topic_tags ts keys) h.0,
  AllMet-mono (topic_tags ts keys) _ (topic_conditions fs keys) (λ c. meets_later _ _ c)
      (topics_met fs ts keys h.1),
)

address_met :
    (addresses : Option (List ℕ)) (a : ℕ) (tags : List Tag)
    → IsFrom addresses a
    → AllMet (record { key = tag_eth_log_address; value = a } ∷ tags) (address_conditions addresses)
unfolding address_conditions
address_met none a tags h = tt
address_met (some addresses) a tags h = (meets_first tag_eth_log_address a addresses tags h, tt)

log_met :
    (f : Filter) (from to : BlockSnapshot) (logs : List LogEntry) (i : ℕ) (e : LogEntry)
    → get_elem? logs i ≡ some e
    → IsFrom f.address e.address
    → HasTopics f.topics e.topics
    → AllMet (log_tags logs) (log_query f from to).conditions
unfolding log_tags log_query
log_met f from to [] i e h a ts = cc
log_met f from to (l ∷ logs) zero e h a ts =
    let same : l ≡ e = cc in
    let tags = topic_tags l.topics tag_eth_log_topics in
    let all = λ (c : QueryCondition) (m : meets tags c ≡ true).
      meets_later (record { key = tag_eth_log_address; value = l.address }) (tags ++ log_tags logs)
        c (meets-append_left tags (log_tags logs) c m) in
    AllMet-append _ (address_conditions f.address) (topic_conditions f.topics tag_eth_log_topics)
      (address_met f.address l.address _ (subst (λ x. IsFrom f.address x.address) (sym same) a))
      (AllMet-mono tags _ (topic_conditions f.topics tag_eth_log_topics) all (
        topics_met f.topics l.topics tag_eth_log_topics
          (subst (λ x. HasTopics f.topics x.topics) (sym same) ts)))
log_met f from to (l ∷ logs) (suc i) e h a ts =
    AllMet-mono (log_tags logs) _ (log_query f from to).conditions
      (λ c m. meets_later _ _ c (meets-append_right (topic_tags l.topics tag_eth_log_topics) _ c m))
      (log_met f from to logs i e h a ts)

-- Under ethcore's laws: the tags that a successful execution leaves meet the condition by which the
-- gateway looks up the transaction's hash and, if one of its logs is from an address and has the
-- topics that a filter asks for, every condition of the query that the gateway makes of that filter.
pub execute_tx-AllMet :
    {State : Type 0} (e : Ethcore State) (laws : EthcoreLaws e) (ctx : TxnContext State)
    (t : SignedTransaction) (r : ExecutionResult) (f : Filter) (from to : BlockSnapshot) (i : ℕ)
    (l : LogEntry)
    → (execute_tx e ctx t).1 ≡ ok r
    → get_elem? r.logs i ≡ some l
    → IsFrom f.address l.address
    → HasTopics f.topics l.topics
    → let tags = (execute_tx e ctx t).0.tags in
      (meets tags (record { key = tag_eth_tx_hash; values = t.hash ∷ [] }) ≡ true)
      × AllMet tags (log_query f from to).conditions
unfolding txn_tags
execute_tx-AllMet e laws ctx t r f from to i l done found a ts =
    let emitted = (execute_tx-ok e laws ctx t r done).tagged in
    let own = txn_tags t.hash r.logs in
    let up = λ (c : QueryCondition) (m : meets own c ≡ true).
      subst (λ tags. meets tags c ≡ true) (sym emitted) (meets-append_right ctx.tags own c m) in
    let itself : contains t.hash (t.hash ∷ []) ≡ true = ground arith in
    let all =
      AllMet-mono (log_tags r.logs) own (log_query f from to).conditions
        (λ c. meets_later (record { key = tag_eth_tx_hash; value = t.hash }) (log_tags r.logs) c)
        (log_met f from to r.logs i l found a ts) in
    (
      up (record { key = tag_eth_tx_hash; values = t.hash ∷ [] })
          (meets_first tag_eth_tx_hash t.hash (t.hash ∷ []) (log_tags r.logs) itself),
      AllMet-mono own _ (log_query f from to).conditions up all,
    )
