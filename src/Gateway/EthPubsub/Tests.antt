-- ===== src/Gateway/EthPubsub/Tests.antt =====
-- A table of subscribers to evaluate subscriptions with: pairs of an id and a subscriber.
use oasis_ethwasi_runtime.Prelude.{
  ℕ, ◌≡◌, ◌≢◌, refl, List, [], ◌∷◌, Option, none, some, Bool, true, false, ◌==◌, if◌then◌else◌, map,
  length, All, Bool-cases, inl, inr, ok, err, Outcome, ◌-◌, arith, ◌≤◌, le→leb,
}
use oasis_ethwasi_runtime.Gateway.Example.{block, chain, codec, everything}
use oasis_ethwasi_runtime.Gateway.Client.{Filter}
use oasis_ethwasi_runtime.Gateway.Translator.{get_block_unwrap}
use oasis_ethwasi_runtime.Gateway.Translator.Logs.{logs}
use oasis_ethwasi_runtime.Gateway.Pubsub.{Broker, start}
use oasis_ethwasi_runtime.Gateway.Pubsub.Gathered.{occurrences}
use oasis_ethwasi_runtime.Gateway.Pubsub.Polls.{by_polls}
use oasis_ethwasi_runtime.Gateway.Pubsub.Once.{newest, blocks}
use oasis_ethwasi_runtime.Gateway.EthPubsub.{
  Subscribers, SubscribersLaws, State, TxEntry, subscribe, completed_transaction,
  transaction_params,
}
use oasis_ethwasi_runtime.Gateway.EthPubsub.Handling.{handled}
use oasis_ethwasi_runtime.Gateway.EthPubsub.Handling.LogEntries.{
  entries, filters, found, subscriber_hears_logs,
}
use oasis_ethwasi_runtime.Gateway.EthPubsub.Handling.Outcomes.{is_outcome, outcomes_never_sent}
use oasis_ethwasi_runtime.Gateway.EthPubsub.Heads.{numbers, on_notices, subscriber_hears_all_heads}

abbrev Table : Type 0 → Type 0
Table A = List (ℕ × (ℕ × A))

abbrev find : {A : Type 0} → ℕ → Table A → Option (ℕ × A)
find id [] = none
find id (row ∷ rows) = let rest = find id rows in if row.0 == id then some row.1 else rest

abbrev delete : {A : Type 0} → ℕ → Table A → Table A
delete id [] = []
delete id (row ∷ rows) = let rest = delete id rows in if row.0 == id then rest else row ∷ rest

abbrev is_nil : {A : Type 0} → List A → Bool
is_nil [] = true
is_nil (x ∷ xs) = false

abbrev table : (A : Type 0) → Subscribers A (Table A)
table A = record {
  push = λ client a t. (length t, (client, a)) ∷ t;
  find = find;
  remove = λ id t. (delete id t, find id t);
  values = map (λ row. row.1);
  is_empty = is_nil;
}

find-delete_self : {A : Type 0} (id : ℕ) (t : Table A) → find id (delete id t) ≡ none
find-delete_self id [] = refl
find-delete_self id (row ∷ rows) = elim (Bool-cases (row.0 == id)) [
  | inl e ↦ rw (e) (find-delete_self id rows)
  | inr e ↦ rw (e, e) (find-delete_self id rows)
]

find-delete_ne : {A : Type 0} (id j : ℕ) (t : Table A) → id ≢ j → find j (delete id t) ≡ find j t
find-delete_ne id j [] ne = refl
find-delete_ne id j (row ∷ rows) ne =
    let rest = find-delete_ne id j rows ne in
    elim (Bool-cases (row.0 == id)) [
      | inl e ↦ let other : (row.0 == j) ≡ false = ground arith in rw (e, other) rest
      | inr e ↦ elim (Bool-cases (row.0 == j)) [ inl f ↦ rw (e, f) | inr f ↦ rw (e, f) rest ]
    ]

values-nil : {A : Type 0} (t : Table A) → is_nil t ≡ true → map (λ row. row.1) t ≡ []
values-nil [] h = refl
values-nil (row ∷ rows) h = cc

table_laws : (A : Type 0) → SubscribersLaws (table A)
table_laws A = record {
  remove_returns = λ id t. refl;
  remove_self = λ id t. find-delete_self id t;
  remove_ne = λ id j t ne. find-delete_ne id j t ne;
  empty = λ t h. values-nil t h;
}

abbrev subscribers : Table (Unit {0})
subscribers = (4, (20, tt)) ∷ (5, (21, tt)) ∷ []

abbrev polls : List (Outcome ℕ ℕ)
polls = ok 4 ∷ ok 3 ∷ ok 7 ∷ err 0 ∷ []

abbrev broker : Broker
broker = record { last_notified_block = 2; listeners = 8 ∷ 9 ∷ [] }

get_block-block : (n : ℕ) → n ≤ 9 → (chain 9).get_block n ≡ ok (some (block n))
get_block-block n h = rw (le→leb n 9 h)

subscriber_hears_all_heads_example :
    numbers 21 (
      on_notices
        (table (Unit {0}))
        (table_laws (Unit {0}))
        0
        []
        (chain 9)
        (λ n. (subscribers, subscribers))
        9
        (start (λ l. true) polls broker).notices)
    ≡ blocks 3 (newest polls 2 - 2)
unfolding occurrences newest
subscriber_hears_all_heads_example =
    subscriber_hears_all_heads (table (Unit {0})) (table_laws (Unit {0})) 0 [] (chain 9) 9 block
      get_block-block (λ n. refl) 21 (λ n. (subscribers, subscribers)) (λ l. true) 9 polls broker
      refl refl (omega arith) (λ n. refl) (λ n. refl)

abbrev takes : ℕ → TxEntry → Bool
takes f entry = true

abbrev tables : State (table (Unit {0})) (table Filter) (table ℕ) takes
tables = record {
  heads_subscribers = subscribers;
  logs_subscribers = (7, (22, everything)) ∷ [];
  tx_subscribers = (8, (23, 1)) ∷ [];
}

outcomes_never_sent_example :
    ((subscribe
        (table (Unit {0}))
        (table Filter)
        (table ℕ)
        takes
        24
        completed_transaction
        (transaction_params 6)
        tables).1
      ≡ none)
    × All
        (λ sent. is_outcome sent.message ≡ false)
        (handled
          (table (Unit {0}))
          (table Filter)
          (table ℕ)
          takes
          0
          []
          (chain 9)
          codec
          (λ n. (tables, tables))
          9
          (start (λ l. true) polls broker).notices)
outcomes_never_sent_example =
    outcomes_never_sent (table (Unit {0})) (table Filter) (table ℕ) takes 0 [] (chain 9) codec
      (λ n. (tables, tables)) 24 6 tables (λ l. true) 9 polls broker

subscriber_hears_logs_example :
    entries 22 (
      handled
        (table (Unit {0}))
        (table Filter)
        (table ℕ)
        takes
        0
        []
        (chain 9)
        codec
        (λ n. (tables, tables))
        9
        (start (λ l. true) polls broker).notices)
    ≡ by_polls (found (chain 9) codec everything) polls 2
unfolding filters occurrences
subscriber_hears_logs_example =
    subscriber_hears_logs (table (Unit {0})) (table Filter) (table ℕ) takes 0 [] (chain 9) codec 22
      everything (λ n. (tables, tables)) (λ n. refl) (λ l. true) 9 polls broker refl refl

-- The two polls that see a new block find the two log entries of the chain's transaction each.
found_twice : length (by_polls (found (chain 9) codec everything) polls 2) ≡ 4
unfolding by_polls found logs get_block_unwrap
found_twice = refl
