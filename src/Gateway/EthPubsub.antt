-- ===== src/Gateway/EthPubsub.antt =====
-- gateway/src/impls/eth_pubsub.rs: subscriptions, and what the handler sends to subscribers. The
-- tables of subscribers are parity_rpc's, a parameter. A client is known by its number. A message is
-- handed to a sink by a task of its own; what the sink does with it is not modelled.
pub mod Heads
pub mod Ids
pub mod Handling
mod Tests
use oasis_ethwasi_runtime.Prelude.{
  ℕ, zero, suc, ◌+◌, ◌-◌, ◌≡◌, ◌≢◌, List, [], ◌∷◌, ◌++◌, Option, none, some, Bool, true, ◌||◌,
  is_some, map, if◌then◌else◌, Outcome, ok, err, panic, ◌>>=◌, ok_or, String,
}
use oasis_ethwasi_runtime.Prelude.Bytes.{Bytes}
use oasis_ethwasi_runtime.Gateway.Client.{
  BlockSnapshot, Filter, number_id, Error, block_not_found, Client, Codec,
}
use oasis_ethwasi_runtime.Gateway.Translator.{LocalizedLogEntry}
use oasis_ethwasi_runtime.Gateway.Translator.Blocks.{RichHeader, rich_header}
use oasis_ethwasi_runtime.Gateway.Translator.Logs.{logs}

-- A table of subscribers, each with what it subscribed with; ids are chosen by the table.
pub record Subscribers (A Table : Type 0) : Type 0 where
  pub push : ℕ → A → Table → Table
  pub find : ℕ → Table → Option (ℕ × A)
  pub remove : ℕ → Table → Table × Option (ℕ × A)
  pub values : Table → List (ℕ × A)
  pub is_empty : Table → Bool

pub record SubscribersLaws {A Table : Type 0} (s : Subscribers A Table) : Type 0 where
  pub remove_returns : (id : ℕ) (t : Table) → (s.remove id t).1 ≡ s.find id t
  pub remove_self : (id : ℕ) (t : Table) → s.find id (s.remove id t).0 ≡ none
  pub remove_ne : (id j : ℕ) (t : Table) → id ≢ j → s.find j (s.remove id t).0 ≡ s.find j t
  pub empty : (t : Table) → s.is_empty t ≡ true → s.values t ≡ []

pub record TxEntry : Type 0 where
  pub transaction_hash : ℕ

pub data Message : Type 0 where
  header_message : RichHeader → Message
  log_message : LocalizedLogEntry → Message
  outcome_message : ℕ → Bytes → Message

-- A message for the client of that number.
pub record Sent : Type 0 where
  pub client : ℕ
  pub message : Message

-- `n` blocks from `round` on, fetched one after the other.
pub fetch_blocks : Client → ℕ → ℕ → Outcome Error (List BlockSnapshot)
fetch_blocks c round zero = ok []
fetch_blocks c round (suc n) =
    let rest = fetch_blocks c (round + 1) n in
    c.get_block round >>= λ blk. ok_or blk block_not_found >>= λ b. rest >>= λ bs. ok (b ∷ bs)

pub send_header : {A : Type 0} → List (ℕ × A) → RichHeader → List Sent
send_header [] h = []
send_header ((client, a) ∷ subs) h =
    record { client = client; message = header_message h } ∷ send_header subs h

pub send_headers : {A : Type 0} → List (ℕ × A) → List RichHeader → List Sent
unfolding send_header
send_headers subs [] = []
send_headers subs (h ∷ hs) = send_header subs h ++ send_headers subs hs

pub send_logs : ℕ → List LocalizedLogEntry → List Sent
send_logs client [] = []
send_logs client (l ∷ ls) =
    record { client = client; message = log_message l } ∷ send_logs client ls

-- An error of a task is logged, and the task sends nothing.
abbrev pub or_nothing : {A : Type 0} → Outcome Error A → (A → List Sent) → List Sent
or_nothing (ok a) send = send a
or_nothing (err e) send = []
or_nothing panic send = []

pub logs_task : Client → Codec → ℕ → Filter → ℕ → ℕ → List Sent
unfolding send_logs
logs_task c k client f from to =
    or_nothing (logs c k (record f { from_block = number_id from; to_block = number_id to }))
      (send_logs client)

pub notify_logs_to : Client → Codec → List (ℕ × Filter) → ℕ → ℕ → List Sent
unfolding logs_task
notify_logs_to c k [] from to = []
notify_logs_to c k ((client, f) ∷ subs) from to =
    logs_task c k client f from to ++ notify_logs_to c k subs from to

pub notify_outcomes_to :
    {TxFilter : Type 0}
    → (TxFilter → TxEntry → Bool)
    → List (ℕ × TxFilter)
    → TxEntry
    → Bytes
    → List Sent
notify_outcomes_to matches [] entry output = []
notify_outcomes_to matches ((client, f) ∷ subs) entry output =
    let rest = notify_outcomes_to matches subs entry output in
    if matches f entry
    then record { client = client; message = outcome_message entry.transaction_hash output } ∷ rest
    else rest

pub data Kind : Type 0 where
  new_heads logs_kind completed_transaction new_pending_transactions other_kind : Kind

pub data Params (TxFilter : Type 0) : Type 0 where
  no_params other_params : Params TxFilter
  logs_params : Filter → Params TxFilter
  transaction_params : TxFilter → Params TxFilter

-- Why a subscriber is rejected.
pub data Rejection : Type 0 where
  expected_no_parameters expected_filter unimplemented : Rejection

-- The subscribers that the headers are sent to are those of the time when the blocks have come.
pub notify_heads :
    {Heads : Type 0}
    → Subscribers (Unit {0}) Heads
    → ℕ
    → List (String × String)
    → Client
    → Heads
    → Heads
    → ℕ
    → ℕ
    → List Sent
unfolding fetch_blocks send_headers
notify_heads heads keccak info c before after from to =
    if heads.is_empty before
    then []
    else or_nothing (fetch_blocks c from (to + 1 - from))
        (λ blks. send_headers (heads.values after) (map (rich_header keccak info) blks))

pub notify_logs :
    {Logs : Type 0} → Subscribers Filter Logs → Client → Codec → Logs → ℕ → ℕ → List Sent
unfolding notify_logs_to
notify_logs log_subs c k t from to = notify_logs_to c k (log_subs.values t) from to

module _ {TxFilter Heads Logs Txs : Type 0} (heads : Subscribers (Unit {0}) Heads)
    (log_subs : Subscribers Filter Logs) (txs : Subscribers TxFilter Txs)
    (tx_matches : TxFilter → TxEntry → Bool) where
  pub record State : Type 0 where
    pub heads_subscribers : Heads
    pub logs_subscribers : Logs
    pub tx_subscribers : Txs

  -- The state is that of the call, and the one when the blocks for the headers have come.
  pub notify_blocks :
      ℕ → List (String × String) → Client → Codec → State → State → ℕ → ℕ → List Sent
  unfolding notify_heads notify_logs
  notify_blocks keccak info c k s later from to =
      notify_heads heads keccak info c s.heads_subscribers later.heads_subscribers from to
      ++ notify_logs log_subs c k s.logs_subscribers from to

  pub notify_completed_transaction : State → TxEntry → Bytes → List Sent
  unfolding notify_outcomes_to
  notify_completed_transaction s entry output =
      notify_outcomes_to tx_matches (txs.values s.tx_subscribers) entry output

  pub subscribe : ℕ → Kind → Params TxFilter → State → State × Option Rejection
  subscribe client new_heads no_params s =
      (record s { heads_subscribers = heads.push client tt s.heads_subscribers }, none)
  subscribe client new_heads _ s = (s, some expected_no_parameters)
  subscribe client logs_kind (logs_params f) s =
      (record s { logs_subscribers = log_subs.push client f s.logs_subscribers }, none)
  subscribe client logs_kind _ s = (s, some expected_filter)
  subscribe client completed_transaction (transaction_params f) s =
      (record s { tx_subscribers = txs.push client f s.tx_subscribers }, none)
  subscribe client _ _ s = (s, some unimplemented)

  pub unsubscribe : ℕ → State → State × Bool
  unsubscribe id s =
      let (h, res) = heads.remove id s.heads_subscribers in
      let (l, res2) = log_subs.remove id s.logs_subscribers in
      let (t, res3) = txs.remove id s.tx_subscribers in
      (
        record { heads_subscribers = h; logs_subscribers = l; tx_subscribers = t },
        is_some res || is_some res2 || is_some res3,
      )
