-- ===== src/Gateway/EthPubsub/Handling/Outcomes.antt =====
-- That no subscriber hears of a completed transaction (gateway/src/impls/eth_pubsub.rs).
use oasis_ethwasi_runtime.Prelude.{
  ℕ, ◌+◌, ◌-◌, ◌≡◌, refl, List, [], ◌∷◌, none, Bool, true, false, map, String, All, All-append,
  Outcome, ok, err, panic, Bool-cases, inl, inr,
}
use oasis_ethwasi_runtime.Gateway.Client.{Client, Codec, Filter, Error, number_id}
use oasis_ethwasi_runtime.Gateway.Pubsub.{Notice, Broker, start}
use oasis_ethwasi_runtime.Gateway.Pubsub.Gathered.{gathered-All}
use oasis_ethwasi_runtime.Gateway.Translator.{LocalizedLogEntry}
use oasis_ethwasi_runtime.Gateway.Translator.Blocks.{RichHeader, rich_header}
use oasis_ethwasi_runtime.Gateway.Translator.Logs.{logs}
use oasis_ethwasi_runtime.Gateway.EthPubsub.{
  Subscribers, TxEntry, State, Sent, Message, header_message, log_message, outcome_message,
  send_header, send_headers, send_logs, logs_task, notify_logs_to, notify_logs, notify_heads,
  notify_blocks, fetch_blocks, subscribe, completed_transaction, transaction_params, or_nothing,
}
use oasis_ethwasi_runtime.Gateway.EthPubsub.Handling.{handled}

abbrev pub is_outcome : Message → Bool
is_outcome (header_message h) = false
is_outcome (log_message l) = false
is_outcome (outcome_message hash output) = true

abbrev Silent : List Sent → Type 0
Silent = All (λ s. is_outcome s.message ≡ false)

send_header-Silent :
    {A : Type 0} (subs : List (ℕ × A)) (h : RichHeader) → Silent (send_header subs h)
unfolding send_header
send_header-Silent [] h = tt
send_header-Silent ((client, a) ∷ subs) h = (refl, send_header-Silent subs h)

send_headers-Silent :
    {A : Type 0} (subs : List (ℕ × A)) (hs : List RichHeader) → Silent (send_headers subs hs)
unfolding send_headers
send_headers-Silent subs [] = tt
send_headers-Silent subs (h ∷ hs) =
    All-append _ _ _ (send_header-Silent subs h) (send_headers-Silent subs hs)

send_logs-Silent : (client : ℕ) (ls : List LocalizedLogEntry) → Silent (send_logs client ls)
unfolding send_logs
send_logs-Silent client [] = tt
send_logs-Silent client (l ∷ ls) = (refl, send_logs-Silent client ls)

or_nothing-Silent :
    {A : Type 0} (r : Outcome Error A) (send : A → List Sent)
    → ((a : A) → Silent (send a))
    → Silent (or_nothing r send)
or_nothing-Silent (ok a) send h = h a
or_nothing-Silent (err e) send h = tt
or_nothing-Silent panic send h = tt

notify_logs_to-Silent :
    (c : Client) (k : Codec) (subs : List (ℕ × Filter)) (from to : ℕ)
    → Silent (notify_logs_to c k subs from to)
unfolding notify_logs_to logs_task
notify_logs_to-Silent c k [] from to = tt
notify_logs_to-Silent c k ((client, f) ∷ subs) from to =
    All-append _ _ _
      (or_nothing-Silent
        (logs c k (record f { from_block = number_id from; to_block = number_id to })) _
        (send_logs-Silent client))
      (notify_logs_to-Silent c k subs from to)

notify_heads-Silent :
    {Heads : Type 0} (heads : Subscribers (Unit {0}) Heads) (keccak : ℕ)
    (info : List (String × String)) (c : Client) (before after : Heads) (from to : ℕ)
    → Silent (notify_heads heads keccak info c before after from to)
unfolding notify_heads
notify_heads-Silent heads keccak info c before after from to =
    elim (Bool-cases (heads.is_empty before)) [
      | inl e ↦ rw (e) tt
      | inr e ↦ rw (e) (
          or_nothing-Silent (fetch_blocks c from (to + 1 - from)) _
            (λ blks. send_headers-Silent (heads.values after) (map (rich_header keccak info) blks)))
    ]

module _ {TxFilter Heads Logs Txs : Type 0} (heads : Subscribers (Unit {0}) Heads)
    (log_subs : Subscribers Filter Logs) (txs : Subscribers TxFilter Txs)
    (tx_matches : TxFilter → TxEntry → Bool) (keccak : ℕ) (info : List (String × String))
    (c : Client) (k : Codec)
    (states : Notice
      → State heads log_subs txs tx_matches × State heads log_subs txs tx_matches) where
  handled-Silent :
      (l : ℕ) (ns : List Notice)
      → Silent (handled heads log_subs txs tx_matches keccak info c k states l ns)
  unfolding handled notify_blocks notify_logs
  handled-Silent l ns = gathered-All _ _ l ns (λ n.
      All-append _ _ _ (notify_heads-Silent heads keccak info c _ _ n.from_block n.to_block)
        (notify_logs_to-Silent c k _ n.from_block n.to_block))

  -- A subscription to completed transactions is accepted, and yet over the whole life of the broker, whatever
  -- the polls return and however the tables of subscribers change, the handler sends nobody a message about
  -- a completed transaction.
  pub outcomes_never_sent :
      {E : Type 0} (client : ℕ) (f : TxFilter) (s : State heads log_subs txs tx_matches)
      (live : ℕ → Bool) (l : ℕ) (polls : List (Outcome E ℕ)) (b : Broker)
      → ((subscribe heads log_subs txs tx_matches client completed_transaction
            (transaction_params f)
            s).1
          ≡ none)
        × All
            (λ sent. is_outcome sent.message ≡ false)
            (handled heads log_subs txs tx_matches keccak info c k states l
              (start live polls b).notices)
  unfolding subscribe
  outcomes_never_sent client f s live l polls b =
      (refl, handled-Silent l (start live polls b).notices)
