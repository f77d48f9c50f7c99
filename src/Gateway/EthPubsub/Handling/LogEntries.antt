-- ===== src/Gateway/EthPubsub/Handling/LogEntries.antt =====
-- The log entries that a subscriber is sent (gateway/src/impls/eth_pubsub.rs) as the polls of the broker
-- (gateway/src/pubsub.rs) come in.
use oasis_ethwasi_runtime.Prelude.{
  ℕ, ◌+◌, ◌-◌, ◌≡◌, refl, ap, ◌∙◌, sym, List, [], ◌∷◌, ◌++◌, Bool, true, ◌==◌, if◌then◌else◌, map,
  String, Outcome, ok, err, panic, Bool-cases, inl, inr, append-nil, append_assoc,
}
use oasis_ethwasi_runtime.Gateway.Client.{Client, Codec, Filter, Error, number_id}
use oasis_ethwasi_runtime.Gateway.Pubsub.{Notice, Broker, start}
use oasis_ethwasi_runtime.Gateway.Pubsub.Gathered.{occurrences, gathered-map}
use oasis_ethwasi_runtime.Gateway.Pubsub.Polls.{by_polls, on_range, gathered-start}
use oasis_ethwasi_runtime.Gateway.Translator.{LocalizedLogEntry}
use oasis_ethwasi_runtime.Gateway.Translator.Blocks.{RichHeader, rich_header}
use oasis_ethwasi_runtime.Gateway.Translator.Logs.{logs}
use oasis_ethwasi_runtime.Gateway.EthPubsub.{
  Subscribers, TxEntry, State, Sent, Message, header_message, log_message, outcome_message,
  send_header, send_headers, send_logs, logs_task, notify_logs_to, notify_logs, notify_heads,
  notify_blocks, fetch_blocks, or_nothing,
}
use oasis_ethwasi_runtime.Gateway.EthPubsub.Handling.{handled}

abbrev pub log_of : Message → List LocalizedLogEntry
log_of (header_message h) = []
log_of (log_message l) = l ∷ []
log_of (outcome_message hash output) = []

-- The log entries among the messages for a client.
unfoldable pub entries : ℕ → List Sent → List LocalizedLogEntry
entries client [] = []
entries client (s ∷ ss) =
    let rest = entries client ss in if s.client == client then log_of s.message ++ rest else rest

-- The filters that a client has subscribed with.
unfoldable pub filters : ℕ → List (ℕ × Filter) → List Filter
filters client [] = []
filters client (sub ∷ subs) =
    let rest = filters client subs in if sub.0 == client then sub.1 ∷ rest else rest

abbrev pub or_none : Outcome Error (List LocalizedLogEntry) → List LocalizedLogEntry
or_none (ok ls) = ls
or_none (err e) = []
or_none panic = []

-- What the search for logs finds for a filter in a range of blocks, nothing where it fails.
unfoldable pub found : Client → Codec → Filter → ℕ → ℕ → List LocalizedLogEntry
found c k f from to =
    or_none (logs c k (record f { from_block = number_id from; to_block = number_id to }))

found_all : Client → Codec → List Filter → ℕ → ℕ → List LocalizedLogEntry
found_all c k [] from to = []
found_all c k (f ∷ fs) from to = found c k f from to ++ found_all c k fs from to

entries-append :
    (client : ℕ) (xs ys : List Sent)
    → entries client (xs ++ ys) ≡ entries client xs ++ entries client ys
unfolding entries
entries-append client [] ys = refl
entries-append client (s ∷ ss) ys = elim (Bool-cases (s.client == client)) [
  | inl e ↦
      rw (e, entries, entries-append client ss ys)
        (sym (append_assoc (log_of s.message) (entries client ss) (entries client ys)))
  | inr e ↦ rw (e, entries) (entries-append client ss ys)
]

entries-send_header :
    {A : Type 0} (client : ℕ) (subs : List (ℕ × A)) (h : RichHeader)
    → entries client (send_header subs h) ≡ []
unfolding send_header entries
entries-send_header client [] h = refl
entries-send_header client ((x, a) ∷ subs) h = elim (Bool-cases (x == client)) [
  | inl e ↦ rw (e, entries) (entries-send_header client subs h)
  | inr e ↦ rw (e, entries) (entries-send_header client subs h)
]

entries-send_headers :
    {A : Type 0} (client : ℕ) (subs : List (ℕ × A)) (hs : List RichHeader)
    → entries client (send_headers subs hs) ≡ []
unfolding send_headers entries
entries-send_headers client subs [] = refl
entries-send_headers client subs (h ∷ hs) =
    entries-append client (send_header subs h) (send_headers subs hs)
    ∙ ap (λ xs. xs ++ entries client (send_headers subs hs)) (entries-send_header client subs h)
    ∙ entries-send_headers client subs hs

entries-headers_task :
    {A : Type 0} (client : ℕ) (r : Outcome Error A) (send : A → List Sent)
    → ((a : A) → entries client (send a) ≡ [])
    → entries client (or_nothing r send) ≡ []
unfolding entries
entries-headers_task client (ok a) send h = h a
entries-headers_task client (err e) send h = refl
entries-headers_task client panic send h = refl

entries-notify_heads :
    {Heads : Type 0} (client : ℕ) (heads : Subscribers (Unit {0}) Heads) (keccak : ℕ)
    (info : List (String × String)) (c : Client) (before after : Heads) (from to : ℕ)
    → entries client (notify_heads heads keccak info c before after from to) ≡ []
unfolding notify_heads entries
entries-notify_heads client heads keccak info c before after from to =
    elim (Bool-cases (heads.is_empty before)) [
      | inl e ↦ rw (e, notify_heads) refl
      | inr e ↦
          rw (e, notify_heads)
            (entries-headers_task client (fetch_blocks c from (to + 1 - from)) _ (λ blks.
              entries-send_headers client (heads.values after)
                (map (rich_header keccak info) blks)))
    ]

entries-send_logs :
    (x client : ℕ) (ls : List LocalizedLogEntry)
    → entries client (send_logs x ls) ≡ (if x == client then ls else [])
unfolding send_logs entries
entries-send_logs x client [] = elim (Bool-cases (x == client)) [ inl e ↦ rw (e) | inr e ↦ rw (e) ]
entries-send_logs x client (l ∷ ls) =
    let rest = entries-send_logs x client ls in
    elim (Bool-cases (x == client)) [
      | inl e ↦ rw (e, entries) (ap (l ∷◌) (rest ∙ rw (e)))
      | inr e ↦ rw (e, entries) (rest ∙ rw (e))
    ]

entries-task :
    (x client : ℕ) (r : Outcome Error (List LocalizedLogEntry))
    → entries client (or_nothing r (send_logs x)) ≡ (if x == client then or_none r else [])
unfolding entries
entries-task x client (ok ls) = entries-send_logs x client ls
entries-task x client (err e) = elim (Bool-cases (x == client)) [ inl h ↦ rw (h) | inr h ↦ rw (h) ]
entries-task x client panic = elim (Bool-cases (x == client)) [ inl h ↦ rw (h) | inr h ↦ rw (h) ]

entries-notify_logs_to :
    (client : ℕ) (c : Client) (k : Codec) (subs : List (ℕ × Filter)) (from to : ℕ)
    → entries client (notify_logs_to c k subs from to) ≡ found_all c k (filters client subs) from to
unfolding notify_logs_to logs_task entries filters found found_all
entries-notify_logs_to client c k [] from to = refl
entries-notify_logs_to client c k ((x, f) ∷ subs) from to =
    let rest = entries-notify_logs_to client c k subs from to in
    let task = logs_task c k x f from to in
    let sent =
      entries-task x client
        (logs c k (record f { from_block = number_id from; to_block = number_id to })) in
    let others = notify_logs_to c k subs from to in
    entries-append client task others ∙ elim (Bool-cases (x == client)) [
      | inl e ↦
          let mine : entries client task ≡ found c k f from to = sent ∙ rw (e) in
          let kept : filters client ((x, f) ∷ subs) ≡ f ∷ filters client subs = rw (e, filters) in
          ap (λ xs. xs ++ entries client others) mine
          ∙ ap (found c k f from to ++◌) rest
          ∙ ap (λ fs. found_all c k fs from to) (sym kept)
      | inr e ↦
          let none_sent : entries client task ≡ [] = sent ∙ rw (e) in
          let passed : filters client ((x, f) ∷ subs) ≡ filters client subs = rw (e, filters) in
          ap (λ xs. xs ++ entries client others) none_sent
          ∙ rest
          ∙ ap (λ fs. found_all c k fs from to) (sym passed)
    ]

module _ {TxFilter Heads Logs Txs : Type 0} (heads : Subscribers (Unit {0}) Heads)
    (log_subs : Subscribers Filter Logs) (txs : Subscribers TxFilter Txs)
    (tx_matches : TxFilter → TxEntry → Bool) (keccak : ℕ) (info : List (String × String))
    (c : Client) (k : Codec) (client : ℕ) (f : Filter)
    (states : Notice → State heads log_subs txs tx_matches × State heads log_subs txs tx_matches)
    (subscribed : (n : Notice)
      → filters client (log_subs.values (states n).0.logs_subscribers) ≡ f ∷ []) where
  entries-notify_blocks :
      (n : Notice)
      → entries client (
          notify_blocks heads log_subs txs tx_matches keccak info c k
            (states n).0
            (states n).1
            n.from_block
            n.to_block)
        ≡ found c k f n.from_block n.to_block
  unfolding notify_blocks notify_logs found_all
  entries-notify_blocks n =
      let s = (states n).0 in
      let from = n.from_block in
      let to = n.to_block in
      let subs = log_subs.values s.logs_subscribers in
      let silent =
        entries-notify_heads client heads keccak info c s.heads_subscribers
          (states n).1.heads_subscribers from to in
      entries-append client
        (notify_heads heads keccak info c s.heads_subscribers (states n).1.heads_subscribers from
          to)
        (notify_logs_to c k subs from to)
      ∙ ap (λ xs. xs ++ entries client (notify_logs_to c k subs from to)) silent
      ∙ entries-notify_logs_to client c k subs from to
      ∙ ap (λ fs. found_all c k fs from to) (subscribed n)
      ∙ append-nil (found c k f from to)

  -- Where at every notice the client has one log filter, always the same, and the listener is alive and
  -- registered once: the client is sent the log entries that the log search finds for the filter, one search
  -- for each poll that sees a block above the last one, from the block after that one up to the new
  -- one, in the order of the search, until a poll fails. A search that fails sends nothing and is not
  -- done again.
  pub subscriber_hears_logs :
      {E : Type 0} (live : ℕ → Bool) (l : ℕ) (polls : List (Outcome E ℕ)) (b : Broker)
      → live l ≡ true
      → occurrences l b.listeners ≡ 1
      → entries client (
          handled heads log_subs txs tx_matches keccak info c k states l
            (start live polls b).notices)
        ≡ by_polls (found c k f) polls b.last_notified_block
  unfolding handled entries
  subscriber_hears_logs live l polls b alive once =
      gathered-map (entries client) _ (on_range (found c k f)) l (start live polls b).notices refl
        (entries-append client) entries-notify_blocks
      ∙ gathered-start (found c k f) live l alive polls b once
