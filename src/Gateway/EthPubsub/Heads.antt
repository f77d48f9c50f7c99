-- ===== src/Gateway/EthPubsub/Heads.antt =====
-- The headers that the broker's listener (gateway/src/impls/eth_pubsub.rs) sends, over the life of the
-- broker (gateway/src/pubsub.rs).
use oasis_ethwasi_runtime.Prelude.{
  ℕ, zero, suc, ◌+◌, ◌-◌, ◌≤◌, ◌≡◌, refl, ap, ◌∙◌, sym, List, [], ◌∷◌, ◌++◌, Option, none, some,
  Bool, true, false, ◌==◌, if◌then◌else◌, map, replicate, All, Outcome, ok, Bool-cases, inl, inr,
  arith, append_assoc, String,
}
use oasis_ethwasi_runtime.Gateway.Client.{BlockSnapshot, Client}
use oasis_ethwasi_runtime.Gateway.Pubsub.{Notice, Broker, start}
use oasis_ethwasi_runtime.Gateway.Pubsub.Gathered.{gathered, occurrences}
use oasis_ethwasi_runtime.Gateway.Pubsub.Once.{blocks, heard, newest, start-Heard, Heard-blocks}
use oasis_ethwasi_runtime.Gateway.Pubsub.Bounds.{start_upto}
use oasis_ethwasi_runtime.Gateway.Translator.Blocks.{RichHeader, rich_header}
use oasis_ethwasi_runtime.Gateway.EthPubsub.{
  Subscribers, SubscribersLaws, Message, header_message, log_message, outcome_message, Sent,
  fetch_blocks, send_header, send_headers, notify_heads,
}

-- The numbers of the headers that a client is sent, in order.
abbrev pub number_of : Option ℕ → List ℕ
number_of none = []
number_of (some n) = n ∷ []

abbrev pub header_number : Message → List ℕ
header_number (header_message h) = number_of h.number
header_number (log_message l) = []
header_number (outcome_message hash output) = []

unfoldable pub numbers : ℕ → List Sent → List ℕ
numbers client [] = []
numbers client (s ∷ sent) =
    let later = numbers client sent in
    if s.client == client then header_number s.message ++ later else later

numbers-append :
    (client : ℕ) (xs ys : List Sent)
    → numbers client (xs ++ ys) ≡ numbers client xs ++ numbers client ys
unfolding numbers
numbers-append client [] ys = refl
numbers-append client (s ∷ xs) ys = elim (Bool-cases (s.client == client)) [
  | inl e ↦
      rw (e, numbers, numbers-append client xs ys)
        (sym (append_assoc (header_number s.message) (numbers client xs) (numbers client ys)))
  | inr e ↦ rw (e, numbers) (numbers-append client xs ys)
]

-- How often a client stands among the subscribers.
abbrev pub times : {A : Type 0} → ℕ → List (ℕ × A) → ℕ
times client subs = occurrences client (map (λ s. s.0) subs)

numbers-send_header :
    {A : Type 0} (client n : ℕ) (subs : List (ℕ × A)) (h : RichHeader)
    → h.number ≡ some n
    → numbers client (send_header subs h) ≡ replicate (times client subs) n
unfolding numbers send_header occurrences
numbers-send_header client n [] h e = refl
numbers-send_header client n ((c, a) ∷ subs) h e =
    let rest = numbers-send_header client n subs h e in
    elim (Bool-cases (c == client)) [
      | inl here ↦
          rw (here, numbers, occurrences)
            (ap (λ o. number_of o ++ numbers client (send_header subs h)) e ∙ ap (n ∷◌) rest)
      | inr away ↦ rw (away, numbers, occurrences) rest
    ]

module _ (keccak : ℕ) (info : List (String × String)) (c : Client) (top : ℕ)
    (block : ℕ → BlockSnapshot)
    (has_blocks : (n : ℕ) → n ≤ top → c.get_block n ≡ ok (some (block n)))
    (numbered : (n : ℕ) → (block n).header.round ≡ n) where
  fetch_blocks-blocks :
      (from n : ℕ) → n ≤ suc top - from → fetch_blocks c from n ≡ ok (map block (blocks from n))
  unfolding fetch_blocks
  fetch_blocks-blocks from zero h = refl
  fetch_blocks-blocks from (suc n) h =
      rw (
        has_blocks from (omega arith),
        fetch_blocks,
        fetch_blocks-blocks (from + 1) n (omega arith),
      )

  numbers-send_headers :
      {A : Type 0} (client from n : ℕ) (subs : List (ℕ × A))
      → times client subs ≡ 1
      → numbers client
          (send_headers subs (map (rich_header keccak info) (map block (blocks from n))))
        ≡ blocks from n
  unfolding send_headers numbers rich_header
  numbers-send_headers client from zero subs once = refl
  numbers-send_headers client from (suc n) subs once =
      let h = rich_header keccak info (block from) in
      let named : h.number ≡ some from = ap some (numbered from) in
      let first : numbers client (send_header subs h) ≡ from ∷ [] =
        numbers-send_header client from subs h named ∙ ap (λ k. replicate k from) once in
      let others =
        send_headers subs (map (rich_header keccak info) (map block (blocks (from + 1) n))) in
      numbers-append client (send_header subs h) others
      ∙ ap (λ xs. xs ++ numbers client others) first
      ∙ ap (from ∷◌) (numbers-send_headers client (from + 1) n subs once)

module _ {Heads : Type 0} (heads : Subscribers (Unit {0}) Heads) (laws : SubscribersLaws heads)
    (keccak : ℕ) (info : List (String × String)) (c : Client) where
  -- What the handler sends for the notices of its listener `l`, the work of each done before that of the
  -- next. The tables are those at the call and when the blocks have come.
  pub on_notices : (Notice → Heads × Heads) → ℕ → List Notice → List Sent
  on_notices tables l [] = []
  on_notices tables l (n ∷ ns) =
      let later = on_notices tables l ns in
      if n.listener == l
      then notify_heads heads keccak info c (tables n).0 (tables n).1 n.from_block n.to_block
        ++ later
      else later

  module _ (top : ℕ) (block : ℕ → BlockSnapshot)
      (has_blocks : (n : ℕ) → n ≤ top → c.get_block n ≡ ok (some (block n)))
      (numbered : (n : ℕ) → (block n).header.round ≡ n) (client : ℕ) where
    is_empty_once : (t : Heads) → times client (heads.values t) ≡ 1 → heads.is_empty t ≡ false
    unfolding occurrences
    is_empty_once t once = elim (Bool-cases (heads.is_empty t)) [
      | inl e ↦ absurd (omega (arith, sym once ∙ ap (times client) (laws.empty t e)))
      | inr e ↦ e
    ]

    numbers-notify_heads :
        (before after : Heads) (from to : ℕ)
        → to ≤ top
        → times client (heads.values before) ≡ 1
        → times client (heads.values after) ≡ 1
        → numbers client (notify_heads heads keccak info c before after from to)
          ≡ blocks from (to + 1 - from)
    unfolding notify_heads
    numbers-notify_heads before after from to h once once' =
        let n = to + 1 - from in
        let fetched =
          fetch_blocks-blocks keccak info c top block has_blocks numbered from n (omega arith) in
        rw (is_empty_once before once, notify_heads)
          (rw (fetched) (
            numbers-send_headers keccak info c top block has_blocks numbered client from n
              (heads.values after) once'))

    numbers-on_notices :
        (tables : Notice → Heads × Heads) (l : ℕ) (ns : List Notice)
        → ((n : Notice) → times client (heads.values (tables n).0) ≡ 1)
        → ((n : Notice) → times client (heads.values (tables n).1) ≡ 1)
        → All (λ (n : Notice). n.to_block ≤ top) ns
        → numbers client (on_notices tables l ns) ≡ heard l ns
    unfolding on_notices numbers gathered
    numbers-on_notices tables l [] before after h = refl
    numbers-on_notices tables l (n ∷ ns) before after h =
        let rest = numbers-on_notices tables l ns before after h.1 in
        let (t, t') = tables n in
        let mine =
          numbers-notify_heads (tables n).0 (tables n).1 n.from_block n.to_block h.0 (before n)
            (after n) in
        elim (Bool-cases (n.listener == l)) [
          | inl e ↦
              rw (e, on_notices, gathered)
                (numbers-append client _ (on_notices tables l ns)
                  ∙ ap (λ xs. xs ++ numbers client (on_notices tables l ns)) mine
                  ∙ ap (blocks n.from_block (n.to_block + 1 - n.from_block) ++◌) rest)
          | inr e ↦ rw (e, on_notices, gathered) rest
        ]

    -- A client that subscribed to new heads once, and is a subscriber through the whole life of the broker,
    -- is sent the headers of the blocks after the last notified one, up to the highest block that a poll
    -- saw, of each once and in order; where the handler is registered once and stays alive, every
    -- block up to there can be fetched and has its own number, and the work for a notice is done before
    -- that for the next one.
    pub subscriber_hears_all_heads :
        {E : Type 0} (tables : Notice → Heads × Heads) (live : ℕ → Bool) (l : ℕ)
        (polls : List (Outcome E ℕ)) (b : Broker)
        → live l ≡ true
        → occurrences l b.listeners ≡ 1
        → newest polls b.last_notified_block ≤ top
        → ((n : Notice) → times client (heads.values (tables n).0) ≡ 1)
        → ((n : Notice) → times client (heads.values (tables n).1) ≡ 1)
        → numbers client (on_notices tables l (start live polls b).notices)
          ≡ blocks
              (b.last_notified_block + 1)
              (newest polls b.last_notified_block - b.last_notified_block)
    subscriber_hears_all_heads tables live l polls b alive once h before after =
        let ns = (start live polls b).notices in
        let (told, last) = start-Heard live l polls b alive once in
        numbers-on_notices tables l ns before after (start_upto live polls b top h)
        ∙ Heard-blocks l b _ ns told
        ∙ ap (λ m. blocks (b.last_notified_block + 1) (m - b.last_notified_block)) last
