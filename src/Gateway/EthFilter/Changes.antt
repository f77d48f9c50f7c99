-- ===== src/Gateway/EthFilter/Changes.antt =====
-- What consecutive polls of a filter (gateway/src/impls/eth_filter.rs) report.
use oasis_ethwasi_runtime.Prelude.{
  ℕ, zero, suc, ◌+◌, ◌-◌, ◌≡◌, ap, ◌∙◌, sym, arith, ◌<◌, length, get_elem?, subst, List, [], ◌∷◌,
  Option, none, some, Outcome, ok, err, panic, ◌>>=◌, >>=-eq-ok, ok_or,
}
use oasis_ethwasi_runtime.Gateway.Client.{
  BlockSnapshot, Filter, number_id, latest, Error, block_not_found, Client, Codec,
}
use oasis_ethwasi_runtime.Gateway.Translator.{LocalizedLogEntry, get_block, get_block_unwrap}
use oasis_ethwasi_runtime.Gateway.Translator.Logs.{logs}
use oasis_ethwasi_runtime.Gateway.EthFilter.{
  block_filter, logs_filter, PollManager, PollLaws, FilterChanges, hashes, log_changes,
  fetch_hashes, limited_logs, changes_of, filter_changes,
}

ok_or-eq-ok : {A : Type 0} (o : Option A) (e : Error) {a : A} → ok_or o e ≡ ok a → o ≡ some a
ok_or-eq-ok none e h = cc
ok_or-eq-ok (some a) e h = cc

hashes-eq-ok :
    (r : Outcome Error (List ℕ)) (hs : List ℕ)
    → (r >>= λ hs. ok (hashes hs)) ≡ ok (hashes hs)
    → r ≡ ok hs
hashes-eq-ok (ok xs) hs h = cc
hashes-eq-ok (err e) hs h = cc
hashes-eq-ok panic hs h = cc

fetch-eq-ok :
    (c : Client) (round n : ℕ) (hs : List ℕ)
    → fetch_hashes c round (suc n) ≡ ok hs
    → (b : BlockSnapshot) × (rest : List ℕ) × (c.get_block round ≡ ok (some b))
      × (fetch_hashes c (round + 1) n ≡ ok rest)
      × (hs ≡ b.block_hash ∷ rest)
unfolding fetch_hashes
fetch-eq-ok c round n hs h =
    let rest = fetch_hashes c (round + 1) n in
    let last = λ (b : BlockSnapshot). rest >>= λ hs. ok (b.block_hash ∷ hs) in
    let (o, e, h1) = >>=-eq-ok (c.get_block round) (λ o. ok_or o block_not_found >>= last) h in
    let (b, e1, h2) = >>=-eq-ok (ok_or o block_not_found) last h1 in
    let (r, e2, h3) = >>=-eq-ok rest (λ hs. ok (b.block_hash ∷ hs)) h2 in
    let found : o ≡ some b = ok_or-eq-ok o block_not_found e1 in
    (b, r, e ∙ ap (λ x. ok x) found, e2, cc)

-- `hs` are the hashes of the blocks `from` to `to` of the chain, in order.
pub IsReport : Client → ℕ → ℕ → List ℕ → Type 0
IsReport c from to hs =
    (length hs ≡ to + 1 - from)
    × ((i : ℕ)
        → i < length hs
        → (b : BlockSnapshot) × (c.get_block (from + i) ≡ ok (some b))
          × (get_elem? hs i ≡ some b.block_hash))

fetch-length :
    (c : Client) (round n : ℕ) (hs : List ℕ) → fetch_hashes c round n ≡ ok hs → length hs ≡ n
unfolding fetch_hashes
fetch-length c round zero hs h = let none_left : hs ≡ [] = cc in ap length none_left
fetch-length c round (suc n) hs h =
    let (b, rest, e, e1, e2) = fetch-eq-ok c round n hs h in
    ap length e2 ∙ ap suc (fetch-length c (round + 1) n rest e1)

fetch-elem :
    (c : Client) (round n : ℕ) (hs : List ℕ)
    → fetch_hashes c round n ≡ ok hs
    → (i : ℕ) → i < n
    → (b : BlockSnapshot) × (c.get_block (round + i) ≡ ok (some b))
      × (get_elem? hs i ≡ some b.block_hash)
fetch-elem c round zero hs h i lt = absurd (omega arith)
fetch-elem c round (suc n) hs h zero lt =
    let (b, rest, e, e1, e2) = fetch-eq-ok c round n hs h in
    let here : round + 0 ≡ round = omega arith in
    (b, ap c.get_block here ∙ e, ap (λ xs. get_elem? xs 0) e2)
fetch-elem c round (suc n) hs h (suc i) lt =
    let (b, rest, e, e1, e2) = fetch-eq-ok c round n hs h in
    let (b', f, g) = fetch-elem c (round + 1) n rest e1 i (omega arith) in
    let there : round + suc i ≡ round + 1 + i = omega arith in
    (b', ap c.get_block there ∙ f, ap (λ xs. get_elem? xs (suc i)) e2 ∙ g)

fetch-IsReport :
    (c : Client) (from to : ℕ) (hs : List ℕ)
    → fetch_hashes c from (to + 1 - from) ≡ ok hs
    → IsReport c from to hs
unfolding IsReport
fetch-IsReport c from to hs h =
    let len = fetch-length c from (to + 1 - from) hs h in
    (len, λ i lt. fetch-elem c from (to + 1 - from) hs h i (subst (λ n. i < n) len lt))

module _ {RpcFilter Polls : Type 0} (m : PollManager RpcFilter Polls) (laws : PollLaws m)
    (k : Codec) (into_filter : RpcFilter → Filter)
    (limit_logs : List LocalizedLogEntry → Option ℕ → List LocalizedLogEntry) where
  abbrev changes : Client → Client → ℕ → Polls → Polls × Outcome Error FilterChanges
  changes = filter_changes m k into_filter limit_logs

  poll_block :
      (c c' : Client) (id n : ℕ) (p : Polls) (blk : BlockSnapshot)
      → c.get_latest_block ≡ ok blk
      → (m.poll id p).1 ≡ some (block_filter n)
      → changes c c' id p ≡ (
        m.store id (block_filter blk.header.round) (m.poll id p).0,
        fetch_hashes c' n (blk.header.round + 1 - n) >>= λ hs. ok (hashes hs),
      )
  unfolding filter_changes changes_of
  poll_block c c' id n p blk e f =
      rw (e, filter_changes)
        (ap (λ o. changes_of m k into_filter limit_logs c' id blk ((m.poll id p).0, o)) f)

  poll_logs :
      (c c' : Client) (id n : ℕ) (f : RpcFilter) (p : Polls) (blk : BlockSnapshot)
      → c.get_latest_block ≡ ok blk
      → (m.poll id p).1 ≡ some (logs_filter n f)
      → changes c c' id p ≡ (
        m.store id (logs_filter (blk.header.round + 1) f) (m.poll id p).0,
        limited_logs m k into_filter limit_logs c'
              (record (into_filter f) { from_block = number_id n; to_block = latest })
            >>= λ ls. ok (log_changes ls),
      )
  unfolding filter_changes changes_of
  poll_logs c c' id n f p blk e g =
      rw (e, filter_changes)
        (ap (λ o. changes_of m k into_filter limit_logs c' id blk ((m.poll id p).0, o)) g)

  -- Where the poll manager keeps what is stored: two consecutive polls of a block filter that
  -- stands at `n`, the first where the latest block is `a` and the second where it is `b`,
  -- report, if both return, the blocks `n` to `a` and then `a` to `b`. So the block `a` is
  -- reported twice if `n` is not after it and `b` not before it.
  pub block_filter_polls :
      (c1 c1' c2 c2' : Client) (id n : ℕ) (p : Polls) (a b : BlockSnapshot) (hs1 hs2 : List ℕ)
      → (m.poll id p).1 ≡ some (block_filter n)
      → c1.get_latest_block ≡ ok a
      → c2.get_latest_block ≡ ok b
      → (changes c1 c1' id p).1 ≡ ok (hashes hs1)
      → (changes c2 c2' id (changes c1 c1' id p).0).1 ≡ ok (hashes hs2)
      → IsReport c1' n a.header.round hs1 × IsReport c2' a.header.round b.header.round hs2
  block_filter_polls c1 c1' c2 c2' id n p a b hs1 hs2 f e1 e2 h1 h2 =
      let first = poll_block c1 c1' id n p a e1 f in
      let A = a.header.round in
      let again =
        poll_block c2 c2' id A (m.store id (block_filter A) (m.poll id p).0) b e2
          (laws.poll-store id (block_filter A) (block_filter n) p f) in
      let r1 = ap (λ x. x.1) (sym first) ∙ h1 in
      let r2 = ap (λ x. x.1) (sym again) ∙ ap (λ x. (changes c2 c2' id x.0).1) (sym first) ∙ h2 in
      (
        fetch-IsReport c1' n A hs1 (hashes-eq-ok _ hs1 r1),
        fetch-IsReport c2' A b.header.round hs2 (hashes-eq-ok _ hs2 r2),
      )

  -- Where the poll manager keeps what is stored: a poll of a log filter that finds no block newer
  -- than the one before it returns an error, if the chain then has no block after the latest one.
  -- The filter stands one past that block, and the search for its first block fails.
  pub quiet_log_filter_fails :
      (c1 c1' c2 c2' : Client) (id n : ℕ) (f : RpcFilter) (p : Polls) (a b : BlockSnapshot)
      → (m.poll id p).1 ≡ some (logs_filter n f)
      → c1.get_latest_block ≡ ok a
      → c2.get_latest_block ≡ ok b
      → b.header.round ≡ a.header.round
      → c2'.get_block (b.header.round + 1) ≡ ok none
      → (changes c2 c2' id (changes c1 c1' id p).0).1 ≡ err block_not_found
  unfolding limited_logs logs get_block_unwrap get_block
  quiet_log_filter_fails c1 c1' c2 c2' id n f p a b g e1 e2 same gone =
      let next = logs_filter (a.header.round + 1) f in
      let first = poll_logs c1 c1' id n f p a e1 g in
      let again =
        poll_logs c2 c2' id (a.header.round + 1) f (m.store id next (m.poll id p).0) b e2
          (laws.poll-store id next (logs_filter n f) p g) in
      let missing : c2'.get_block (a.header.round + 1) ≡ ok none =
        ap (λ r. c2'.get_block (r + 1)) (sym same) ∙ gone in
      ap (λ x. (changes c2 c2' id x.0).1) first ∙ ap (λ x. x.1) again ∙ rw missing
