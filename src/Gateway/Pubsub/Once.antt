-- ===== src/Gateway/Pubsub/Once.antt =====
-- What a listener of the broker (gateway/src/pubsub.rs) hears.
use oasis_ethwasi_runtime.Prelude.{
  ℕ, zero, suc, ◌+◌, ◌-◌, ◌≤◌, ◌≡◌, refl, ap, ◌∙◌, sym, List, [], ◌∷◌, ◌++◌, Bool, true, leb,
  Outcome, ok, err, panic, Bool-cases, ◌<◌, subst, max, inl, inr, arith,
}
use oasis_ethwasi_runtime.Gateway.Pubsub.{Notice, Broker, notify_all, poll, start}
use oasis_ethwasi_runtime.Gateway.Pubsub.Gathered.{
  gathered, gathered-append, gathered-notify_all, occurrences,
}

-- `n` blocks from `from` on.
abbrev pub blocks : ℕ → ℕ → List ℕ
blocks from zero = []
blocks from (suc n) = from ∷ blocks (from + 1) n

pub blocks-eq : (a b m n : ℕ) → a ≡ b → m ≡ n → blocks a m ≡ blocks b n
blocks-eq a b m n p q = ap (λ k. blocks k m) p ∙ ap (blocks b) q

blocks-append : (a m n : ℕ) → blocks a m ++ blocks (a + m) n ≡ blocks a (m + n)
blocks-append a zero n = blocks-eq _ _ _ _ (omega arith) (omega arith)
blocks-append a (suc m) n =
    ap (λ xs. a ∷ (blocks (a + 1) m ++ xs))
      (blocks-eq (a + suc m) (a + 1 + m) n n (omega arith) refl)
    ∙ ap (a ∷◌) (blocks-append (a + 1) m n)
    ∙ blocks-eq a a (suc (m + n)) (suc m + n) refl (omega arith)

abbrev pub told_blocks : Notice → List ℕ
told_blocks n = blocks n.from_block (n.to_block + 1 - n.from_block)

-- The blocks that a listener is told of, in the order of the notices.
abbrev pub heard : ℕ → List Notice → List ℕ
heard = gathered told_blocks

pub Heard : ℕ → Broker → List Notice → Broker → Type 0
Heard l b ns b' =
    (b.last_notified_block ≤ b'.last_notified_block)
    × (heard l ns
        ≡ blocks (b.last_notified_block + 1) (b'.last_notified_block - b.last_notified_block))
    × (b'.listeners ≡ b.listeners)

pub Heard-blocks :
    (l : ℕ) (b b' : Broker) (ns : List Notice)
    → Heard l b ns b'
    → heard l ns
      ≡ blocks (b.last_notified_block + 1) (b'.last_notified_block - b.last_notified_block)
unfolding Heard
Heard-blocks l b b' ns h = h.1

module _ (live : ℕ → Bool) (l : ℕ) (alive : live l ≡ true) where
  poll-Heard :
      (to : ℕ) (b : Broker)
      → occurrences l b.listeners ≡ 1
      → Heard l b (poll live to b).1 (poll live to b).0
  unfolding Heard poll gathered
  poll-Heard to b once =
      let L = b.last_notified_block in
      elim (Bool-cases (leb to L)) [
        | inl old ↦
            let still : poll live to b ≡ (b, []) = rw (old, poll) in
            subst (λ r. Heard l b r.1 r.0) (sym still)
              (omega arith, blocks-eq (L + 1) (L + 1) 0 (L - L) refl (omega arith), refl)
        | inr new ↦
            let b' = record b { last_notified_block = to } in
            let moved : poll live to b ≡ (b', notify_all live b.listeners (L + 1) to) =
              rw (new, poll) in
            let later : L < to = ground arith in
            subst (λ r. Heard l b r.1 r.0) (sym moved)
              (
                omega arith,
                gathered-notify_all told_blocks live l b.listeners (L + 1) to alive once
                    ∙ blocks-eq (L + 1) (L + 1) _ _ refl (omega arith),
                refl,
              )
      ]

Heard-refl : (l : ℕ) (b : Broker) → Heard l b [] b
unfolding Heard gathered
Heard-refl l b =
    let L = b.last_notified_block in
    (omega arith, blocks-eq (L + 1) (L + 1) 0 (L - L) refl (omega arith), refl)

Heard-trans :
    (l : ℕ) (b c d : Broker) (ns ms : List Notice)
    → Heard l b ns c
    → Heard l c ms d
    → Heard l b (ns ++ ms) d
unfolding Heard
Heard-trans l b c d ns ms p q =
    let L = b.last_notified_block in
    let M = c.last_notified_block in
    let N = d.last_notified_block in
    (
      omega (arith, p.0, q.0),
      gathered-append told_blocks l ns ms
          ∙ ap (λ xs. xs ++ heard l ms) p.1
          ∙ ap (λ xs. blocks (L + 1) (M - L) ++ xs) q.1
          ∙ ap (λ xs. blocks (L + 1) (M - L) ++ xs)
              (blocks-eq (M + 1) (L + 1 + (M - L)) _ _ (omega (arith, p.0)) refl)
          ∙ blocks-append (L + 1) (M - L) (N - M)
          ∙ blocks-eq (L + 1) (L + 1) _ _ refl (omega (arith, p.0, q.0)),
      q.2 ∙ p.2,
    )

same_listeners :
    (live : ℕ → Bool) (l to : ℕ) (b : Broker)
    → Heard l b (poll live to b).1 (poll live to b).0
    → (poll live to b).0.listeners ≡ b.listeners
unfolding Heard
same_listeners live l to b p = p.2

-- The highest block that the polls see before one fails, or `n` if that is higher.
unfoldable pub newest : {E : Type 0} → List (Outcome E ℕ) → ℕ → ℕ
newest [] n = n
newest (ok to ∷ polls) n = newest polls (max n to)
newest (err e ∷ polls) n = n
newest (panic ∷ polls) n = n

pub poll_last :
    (live : ℕ → Bool) (to : ℕ) (b : Broker)
    → (poll live to b).0.last_notified_block ≡ max b.last_notified_block to
unfolding poll
poll_last live to b = elim (Bool-cases (leb to b.last_notified_block)) [
  | inl old ↦ rw (old, poll) (ground arith)
  | inr new ↦ rw (new, poll) (ground arith)
]

-- A listener that is registered once and stays alive hears of every block after the last notified one
-- up to the highest that a poll saw, of each once and in order, whatever the polls return: the latest
-- block may stand still or fall back, and a poll may fail, which ends the broker.
pub start-Heard :
    {E : Type 0} (live : ℕ → Bool) (l : ℕ) (polls : List (Outcome E ℕ)) (b : Broker)
    → live l ≡ true
    → occurrences l b.listeners ≡ 1
    → Heard l b (start live polls b).notices (start live polls b).broker
      × ((start live polls b).broker.last_notified_block ≡ newest polls b.last_notified_block)
unfolding start newest
start-Heard live l [] b alive once = (Heard-refl l b, refl)
start-Heard live l (ok to ∷ polls) b alive once =
    let p = poll-Heard live l alive to b once in
    let b' = (poll live to b).0 in
    let rest =
      start-Heard live l polls b' alive
        (ap (occurrences l) (same_listeners live l to b p) ∙ once) in
    (
      Heard-trans l b b' _ (poll live to b).1 _ p rest.0,
      rest.1 ∙ ap (newest polls) (poll_last live to b),
    )
start-Heard live l (err e ∷ polls) b alive once = (Heard-refl l b, refl)
start-Heard live l (panic ∷ polls) b alive once = (Heard-refl l b, refl)
