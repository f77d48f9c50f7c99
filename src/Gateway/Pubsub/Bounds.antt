-- ===== src/Gateway/Pubsub/Bounds.antt =====
-- How far the notices of the broker (gateway/src/pubsub.rs) reach.
use oasis_ethwasi_runtime.Prelude.{
  ℕ, ◌+◌, ◌≤◌, ◌≡◌, List, [], ◌∷◌, Bool, leb, All, All-append, Outcome, ok, err, panic, Bool-cases,
  max, inl, inr, arith,
}
use oasis_ethwasi_runtime.Gateway.Pubsub.{Notice, Broker, notify_all, poll, start}
use oasis_ethwasi_runtime.Gateway.Pubsub.Once.{newest, poll_last}

notify_all_upto :
    (live : ℕ → Bool) (ls : List ℕ) (from to top : ℕ)
    → to ≤ top
    → All (λ (n : Notice). n.to_block ≤ top) (notify_all live ls from to)
unfolding notify_all
notify_all_upto live [] from to top h = tt
notify_all_upto live (l ∷ ls) from to top h =
    let rest = notify_all_upto live ls from to top h in
    elim (Bool-cases (live l)) [
      | inl e ↦ rw (e, notify_all) (h, rest)
      | inr e ↦ rw (e, notify_all) rest
    ]

newest_above : {E : Type 0} (polls : List (Outcome E ℕ)) (n : ℕ) → n ≤ newest polls n
unfolding newest
newest_above [] n = omega arith
newest_above (ok to ∷ polls) n = omega (arith, newest_above polls (max n to))
newest_above (err e ∷ polls) n = omega arith
newest_above (panic ∷ polls) n = omega arith

pub start_upto :
    {E : Type 0} (live : ℕ → Bool) (polls : List (Outcome E ℕ)) (b : Broker) (top : ℕ)
    → newest polls b.last_notified_block ≤ top
    → All (λ (n : Notice). n.to_block ≤ top) (start live polls b).notices
unfolding start newest poll
start_upto live [] b top h = tt
start_upto live (ok to ∷ polls) b top h =
    let L = b.last_notified_block in
    let above = newest_above polls (max L to) in
    let (b', now) = poll live to b in
    let last : (poll live to b).0.last_notified_block ≡ max L to = poll_last live to b in
    let rest = start_upto live polls (poll live to b).0 top (rw (last) h) in
    let told : All (λ (n : Notice). n.to_block ≤ top) (poll live to b).1 =
      elim (Bool-cases (leb to L)) [
        | inl old ↦ rw (old, poll) tt
        | inr new ↦ rw (new, poll) (notify_all_upto live b.listeners (L + 1) to top (omega arith))
      ] in
    All-append (λ (n : Notice). n.to_block ≤ top) (poll live to b).1 _ told rest
start_upto live (err e ∷ polls) b top h = tt
start_upto live (panic ∷ polls) b top h = tt
