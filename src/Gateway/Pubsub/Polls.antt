-- ===== src/Gateway/Pubsub/Polls.antt =====
-- What a listener makes of the polls of the broker (gateway/src/pubsub.rs).
use oasis_ethwasi_runtime.Prelude.{
  ℕ, ◌+◌, ◌≡◌, refl, ap, ◌∙◌, List, [], ◌∷◌, ◌++◌, Bool, true, leb, if◌then◌else◌, Outcome, ok, err,
  panic, Bool-cases, inl, inr,
}
use oasis_ethwasi_runtime.Gateway.Pubsub.{Notice, Broker, notify_all, poll, start}
use oasis_ethwasi_runtime.Gateway.Pubsub.Gathered.{
  occurrences, gathered, gathered-append, gathered-notify_all,
}

-- The results of `g` on the range of blocks of each poll that sees a block above the last one, which is
-- `n` at first, until a poll fails.
unfoldable pub by_polls : {A E : Type 0} → (ℕ → ℕ → List A) → List (Outcome E ℕ) → ℕ → List A
by_polls g [] n = []
by_polls g (ok to ∷ polls) n =
    let unmoved = by_polls g polls n in
    let moved = by_polls g polls to in if leb to n then unmoved else g (n + 1) to ++ moved
by_polls g (err e ∷ polls) n = []
by_polls g (panic ∷ polls) n = []

abbrev pub on_range : {A : Type 0} → (ℕ → ℕ → List A) → Notice → List A
on_range g n = g n.from_block n.to_block

module _ {A E : Type 0} (g : ℕ → ℕ → List A) (live : ℕ → Bool) (l : ℕ) (alive : live l ≡ true) where
  pub gathered-start :
      (polls : List (Outcome E ℕ)) (b : Broker)
      → occurrences l b.listeners ≡ 1
      → gathered (on_range g) l (start live polls b).notices
        ≡ by_polls g polls b.last_notified_block
  unfolding start by_polls gathered
  gathered-start [] b once = refl
  gathered-start (err e ∷ polls) b once = refl
  gathered-start (panic ∷ polls) b once = refl
  gathered-start (ok to ∷ polls) b once =
      let L = b.last_notified_block in
      elim (Bool-cases (leb to L)) [
        | inl old ↦ rw (old, poll, start, by_polls) (gathered-start polls b once)
        | inr new ↦
            let b' = record b { last_notified_block = to } in
            let told = notify_all live b.listeners (L + 1) to in
            let later = (start live polls b').notices in
            let first = gathered-notify_all (on_range g) live l b.listeners (L + 1) to alive once in
            rw (new, poll, start, by_polls)
              (gathered-append (on_range g) l told later
                ∙ ap (λ xs. xs ++ gathered (on_range g) l later) first
                ∙ ap (g (L + 1) to ++◌) (gathered-start polls b' once))
      ]
