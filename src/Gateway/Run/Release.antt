-- ===== src/Gateway/Run/Release.antt =====
-- That the gateway shuts down (gateway/src/run.rs).
use oasis_ethwasi_runtime.Prelude.{ℕ, suc, ◌+◌, ◌≤◌, ◌≡◌, ap, ◌∙◌, some, ◌==◌, Bool, arith}
use oasis_ethwasi_runtime.Gateway.Run.{
  sleep_duration, Exit, wait_for_drop, Holders, drop_all, strong_count, shutdown,
}
use oasis_ethwasi_runtime.Gateway.Run.Shutdown.{EndsWith, wait_for_drop-Ends}

left : (n : ℕ) → 0 + (0 + (0 + (0 + (0 + n)))) ≡ n
left n = omega arith

-- What is left are the references of others.
released :
    (others : ℕ → ℕ) (parts : Holders)
    → Path (ℕ → Bool) (λ k. strong_count (drop_all parts) (others k) == 0) (λ k. others k == 0)
released others parts = λ i k. left (others k) i == 0

-- Where each round of the wait takes at least the second that it sleeps: the shut-down ends within 301 rounds,
-- whatever the parts of the gateway hold; cleanly in the first round in which no running task refers to the
-- translator any more, if the clock then reads less than the maximum, and otherwise uncleanly in the first
-- round in which it does not; there is at most one warning on the way.
pub shutdown-Ends :
    (elapsed later others : ℕ → ℕ) (parts : Holders)
    → ((k : ℕ) → elapsed k + sleep_duration ≤ elapsed (suc k))
    → (e : Exit) × (n : ℕ) × (shutdown elapsed later others parts 301 ≡ some (e, n))
      × EndsWith elapsed later (λ k. others k == 0) 301 0 1 e n
unfolding shutdown
shutdown-Ends elapsed later others parts sleeps =
    let (e, n, ended, how) = wait_for_drop-Ends elapsed later (λ k. others k == 0) sleeps in
    (e, n, ap (λ d. wait_for_drop elapsed later d 301) (released others parts) ∙ ended, how)
