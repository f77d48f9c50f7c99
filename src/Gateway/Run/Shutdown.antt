-- ===== src/Gateway/Run/Shutdown.antt =====
-- That the wait at the end (gateway/src/run.rs) ends.
use oasis_ethwasi_runtime.Prelude.{
  ℕ, zero, suc, ◌+◌, ◌*◌, ◌≤◌, ◌<◌, ◌≡◌, refl, ap, sym, subst, ◌∙◌, some, Bool, true, false, not,
  ◌&&◌, ltb, if◌then◌else◌, Bool-cases, inl, inr, arith, ◌⊎◌,
}
use oasis_ethwasi_runtime.Gateway.Run.{
  sleep_duration, warn_timeout, max_timeout, Exit, counted, clean, unclean, wait_from,
  wait_for_drop,
}

module _ (elapsed later : ℕ → ℕ) (dropped : ℕ → Bool) where
  -- How a wait may end that starts in round `k`: in a later round, through the earlier ones of which the
  -- translator was there and the time was not up.
  pub record EndsWith (fuel k limit : ℕ) (e : Exit) (warnings : ℕ) : Type 0 where
    pub last : ℕ
    pub from_start : k ≤ last
    pub in_time : last < k + fuel
    pub waited : (j : ℕ) → k ≤ j → j < last → (dropped j ≡ false) × (elapsed j < max_timeout)
    pub reason :
        ((e ≡ clean) × (dropped last ≡ true) × (elapsed last < max_timeout))
        ⊎ ((e ≡ unclean) × (max_timeout ≤ elapsed last))
    pub warned_once : warnings ≤ limit

  EndsWith-step :
      {fuel k limit limit' : ℕ} {e : Exit} {n m : ℕ}
      → dropped k ≡ false
      → elapsed k < max_timeout
      → (n ≤ limit → m ≤ limit')
      → EndsWith fuel (suc k) limit e n
      → EndsWith (suc fuel) k limit' e m
  EndsWith-step {k} here early count r = record {
    last = r.last;
    from_start = omega (arith, r.from_start);
    in_time = omega (arith, r.in_time);
    waited = λ j a b. elim (Nat-cases k j a) [
      | inl e ↦ (ap dropped (sym e) ∙ here, subst (λ i. elapsed i < max_timeout) e early)
      | inr lt ↦ r.waited j lt b
    ];
    reason = r.reason;
    warned_once = count r.warned_once;
  }
    where
      Nat-cases : (a b : ℕ) → a ≤ b → (a ≡ b) ⊎ (suc a ≤ b)
      Nat-cases a b h = ground arith

  counted_bound :
      (warned slow : Bool) (n : ℕ)
      → let warns = not warned && slow in
        n ≤ (if (if warns then true else warned) then 0 else 1)
        → (if warns then suc n else n) ≤ (if warned then 0 else 1)
  counted_bound true slow n h = h
  counted_bound false true n h = omega arith
  counted_bound false false n h = h

  Reason : ℕ → Exit → Type 0
  Reason last e =
      ((e ≡ clean) × (dropped last ≡ true) × (elapsed last < max_timeout))
      ⊎ ((e ≡ unclean) × (max_timeout ≤ elapsed last))

  EndsWith-here : (fuel k limit : ℕ) (e : Exit) → Reason k e → EndsWith (suc fuel) k limit e 0
  unfolding Reason
  EndsWith-here fuel k limit e why = record {
    last = k;
    from_start = omega arith;
    in_time = omega arith;
    waited = λ j a b. absurd (omega arith);
    reason = why;
    warned_once = omega arith;
  }

  Ends : ℕ → ℕ → Bool → Type 0
  Ends fuel k warned =
      (e : Exit) × (n : ℕ) × (wait_from elapsed later dropped fuel k warned ≡ some (e, n))
      × EndsWith fuel k (if warned then 0 else 1) e n

  up_Ends :
      (fuel k : ℕ) (warned : Bool) → ltb (elapsed k) max_timeout ≡ false → Ends (suc fuel) k warned
  unfolding Ends wait_from Reason
  up_Ends fuel k warned up =
      (unclean, 0, rw (up, wait_from), EndsWith-here fuel k _ unclean (inr (refl, ground arith)))

  gone_Ends :
      (fuel k : ℕ) (warned : Bool)
      → ltb (elapsed k) max_timeout ≡ true
      → dropped k ≡ true
      → Ends (suc fuel) k warned
  unfolding Ends wait_from Reason
  gone_Ends fuel k warned waiting gone = (
    clean,
    0,
    rw (waiting, gone, wait_from),
    EndsWith-here fuel k _ clean (inl (refl, gone, ground arith)),
  )

  next_Ends :
      (fuel k : ℕ) (warned : Bool)
      → ltb (elapsed k) max_timeout ≡ true
      → dropped k ≡ false
      → Ends fuel (suc k) (if not warned && ltb warn_timeout (later k) then true else warned)
      → Ends (suc fuel) k warned
  unfolding Ends wait_from
  next_Ends fuel k warned waiting here (e, n, done, ends) =
      let slow = ltb warn_timeout (later k) in
      (
        e,
        (if not warned && slow then suc n else n),
        rw (waiting, here, wait_from) (ap (counted (not warned && slow)) done),
        EndsWith-step here (ground arith) (counted_bound warned slow n) ends,
      )

  module _ (sleeps : (k : ℕ) → elapsed k + sleep_duration ≤ elapsed (suc k)) where
    wait_from-Ends :
        (fuel k : ℕ) (warned : Bool)
        → max_timeout ≤ elapsed k + fuel * sleep_duration
        → Ends (suc fuel) k warned
    wait_from-Ends zero k warned h = elim (Bool-cases (ltb (elapsed k) max_timeout)) [
      | inr up ↦ up_Ends 0 k warned up
      | inl waiting ↦ absurd (ground arith)
    ]
    wait_from-Ends (suc fuel) k warned h = elim (Bool-cases (ltb (elapsed k) max_timeout)) [
      | inr up ↦ up_Ends (suc fuel) k warned up
      | inl waiting ↦ elim (Bool-cases (dropped k)) [
        | inl gone ↦ gone_Ends (suc fuel) k warned waiting gone
        | inr here ↦
            next_Ends (suc fuel) k warned waiting here
              (wait_from-Ends fuel (suc k) _ (omega (arith, sleeps k, h)))
      ]
    ]

    -- Where each round of the wait takes at least the second that it sleeps, the wait ends within 301
    -- rounds: cleanly in the first round that finds the translator dropped, if the clock then reads less
    -- than the maximum, and otherwise uncleanly in the first round in which it does not; there is at most
    -- one warning on the way.
    pub wait_for_drop-Ends :
        (e : Exit) × (n : ℕ) × (wait_for_drop elapsed later dropped 301 ≡ some (e, n))
        × EndsWith 301 0 1 e n
    unfolding wait_for_drop Ends
    wait_for_drop-Ends = wait_from-Ends 300 0 false (omega arith)
