-- ===== src/Gateway/Informant/Rate.antt =====
-- What `RateCalculator::tick` (gateway/src/informant.rs) counts.
use oasis_ethwasi_runtime.Prelude.{
  ℕ, zero, suc, ◌+◌, ◌-◌, ◌/◌, ◌%◌, ◌≤◌, ◌<◌, ◌≡◌, ◌≢◌, min, refl, sym, ap, ◌∙◌, List, [], ◌∷◌,
  arith, length, get_or, set, All, length-set, get_or-set_self, get_or-set_ne, leb, le→leb,
  lt→leb_false, Bool-cases, inl, inr,
}
use oasis_ethwasi_runtime.Gateway.Informant.{RateCalculator, elapsed, start_era, count_at, tick}

pub record IsWellFormed (c : RateCalculator) : Type 0 where
  pub ten : length c.samples ≡ 10
  pub fits : All (λ s. s ≤ 65535) c.samples

pub count_at_lem :
    (c : RateCalculator) (pos : ℕ)
    → length c.samples ≡ 10
    → pos < 10
    → (count_at c pos).1 ≡ min (get_or c.samples pos 0 + 1) 65535
unfolding count_at
count_at_lem c pos ten h =
    ap (λ (n : ℕ). min (n + 1) 65535)
      (get_or-set_ne c.samples ((pos + 1) % 10) pos 0 0 (omega arith))

module _ (c : RateCalculator) (pos : ℕ) (ten : length c.samples ≡ 10) (h : pos < 10) where
  pub count_at_sample : get_or (count_at c pos).0.samples pos 0 ≡ (count_at c pos).1
  unfolding count_at
  count_at_sample =
      get_or-set_self (set c.samples ((pos + 1) % 10) 0) pos _ 0
        (rw (length-set c.samples ((pos + 1) % 10) 0) (omega arith))

  count_at_next : get_or (count_at c pos).0.samples ((pos + 1) % 10) 0 ≡ 0
  unfolding count_at
  count_at_next =
      get_or-set_ne (set c.samples ((pos + 1) % 10) 0) pos ((pos + 1) % 10) _ 0 (omega arith)
      ∙ get_or-set_self c.samples ((pos + 1) % 10) 0 0 (omega arith)

  count_at_other :
      (j : ℕ)
      → j ≢ pos
      → j ≢ (pos + 1) % 10
      → get_or (count_at c pos).0.samples j 0 ≡ get_or c.samples j 0
  unfolding count_at
  count_at_other j n n' =
      get_or-set_ne (set c.samples ((pos + 1) % 10) 0) pos j _ 0 (omega arith)
      ∙ get_or-set_ne c.samples ((pos + 1) % 10) j 0 0 (omega arith)

  pub count_at-length : length (count_at c pos).0.samples ≡ 10
  unfolding count_at
  count_at-length =
      length-set (set c.samples ((pos + 1) % 10) 0) pos _
      ∙ length-set c.samples ((pos + 1) % 10) 0
      ∙ ten

pub count_at-era : (c : RateCalculator) (pos : ℕ) → (count_at c pos).0.era ≡ c.era
unfolding count_at
count_at-era c pos = refl

-- Inside an era a tick counts at the current second.
pub tick_inside :
    (c : RateCalculator) (t p : ℕ) → elapsed c t ≡ p → p < 10 → tick t t t c ≡ count_at c p
unfolding tick start_era
tick_inside c t p e h =
    rw (lt→leb_false 10 (elapsed c t) (omega arith)) (ap (count_at c) (omega arith))

abbrev restarted : RateCalculator → ℕ → RateCalculator
restarted c t = record { era = t; samples = set c.samples 0 0 }

-- The first tick after an era opens the next one.
tick_new_era :
    (c : RateCalculator) (t : ℕ) → 10 ≤ elapsed c t → tick t t t c ≡ count_at (restarted c t) 0
unfolding tick start_era
tick_new_era c t h =
    let first : (t - t) / 1_000_000_000 % 10 ≡ 0 = omega arith in
    rw (le→leb 10 (elapsed c t) h) (ap (count_at (restarted c t)) first)

-- Ticks at the times of a list, each with one reading of the clock.
pub tick_all : List ℕ → RateCalculator → RateCalculator
tick_all [] c = c
tick_all (t ∷ ts) c = tick_all ts (tick t t t c).0

-- The ticks of one second add up in its sample, which stops at 65535.
ticks_in_second :
    (ts : List ℕ) (c : RateCalculator) (p : ℕ)
    → length c.samples ≡ 10
    → get_or c.samples p 0 ≤ 65535
    → p < 10
    → All (λ t. elapsed c t ≡ p) ts
    → get_or (tick_all ts c).samples p 0 ≡ min (get_or c.samples p 0 + length ts) 65535
unfolding tick_all
ticks_in_second [] c p ten fits h all = omega arith
ticks_in_second (t ∷ ts) c p ten fits h all =
    let c' = (count_at c p).0 in
    let step = tick_inside c t p all.0 h in
    let same : get_or c'.samples p 0 ≡ min (get_or c.samples p 0 + 1) 65535 =
      count_at_sample c p ten h ∙ count_at_lem c p ten h in
    ap (λ (s : RateCalculator × ℕ). get_or (tick_all ts s.0).samples p 0) step
    ∙ ticks_in_second ts c' p (count_at-length c p ten h) (omega arith) h
        (rw (count_at-era c p) all.1)
    ∙ omega arith

-- Once a tick fell into one of the first nine seconds of an era, the ticks of the following
-- second are counted from zero: its sample is their number, up to 65535.
pub ticks_of_next_second :
    (c : RateCalculator) (t p : ℕ) (ts : List ℕ)
    → length c.samples ≡ 10
    → elapsed c t ≡ p
    → p < 9
    → All (λ u. elapsed c u ≡ p + 1) ts
    → get_or (tick_all (t ∷ ts) c).samples (p + 1) 0 ≡ min (length ts) 65535
unfolding tick_all
ticks_of_next_second c t p ts ten e h all =
    let c' = (count_at c p).0 in
    let step = tick_inside c t p e (omega arith) in
    let next : (p + 1) % 10 ≡ p + 1 = omega arith in
    let clear : get_or c'.samples (p + 1) 0 ≡ 0 =
      rw next at (count_at_next c p ten (omega arith)) in
    ap (λ (s : RateCalculator × ℕ). get_or (tick_all ts s.0).samples (p + 1) 0) step
    ∙ ticks_in_second ts c' (p + 1) (count_at-length c p ten (omega arith)) (omega arith)
        (omega arith) (rw (count_at-era c p) all)
    ∙ omega arith

-- The count that a tick inside an era returns is the sample of its second.
pub tick_returns_sample :
    (c : RateCalculator) (t p : ℕ)
    → length c.samples ≡ 10
    → elapsed c t ≡ p
    → p < 10
    → (tick t t t c).1 ≡ get_or (tick t t t c).0.samples p 0
tick_returns_sample c t p ten e h =
    let step = tick_inside c t p e h in rw step (sym (count_at_sample c p ten h))

-- Samples of the last era are not cleared with it: when an era ends and the first tick of the next one
-- falls into its first second, a tick that is the only one of a later second `p`, with no tick in the
-- seconds between, still counts on from what the old era had at `p`.
pub tick_counts_old_era :
    (c : RateCalculator) (t u p : ℕ)
    → length c.samples ≡ 10
    → 10 ≤ elapsed c t
    → (u - t) / 1_000_000_000 ≡ p
    → 2 ≤ p
    → p < 10
    → (tick u u u (tick t t t c).0).1 ≡ min (get_or c.samples p 0 + 1) 65535
tick_counts_old_era c t u p ten over e lo hi =
    let c0 = restarted c t in
    let c' = (count_at c0 0).0 in
    let len : length c0.samples ≡ 10 = length-set c.samples 0 0 ∙ ten in
    let len' = count_at-length c0 0 len (omega arith) in
    let at : elapsed c' u ≡ p = rw (count_at-era c0 0) e in
    let kept : get_or c'.samples p 0 ≡ get_or c.samples p 0 =
      count_at_other c0 0 len (omega arith) p (omega arith) (omega arith)
      ∙ get_or-set_ne c.samples 0 p 0 0 (omega arith) in
    ap (λ (s : RateCalculator × ℕ). (tick u u u s.0).1) (tick_new_era c t over)
    ∙ ap (λ (s : RateCalculator × ℕ). s.1) (tick_inside c' u p at hi)
    ∙ count_at_lem c' p len' hi
    ∙ ap (λ (n : ℕ). min (n + 1) 65535) kept

All-set :
    (xs : List ℕ) (i v : ℕ)
    → v ≤ 65535
    → All (λ s. s ≤ 65535) xs
    → All (λ s. s ≤ 65535) (set xs i v)
All-set [] i v h all = tt
All-set (x ∷ xs) zero v h all = (h, all.1)
All-set (x ∷ xs) (suc i) v h all = (all.0, All-set xs i v h all.1)

start_era-IsWellFormed :
    (c : RateCalculator) (t u : ℕ) → IsWellFormed c → IsWellFormed (start_era c t u)
unfolding start_era
start_era-IsWellFormed c t u v = elim (Bool-cases (leb 10 (elapsed c t))) [
  | inl over ↦
      rw (over, start_era)
        (record {
          ten = length-set c.samples 0 0 ∙ v.ten;
          fits = All-set c.samples 0 0 (omega arith) v.fits;
        })
  | inr inside ↦ rw (inside, start_era) v
]

-- A tick keeps ten samples that fit 16 bits, and counts at least the request that it is for, whatever
-- the clock reads.
pub tick-IsWellFormed :
    (c : RateCalculator) (t u w : ℕ)
    → IsWellFormed c
    → IsWellFormed (tick t u w c).0 × (1 ≤ (tick t u w c).1) × ((tick t u w c).1 ≤ 65535)
unfolding tick count_at
tick-IsWellFormed c t u w v =
    let c' = start_era c t u in
    let v' = start_era-IsWellFormed c t u v in
    let pos = elapsed c' w % 10 in
    (
      record {
        ten = count_at-length c' pos v'.ten (omega arith);
        fits =
            All-set _ pos _ (omega arith)
              (All-set c'.samples ((pos + 1) % 10) 0 (omega arith) v'.fits);
      },
      omega arith,
      omega arith,
    )
