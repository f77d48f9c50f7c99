-- ===== src/Gateway/Informant/Tests.antt =====
-- Calculators ticked and sessions counted.
use oasis_ethwasi_runtime.Prelude.{◌≡◌, refl, arith, [], ◌∷◌}
use oasis_ethwasi_runtime.Gateway.Informant.{RateCalculator, tick}
use oasis_ethwasi_runtime.Gateway.Informant.Rate.{tick_counts_old_era}

abbrev busy : RateCalculator
busy = record { era = 0; samples = 4 ∷ 4 ∷ 4 ∷ 4 ∷ 4 ∷ 4 ∷ 4 ∷ 4 ∷ 4 ∷ 4 ∷ [] }

tick_counts_old_era_example :
    (tick 14_000_000_000 14_000_000_000 14_000_000_000
      (tick 11_000_000_000 11_000_000_000 11_000_000_000 busy).0).1
    ≡ 5
tick_counts_old_era_example =
    tick_counts_old_era busy 11_000_000_000 14_000_000_000 3 refl (omega arith) refl (omega arith)
      (omega arith)
