-- ===== src/Genesis/Specification/Tests.antt =====
-- A build for production.
use oasis_ethwasi_runtime.Prelude.{ℕ, ◌≡◌, ◌≢◌, refl, Option, none, some, true, false, ok}
use oasis_ethwasi_runtime.Genesis.Specification.{
  Document, genesis, genesis_benchmarking, genesis_testing, spec_json, spec, bindings,
}
use oasis_ethwasi_runtime.Genesis.Specification.Shadowing.{production_genesis_ignored}

abbrev load : Document → Option ℕ
load genesis = some 1
load genesis_benchmarking = none
load genesis_testing = some 3

production_genesis_ignored_example :
    (spec load (record { production_genesis = true; benchmarking = false })
      ≡ spec load (record { production_genesis = false; benchmarking = false }))
    × (spec_json (record { production_genesis = true; benchmarking = false }) ≢ ok genesis)
production_genesis_ignored_example = production_genesis_ignored load true false refl

production_is_testing :
    spec load (record { production_genesis = true; benchmarking = false }) ≡ ok 3
unfolding spec spec_json bindings
production_is_testing = refl
