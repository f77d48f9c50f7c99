-- ===== src/Genesis/Specification/Shadowing.antt =====
-- Which genesis document a build has (common/src/genesis.rs).
use oasis_ethwasi_runtime.Prelude.{◌≡◌, ◌≢◌, refl, Option, Bool, true, false, ◌&&◌, ok}
use oasis_ethwasi_runtime.Genesis.Specification.{Document, genesis, spec_json, spec, bindings}

-- In a build that compiles, the feature `production-genesis` has no effect: the specification is what it
-- is without the feature, whatever the parser of documents makes of each, and the document
-- that it is made of is never the production one.
pub production_genesis_ignored :
    {Spec : Type 0} (load : Document → Option Spec) (production benchmarking : Bool)
    → (production && benchmarking) ≡ false
    → (spec load (record { production_genesis = production; benchmarking = benchmarking })
        ≡ spec load (record { production_genesis = false; benchmarking = benchmarking }))
      × (spec_json (record { production_genesis = production; benchmarking = benchmarking })
          ≢ ok genesis)
unfolding spec spec_json bindings
production_genesis_ignored load true true h = cc
production_genesis_ignored load true false h = (refl, λ e. cc)
production_genesis_ignored load false true h = (refl, λ e. cc)
production_genesis_ignored load false false h = (refl, λ e. cc)
