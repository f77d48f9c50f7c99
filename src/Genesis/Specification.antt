-- ===== src/Genesis/Specification.antt =====
-- common/src/genesis.rs: the genesis document that a build includes, by its features, and the
-- specification made of it. Each `let` that a feature keeps shadows those before it. The parser of
-- documents is ethcore's, a parameter.
pub mod Shadowing
mod Tests
use oasis_ethwasi_runtime.Prelude.{
  ℕ, ◌≡◌, refl, List, [], ◌∷◌, ◌++◌, Option, none, some, Bool, true, false, ◌&&◌, not,
  if◌then◌else◌, Outcome, ok, err, panic, ◌>>=◌, unwrap, Bool-cases, inl, inr,
}

pub record Features : Type 0 where
  pub production_genesis : Bool
  pub benchmarking : Bool

pub data Document : Type 0 where
  genesis genesis_benchmarking genesis_testing : Document

-- What the compiler refuses.
pub data CompileError : Type 0 where
  both_features spec_json_unbound : CompileError

abbrev kept : Bool → Document → List Document
kept feature d = if feature then d ∷ [] else []

-- The bindings of `spec_json`, the first one first.
unfoldable pub bindings : Features → List Document
bindings fs =
    kept fs.production_genesis genesis
    ++ kept fs.benchmarking genesis_benchmarking
    ++ kept (not fs.benchmarking) genesis_testing

abbrev last_of : Document → List Document → Document
last_of d [] = d
last_of d (e ∷ es) = last_of e es

-- What a name stands for after bindings of it: the last one.
abbrev last_bound : List Document → Outcome CompileError Document
last_bound [] = err spec_json_unbound
last_bound (d ∷ ds) = ok (last_of d ds)

unfoldable pub spec_json : Features → Outcome CompileError Document
unfolding bindings
spec_json fs =
    if fs.production_genesis && fs.benchmarking then err both_features else last_bound (bindings fs)

-- `SPEC`, where it is first used.
unfoldable pub spec :
    {Spec : Type 0} → (Document → Option Spec) → Features → Outcome CompileError Spec
unfolding spec_json
spec load fs = spec_json fs >>= λ d. unwrap (load d)
