-- ===== src/Genesis/Init.antt =====
-- genesis/bin/genesis_init.rs: `main`, from the command line to the genesis file. The specification, the
-- tree and the files are other libraries', parameters.
pub mod Files
use oasis_ethwasi_runtime.Prelude.{
  ℕ, List, [], ◌∷◌, Option, none, some, Outcome, ok, err, panic, ◌>>=◌, unwrap, NoError,
}
use oasis_ethwasi_runtime.Prelude.Bytes.{Bytes}
use oasis_ethwasi_runtime.Prelude.Options.{Arg, required, Matches}

abbrev pub init_app : List Arg
init_app = required "eth_genesis" ∷ required "output_file" ∷ []

-- A result that is none fails where it is unwrapped. `ensure_db_good` is the tree after the genesis state of
-- a specification was put into an empty one.
pub record Machine (Spec Tree WriteLog : Type 0) : Type 0 where
  pub open_file : Bytes → Option Bytes
  pub load_spec : Bytes → Option Spec
  pub ensure_db_good : Spec → Option Tree
  pub commit_both : Tree → Option (WriteLog × ℕ)
  pub create_file : Bytes → Option (Unit {0})
  pub write : Bytes → WriteLog → Option (Unit {0})

-- What is done to files: an empty one made in place of what there was, and a log written whole.
pub data FileEvent (WriteLog : Type 0) : Type 0 where
  created : Bytes → FileEvent WriteLog
  written : Bytes → WriteLog → FileEvent WriteLog

module _ {Spec Tree WriteLog : Type 0} (w : Machine Spec Tree WriteLog) where
  -- The genesis state, ready to be written.
  unfoldable pub genesis_log : Matches → Outcome NoError WriteLog
  genesis_log m = do
    path ← unwrap (m.value_of "eth_genesis")
    eth_genesis ← unwrap (w.open_file path)
    spec ← unwrap (w.load_spec eth_genesis)
    overlay ← unwrap (w.ensure_db_good spec)
    committed ← unwrap (w.commit_both overlay)
    ok committed.0

  abbrev write_state :
      Bytes → WriteLog → Option (Unit {0}) → Outcome NoError (Unit {0}) × List (FileEvent WriteLog)
  write_state out log none = (panic, created out ∷ [])
  write_state out log (some u) = (ok tt, created out ∷ written out log ∷ [])

  abbrev create_output :
      Bytes → WriteLog → Option (Unit {0}) → Outcome NoError (Unit {0}) × List (FileEvent WriteLog)
  create_output out log none = (panic, [])
  create_output out log (some u) = write_state out log (w.write out log)

  -- Serialize genesis state.
  unfoldable pub serialize :
      Outcome NoError Bytes → WriteLog → Outcome NoError (Unit {0}) × List (FileEvent WriteLog)
  serialize (ok out) log = create_output out log (w.create_file out)
  serialize (err e) log = (err e, [])
  serialize panic log = (panic, [])

  unfoldable pub after_log :
      Matches → Outcome NoError WriteLog → Outcome NoError (Unit {0}) × List (FileEvent WriteLog)
  unfolding serialize
  after_log m (ok log) = serialize (unwrap (m.value_of "output_file")) log
  after_log m (err e) = (err e, [])
  after_log m panic = (panic, [])

  unfoldable pub main : Matches → Outcome NoError (Unit {0}) × List (FileEvent WriteLog)
  unfolding genesis_log after_log
  main m = after_log m (genesis_log m)
