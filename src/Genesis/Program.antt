-- ===== src/Genesis/Program.antt =====
-- genesis/bin/genesis_playback.rs: `main`, from the command line to the genesis file. The node, the tree,
-- the state and the files are other libraries', parameters.
pub mod Writes
mod Tests
use oasis_ethwasi_runtime.Prelude.{
  ℕ, zero, List, [], ◌∷◌, Option, none, some, Outcome, ok, err, panic, ◌>>=◌, unwrap, NoError,
}
use oasis_ethwasi_runtime.Prelude.Bytes.{Bytes}
use oasis_ethwasi_runtime.Prelude.Texts.{codes}
use oasis_ethwasi_runtime.Prelude.Numbers.{u64_max, parse_unsigned}
use oasis_ethwasi_runtime.Prelude.Options.{Arg, required, with_default, Matches, ArgError, value_t}
use oasis_ethwasi_runtime.Genesis.Playback.{Json}
use oasis_ethwasi_runtime.Genesis.Import.{Backend, Event, Importer}
use oasis_ethwasi_runtime.Genesis.Main.{playback}

abbrev pub playback_app : List Arg
playback_app =
    required "exported_state"
    ∷ required "output_file"
    ∷ required "runtime-id"
    ∷ required "node-address"
    ∷ with_default "commit-every" (codes "50000")
    ∷ []

pub record SignatureBundle : Type 0 where
  pub public_key : Option Bytes
  pub signature : Bytes

pub record RuntimeGenesis (Entry : Type 0) : Type 0 where
  pub state_root : ℕ
  pub state : Option (List Entry)
  pub storage_receipts : Option (List SignatureBundle)
  pub round : ℕ

-- `value_t_or_exit!` ends the process.
pub data Exited : Type 0 where
  exited : Exited

abbrev pub or_exit {ℓ} : {A : Type ℓ} → Outcome ArgError A → Outcome Exited A
or_exit (ok a) = ok a
or_exit (err e) = err exited
or_exit panic = panic

abbrev pub with_exit {ℓ} : {A : Type ℓ} → Outcome NoError A → Outcome Exited A
with_exit (ok a) = ok a
with_exit (err e) = elim e [ ]
with_exit panic = panic

-- A result that is none fails where it is unwrapped. `backend` has the commits and the storage node at an
-- address, for a runtime; `commit` is that of the tree after what was done, and `write` that of a file.
pub record World (Namespace Entry : Type 0) : Type 0 where
  pub parse_namespace : Bytes → Option Namespace
  pub json : Json
  pub backend : Bytes → Namespace → Backend
  pub load_spec : Option (Unit {0})
  pub ensure_db_good : Option (Unit {0})
  pub from_existing : Option (Unit {0})
  pub empty_hash : ℕ
  pub open_file : Bytes → Option Bytes
  pub commit : List Event → Option ℕ
  pub default_public_key : Bytes
  pub default_signature : Bytes
  pub write : Bytes → List (Namespace × RuntimeGenesis Entry) → Option (Unit {0})

-- A file that was written, with the map in it.
pub record GenesisFile (Namespace Entry : Type 0) : Type 0 where
  pub path : Bytes
  pub rtg_map : List (Namespace × RuntimeGenesis Entry)

module _ {Namespace Entry : Type 0} (w : World Namespace Entry) where
  unfoldable pub rtg : ℕ → RuntimeGenesis Entry
  rtg state_root = record {
    state_root = state_root;
    state = none;
    storage_receipts =
        some
          (record { public_key = some w.default_public_key; signature = w.default_signature } ∷ []);
    round = 0;
  }

  unfoldable pub write_genesis :
      Namespace → Bytes → ℕ → Outcome Exited (GenesisFile Namespace Entry)
  unfolding rtg
  write_genesis runtime_id path state_root =
      let rtg_map = (runtime_id, rtg state_root) ∷ [] in
      unwrap (w.write path rtg_map) >>= λ u. ok (record { path = path; rtg_map = rtg_map })

  -- What follows the import; none where the fuel did not suffice.
  unfoldable pub finish :
      Matches → Namespace → Option Importer → Outcome Exited (Option (GenesisFile Namespace Entry))
  unfolding write_genesis
  finish m runtime_id none = ok none
  finish m runtime_id (some s) = do
    state_root ← unwrap (w.commit s.events)
    path ← unwrap (m.value_of "output_file")
    file ← write_genesis runtime_id path state_root
    ok (some file)

  unfoldable pub main : ℕ → Matches → Outcome Exited (Option (GenesisFile Namespace Entry))
  unfolding playback finish parse_unsigned
  main fuel m = do
    node_address ← unwrap (m.value_of "node-address")
    commit_every ← or_exit (value_t (parse_unsigned u64_max) m "commit-every")
    runtime_id ← or_exit (value_t w.parse_namespace m "runtime-id")
    spec ← unwrap w.load_spec
    good ← unwrap w.ensure_db_good
    state ← unwrap w.from_existing
    state_path ← unwrap (m.value_of "exported_state")
    state_fb ← unwrap (w.open_file state_path)
    imported ← with_exit (
        playback w.json (w.backend node_address runtime_id) commit_every fuel w.empty_hash state_fb)
    finish m runtime_id imported
