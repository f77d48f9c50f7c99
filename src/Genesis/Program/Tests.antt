-- ===== src/Genesis/Program/Tests.antt =====
-- The whole program on a small exported state, with a commit after every second operation.
use oasis_ethwasi_runtime.Prelude.{ℕ, List, [], ◌∷◌, some}
use oasis_ethwasi_runtime.Prelude.Bytes.{Bytes}
use oasis_ethwasi_runtime.Prelude.Texts.{codes}
use oasis_ethwasi_runtime.Prelude.Options.{Matches, look}
use oasis_ethwasi_runtime.Genesis.Playback.{ExportedAccount}
use oasis_ethwasi_runtime.Genesis.Playback.Stream.{render_state}
use oasis_ethwasi_runtime.Genesis.Import.{Op, new_contract, Event, did, committed}
use oasis_ethwasi_runtime.Genesis.Example.{poor, json, rendering, backend}
use oasis_ethwasi_runtime.Genesis.Program.{World}

abbrev exported : List (Bytes × ExportedAccount)
exported =
    (codes "0x12", poor (codes "0x1") (codes "0x2"))
    ∷ (codes "0x34", poor [] (codes "0x0"))
    ∷ (codes "0x5", poor (codes "0x77") [])
    ∷ []

abbrev operations : List Op
operations = new_contract 2 1 1 ∷ new_contract 2 0 1 ∷ new_contract 1 2 0 ∷ []

abbrev matches : Matches
matches = record {
  value_of = λ name. look name (
      ("exported_state", codes "state.json")
      ∷ ("output_file", codes "genesis.json")
      ∷ ("runtime-id", codes "07")
      ∷ ("node-address", codes "unix:/node")
      ∷ ("commit-every", codes "2")
      ∷ []);
  verbosity = 0;
}

-- The root of the last commit.
abbrev last_root : ℕ → List Event → ℕ
last_root r [] = r
last_root r (did op ∷ es) = last_root r es
last_root r (committed a b ∷ es) = last_root b es

abbrev world : World Bytes (Unit {0})
world = record {
  parse_namespace = λ text. some text;
  json = json;
  backend = λ node runtime. backend;
  load_spec = some tt;
  ensure_db_good = some tt;
  from_existing = some tt;
  empty_hash = 7;
  open_file = λ path. some (render_state json rendering exported);
  commit = λ es. some (last_root 7 es);
  default_public_key = [];
  default_signature = [];
  write = λ path rows. some tt;
}
