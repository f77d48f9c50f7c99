-- ===== src/Genesis/Program/Writes.antt =====
-- What the genesis file holds that an import ends in (genesis/bin/genesis_playback.rs).
use oasis_ethwasi_runtime.Prelude.{ℕ, ◌≡◌, List, some, ok}
use oasis_ethwasi_runtime.Prelude.Bytes.{Bytes}
use oasis_ethwasi_runtime.Prelude.Numbers.{u64_max, parse_unsigned}
use oasis_ethwasi_runtime.Prelude.Options.{Matches, value_t}
use oasis_ethwasi_runtime.Genesis.Import.{Event}
use oasis_ethwasi_runtime.Genesis.Import.Batches.{pending, IsChain}
use oasis_ethwasi_runtime.Genesis.Program.{World, RuntimeGenesis}

-- Every commit returns a root; that of a tree with nothing pending is the root of the last commit; and the
-- file is written.
pub record IsDocumented {Namespace Entry : Type 0} (w : World Namespace Entry) (node : Bytes)
    (runtime : Namespace) : Type 0 where
  pub commits : (es : List Event) → (root : ℕ) × ((w.backend node runtime).commit es ≡ some root)
  pub settled :
      (es : List Event) (root : ℕ)
      → IsChain w.empty_hash es root
      → pending 0 es ≡ 0
      → w.commit es ≡ some root
  pub writes :
      (path : Bytes) (rows : List (Namespace × RuntimeGenesis Entry)) → w.write path rows ≡ some tt

-- The options and the files, as they are found.
pub record IsReady {Namespace Entry : Type 0} (w : World Namespace Entry) (m : Matches)
    (node : Bytes) (every : ℕ) (runtime : Namespace) (text out : Bytes) : Type 0 where
  pub node_found : m.value_of "node-address" ≡ some node
  pub every_read : value_t (parse_unsigned u64_max) m "commit-every" ≡ ok every
  pub runtime_read : value_t w.parse_namespace m "runtime-id" ≡ ok runtime
  pub spec : w.load_spec ≡ some tt
  pub good : w.ensure_db_good ≡ some tt
  pub existing : w.from_existing ≡ some tt
  pub path : Bytes
  pub path_found : m.value_of "exported_state" ≡ some path
  pub opened : w.open_file path ≡ some text
  pub output_found : m.value_of "output_file" ≡ some out
