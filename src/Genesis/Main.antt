-- ===== src/Genesis/Main.antt =====
-- genesis/bin/genesis_playback.rs: the loop of `main`, which imports each account as it is parsed, and the
-- commit after it.
pub mod EndToEnd
use oasis_ethwasi_runtime.Prelude.{
  ℕ, zero, suc, List, [], Option, none, some, Outcome, ok, err, panic, ◌>>=◌, NoError,
}
use oasis_ethwasi_runtime.Prelude.Bytes.{Bytes}
use oasis_ethwasi_runtime.Genesis.Playback.{ExportedAccount, StateParser, Json, new_parser, next}
use oasis_ethwasi_runtime.Genesis.Import.{Backend, Importer, commit, import_account}

abbrev pub new_importer : ℕ → Importer
new_importer empty_hash = record { events = []; ops = 0; root = empty_hash; n_accounts = 0 }

-- An account that was parsed, or the end.
abbrev pub import_item :
    Backend
    → ℕ
    → Option (Bytes × ExportedAccount)
    → Importer
    → (Importer → Outcome NoError (Option Importer))
    → Outcome NoError (Option Importer)
import_item b n none s rest = ok (some s)
import_item b n (some account) s rest = import_account b n account s >>= rest

abbrev pub last_commit : Backend → ℕ → Option Importer → Outcome NoError (Option Importer)
last_commit b n none = ok none
last_commit b n (some s) = commit b n s >>= λ s'. ok (some s')

module _ (json : Json) (b : Backend) (commit_every : ℕ) where
  -- The loop; none where the fuel does not suffice.
  unfoldable pub import_stream : ℕ → StateParser → Importer → Outcome NoError (Option Importer)
  unfolding next
  import_stream zero p s = ok none
  import_stream (suc fuel) p s =
      next json p >>= λ r. import_item b commit_every r.1 s (λ s'. import_stream fuel r.0 s')

  unfoldable pub playback : ℕ → ℕ → Bytes → Outcome NoError (Option Importer)
  unfolding import_stream new_parser
  playback fuel empty_hash exported_state = new_parser exported_state >>= λ p.
      import_stream fuel p (new_importer empty_hash) >>= last_commit b commit_every
