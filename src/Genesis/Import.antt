-- ===== src/Genesis/Import.antt =====
-- genesis/bin/genesis_playback.rs: the import of the accounts of an exported state, with a commit every
-- so many operations. A text is its bytes, an address, a hash and a U256 are numbers. The parsers of
-- these, the state, the tree and the storage node are other libraries', parameters; what is done with
-- them is kept as a list of events.
pub mod Batches
pub mod Accounts
pub mod Completeness
use oasis_ethwasi_runtime.Prelude.{
  ℕ, zero, suc, ◌+◌, List, [], ◌∷◌, ◌++◌, Option, none, some, Bool, true, false, if◌then◌else◌,
  ◌==◌, Outcome, ok, err, panic, ◌>>=◌, unwrap, NoError,
}
use oasis_ethwasi_runtime.Prelude.Bytes.{Bytes}
use oasis_ethwasi_runtime.Genesis.Playback.{ExportedAccount}

-- 48 and 120 are '0' and 'x'.
unfoldable pub strip_0x : Bytes → Bytes
strip_0x [] = []
strip_0x (a ∷ []) = a ∷ []
strip_0x (a ∷ b ∷ s) = if a == 48 then (if b == 120 then s else a ∷ b ∷ s) else a ∷ b ∷ s

-- An operation on the state. The storage expiry of a new contract is zero.
pub data Op : Type 0 where
  new_contract : ℕ → ℕ → ℕ → Op
  init_code : ℕ → Bytes → Op
  set_storage : ℕ → ℕ → ℕ → Op

-- `committed` has the root before and after it.
pub data Event : Type 0 where
  did : Op → Event
  committed : ℕ → ℕ → Event

-- The parsers are none where they fail; so is `commit`, which has the events so far and returns the new
-- root, where the commit or the storage node fails. `accepts` says whether the state takes an operation.
pub record Backend : Type 0 where
  pub address : Bytes → Option ℕ
  pub u256 : Bytes → Option ℕ
  pub h256 : Bytes → Option ℕ
  pub hex : Bytes → Option Bytes
  pub accepts : Op → Bool
  pub commit : List Event → Option ℕ

pub record Importer : Type 0 where
  pub events : List Event
  pub ops : ℕ
  pub root : ℕ
  pub n_accounts : ℕ

unfoldable pub storage_items : Option (List (Bytes × Bytes)) → List (Bytes × Bytes)
storage_items none = []
storage_items (some items) = items

module _ (b : Backend) (commit_every : ℕ) where
  unfoldable pub from_hex : Bytes → Outcome NoError Bytes
  unfolding strip_0x
  from_hex hex = unwrap (b.hex (strip_0x hex))

  unfoldable pub commit : Importer → Outcome NoError Importer
  commit s = unwrap (b.commit s.events) >>= λ state_root.
      ok (record s { events = s.events ++ (committed s.root state_root ∷ []); root = state_root })

  unfoldable pub check_commit : Importer → Outcome NoError Importer
  unfolding commit
  check_commit s =
      let counted = record s { ops = s.ops + 1 } in
      if s.ops + 1 == commit_every
      then (commit counted >>= λ s'. ok (record s' { ops = 0 }))
      else ok counted

  -- An operation on the state, with the test after it.
  unfoldable pub perform : Op → Importer → Outcome NoError Importer
  unfolding check_commit
  perform op s = check_commit (record s { events = s.events ++ (did op ∷ []) })

  -- The same where the state's result is unwrapped.
  unfoldable pub perform_unwrap : Op → Importer → Outcome NoError Importer
  unfolding perform
  perform_unwrap op s = if b.accepts op then perform op s else panic

  unfoldable pub import_code : ℕ → Option Bytes → Importer → Outcome NoError Importer
  unfolding from_hex perform_unwrap
  import_code address none s = ok s
  import_code address (some code) s =
      from_hex code >>= λ bytes. perform_unwrap (init_code address bytes) s

  unfoldable pub import_storage : ℕ → List (Bytes × Bytes) → Importer → Outcome NoError Importer
  unfolding perform_unwrap strip_0x
  import_storage address [] s = ok s
  import_storage address ((key, value) ∷ items) s = unwrap (b.h256 (strip_0x key)) >>= λ k.
      unwrap (b.h256 (strip_0x value)) >>= λ v.
      perform_unwrap (set_storage address k v) s >>= λ s'. import_storage address items s'

  unfoldable pub import_account : Bytes × ExportedAccount → Importer → Outcome NoError Importer
  unfolding perform import_code import_storage storage_items strip_0x
  import_account (addr, account) s = unwrap (b.address (strip_0x addr)) >>= λ address.
      unwrap (b.u256 (strip_0x account.balance)) >>= λ balance.
      unwrap (b.u256 (strip_0x account.nonce)) >>= λ nonce.
      perform (new_contract address balance nonce) s >>= λ s1.
      import_code address account.code s1 >>= λ s2.
      import_storage address (storage_items account.storage) s2 >>= λ s3.
      ok (record s3 { n_accounts = s3.n_accounts + 1 })

  unfoldable pub import_accounts :
      List (Bytes × ExportedAccount) → Importer → Outcome NoError Importer
  unfolding import_account
  import_accounts [] s = ok s
  import_accounts (a ∷ accounts) s = import_account a s >>= λ s'. import_accounts accounts s'

  -- `empty_hash` is the root that the first commit starts from.
  unfoldable pub import_all : ℕ → List (Bytes × ExportedAccount) → Outcome NoError Importer
  unfolding import_accounts commit
  import_all empty_hash accounts =
      import_accounts accounts (record { events = []; ops = 0; root = empty_hash; n_accounts = 0 })
      >>= λ s. commit s
