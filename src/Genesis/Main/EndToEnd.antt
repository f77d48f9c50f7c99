-- ===== src/Genesis/Main/EndToEnd.antt =====
-- From an exported state to its commits (genesis/bin/genesis_playback.rs).
use oasis_ethwasi_runtime.Prelude.{
  ℕ, zero, suc, ◌<◌, ◌≡◌, refl, ap, ◌∙◌, List, [], ◌∷◌, Option, none, some, All, length, Outcome,
  ok, err, panic, ◌>>=◌, >>=-eq-ok, NoError,
}
use oasis_ethwasi_runtime.Prelude.Bytes.{Bytes}
use oasis_ethwasi_runtime.Genesis.Playback.{
  ExportedAccount, StateParser, Json, new_parser, next, more, items,
}
use oasis_ethwasi_runtime.Genesis.Playback.Stream.{
  Rendering, IsItem, render_state, items-render_state,
}
use oasis_ethwasi_runtime.Genesis.Import.{
  Op, Event, Backend, Importer, commit, import_account, import_accounts, import_all,
}
use oasis_ethwasi_runtime.Genesis.Import.Accounts.{all_ops, Accepted}
use oasis_ethwasi_runtime.Genesis.Import.Completeness.{IsComplete, import_all-IsComplete}
use oasis_ethwasi_runtime.Genesis.Main.{
  new_importer, import_item, last_commit, import_stream, playback,
}

more-ok :
    (a : Bytes × ExportedAccount) (rest : Outcome NoError (Option (List (Bytes × ExportedAccount))))
    (accounts : List (Bytes × ExportedAccount))
    → more (some a) rest ≡ ok (some accounts)
    → (later : List (Bytes × ExportedAccount)) × (rest ≡ ok (some later)) × ((a ∷ later) ≡ accounts)
more-ok a (ok (some later)) accounts h = (later, refl, cc)
more-ok a (ok none) accounts h = cc
more-ok a (err e) accounts h = cc
more-ok a panic accounts h = cc

module _ (json : Json) (b : Backend) (commit_every : ℕ) where
  -- One item, where the import of those behind it is known.
  item_step :
      (fuel : ℕ) (p : StateParser) (o : Option (Bytes × ExportedAccount))
      (accounts : List (Bytes × ExportedAccount)) (s s' : Importer)
      → ((later : List (Bytes × ExportedAccount)) (t t' : Importer)
          → items json fuel p ≡ ok (some later)
          → import_accounts b commit_every later t ≡ ok t'
          → import_stream json b commit_every fuel p t ≡ ok (some t'))
      → more o (items json fuel p) ≡ ok (some accounts)
      → import_accounts b commit_every accounts s ≡ ok s'
      → import_item b commit_every o s (λ t. import_stream json b commit_every fuel p t)
        ≡ ok (some s')
  unfolding import_accounts
  item_step fuel p none accounts s s' behind h i =
      let same : [] ≡ accounts = cc in
      let kept : Path (Outcome NoError Importer) (ok s) (ok s') =
        ap (λ xs. import_accounts b commit_every xs s) same ∙ i in
      let same_state : s ≡ s' = cc in ap (λ t. ok (some t)) same_state
  item_step fuel p (some a) accounts s s' behind h i =
      let (later, parsed, same) = more-ok a (items json fuel p) accounts h in
      let whole : import_accounts b commit_every (a ∷ later) s ≡ ok s' =
        ap (λ xs. import_accounts b commit_every xs s) same ∙ i in
      let (t, first, rest) =
        >>=-eq-ok (import_account b commit_every a s) (λ t. import_accounts b commit_every later t)
          whole in
      ap (λ x. x >>= λ t. import_stream json b commit_every fuel p t) first
      ∙ behind later t s' parsed rest

  -- Importing while parsing imports the accounts that parsing alone returns.
  import_stream-items :
      (fuel : ℕ) (p : StateParser) (accounts : List (Bytes × ExportedAccount)) (s s' : Importer)
      → items json fuel p ≡ ok (some accounts)
      → import_accounts b commit_every accounts s ≡ ok s'
      → import_stream json b commit_every fuel p s ≡ ok (some s')
  unfolding items import_stream
  import_stream-items zero p accounts s s' h i = absurd (cc)
  import_stream-items (suc fuel) p accounts s s' h i =
      let (r, parsed, rest) = >>=-eq-ok (next json p) (λ r. more r.1 (items json fuel r.0)) h in
      ap
        (λ x. x >>= λ r.
          import_item b commit_every r.1 s (λ t. import_stream json b commit_every fuel r.0 t))
        parsed
      ∙ item_step fuel r.0 r.1 accounts s s'
          (λ later t t' d e. import_stream-items fuel r.0 later t t' d e) rest i

  -- Where the JSON reader reads back what is written, every commit succeeds, and the accounts are such as
  -- JSON can hold, with texts that are well formed and operations that the state takes: the playback of the
  -- exported state of these accounts ends without a panic and is complete, which is that all operations of
  -- all accounts are done in order and committed, in full batches first and then what is left, each commit
  -- from the root that the one before it led to.
  pub playback-IsComplete :
      (r : Rendering json) (commits : (es : List Event) → (root : ℕ) × (b.commit es ≡ some root))
      (r0 fuel : ℕ) (accounts : List (Bytes × ExportedAccount)) (ops : List Op)
      → 0 < commit_every
      → length accounts < fuel
      → All (IsItem json r) accounts
      → all_ops b accounts ≡ ok ops
      → Accepted b ops
      → (s : Importer) × (playback json b commit_every fuel r0 (render_state json r accounts)
          ≡ ok (some s))
        × IsComplete b commit_every r0 s ops (length accounts)
  unfolding playback import_all
  playback-IsComplete r commits r0 fuel accounts ops positive enough shown h acc =
      let text = render_state json r accounts in
      let (s, imported, complete) =
        import_all-IsComplete b commit_every commits r0 accounts ops positive h acc in
      let (t, before, last) =
        >>=-eq-ok (import_accounts b commit_every accounts (new_importer r0))
          (λ t. commit b commit_every t) imported in
      let (p, opened, parsed) =
        >>=-eq-ok (new_parser text) (items json fuel)
          (items-render_state json r accounts fuel enough shown) in
      let read = import_stream-items fuel p accounts (new_importer r0) t parsed before in
      (
        s,
        ap
              (λ x. x >>= λ p.
                import_stream json b commit_every fuel p (new_importer r0)
                >>= last_commit b commit_every)
              opened
            ∙ ap (λ x. x >>= last_commit b commit_every) read
            ∙ ap (λ x. x >>= λ s'. ok (some s')) last,
        complete,
      )
