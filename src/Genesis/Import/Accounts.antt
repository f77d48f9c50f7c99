-- ===== src/Genesis/Import/Accounts.antt =====
-- What the import of exported accounts (genesis/bin/genesis_playback.rs) does, as one list of operations.
use oasis_ethwasi_runtime.Prelude.{
  ℕ, ◌+◌, ◌≡◌, refl, ap, sym, subst, ◌∙◌, List, [], ◌∷◌, ◌++◌, Option, none, some, true, All,
  Outcome, ok, ◌>>=◌, unwrap, Outcome-cases, >>=-eq-ok, >>=-congr, >>=-ok, >>=-assoc, inl, inr,
  NoError,
}
use oasis_ethwasi_runtime.Prelude.Bytes.{Bytes}
use oasis_ethwasi_runtime.Genesis.Playback.{ExportedAccount}
use oasis_ethwasi_runtime.Genesis.Import.{
  Op, new_contract, init_code, set_storage, Backend, Importer, perform, perform_unwrap, strip_0x,
  from_hex, import_code, import_storage, storage_items, import_account,
}
use oasis_ethwasi_runtime.Genesis.Import.Batches.{perform_all}

-- The operations that set the storage, the code and the account of exported accounts up, where their texts
-- are well formed.
module _ (b : Backend) where
  abbrev pub storage_ops : ℕ → List (Bytes × Bytes) → Outcome NoError (List Op)
  storage_ops address [] = ok []
  storage_ops address ((key, value) ∷ items) = unwrap (b.h256 (strip_0x key)) >>= λ k.
      unwrap (b.h256 (strip_0x value)) >>= λ v.
      storage_ops address items >>= λ ops. ok (set_storage address k v ∷ ops)

  abbrev pub code_ops : ℕ → Option Bytes → Outcome NoError (List Op)
  code_ops address none = ok []
  code_ops address (some code) =
      unwrap (b.hex (strip_0x code)) >>= λ bytes. ok (init_code address bytes ∷ [])

  abbrev pub account_ops : Bytes × ExportedAccount → Outcome NoError (List Op)
  account_ops (addr, account) = unwrap (b.address (strip_0x addr)) >>= λ address.
      unwrap (b.u256 (strip_0x account.balance)) >>= λ balance.
      unwrap (b.u256 (strip_0x account.nonce)) >>= λ nonce.
      code_ops address account.code >>= λ code.
      storage_ops address (storage_items account.storage) >>= λ storage.
      ok (new_contract address balance nonce ∷ (code ++ storage))

  abbrev pub all_ops : List (Bytes × ExportedAccount) → Outcome NoError (List Op)
  all_ops [] = ok []
  all_ops (a ∷ accounts) = account_ops a >>= λ ops. all_ops accounts >>= λ later. ok (ops ++ later)

  abbrev pub Accepted : List Op → Type 0
  Accepted ops = All (λ op. b.accepts op ≡ true) ops

module _ (b : Backend) (commit_every : ℕ) where
  perform_all-append :
      (xs ys : List Op) (s : Importer)
      → perform_all b commit_every (xs ++ ys) s
        ≡ (perform_all b commit_every xs s >>= perform_all b commit_every ys)
  unfolding perform_all
  perform_all-append [] ys s = refl
  perform_all-append (x ∷ xs) ys s = elim (Outcome-cases (perform b commit_every x s)) [
    | inl (s', e) ↦ rw (e) (perform_all-append xs ys s')
    | inr (inl (z, e)) ↦ rw (e)
    | inr (inr e) ↦ rw (e)
  ]

  -- One more item of storage before those whose import is known.
  storage_step :
      (address : ℕ) (key value : Bytes) (items : List (Bytes × Bytes)) (k v : ℕ) (ops : List Op)
      (s : Importer)
      → unwrap {E = NoError} (b.h256 (strip_0x key)) ≡ ok k
      → unwrap {E = NoError} (b.h256 (strip_0x value)) ≡ ok v
      → b.accepts (set_storage address k v) ≡ true
      → ((s' : Importer)
          → import_storage b commit_every address items s' ≡ perform_all b commit_every ops s')
      → import_storage b commit_every address ((key, value) ∷ items) s
        ≡ perform_all b commit_every (set_storage address k v ∷ ops) s
  unfolding import_storage perform_unwrap perform_all
  storage_step address key value items k v ops s hk hv a later =
      rw (hk, hv, a) (>>=-congr (perform b commit_every (set_storage address k v) s) _ _ later)

  pub import_storage-perform_all :
      (address : ℕ) (items : List (Bytes × Bytes)) (ops : List Op) (s : Importer)
      → storage_ops b address items ≡ ok ops
      → Accepted b ops
      → import_storage b commit_every address items s ≡ perform_all b commit_every ops s
  unfolding import_storage perform_all
  import_storage-perform_all address [] ops s h a =
      let same : [] ≡ ops = cc in ap (λ x. perform_all b commit_every x s) same
  import_storage-perform_all address ((key, value) ∷ items) ops s h a =
      let (k, hk, h1) = >>=-eq-ok (unwrap (b.h256 (strip_0x key))) _ h in
      let (v, hv, h2) = >>=-eq-ok (unwrap (b.h256 (strip_0x value))) _ h1 in
      let (rest, hr, h3) = >>=-eq-ok (storage_ops b address items) _ h2 in
      let same : (set_storage address k v ∷ rest) ≡ ops = cc in
      let a' = subst (Accepted b) (sym same) a in
      storage_step address key value items k v rest s hk hv a'.0
        (λ s'. import_storage-perform_all address items rest s' hr a'.1)
      ∙ ap (λ x. perform_all b commit_every x s) same

  code_step :
      (address : ℕ) (code bytes : Bytes) (s : Importer)
      → unwrap {E = NoError} (b.hex (strip_0x code)) ≡ ok bytes
      → b.accepts (init_code address bytes) ≡ true
      → import_code b commit_every address (some code) s
        ≡ perform_all b commit_every (init_code address bytes ∷ []) s
  unfolding import_code from_hex perform_unwrap perform_all
  code_step address code bytes s h a =
      rw (h, a) (sym (>>=-ok (perform b commit_every (init_code address bytes) s)))

  pub import_code-perform_all :
      (address : ℕ) (code : Option Bytes) (ops : List Op) (s : Importer)
      → code_ops b address code ≡ ok ops
      → Accepted b ops
      → import_code b commit_every address code s ≡ perform_all b commit_every ops s
  unfolding import_code from_hex perform_unwrap perform_all
  import_code-perform_all address none ops s h a =
      let same : [] ≡ ops = cc in ap (λ x. perform_all b commit_every x s) same
  import_code-perform_all address (some code) ops s h a =
      let (bytes, hb, h1) = >>=-eq-ok (unwrap (b.hex (strip_0x code))) _ h in
      let same : (init_code address bytes ∷ []) ≡ ops = cc in
      code_step address code bytes s hb (subst (Accepted b) (sym same) a).0
      ∙ ap (λ x. perform_all b commit_every x s) same

  -- An account's import is that of its operations, and counts the account.
  unfoldable pub count_account : Importer → Outcome NoError Importer
  count_account s = ok (record s { n_accounts = s.n_accounts + 1 })

  pub account_step :
      (addr : Bytes) (account : ExportedAccount) (s : Importer) (address balance nonce : ℕ)
      (code storage : List Op)
      → unwrap {E = NoError} (b.address (strip_0x addr)) ≡ ok address
      → unwrap {E = NoError} (b.u256 (strip_0x account.balance)) ≡ ok balance
      → unwrap {E = NoError} (b.u256 (strip_0x account.nonce)) ≡ ok nonce
      → ((s' : Importer)
          → import_code b commit_every address account.code s' ≡ perform_all b commit_every code s')
      → ((s' : Importer)
          → import_storage b commit_every address (storage_items account.storage) s'
            ≡ perform_all b commit_every storage s')
      → import_account b commit_every (addr, account) s ≡ (
          perform_all b commit_every (new_contract address balance nonce ∷ (code ++ storage)) s
          >>= count_account)
  unfolding import_account perform_all count_account
  account_step addr account s address balance nonce code storage ha hb hn hc hs =
      let all = perform_all b commit_every in
      let first = perform b commit_every (new_contract address balance nonce) s in
      let storage_too = λ (s1 : Importer).
        >>=-congr (all code s1)
          (λ s2.
            import_storage b commit_every address (storage_items account.storage) s2
            >>= count_account)
          (λ s2. all storage s2 >>= count_account) (λ s2. ap (λ r. r >>= count_account) (hs s2)) in
      let rest = λ (s1 : Importer).
        ap
          (λ r. r >>= λ s2.
            import_storage b commit_every address (storage_items account.storage) s2
            >>= count_account)
          (hc s1)
        ∙ storage_too s1
        ∙ sym (>>=-assoc (all code s1) (all storage) count_account)
        ∙ ap (λ r. r >>= count_account) (sym (perform_all-append code storage s1)) in
      rw (ha, hb, hn) (>>=-congr first _ (λ s1. all (code ++ storage) s1 >>= count_account) rest)
      ∙ sym (>>=-assoc first (all (code ++ storage)) count_account)
