-- ===== src/Genesis/Import/Completeness.antt =====
-- That an import (genesis/bin/genesis_playback.rs) commits all that the accounts ask for.
use oasis_ethwasi_runtime.Prelude.{
  ℕ, ◌+◌, ◌*◌, ◌<◌, ◌≡◌, refl, ap, sym, subst, ◌∙◌, List, [], ◌∷◌, ◌++◌, append-nil, append_assoc,
  some, length, replicate, ok, ◌>>=◌, unwrap, >>=-eq-ok, arith, NoError,
}
use oasis_ethwasi_runtime.Prelude.Bytes.{Bytes}
use oasis_ethwasi_runtime.Genesis.Playback.{ExportedAccount}
use oasis_ethwasi_runtime.Genesis.Import.{
  Op, new_contract, Event, committed, Backend, Importer, commit, strip_0x, storage_items,
  import_account, import_accounts, import_all,
}
use oasis_ethwasi_runtime.Genesis.Import.Batches.{
  operations, batches, pending, IsChain, operations-append, batches-append, pending-append,
  IsChain-append, IsBacked, IsBacked-append, Tracks, perform_all, perform_all-Tracks,
}
use oasis_ethwasi_runtime.Genesis.Import.Accounts.{
  storage_ops, code_ops, account_ops, all_ops, Accepted, count_account, account_step,
  import_code-perform_all, import_storage-perform_all,
}

-- The result of an import: all operations are done in order and committed, each commit but the last one
-- took in as many as asked for and the last one the rest, the commits form a chain of roots, and each
-- root is the one that the backend returned for what was done and committed before. The events and the last
-- root are thus determined by the operations, the number for a commit and the backend.
pub record IsComplete (b : Backend) (commit_every r0 : ℕ) (s : Importer) (ops : List Op)
    (accounts : ℕ) : Type 0 where
  pub done : operations s.events ≡ ops
  pub full : ℕ
  pub rest : ℕ
  pub commits : batches 0 s.events ≡ replicate full commit_every ++ (rest ∷ [])
  pub total : length ops ≡ full * commit_every + rest
  pub below : rest < commit_every
  pub nothing_pending : pending 0 s.events ≡ 0
  pub chained : IsChain r0 s.events s.root
  pub backed : IsBacked b [] s.events
  pub counted : s.n_accounts ≡ accounts

counted_Tracks :
    (b : Backend) (c r0 : ℕ) (s : Importer) (ops : List Op) (n : ℕ)
    → Tracks b c r0 s ops
    → Tracks b c r0 (record s { n_accounts = n }) ops
counted_Tracks b c r0 s ops n t = record {
  full = t.full;
  done = t.done;
  commits = t.commits;
  counted = t.counted;
  total = t.total;
  below = t.below;
  chained = t.chained;
  backed = t.backed;
}

Accepted-append_right : (b : Backend) (xs ys : List Op) → Accepted b (xs ++ ys) → Accepted b ys
Accepted-append_right b [] ys h = h
Accepted-append_right b (x ∷ xs) ys h = Accepted-append_right b xs ys h.1

Accepted-append_left : (b : Backend) (xs ys : List Op) → Accepted b (xs ++ ys) → Accepted b xs
Accepted-append_left b [] ys h = tt
Accepted-append_left b (x ∷ xs) ys h = (h.0, Accepted-append_left b xs ys h.1)

import_account-perform_all :
    (b : Backend) (commit_every : ℕ) (a : Bytes × ExportedAccount) (ops : List Op) (s : Importer)
    → account_ops b a ≡ ok ops
    → Accepted b ops
    → import_account b commit_every a s
      ≡ (perform_all b commit_every ops s >>= count_account b commit_every)
import_account-perform_all b n (addr, account) ops s h acc =
    let (address, ha, h1) = >>=-eq-ok (unwrap {E = NoError} (b.address (strip_0x addr))) _ h in
    let (balance, hb, h2) =
      >>=-eq-ok (unwrap {E = NoError} (b.u256 (strip_0x account.balance))) _ h1 in
    let (nonce, hn, h3) = >>=-eq-ok (unwrap {E = NoError} (b.u256 (strip_0x account.nonce))) _ h2 in
    let (code, hc, h4) = >>=-eq-ok (code_ops b address account.code) _ h3 in
    let (storage, hs, h5) =
      >>=-eq-ok (storage_ops b address (storage_items account.storage)) _ h4 in
    let same : (new_contract address balance nonce ∷ (code ++ storage)) ≡ ops = cc in
    let acc' = (subst (Accepted b) (sym same) acc).1 in
    account_step b n addr account s address balance nonce code storage ha hb hn
      (λ s'.
        import_code-perform_all b n address account.code code s' hc
          (Accepted-append_left b code storage acc'))
      (λ s'.
        import_storage-perform_all b n address (storage_items account.storage) storage s' hs
          (Accepted-append_right b code storage acc'))
    ∙ ap (λ x. perform_all b n x s >>= count_account b n) same

commit_ok :
    (b : Backend) (c : ℕ) (s : Importer) (r : ℕ)
    → b.commit s.events ≡ some r
    → commit b c s ≡ ok (record s { events = s.events ++ (committed s.root r ∷ []); root = r })
unfolding commit
commit_ok b c s r h = rw (h)

module _ (b : Backend) (commit_every : ℕ)
    (commits : (es : List Event) → (r : ℕ) × (b.commit es ≡ some r)) where
  import_accounts-Tracks :
      (r0 : ℕ) (accounts : List (Bytes × ExportedAccount)) (ops before : List Op) (s : Importer)
      → all_ops b accounts ≡ ok ops
      → Accepted b ops
      → Tracks b commit_every r0 s before
      → (s' : Importer) × (import_accounts b commit_every accounts s ≡ ok s')
        × Tracks b commit_every r0 s' (before ++ ops)
        × (s'.n_accounts ≡ s.n_accounts + length accounts)
  unfolding import_accounts count_account
  import_accounts-Tracks r0 [] ops before s h acc t =
      let same : [] ≡ ops = cc in
      (
        s,
        refl,
        subst (Tracks b commit_every r0 s) (sym (append-nil before) ∙ ap (before ++◌) same) t,
        omega arith,
      )
  import_accounts-Tracks r0 (a ∷ accounts) ops before s h acc t =
      let (xs, hx, h1) = >>=-eq-ok (account_ops b a) _ h in
      let (ys, hy, h2) = >>=-eq-ok (all_ops b accounts) _ h1 in
      let same : (xs ++ ys) ≡ ops = cc in
      let acc' = subst (Accepted b) (sym same) acc in
      let (s1, done, t1, kept) = perform_all-Tracks b commit_every commits r0 xs s before t in
      let s1' = record s1 { n_accounts = s1.n_accounts + 1 } in
      let first : import_account b commit_every a s ≡ ok s1' =
        import_account-perform_all b commit_every a xs s hx (Accepted-append_left b xs ys acc')
        ∙ ap (λ r. r >>= count_account b commit_every) done in
      let t1' : Tracks b commit_every r0 s1' (before ++ xs) =
        counted_Tracks b commit_every r0 s1 _ _ t1 in
      let (s2, rest, t2, more) =
        import_accounts-Tracks r0 accounts ys (before ++ xs) s1' hy
          (Accepted-append_right b xs ys acc') t1' in
      (
        s2,
        ap (λ r. r >>= import_accounts b commit_every accounts) first ∙ rest,
        subst (Tracks b commit_every r0 s2) (append_assoc before xs ys ∙ ap (before ++◌) same) t2,
        omega (arith, more, kept),
      )

  -- Where every commit succeeds, the accounts' texts are well formed and the state takes their operations,
  -- an import with commits every so many operations, at least one, does all operations of all accounts in
  -- order, commits each of them once, full batches first and then what is left, each commit starting from
  -- the root that the one before it led to, and counts the accounts.
  pub import_all-IsComplete :
      (r0 : ℕ) (accounts : List (Bytes × ExportedAccount)) (ops : List Op)
      → 0 < commit_every
      → all_ops b accounts ≡ ok ops
      → Accepted b ops
      → (s : Importer) × (import_all b commit_every r0 accounts ≡ ok s)
        × IsComplete b commit_every r0 s ops (length accounts)
  unfolding import_all commit
  import_all-IsComplete r0 accounts ops positive h acc =
      let fresh : Importer = record { events = []; ops = 0; root = r0; n_accounts = 0 } in
      let start : Tracks b commit_every r0 fresh [] = record {
        full = 0;
        done = refl;
        commits = refl;
        counted = refl;
        total = omega arith;
        below = positive;
        chained = refl;
        backed = tt;
      } in
      let (s, imported, t, n) = import_accounts-Tracks r0 accounts ops [] fresh h acc start in
      let (r, stored) = commits s.events in
      let mark = committed s.root r ∷ [] in
      (
        record s { events = s.events ++ mark; root = r },
        ap (λ x. x >>= commit b commit_every) imported ∙ commit_ok b commit_every s r stored,
        record {
          done = operations-append s.events mark ∙ append-nil (operations s.events) ∙ t.done;
          full = t.full;
          rest = s.ops;
          commits =
              batches-append 0 s.events mark
              ∙ ap (λ xs. xs ++ (pending 0 s.events ∷ [])) t.commits
              ∙ ap (λ k. replicate t.full commit_every ++ (k ∷ [])) t.counted;
          total = t.total;
          below = t.below;
          nothing_pending = pending-append 0 s.events mark;
          chained = IsChain-append r0 s.root r s.events mark t.chained (refl, refl);
          backed = IsBacked-append b [] s.events mark t.backed (stored, tt);
          counted = omega (arith, n);
        },
      )
