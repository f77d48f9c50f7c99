-- ===== src/Genesis/Import/Batches.antt =====
-- How the operations of an import (genesis/bin/genesis_playback.rs) are divided into commits.
use oasis_ethwasi_runtime.Prelude.{
  ℕ, zero, suc, ◌+◌, ◌*◌, ◌<◌, ◌≡◌, refl, ap, sym, subst, ◌∙◌, List, [], ◌∷◌, ◌++◌, append-nil,
  append_assoc, some, ◌==◌, ==_iff, length, length-append, replicate, Outcome, ok, ◌>>=◌,
  Bool-cases, inl, inr, arith, NoError,
}
use oasis_ethwasi_runtime.Genesis.Import.{
  Op, Event, did, committed, Backend, Importer, commit, check_commit, perform,
}

abbrev pub operations : List Event → List Op
operations [] = []
operations (did op ∷ es) = op ∷ operations es
operations (committed r r' ∷ es) = operations es

-- How many operations each commit takes in, with `n` pending at the start, and how many are pending at the
-- end.
abbrev pub batches : ℕ → List Event → List ℕ
batches n [] = []
batches n (did op ∷ es) = batches (suc n) es
batches n (committed r r' ∷ es) = n ∷ batches 0 es

abbrev pub pending : ℕ → List Event → ℕ
pending n [] = n
pending n (did op ∷ es) = pending (suc n) es
pending n (committed r r' ∷ es) = pending 0 es

-- Each commit starts from the root that the one before it led to.
abbrev pub IsChain : ℕ → List Event → ℕ → Type 0
IsChain r [] r' = r ≡ r'
IsChain r (did op ∷ es) r' = IsChain r es r'
IsChain r (committed a b ∷ es) r' = (a ≡ r) × IsChain b es r'

pub operations-append :
    (es fs : List Event) → operations (es ++ fs) ≡ operations es ++ operations fs
operations-append [] fs = refl
operations-append (did op ∷ es) fs = ap (op ∷◌) (operations-append es fs)
operations-append (committed r r' ∷ es) fs = operations-append es fs

pub batches-append :
    (n : ℕ) (es fs : List Event) → batches n (es ++ fs) ≡ batches n es ++ batches (pending n es) fs
batches-append n [] fs = refl
batches-append n (did op ∷ es) fs = batches-append (suc n) es fs
batches-append n (committed r r' ∷ es) fs = ap (n ∷◌) (batches-append 0 es fs)

pub pending-append : (n : ℕ) (es fs : List Event) → pending n (es ++ fs) ≡ pending (pending n es) fs
pending-append n [] fs = refl
pending-append n (did op ∷ es) fs = pending-append (suc n) es fs
pending-append n (committed r r' ∷ es) fs = pending-append 0 es fs

pub IsChain-append :
    (r r' r'' : ℕ) (es fs : List Event)
    → IsChain r es r'
    → IsChain r' fs r''
    → IsChain r (es ++ fs) r''
IsChain-append r r' r'' [] fs h k = subst (λ x. IsChain x fs r'') (sym h) k
IsChain-append r r' r'' (did op ∷ es) fs h k = IsChain-append r r' r'' es fs h k
IsChain-append r r' r'' (committed a b ∷ es) fs h k = (h.0, IsChain-append b r' r'' es fs h.1 k)

replicate-snoc : (n a : ℕ) → replicate n a ++ (a ∷ []) ≡ replicate (suc n) a
replicate-snoc zero a = refl
replicate-snoc (suc n) a = ap (a ∷◌) (replicate-snoc n a)

-- The root that each commit led to is the one that the backend returned for it, which has been given all that
-- was done and committed before.
abbrev pub IsBacked : Backend → List Event → List Event → Type 0
IsBacked b before [] = Unit {0}
IsBacked b before (did op ∷ es) = IsBacked b (before ++ (did op ∷ [])) es
IsBacked b before (committed r r' ∷ es) =
    (b.commit before ≡ some r') × IsBacked b (before ++ (committed r r' ∷ [])) es

pub IsBacked-append :
    (b : Backend) (before es fs : List Event)
    → IsBacked b before es
    → IsBacked b (before ++ es) fs
    → IsBacked b before (es ++ fs)
IsBacked-append b before [] fs h k = subst (λ x. IsBacked b x fs) (append-nil before) k
IsBacked-append b before (did op ∷ es) fs h k =
    IsBacked-append b (before ++ (did op ∷ [])) es fs h
      (subst (λ x. IsBacked b x fs) (sym (append_assoc before (did op ∷ []) es)) k)
IsBacked-append b before (committed r r' ∷ es) fs h k = (
  h.0,
  IsBacked-append b (before ++ (committed r r' ∷ [])) es fs h.1
      (subst (λ x. IsBacked b x fs) (sym (append_assoc before (committed r r' ∷ []) es)) k),
)

-- An import has done `ops`, from the root `r0` on, all commits full and those pending fewer than one takes.
pub record Tracks (b : Backend) (commit_every r0 : ℕ) (s : Importer) (ops : List Op) : Type 0 where
  pub full : ℕ
  pub done : operations s.events ≡ ops
  pub commits : batches 0 s.events ≡ replicate full commit_every
  pub counted : pending 0 s.events ≡ s.ops
  pub total : length ops ≡ full * commit_every + s.ops
  pub below : s.ops < commit_every
  pub chained : IsChain r0 s.events s.root
  pub backed : IsBacked b [] s.events

module _ (b : Backend) (commit_every : ℕ) where
  unfoldable pub perform_all : List Op → Importer → Outcome NoError Importer
  perform_all [] s = ok s
  perform_all (op ∷ ops) s = perform b commit_every op s >>= λ s'. perform_all ops s'

module _ (b : Backend) (commit_every : ℕ)
    (commits : (es : List Event) → (r : ℕ) × (b.commit es ≡ some r)) where
  perform-Tracks :
      (r0 : ℕ) (op : Op) (s : Importer) (ops : List Op)
      → Tracks b commit_every r0 s ops
      → (s' : Importer) × (perform b commit_every op s ≡ ok s')
        × Tracks b commit_every r0 s' (ops ++ (op ∷ []))
        × (s'.n_accounts ≡ s.n_accounts)
  unfolding perform check_commit commit
  perform-Tracks r0 op s ops t =
      let es = s.events ++ (did op ∷ []) in
      let done : operations es ≡ ops ++ (op ∷ []) =
        operations-append s.events (did op ∷ []) ∙ ap (λ x. x ++ (op ∷ [])) t.done in
      let held : pending 0 es ≡ suc s.ops =
        pending-append 0 s.events (did op ∷ []) ∙ ap suc t.counted in
      let full : batches 0 es ≡ replicate t.full commit_every =
        batches-append 0 s.events (did op ∷ []) ∙ append-nil (batches 0 s.events) ∙ t.commits in
      let chain : IsChain r0 es s.root =
        IsChain-append r0 s.root s.root s.events _ t.chained refl in
      let backed : IsBacked b [] es = IsBacked-append b [] s.events (did op ∷ []) t.backed tt in
      let size = length-append ops (op ∷ []) in
      elim (Bool-cases (s.ops + 1 == commit_every)) [
        | inr few ↦ (
          record s { events = es; ops = s.ops + 1 },
          rw (few),
          record {
            full = t.full;
            done = done;
            commits = full;
            counted = omega (arith, held);
            total = omega (arith, size, t.total);
            below = ground (arith, t.below);
            chained = chain;
            backed = backed;
          },
          refl,
        )
        | inl enough ↦
            let c = s.ops + 1 in
            let (r, stored) = commits es in
            let mark = committed s.root r ∷ [] in
            let es' = es ++ mark in
            let whole : suc s.ops ≡ commit_every =
              omega (arith, (==_iff c commit_every).0 enough) in
            (
              record { events = es'; ops = 0; root = r; n_accounts = s.n_accounts },
              rw (enough, stored),
              record {
                full = suc t.full;
                done = operations-append es mark ∙ append-nil (operations es) ∙ done;
                commits =
                    batches-append 0 es mark
                    ∙ ap (λ xs. xs ++ (pending 0 es ∷ [])) full
                    ∙ ap (λ k. replicate t.full commit_every ++ (k ∷ [])) (held ∙ whole)
                    ∙ replicate-snoc t.full commit_every;
                counted = pending-append 0 es mark;
                total = omega (arith, size, t.total, whole);
                below = omega (arith, whole);
                chained = IsChain-append r0 s.root r es mark chain (refl, refl);
                backed = IsBacked-append b [] es mark backed (stored, tt);
              },
              refl,
            )
      ]

  pub perform_all-Tracks :
      (r0 : ℕ) (ops : List Op) (s : Importer) (before : List Op)
      → Tracks b commit_every r0 s before
      → (s' : Importer) × (perform_all b commit_every ops s ≡ ok s')
        × Tracks b commit_every r0 s' (before ++ ops)
        × (s'.n_accounts ≡ s.n_accounts)
  unfolding perform_all
  perform_all-Tracks r0 [] s before t =
      (s, refl, subst (Tracks b commit_every r0 s) (sym (append-nil before)) t, refl)
  perform_all-Tracks r0 (op ∷ ops) s before t =
      let (s1, done, t1, same) = perform-Tracks r0 op s before t in
      let (s2, rest, t2, same2) = perform_all-Tracks r0 ops s1 (before ++ (op ∷ [])) t1 in
      (
        s2,
        rw (done) rest,
        subst (Tracks b commit_every r0 s2) (append_assoc before (op ∷ []) ops) t2,
        same2 ∙ same,
      )
