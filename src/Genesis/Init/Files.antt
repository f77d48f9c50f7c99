-- ===== src/Genesis/Init/Files.antt =====
-- What the output file holds when genesis/bin/genesis_init.rs ends.
use oasis_ethwasi_runtime.Prelude.{
  ◌≡◌, refl, List, [], ◌∷◌, Option, none, some, Outcome, ok, err, panic, NoError, ◌⊎◌, inl, inr,
}
use oasis_ethwasi_runtime.Prelude.Bytes.{Bytes}
use oasis_ethwasi_runtime.Prelude.Options.{Matches, Accepts, some_found}
use oasis_ethwasi_runtime.Genesis.Init.{
  init_app, Machine, FileEvent, created, written, genesis_log, serialize, after_log, main,
}

module _ {Spec Tree WriteLog : Type 0} (w : Machine Spec Tree WriteLog) (m : Matches) where
  -- The file is written whole; or it is not touched; or it is emptied, and its writing
  -- fails.
  abbrev pub Ends :
      Bytes
      → Outcome NoError WriteLog
      → Outcome NoError (Unit {0}) × List (FileEvent WriteLog)
      → Type 0
  Ends out log r =
      ((l : WriteLog) × (log ≡ ok l) × (r ≡ (ok tt, created out ∷ written out l ∷ [])))
      ⊎ ((r ≡ (panic, []))
          ⊎ ((l : WriteLog) × (log ≡ ok l)
              × (w.write out l ≡ none)
              × (r ≡ (panic, created out ∷ []))))

  write-Ends :
      (out : Bytes) (l : WriteLog) (made : Option (Unit {0})) (wrote : Option (Unit {0}))
      → w.create_file out ≡ made
      → w.write out l ≡ wrote
      → Ends out (ok l) (serialize w (ok out) l)
  unfolding serialize
  write-Ends out l none wrote p q = inr (inl (rw (p) refl))
  write-Ends out l (some u) none p q = inr (inr (l, refl, q, rw (p, q) refl))
  write-Ends out l (some u) (some v) p q = inl (l, refl, rw (p, q) refl)

  ends :
      (out : Bytes) (log : Outcome NoError WriteLog)
      → m.value_of "output_file" ≡ some out
      → Ends out log (after_log w m log)
  unfolding after_log
  ends out (ok l) p = rw (p) (write-Ends out l (w.create_file out) (w.write out l) refl refl)
  ends out (err e) p = elim e [ ]
  ends out panic p = inr (inl refl)

  -- On a command line that clap accepts, the program writes the whole genesis state to the output file; or
  -- it panics before the file is touched; or it panics as the writing fails, once the file has been
  -- emptied. The file is not touched unless the genesis state was made and committed.
  pub main-Ends :
      Accepts init_app m
      → (out : Bytes) × (m.value_of "output_file" ≡ some out)
        × Ends out (genesis_log w m) (main w m)
  unfolding main
  main-Ends h =
      let (out, p) = some_found (m.value_of "output_file") (h.1.0.present refl) in
      (out, p, ends out (genesis_log w m) p)
