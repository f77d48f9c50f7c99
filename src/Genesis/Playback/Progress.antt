-- ===== src/Genesis/Playback/Progress.antt =====
-- That the parser of exported states (genesis/bin/genesis_playback.rs) gets to an end on every input.
use oasis_ethwasi_runtime.Prelude.{
  ℕ, zero, suc, ◌+◌, ◌<◌, ◌≤◌, ◌≡◌, ◌≢◌, refl, ap, sym, ◌∙◌, List, Option, none, some, leb, length,
  take, drop, length-drop, Outcome, ok, err, panic, ◌>>=◌, >>=-eq-ok, if◌then◌else◌, arith,
  Bool-cases, Option-cases, inl, inr, NoError,
}
use oasis_ethwasi_runtime.Prelude.Bytes.{Bytes}
use oasis_ethwasi_runtime.Prelude.Texts.{same}
use oasis_ethwasi_runtime.Genesis.Playback.{
  ExportedAccount, StateParser, StateParsingState, first, middle, end, exported_state_account_sep,
  exported_state_addr_sep, exported_state_end, split_at, expect, Json, after_value, next_item,
  next_account, next_at, next, more, items,
}

split_at-ok :
    (n : ℕ) (s : Bytes) (parts : Bytes × Bytes)
    → split_at n s ≡ ok parts
    → length parts.1 + n ≡ length s
unfolding split_at
split_at-ok n s parts h = elim (Bool-cases (leb n (length s))) [
  | inl fits ↦
      let taken : Path (Outcome NoError (Bytes × Bytes)) (ok (take n s, drop n s)) (ok parts) =
        rw (fits) at h in
      let same_parts : (take n s, drop n s) ≡ parts = cc in
      ap (λ q. length q.1 + n) (sym same_parts) ∙ ground (arith, length-drop n s)
  | inr short ↦
      let failed : Path (Outcome NoError (Bytes × Bytes)) panic (ok parts) = rw (short) at h in cc
]

expect-ok : (text s rest : Bytes) → expect text s ≡ ok rest → length rest + length text ≡ length s
unfolding expect
expect-ok text s rest h =
    let (parts, cut, tested) =
      >>=-eq-ok (split_at (length text) s)
        (λ parts. if same parts.0 text then ok parts.1 else panic) h in
    let left : length parts.1 + length text ≡ length s = split_at-ok (length text) s parts cut in
    elim (Bool-cases (same parts.0 text)) [
      | inl e ↦
          let found : Path (Outcome NoError Bytes) (ok parts.1) (ok rest) = rw (e) at tested in
          let same_rest : parts.1 ≡ rest = cc in
          ap (λ q. length q + length text) (sym same_rest) ∙ left
      | inr e ↦ let failed : Path (Outcome NoError Bytes) panic (ok rest) = rw (e) at tested in cc
    ]

after_value-ok :
    {A : Type 0} (o : Option (A × ℕ)) (s : Bytes) (v : A × Bytes)
    → after_value o s ≡ ok v
    → length v.1 ≤ length s
unfolding after_value
after_value-ok none s v h = cc
after_value-ok (some (a, n)) s v h =
    let (parts, cut, made) = >>=-eq-ok (split_at n s) (λ parts. ok (a, parts.1)) h in
    let same_value : (a, parts.1) ≡ v = cc in
    omega (arith, split_at-ok n s parts cut, ap (λ w. length w.1) same_value)

module _ (json : Json) where
  abbrev Shrinks : Bytes → StateParser × Option (Bytes × ExportedAccount) → Type 0
  Shrinks src r = (i : Bytes × ExportedAccount) → r.1 ≡ some i → length r.0.src < length src

  next_item-Shrinks :
      (src : Bytes) (r : StateParser × Option (Bytes × ExportedAccount))
      → next_item json src ≡ ok r
      → Shrinks src r
  unfolding next_item
  next_item-Shrinks src r h =
      let (v, got, h1) = >>=-eq-ok (after_value (json.text_value src) src) _ h in
      let (s, sep, h2) = >>=-eq-ok (expect exported_state_addr_sep v.1) _ h1 in
      let (w, account, h3) = >>=-eq-ok (after_value (json.account_value s) s) _ h2 in
      let made : (record { src = w.1; state = middle }, some (v.0, w.0)) ≡ r = cc in
      λ i e. omega (
        arith,
        after_value-ok _ src v got,
        expect-ok exported_state_addr_sep v.1 s sep,
        after_value-ok _ s w account,
        ap (λ q. length q.0.src) made,
      )

  next_account-Shrinks :
      (st : StateParsingState) (src : Bytes) (r : StateParser × Option (Bytes × ExportedAccount))
      → next_account json st src ≡ ok r
      → Shrinks src r
  unfolding next_account
  next_account-Shrinks first src r h = next_item-Shrinks src r h
  next_account-Shrinks end src r h = next_item-Shrinks src r h
  next_account-Shrinks middle src r h =
      let (s, sep, h1) = >>=-eq-ok (expect exported_state_account_sep src) (next_item json) h in
      λ i e.
        omega (arith, next_item-Shrinks s r h1 i e, expect-ok exported_state_account_sep src s sep)

  open_state-Shrinks :
      (st : StateParsingState) (src : Bytes) (r : StateParser × Option (Bytes × ExportedAccount))
      → (split_at (length exported_state_end) src >>= λ parts.
          if same parts.0 exported_state_end
          then ok (record { src = parts.1; state = end }, none)
          else next_account json st src)
        ≡ ok r
      → Shrinks src r
  open_state-Shrinks st src r h =
      let (parts, cut, tested) = >>=-eq-ok (split_at (length exported_state_end) src) _ h in
      elim (Bool-cases (same parts.0 exported_state_end)) [
        | inl e ↦ λ i some_item.
            let last : Path (Outcome NoError (StateParser × Option (Bytes × ExportedAccount)))
                (ok (record { src = parts.1; state = end }, none)) (ok r) =
              rw (e) at tested in
            absurd (cc)
        | inr e ↦ next_account-Shrinks st src r (rw (e) at tested)
      ]

  next-Shrinks :
      (st : StateParsingState) (src : Bytes) (r : StateParser × Option (Bytes × ExportedAccount))
      → next_at json st src ≡ ok r
      → Shrinks src r
  unfolding next_at
  next-Shrinks first src r h = open_state-Shrinks first src r h
  next-Shrinks middle src r h = open_state-Shrinks middle src r h
  next-Shrinks end src r h = λ i e. absurd (cc)

  more-ne-none :
      (i : Bytes × ExportedAccount)
      (rest : Outcome NoError (Option (List (Bytes × ExportedAccount))))
      → rest ≢ ok none
      → more (some i) rest ≢ ok none
  more-ne-none i (ok (some later)) h e = cc
  more-ne-none i (ok none) h e = h refl
  more-ne-none i (err x) h e = cc
  more-ne-none i panic h e = cc

  -- On every input the parser comes to an end, if only by a panic, within as many items as the input has
  -- bytes.
  pub items-Ends : (fuel : ℕ) (p : StateParser) → length p.src < fuel → items json fuel p ≢ ok none
  unfolding items next
  items-Ends zero p h e = absurd (omega arith)
  items-Ends (suc fuel) p h e =
      let (r, got, rest) =
        >>=-eq-ok (next_at json p.state p.src) (λ r. more r.1 (items json fuel r.0)) e in
      elim (Option-cases r.1) [
        | inl last ↦
            let ended : more none (items json fuel r.0) ≡ ok none =
              ap (λ o. more o (items json fuel r.0)) (sym last) ∙ rest in
            cc
        | inr (i, one) ↦
            let smaller = next-Shrinks p.state p.src r got i one in
            let later : items json fuel r.0 ≢ ok none =
              items-Ends fuel r.0 (omega (arith, smaller)) in
            more-ne-none i (items json fuel r.0) later
              (ap (λ o. more o (items json fuel r.0)) (sym one) ∙ rest)
      ]
