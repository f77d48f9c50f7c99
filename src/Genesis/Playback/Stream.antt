-- ===== src/Genesis/Playback/Stream.antt =====
-- The round trip of the parser of exported states (genesis/bin/genesis_playback.rs), with the format
-- that the exporter of Parity writes.
use oasis_ethwasi_runtime.Prelude.{
  ℕ, zero, suc, ◌<◌, ◌≤◌, ◌≡◌, refl, ap, ◌∙◌, List, [], ◌∷◌, ◌++◌, append_assoc, Option, some,
  false, le→leb, length, take, drop, All, length-append, take-append, drop-append, ok, ◌>>=◌, arith,
}
use oasis_ethwasi_runtime.Prelude.Bytes.{Bytes}
use oasis_ethwasi_runtime.Prelude.Texts.{same, same_refl}
use oasis_ethwasi_runtime.Genesis.Playback.{
  ExportedAccount, first, middle, exported_state_start, exported_state_account_sep,
  exported_state_addr_sep, exported_state_end, split_at, expect, new_parser, Json, after_value,
  next_item, next_account, next_at, next, items,
}

split_at_lem : (n : ℕ) (xs ys : Bytes) → length xs ≡ n → split_at n (xs ++ ys) ≡ ok (xs, ys)
unfolding split_at
split_at_lem n xs ys h = rw (
  le→leb n (length (xs ++ ys)) (omega (arith, length-append xs ys)),
  take-append n xs ys h,
  drop-append n xs ys h,
)

cut_lem : (n : ℕ) (s : Bytes) → n ≤ length s → split_at n s ≡ ok (take n s, drop n s)
unfolding split_at
cut_lem n s h = rw (le→leb n (length s) h)

expect_lem : (text rest : Bytes) → expect text (text ++ rest) ≡ ok rest
unfolding expect
expect_lem text rest = rw (split_at_lem (length text) text rest refl, same_refl text)

after_value_lem :
    {A : Type 0} (o : Option (A × ℕ)) (a : A) (text rest : Bytes)
    → o ≡ some (a, length text)
    → after_value o (text ++ rest) ≡ ok (a, rest)
unfolding after_value
after_value_lem o a text rest h =
    ap (λ p. after_value p (text ++ rest)) h ∙ (rw (split_at_lem (length text) text rest refl))

-- How texts and accounts are written that JSON can hold, and that the JSON reader reads them back whatever
-- follows; it passes over a line feed, and a text starts with a quotation mark.
pub record Rendering (json : Json) : Type 1 where
  pub IsText : Bytes → Type 0
  pub IsAccount : ExportedAccount → Type 0
  pub text : Bytes → Bytes
  pub account : ExportedAccount → Bytes
  pub quoted : (t : Bytes) → (s : Bytes) × (text t ≡ 34 ∷ s)
  pub read_text :
      (t rest : Bytes)
      → IsText t
      → json.text_value (10 ∷ (text t ++ rest)) ≡ some (t, length (10 ∷ text t))
  pub read_account :
      (a : ExportedAccount) (rest : Bytes)
      → IsAccount a
      → json.account_value (account a ++ rest) ≡ some (a, length (account a))

module _ (json : Json) (r : Rendering json) where
  abbrev pub IsItem : Bytes × ExportedAccount → Type 0
  IsItem i = r.IsText i.0 × r.IsAccount i.1

  unfoldable pub render_item : Bytes × ExportedAccount → Bytes
  render_item (addr, a) = (10 ∷ r.text addr) ++ (exported_state_addr_sep ++ r.account a)

  -- The items behind one that was written.
  unfoldable pub render_more : List (Bytes × ExportedAccount) → Bytes
  unfolding render_item
  render_more [] = exported_state_end
  render_more (i ∷ is) = exported_state_account_sep ++ (render_item i ++ render_more is)

  unfoldable pub render_state : List (Bytes × ExportedAccount) → Bytes
  unfolding render_item render_more
  render_state [] = exported_state_start ++ exported_state_end
  render_state (i ∷ is) = exported_state_start ++ (render_item i ++ render_more is)

  next_item_lem :
      (addr : Bytes) (a : ExportedAccount) (rest : Bytes)
      → IsItem (addr, a)
      → next_item json (render_item (addr, a) ++ rest)
        ≡ ok (record { src = rest; state = middle }, some (addr, a))
  unfolding next_item render_item
  next_item_lem addr a rest h =
      let text = 10 ∷ r.text addr in
      let behind = r.account a ++ rest in
      let spelled : (text ++ (exported_state_addr_sep ++ r.account a)) ++ rest
          ≡ text ++ (exported_state_addr_sep ++ behind) =
        append_assoc text (exported_state_addr_sep ++ r.account a) rest in
      let sep_behind = exported_state_addr_sep ++ behind in
      let got =
        after_value_lem (json.text_value (text ++ sep_behind)) addr text sep_behind
          (r.read_text addr sep_behind h.0) in
      let got_account =
        after_value_lem (json.account_value behind) a (r.account a) rest
          (r.read_account a rest h.1) in
      rw (spelled, got, expect_lem exported_state_addr_sep behind, got_account)

  length-item : (i : Bytes × ExportedAccount) → 4 ≤ length (render_item i)
  unfolding render_item
  length-item (addr, a) =
      let (s, e) = r.quoted addr in
      rw (e) (omega (arith, length-append s (exported_state_addr_sep ++ r.account a)))

  first_of_item :
      (i : Bytes × ExportedAccount) (rest : Bytes)
      → same (take 3 (render_item i ++ rest)) exported_state_end ≡ false
  unfolding render_item same
  first_of_item (addr, a) rest = let (s, e) = r.quoted addr in rw (e)

  first_account :
      (i : Bytes × ExportedAccount) (rest : Bytes)
      → IsItem i
      → next_at json first (render_item i ++ rest)
        ≡ ok (record { src = rest; state = middle }, some i)
  unfolding next_at next_account
  first_account (addr, a) rest h =
      let src = render_item (addr, a) ++ rest in
      let long : 3 ≤ length src =
        omega (arith, length-item (addr, a), length-append (render_item (addr, a)) rest) in
      rw (cut_lem 3 src long, first_of_item (addr, a) rest) (next_item_lem addr a rest h)

  later_account :
      (i : Bytes × ExportedAccount) (rest : Bytes)
      → IsItem i
      → next_at json middle (exported_state_account_sep ++ (render_item i ++ rest))
        ≡ ok (record { src = rest; state = middle }, some i)
  unfolding next_at next_account same
  later_account (addr, a) rest h =
      let src = exported_state_account_sep ++ (render_item (addr, a) ++ rest) in
      let long : 3 ≤ length src =
        omega (arith, length-item (addr, a), length-append (render_item (addr, a)) rest) in
      rw (cut_lem 3 src long, expect_lem exported_state_account_sep (render_item (addr, a) ++ rest))
        (next_item_lem addr a rest h)

  last_middle :
      (fuel : ℕ)
      → items json (suc fuel) (record { src = exported_state_end; state = middle }) ≡ ok (some [])
  unfolding items next same
  last_middle fuel = refl

  last_first :
      (fuel : ℕ)
      → items json (suc fuel) (record { src = exported_state_end; state = first }) ≡ ok (some [])
  unfolding items next same
  last_first fuel = refl

  items_more :
      (is : List (Bytes × ExportedAccount)) (fuel : ℕ)
      → length is < fuel
      → All IsItem is
      → items json fuel (record { src = render_more is; state = middle }) ≡ ok (some is)
  unfolding items next render_more
  items_more is zero h all = absurd (omega arith)
  items_more [] (suc fuel) h all = last_middle fuel
  items_more (i ∷ is) (suc fuel) h all =
      rw (later_account i (render_more is) all.0, items_more is fuel (omega arith) all.1)

  -- Where the JSON reader reads back what is written, an account at a time: the parser returns from an
  -- exported state, of accounts that JSON can hold, all of its accounts, in order, and ends, with fuel for
  -- more items than there are accounts.
  pub items-render_state :
      (is : List (Bytes × ExportedAccount)) (fuel : ℕ)
      → length is < fuel
      → All IsItem is
      → (new_parser (render_state is) >>= items json fuel) ≡ ok (some is)
  unfolding new_parser items next render_state
  items-render_state is zero h all = absurd (omega arith)
  items-render_state [] (suc fuel) h all =
      rw (expect_lem exported_state_start exported_state_end) (last_first fuel)
  items-render_state (i ∷ is) (suc fuel) h all = rw (
    expect_lem exported_state_start (render_item i ++ render_more is),
    first_account i (render_more is) all.0,
    items_more is fuel (omega arith) all.1,
  )
