-- ===== src/Genesis/Playback.antt =====
-- genesis/bin/genesis_playback.rs: the parser of an exported Ethereum state. A text is its bytes. What
-- serde_json reads from the front of a text is a parameter.
pub mod Stream
pub mod Progress
mod Tests
use oasis_ethwasi_runtime.Prelude.{
  ℕ, zero, suc, ◌+◌, List, [], ◌∷◌, ◌++◌, Option, none, some, Bool, true, false, if◌then◌else◌, leb,
  ◌==◌, length, take, drop, Outcome, ok, err, panic, ◌>>=◌, ◌>>◌, unwrap, NoError,
}
use oasis_ethwasi_runtime.Prelude.Bytes.{Bytes}
use oasis_ethwasi_runtime.Prelude.Texts.{codes, same}

pub data StateParsingState : Type 0 where
  first middle end : StateParsingState

-- The storage comes in the order of its map.
pub record ExportedAccount : Type 0 where
  pub balance : Bytes
  pub nonce : Bytes
  pub code : Option Bytes
  pub storage : Option (List (Bytes × Bytes))

pub record StateParser : Type 0 where
  pub src : Bytes
  pub state : StateParsingState

-- `{ "state": {`, `,`, `: ` and a line feed before `}}`.
abbrev pub exported_state_start : Bytes
exported_state_start = codes "{ \"state\": {"

abbrev pub exported_state_account_sep : Bytes
exported_state_account_sep = codes ","

abbrev pub exported_state_addr_sep : Bytes
exported_state_addr_sep = codes ": "

abbrev pub exported_state_end : Bytes
exported_state_end = 10 ∷ codes "}}"

unfoldable pub split_at : ℕ → Bytes → Outcome NoError (Bytes × Bytes)
split_at n s = if leb n (length s) then ok (take n s, drop n s) else panic

-- `split_at` and the `assert_eq!` after it: the rest behind an expected text.
unfoldable pub expect : Bytes → Bytes → Outcome NoError Bytes
unfolding split_at
expect text s =
    split_at (length text) s >>= λ parts. if same parts.0 text then ok parts.1 else panic

unfoldable pub new_parser : Bytes → Outcome NoError StateParser
unfolding expect
new_parser src =
    expect exported_state_start src >>= λ rest. ok (record { src = rest; state = first })

-- The first value that a text holds, with the number of bytes read.
pub record Json : Type 0 where
  pub text_value : Bytes → Option (Bytes × ℕ)
  pub account_value : Bytes → Option (ExportedAccount × ℕ)

unfoldable pub after_value : {A : Type 0} → Option (A × ℕ) → Bytes → Outcome NoError (A × Bytes)
unfolding split_at
after_value none s = panic
after_value (some (a, offset)) s = split_at offset s >>= λ parts. ok (a, parts.1)

-- An item, if there is one, before those that follow.
abbrev pub more :
    Option (Bytes × ExportedAccount)
    → Outcome NoError (Option (List (Bytes × ExportedAccount)))
    → Outcome NoError (Option (List (Bytes × ExportedAccount)))
more none rest = ok (some [])
more (some item) (ok (some later)) = ok (some (item ∷ later))
more (some item) (ok none) = ok none
more (some item) (err e) = err e
more (some item) panic = panic

module _ (json : Json) where
  unfoldable pub next_item :
      Bytes → Outcome NoError (StateParser × Option (Bytes × ExportedAccount))
  unfolding after_value expect
  next_item src = do
    (addr, behind_addr) ← after_value (json.text_value src) src
    behind_sep ← expect exported_state_addr_sep behind_addr
    (account, rest) ← after_value (json.account_value behind_sep) behind_sep
    ok (record { src = rest; state = middle }, some (addr, account))

  -- What follows the test for the end.
  unfoldable pub next_account :
      StateParsingState → Bytes → Outcome NoError (StateParser × Option (Bytes × ExportedAccount))
  unfolding next_item expect
  next_account middle src = expect exported_state_account_sep src >>= λ rest. next_item rest
  next_account _ src = next_item src

  unfoldable pub next_at :
      StateParsingState → Bytes → Outcome NoError (StateParser × Option (Bytes × ExportedAccount))
  unfolding next_account split_at
  next_at end src = ok (record { src = src; state = end }, none)
  next_at state src =
      let account = next_account state src in
      split_at (length exported_state_end) src >>= λ parts.
      if same parts.0 exported_state_end
      then ok (record { src = parts.1; state = end }, none)
      else account

  unfoldable pub next :
      StateParser → Outcome NoError (StateParser × Option (Bytes × ExportedAccount))
  unfolding next_at
  next p = next_at p.state p.src

  -- The items of the iterator until it returns none; none where the fuel does not suffice.
  unfoldable pub items : ℕ → StateParser → Outcome NoError (Option (List (Bytes × ExportedAccount)))
  unfolding next
  items zero p = ok none
  items (suc fuel) p = next p >>= λ r. more r.1 (items fuel r.0)
