-- ===== src/Runtime/Storage.antt =====
-- common/src/storage.rs: the in-memory store of `MemoryKeyValue`, a hash map behind a lock. The map is an
-- association list in which a key stands once; no thread panics while it holds the lock.
pub mod Refinement
mod Tests
use oasis_ethwasi_runtime.Prelude.{
  List, [], ◌∷◌, Option, none, some, Bool, true, false, if◌then◌else◌, Outcome, ok_or, ok,
}
use oasis_ethwasi_runtime.Prelude.Bytes.{Bytes}
use oasis_ethwasi_runtime.Prelude.Texts.{codes, same}

pub record MemoryKeyValue : Type 0 where
  pub rows : List (Bytes × Bytes)

abbrev pub new_store : MemoryKeyValue
new_store = record { rows = [] }

-- `HashMap::get` and `HashMap::insert`.
unfoldable pub find_row : Bytes → List (Bytes × Bytes) → Option Bytes
find_row key [] = none
find_row key ((k, v) ∷ rows) = let rest = find_row key rows in if same k key then some v else rest

unfoldable pub put_row : Bytes → Bytes → List (Bytes × Bytes) → List (Bytes × Bytes)
put_row key value [] = (key, value) ∷ []
put_row key value ((k, v) ∷ rows) =
    let rest = put_row key value rows in if same k key then (k, value) ∷ rows else (k, v) ∷ rest

unfoldable pub get : MemoryKeyValue → Bytes → Outcome Bytes Bytes
unfolding find_row
get m key = ok_or (find_row key m.rows) (codes "not found")

unfoldable pub insert : MemoryKeyValue → Bytes → Bytes → MemoryKeyValue
unfolding put_row
insert m key value = record { rows = put_row key value m.rows }
