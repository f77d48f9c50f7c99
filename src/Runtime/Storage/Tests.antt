-- ===== src/Runtime/Storage/Tests.antt =====
-- A few calls of a store.
use oasis_ethwasi_runtime.Prelude.{◌≡◌, List, [], ◌∷◌, err, ok}
use oasis_ethwasi_runtime.Prelude.Texts.{codes, same}
use oasis_ethwasi_runtime.Runtime.Storage.{new_store, find_row}
use oasis_ethwasi_runtime.Runtime.Storage.Refinement.{
  Call, get_call, insert_call, answers, contents, answers-expected,
}

abbrev calls : List Call
calls =
    get_call (codes "a")
    ∷ insert_call (codes "a") (codes "1")
    ∷ insert_call (codes "b") (codes "2")
    ∷ insert_call (codes "a") (codes "3")
    ∷ get_call (codes "a")
    ∷ []

answers-expected_example : answers new_store calls ≡ err (codes "not found") ∷ ok (codes "3") ∷ []
unfolding contents find_row same
answers-expected_example = answers-expected new_store calls
