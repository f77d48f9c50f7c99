-- ===== src/Genesis/Playback/Tests.antt =====
-- A small exported state, and an input that ends too early.
use oasis_ethwasi_runtime.Prelude.{◌≡◌, ◌≢◌, refl, arith, List, [], ◌∷◌, none, some, ok, ◌>>=◌}
use oasis_ethwasi_runtime.Prelude.Bytes.{Bytes}
use oasis_ethwasi_runtime.Prelude.Texts.{codes}
use oasis_ethwasi_runtime.Genesis.Playback.{ExportedAccount, first, new_parser, items}
use oasis_ethwasi_runtime.Genesis.Playback.Stream.{render_state, items-render_state}
use oasis_ethwasi_runtime.Genesis.Playback.Progress.{items-Ends}
use oasis_ethwasi_runtime.Genesis.Example.{poor, json, rendering}

abbrev accounts : List (Bytes × ExportedAccount)
accounts =
    (codes "0x12", poor (codes "0x1") (codes "0x2")) ∷ (codes "0x34", poor [] (codes "0x0")) ∷ []

items-render_state_example :
    (new_parser (render_state json rendering accounts) >>= items json 3) ≡ ok (some accounts)
items-render_state_example =
    items-render_state json rendering accounts 3 (omega arith) ((tt, refl), ((tt, refl), tt))

items-Ends_example : items json 5 (record { src = 34 ∷ 1 ∷ 50 ∷ 58 ∷ []; state = first }) ≢ ok none
items-Ends_example =
    items-Ends json 5 (record { src = 34 ∷ 1 ∷ 50 ∷ 58 ∷ []; state = first }) (omega arith)
