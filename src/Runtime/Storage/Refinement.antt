-- ===== src/Runtime/Storage/Refinement.antt =====
-- The store (common/src/storage.rs) behaves as a function from keys to values.
use oasis_ethwasi_runtime.Prelude.{
  ◌≡◌, refl, ap, sym, ◌∙◌, List, [], ◌∷◌, Option, some, true, false, if◌then◌else◌, Bool-cases, inl,
  inr, Outcome, ok_or,
}
use oasis_ethwasi_runtime.Prelude.Bytes.{Bytes}
use oasis_ethwasi_runtime.Prelude.Texts.{codes, same, same→eq, same_refl}
use oasis_ethwasi_runtime.Runtime.Storage.{MemoryKeyValue, find_row, put_row, get, insert}

pub data Call : Type 0 where
  get_call : Bytes → Call
  insert_call : Bytes → Bytes → Call

-- The answers of the store to its calls; an insertion has none of interest.
unfoldable pub answers : MemoryKeyValue → List Call → List (Outcome Bytes Bytes)
answers m [] = []
answers m (get_call key ∷ calls) = get m key ∷ answers m calls
answers m (insert_call key value ∷ calls) = answers (insert m key value) calls

abbrev pub Contents : Type 0
Contents = Bytes → Option Bytes

abbrev pub changed : Contents → Bytes → Bytes → Contents
changed f key value k = if same key k then some value else f k

-- What the contents answer to the same calls.
abbrev pub expected : Contents → List Call → List (Outcome Bytes Bytes)
expected f [] = []
expected f (get_call key ∷ calls) = ok_or (f key) (codes "not found") ∷ expected f calls
expected f (insert_call key value ∷ calls) = expected (changed f key value) calls

unfoldable pub contents : MemoryKeyValue → Contents
contents m key = find_row key m.rows

same_sym : (x y : Bytes) → same x y ≡ false → same y x ≡ false
same_sym x y h = elim (Bool-cases (same y x)) [
  | inl e ↦
      let eq : y ≡ x = same→eq y x e in
      let itself : same x y ≡ true = ap (same x) eq ∙ same_refl x in absurd (cc)
  | inr e ↦ e
]

find_row-put_row :
    (rows : List (Bytes × Bytes)) (key value k : Bytes)
    → find_row k (put_row key value rows) ≡ changed (λ j. find_row j rows) key value k
unfolding find_row put_row
find_row-put_row [] key value k = refl
find_row-put_row ((j, v) ∷ rows) key value k =
    let rest = find_row-put_row rows key value k in
    elim (Bool-cases (same j key)) [
      | inl e ↦
          let alike : same j k ≡ same key k = ap (λ x. same x k) (same→eq j key e) in
          elim (Bool-cases (same key k)) [ inl f ↦ rw (e, alike, f) | inr f ↦ rw (e, alike, f) ]
      | inr e ↦ elim (Bool-cases (same j k)) [
        | inl f ↦
            let apart : same key k ≡ false =
              ap (λ x. same key x) (sym (same→eq j k f)) ∙ same_sym j key e in
            rw (e, f, apart)
        | inr f ↦ rw (e, f) rest
      ]
    ]

expected-congr :
    (f g : Contents) (calls : List Call)
    → ((k : Bytes) → f k ≡ g k)
    → expected f calls ≡ expected g calls
expected-congr f g [] h = refl
expected-congr f g (get_call key ∷ calls) h =
    ap (λ o. ok_or o (codes "not found") ∷ expected f calls) (h key)
    ∙ ap (ok_or (g key) (codes "not found") ∷◌) (expected-congr f g calls h)
expected-congr f g (insert_call key value ∷ calls) h =
    expected-congr (changed f key value) (changed g key value) calls
      (λ k. ap (λ o. if same key k then some value else o) (h k))

-- The answers of a store to any calls are those of its contents as a function from keys to values: what
-- was inserted last under a key is read back, and a key under which nothing was inserted is "not found".
pub answers-expected :
    (m : MemoryKeyValue) (calls : List Call) → answers m calls ≡ expected (contents m) calls
unfolding answers contents get insert
answers-expected m [] = refl
answers-expected m (get_call key ∷ calls) = ap (get m key ∷◌) (answers-expected m calls)
answers-expected m (insert_call key value ∷ calls) =
    answers-expected (insert m key value) calls
    ∙ expected-congr (contents (insert m key value)) (changed (contents m) key value) calls
        (find_row-put_row m.rows key value)
