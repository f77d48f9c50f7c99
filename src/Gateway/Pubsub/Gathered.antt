-- ===== src/Gateway/Pubsub/Gathered.antt =====
-- What one listener makes of the notices of the broker (gateway/src/pubsub.rs), in their order.
use oasis_ethwasi_runtime.Prelude.{
  ℕ, zero, suc, ◌≡◌, refl, ap, ◌∙◌, sym, List, [], ◌∷◌, ◌++◌, Bool, true, ◌==◌, ==_iff,
  if◌then◌else◌, Bool-cases, inl, inr, append_assoc, All, All-append, append-nil,
}
use oasis_ethwasi_runtime.Gateway.Pubsub.{Notice, notify_all}

unfoldable pub occurrences : ℕ → List ℕ → ℕ
occurrences l [] = 0
occurrences l (x ∷ xs) = let n = occurrences l xs in if x == l then suc n else n

-- The results of `g` for the notices of the listener `l`.
unfoldable pub gathered : {A : Type 0} → (Notice → List A) → ℕ → List Notice → List A
gathered g l [] = []
gathered g l (n ∷ ns) =
    let later = gathered g l ns in if n.listener == l then g n ++ later else later

pub gathered-append :
    {A : Type 0} (g : Notice → List A) (l : ℕ) (ns ms : List Notice)
    → gathered g l (ns ++ ms) ≡ gathered g l ns ++ gathered g l ms
unfolding gathered
gathered-append g l [] ms = refl
gathered-append g l (n ∷ ns) ms = elim (Bool-cases (n.listener == l)) [
  | inl e ↦
      rw (e, gathered, gathered-append g l ns ms)
        (sym (append_assoc (g n) (gathered g l ns) (gathered g l ms)))
  | inr e ↦ rw (e, gathered) (gathered-append g l ns ms)
]

-- A function that respects `++` goes inside.
pub gathered-map :
    {A B : Type 0} (h : List A → List B) (g : Notice → List A) (g' : Notice → List B) (l : ℕ)
    (ns : List Notice)
    → h [] ≡ []
    → ((xs ys : List A) → h (xs ++ ys) ≡ h xs ++ h ys)
    → ((n : Notice) → h (g n) ≡ g' n)
    → h (gathered g l ns) ≡ gathered g' l ns
unfolding gathered
gathered-map h g g' l [] empty append each = empty
gathered-map h g g' l (n ∷ ns) empty append each =
    let rest = gathered-map h g g' l ns empty append each in
    elim (Bool-cases (n.listener == l)) [
      | inl e ↦
          rw (e, gathered)
            (append (g n) (gathered g l ns)
              ∙ ap (λ xs. xs ++ h (gathered g l ns)) (each n)
              ∙ ap (g' n ++◌) rest)
      | inr e ↦ rw (e, gathered) rest
    ]

pub gathered-All :
    {A : Type 0} (P : A → Type 0) (g : Notice → List A) (l : ℕ) (ns : List Notice)
    → ((n : Notice) → All P (g n))
    → All P (gathered g l ns)
unfolding gathered
gathered-All P g l [] each = tt
gathered-All P g l (n ∷ ns) each = elim (Bool-cases (n.listener == l)) [
  | inl e ↦ rw (e, gathered) (All-append P (g n) _ (each n) (gathered-All P g l ns each))
  | inr e ↦ rw (e, gathered) (gathered-All P g l ns each)
]

copies : {A : Type 0} → ℕ → List A → List A
copies zero xs = []
copies (suc k) xs = xs ++ copies k xs

copies_told :
    {A : Type 0} (g : Notice → List A) (live : ℕ → Bool) (l : ℕ) (ls : List ℕ) (from to : ℕ)
    → live l ≡ true
    → gathered g l (notify_all live ls from to)
      ≡ copies (occurrences l ls) (g (record { listener = l; from_block = from; to_block = to }))
unfolding gathered occurrences notify_all copies
copies_told g live l [] from to alive = refl
copies_told g live l (x ∷ ls) from to alive =
    let rest = copies_told g live l ls from to alive in
    elim (Bool-cases (x == l)) [
      | inl e ↦
          let same : x ≡ l = (==_iff x l).0 e in
          let up : live x ≡ true = ap live same ∙ alive in
          let told = ap (λ y. g (record { listener = y; from_block = from; to_block = to })) same in
          rw (up, notify_all, e, occurrences, gathered, copies)
            (ap (λ xs. xs ++ gathered g l (notify_all live ls from to)) told
              ∙ ap (g (record { listener = l; from_block = from; to_block = to }) ++◌) rest)
      | inr e ↦ elim (Bool-cases (live x)) [
        | inl up ↦ rw (up, notify_all, e, occurrences, gathered) rest
        | inr down ↦ rw (down, notify_all, e, occurrences) rest
      ]
    ]

-- A live listener that is registered once is told once.
pub gathered-notify_all :
    {A : Type 0} (g : Notice → List A) (live : ℕ → Bool) (l : ℕ) (ls : List ℕ) (from to : ℕ)
    → live l ≡ true
    → occurrences l ls ≡ 1
    → gathered g l (notify_all live ls from to)
      ≡ g (record { listener = l; from_block = from; to_block = to })
unfolding copies
gathered-notify_all g live l ls from to alive once =
    let told = g (record { listener = l; from_block = from; to_block = to }) in
    copies_told g live l ls from to alive ∙ ap (λ k. copies k told) once ∙ append-nil told
