-- ===== src/Gateway/Informant/Sessions.antt =====
-- The session table of `RpcStats` (gateway/src/informant.rs).
use oasis_ethwasi_runtime.Prelude.{
  ℕ, ◌≡◌, ◌≢◌, refl, [], ◌∷◌, none, some, arith, inl, inr, Option-cases, ◌==◌, if◌then◌else◌, ◌⊎◌,
  false, Bool-cases, ap, ◌∙◌, sym,
}
use oasis_ethwasi_runtime.Gateway.Informant.{
  RateCalculator, Sessions, new_calculator, tick, close_session, open_session, find_session,
  put_session, count_found, count_request,
}

pub find-close :
    (i j : ℕ) (s : Sessions)
    → find_session j (close_session i s) ≡ (if i == j then none else find_session j s)
unfolding find_session close_session
find-close i j [] = ground arith
find-close i j ((k, c) ∷ s) = ground (arith, find-close i j s)

pub find-open :
    (now i j : ℕ) (s : Sessions)
    → find_session j (open_session now i s)
      ≡ (if i == j then some (new_calculator now) else find_session j s)
unfolding find_session open_session
find-open now i j s = ground (arith, find-close i j s)

find-put_self :
    (i : ℕ) (c' : RateCalculator) (s : Sessions) (c : RateCalculator)
    → find_session i s ≡ some c
    → find_session i (put_session i c' s) ≡ some c'
unfolding find_session put_session
find-put_self i c' [] c h = cc
find-put_self i c' ((k, d) ∷ s) c h = elim (Bool-cases (k == i)) [
  | inl e ↦
      ap (λ b. find_session i (if b then (k, c') ∷ s else (k, d) ∷ put_session i c' s)) e
      ∙ ap (λ b. if b then some c' else find_session i s) e
  | inr e ↦
      let rest : find_session i s ≡ some c = rw (e, find_session) at h in
      ap (λ b. find_session i (if b then (k, c') ∷ s else (k, d) ∷ put_session i c' s)) e
      ∙ ap (λ b. if b then some d else find_session i (put_session i c' s)) e
      ∙ find-put_self i c' s c rest
]

find-put_ne :
    (i j : ℕ) (c' : RateCalculator) (s : Sessions)
    → i ≢ j
    → find_session j (put_session i c' s) ≡ find_session j s
unfolding find_session put_session
find-put_ne i j c' [] n = refl
find-put_ne i j c' ((k, d) ∷ s) n = elim (Bool-cases (k == i)) [
  | inl e ↦
      let off : (k == j) ≡ false = ground arith in
      ap (λ b. find_session j (if b then (k, c') ∷ s else (k, d) ∷ put_session i c' s)) e
      ∙ ap (λ b. if b then some c' else find_session j s) off
      ∙ sym (ap (λ b. if b then some d else find_session j s) off)
  | inr e ↦
      ap (λ b. find_session j (if b then (k, c') ∷ s else (k, d) ∷ put_session i c' s)) e
      ∙ ap (λ r. if k == j then some d else r) (find-put_ne i j c' s n)
]

-- Counting a request ticks the calculator of its session and no other; without a session it counts
-- nothing and changes nothing.
pub count_request_lem :
    (t u w i j : ℕ) (s : Sessions)
    → ((find_session i s ≡ none) × (count_request t u w i s ≡ (s, 0)))
      ⊎ ((c : RateCalculator) × (find_session i s ≡ some c)
          × ((count_request t u w i s).1 ≡ (tick t u w c).1)
          × (find_session i (count_request t u w i s).0 ≡ some (tick t u w c).0)
          × (i ≢ j → find_session j (count_request t u w i s).0 ≡ find_session j s))
unfolding count_request count_found
count_request_lem t u w i j s = elim (Option-cases (find_session i s)) [
  | inl e ↦ inl (e, ap (count_found t u w i s) e)
  | inr (c, e) ↦ inr (
    c,
    e,
    ap (λ f. (count_found t u w i s f).1) e,
    ap (λ f. find_session i (count_found t u w i s f).0) e ∙ find-put_self i _ s c e,
    λ n. ap (λ f. find_session j (count_found t u w i s f).0) e ∙ find-put_ne i j _ s n,
  )
]
