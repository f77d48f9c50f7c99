-- ===== src/Prelude/Results.antt =====
-- What a Rust function returns: a value, an error, or no return at all because it panicked.
use mathlib.Core.Path.{◌≡◌, refl}
use mathlib.Core.Logic.{◌⊎◌, inl, inr}
use mathlib.Core.Bool.{Bool, true, false}
use mathlib.Core.Option.{Option, none, some}

pub data Outcome {ℓ κ} (E : Type ℓ) (A : Type κ) : Type (ℓ ⊔ κ) where
  ok : A → Outcome E A
  err : E → Outcome E A
  panic : Outcome E A

-- The errors of code that returns none.
pub data NoError : Type 0 where

infixl 5 ◌>>=◌ ◌>>◌
abbrev pub ◌>>=◌ {ℓ κ μ} :
    {E : Type ℓ} {A : Type κ} {B : Type μ} → Outcome E A → (A → Outcome E B) → Outcome E B
panic >>= next = panic
err y >>= next = err y
ok x >>= next = next x

abbrev pub ◌>>◌ {ℓ κ} : {E : Type ℓ} {B : Type κ} → Outcome E (Unit {0}) → Outcome E B → Outcome E B
first >> second = first >>= λ u. second

-- `ensure!`, or an early `return Err(..)` behind a test.
abbrev pub ensure {ℓ} : {E : Type ℓ} → Bool → E → Outcome E (Unit {0})
ensure false complaint = err complaint
ensure true complaint = ok tt

-- `ok_or`, or `map_err` of a call whose own error is not kept.
abbrev pub ok_or {ℓ κ} : {E : Type ℓ} {A : Type κ} → Option A → E → Outcome E A
ok_or none e = err e
ok_or (some a) e = ok a

-- `unwrap` and `expect`.
abbrev pub unwrap {ℓ κ} : {E : Type ℓ} {A : Type κ} → Option A → Outcome E A
unwrap none = panic
unwrap (some a) = ok a

abbrev pub map_err {ℓ κ μ} :
    {E : Type ℓ} {F : Type κ} {A : Type μ} → (E → F) → Outcome E A → Outcome F A
map_err f (ok a) = ok a
map_err f (err e) = err (f e)
map_err f panic = panic

pub Outcome-cases {ℓ κ} :
    {E : Type ℓ} {A : Type κ} (r : Outcome E A)
    → ((a : A) × (r ≡ ok a)) ⊎ ((e : E) × (r ≡ err e)) ⊎ (r ≡ panic)
Outcome-cases (ok a) = inl (a, refl)
Outcome-cases (err e) = inr (inl (e, refl))
Outcome-cases panic = inr (inr refl)

-- Where a chain of two calls returns, the first one did, and the second one on its value.
pub >>=-eq-ok {ℓ κ μ} :
    {E : Type ℓ} {A : Type κ} {B : Type μ} (first : Outcome E A) (next : A → Outcome E B) {v : B}
    → (first >>= next) ≡ ok v
    → (x : A) × (first ≡ ok x) × (next x ≡ ok v)
>>=-eq-ok panic next e = cc
>>=-eq-ok (err y) next e = cc
>>=-eq-ok (ok x) next e = (x, refl, e)

pub ensure-eq-ok {ℓ} : {E : Type ℓ} (b : Bool) (e : E) {u : Unit {0}} → ensure b e ≡ ok u → b ≡ true
ensure-eq-ok true e h = refl
ensure-eq-ok false e h = cc

pub >>=-congr {ℓ κ μ} :
    {E : Type ℓ} {A : Type κ} {B : Type μ} (first : Outcome E A) (next other : A → Outcome E B)
    → ((a : A) → next a ≡ other a)
    → (first >>= next) ≡ (first >>= other)
>>=-congr panic next other h = refl
>>=-congr (err e) next other h = refl
>>=-congr (ok a) next other h = h a

pub >>=-ok {ℓ κ} : {E : Type ℓ} {A : Type κ} (first : Outcome E A) → (first >>= ok) ≡ first
>>=-ok panic = refl
>>=-ok (err e) = refl
>>=-ok (ok a) = refl

pub >>=-assoc {ℓ κ μ ν} :
    {E : Type ℓ} {A : Type κ} {B : Type μ} {C : Type ν} (first : Outcome E A)
    (next : A → Outcome E B) (last : B → Outcome E C)
    → (first >>= next >>= last) ≡ (first >>= λ a. next a >>= last)
>>=-assoc panic next last = refl
>>=-assoc (err e) next last = refl
>>=-assoc (ok a) next last = refl

-- A chain of two calls that do not panic does not panic.
pub >>=-returns {ℓ κ μ} :
    {E : Type ℓ} {A : Type κ} {B : Type μ} (first : Outcome E A) (next : A → Outcome E B)
    → ¬ (first ≡ panic)
    → ((a : A) → ¬ (next a ≡ panic))
    → ¬ ((first >>= next) ≡ panic)
>>=-returns panic next h k e = h refl
>>=-returns (err x) next h k e = cc
>>=-returns (ok a) next h k e = k a e
