-- ===== src/Prelude/Bytes.antt =====
-- Byte strings, slices that panic out of range, and little-endian words (Rust's standard library).
use Prim.Native.Nat.{ℕ, zero, suc, ◌+◌, ◌-◌, ◌*◌, ◌/◌, ◌%◌, ◌^◌, ◌≤◌, ◌<◌}
use mathlib.Core.Path.{◌≡◌, refl, sym, ap, ◌∙◌}
use mathlib.Core.Logic.{◌⊎◌}
use mathlib.Core.Bool.{◌&&◌}
use mathlib.Core.List.{List, [], ◌∷◌, ◌++◌}
use native.Mathlib.Omega.{arith}
use oasis_ethwasi_runtime.Prelude.Tests.{leb, if◌then◌else◌}
use oasis_ethwasi_runtime.Prelude.Lists.{
  length, take, drop, All, length-append, drop-append, take-append, length-take, length-drop,
  drop-drop, take-append-drop, All-take, All-drop,
}
use oasis_ethwasi_runtime.Prelude.Results.{Outcome, ok, panic}

abbrev pub Bytes : Type 0
Bytes = List ℕ

abbrev pub IsByte : ℕ → Type 0
IsByte b = b < 256

abbrev pub part : ℕ → ℕ → Bytes → Bytes
part i j xs = take (j - i) (drop i xs)

-- `&data[i..j]`.
pub slice : {E : Type 0} → ℕ → ℕ → Bytes → Outcome E Bytes
slice i j xs = if leb i j && leb j (length xs) then ok (part i j xs) else panic

pub slice_lem :
    {E : Type 0} (i j : ℕ) (xs : Bytes)
    → i ≤ j
    → j ≤ length xs
    → slice {E = E} i j xs ≡ ok (part i j xs)
unfolding slice
slice_lem i j xs h k = ground arith

-- A slice fails only where its bounds are out of order or out of range.
pub slice_cases :
    {E : Type 0} (i j : ℕ) (xs : Bytes)
    → ((slice {E = E} i j xs ≡ ok (part i j xs)) × (i ≤ j) × (j ≤ length xs))
      ⊎ ((slice {E = E} i j xs ≡ panic) × ((j < i) ⊎ (length xs < j)))
unfolding slice
slice_cases i j xs = ground arith

-- `to_le_bytes`, of a word of `k` bytes.
unfoldable pub to_le_bytes : ℕ → ℕ → Bytes
to_le_bytes zero n = []
to_le_bytes (suc k) n = (n % 256) ∷ to_le_bytes k (n / 256)

unfoldable pub from_le_bytes : Bytes → ℕ
from_le_bytes [] = 0
from_le_bytes (b ∷ bs) = b + 256 * from_le_bytes bs

pub length-to_le_bytes : (k n : ℕ) → length (to_le_bytes k n) ≡ k
unfolding to_le_bytes
length-to_le_bytes zero n = refl
length-to_le_bytes (suc k) n = ap suc (length-to_le_bytes k (n / 256))

pub from_le_bytes-to_le_bytes : (k n : ℕ) → n < 256 ^ k → from_le_bytes (to_le_bytes k n) ≡ n
unfolding to_le_bytes from_le_bytes
from_le_bytes-to_le_bytes zero n h = omega arith
from_le_bytes-to_le_bytes (suc k) n h =
    omega (arith, from_le_bytes-to_le_bytes k (n / 256) (omega arith))

pub from_le_bytes_bound :
    (k : ℕ) (bs : Bytes) → All IsByte bs → length bs ≡ k → from_le_bytes bs < 256 ^ k
unfolding from_le_bytes
from_le_bytes_bound zero [] h e = omega arith
from_le_bytes_bound zero (b ∷ bs) h e = absurd (omega arith)
from_le_bytes_bound (suc k) [] h e = absurd (omega arith)
from_le_bytes_bound (suc k) (b ∷ bs) h e = omega (arith, from_le_bytes_bound k bs h.1 (omega arith))

pub to_le_bytes-from_le_bytes :
    (k : ℕ) (bs : Bytes) → All IsByte bs → length bs ≡ k → to_le_bytes k (from_le_bytes bs) ≡ bs
unfolding to_le_bytes from_le_bytes
to_le_bytes-from_le_bytes zero [] h e = refl
to_le_bytes-from_le_bytes zero (b ∷ bs) h e = absurd (omega arith)
to_le_bytes-from_le_bytes (suc k) [] h e = absurd (omega arith)
to_le_bytes-from_le_bytes (suc k) (b ∷ bs) h e =
    let rest = to_le_bytes-from_le_bytes k bs h.1 (omega arith) in
    let low : (b + 256 * from_le_bytes bs) % 256 ≡ b = omega arith in
    let high : (b + 256 * from_le_bytes bs) / 256 ≡ from_le_bytes bs = omega arith in
    rw (low, high, rest)

pub to_le_bytes-IsByte : (k n : ℕ) → All IsByte (to_le_bytes k n)
unfolding to_le_bytes
to_le_bytes-IsByte zero n = tt
to_le_bytes-IsByte (suc k) n = (omega arith, to_le_bytes-IsByte k (n / 256))

-- The slice that a known part of the bytes fills.
pub slice_part :
    {E : Type 0} (i j : ℕ) (xs ys zs bytes : Bytes)
    → bytes ≡ xs ++ (ys ++ zs)
    → length xs ≡ i
    → i + length ys ≡ j
    → slice {E = E} i j bytes ≡ ok ys
slice_part {E} i j xs ys zs bytes e hx hy =
    let whole : length bytes ≡ length xs + (length ys + length zs) =
      rw (e, length-append, length-append) in
    slice_lem i j bytes (omega arith) (omega arith)
    ∙ rw (e, drop-append i xs (ys ++ zs) hx, take-append (j - i) ys zs (omega arith))

-- A part splits off the front of what starts at its lower end.
pub part-drop : (i j : ℕ) (bytes : Bytes) → i ≤ j → drop i bytes ≡ part i j bytes ++ drop j bytes
part-drop i j bytes le =
    let end : i + (j - i) ≡ j = omega arith in
    let rest : drop (j - i) (drop i bytes) ≡ drop j bytes =
      drop-drop i (j - i) bytes ∙ ap (λ (k : ℕ). drop k bytes) end in
    rw (← rest) (sym (take-append-drop (j - i) (drop i bytes)))

pub length-part : (i j : ℕ) (bytes : Bytes) → j ≤ length bytes → length (part i j bytes) ≡ j - i
length-part i j bytes h = omega (arith, length-take (j - i) (drop i bytes), length-drop i bytes)

pub part-IsByte : (i j : ℕ) (bytes : Bytes) → All IsByte bytes → All IsByte (part i j bytes)
part-IsByte i j bytes all = All-take IsByte (j - i) _ (All-drop IsByte i bytes all)
