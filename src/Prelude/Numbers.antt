-- ===== src/Prelude/Numbers.antt =====
-- Rust's decimal texts of unsigned integers: `to_string`, and `parse` with the greatest value of the type.
use Prim.Native.Nat.{ℕ, zero, suc, ◌+◌, ◌-◌, ◌*◌, ◌/◌, ◌%◌, ◌^◌, ◌≤◌, ◌<◌}
use mathlib.Core.Path.{◌≡◌, ap, ◌∙◌}
use mathlib.Core.Bool.{Bool, true, ◌&&◌}
use mathlib.Core.Option.{Option, none, some}
use mathlib.Core.Logic.{inl, inr}
use mathlib.Core.List.{[], ◌∷◌, ◌++◌}
use native.Mathlib.Omega.{arith}
use oasis_ethwasi_runtime.Prelude.Tests.{ltb, leb, ◌==◌, if◌then◌else◌, Bool-cases, ltb→lt}
use oasis_ethwasi_runtime.Prelude.Bytes.{Bytes}

abbrev pub u16_max : ℕ
u16_max = 65535

-- Also the greatest `usize` of a 64-bit machine.
abbrev pub u64_max : ℕ
u64_max = 18446744073709551615

-- The decimal digits of a number below `10 ^ k`.
unfoldable pub digits : ℕ → ℕ → Bytes
digits zero n = []
digits (suc k) n =
    let higher = digits k (n / 10) in
    if ltb n 10 then (48 + n) ∷ [] else higher ++ ((48 + n % 10) ∷ [])

abbrev pub is_digit : ℕ → Bool
is_digit c = leb 48 c && leb c 57

-- The digits behind `n`: none for a byte that is no digit, and where the value exceeds `greatest`.
unfoldable pub scan : ℕ → Bytes → ℕ → Option ℕ
scan greatest [] n = some n
scan greatest (c ∷ s) n =
    let rest = scan greatest s (n * 10 + (c - 48)) in
    if is_digit c && leb (n * 10 + (c - 48)) greatest then rest else none

unfoldable pub scan_some : ℕ → Bytes → Option ℕ
unfolding scan
scan_some greatest [] = none
scan_some greatest (c ∷ s) = scan greatest (c ∷ s) 0

-- `parse::<u16>` and the like, which take a plus sign first.
unfoldable pub parse_unsigned : ℕ → Bytes → Option ℕ
unfolding scan_some
parse_unsigned greatest [] = none
parse_unsigned greatest (c ∷ s) =
    if c == 43 then scan_some greatest s else scan_some greatest (c ∷ s)

scan-le :
    (greatest : ℕ) (s : Bytes) (n v : ℕ) → n ≤ greatest → scan greatest s n ≡ some v → v ≤ greatest
unfolding scan
scan-le greatest [] n v fits h = ground arith
scan-le greatest (c ∷ s) n v fits h = ground (arith, scan-le greatest s (n * 10 + (c - 48)) v)

scan_some-le : (greatest : ℕ) (s : Bytes) (v : ℕ) → scan_some greatest s ≡ some v → v ≤ greatest
unfolding scan_some
scan_some-le greatest [] v h = cc
scan_some-le greatest (c ∷ s) v h = scan-le greatest (c ∷ s) 0 v (omega arith) h

-- What is parsed fits its type.
pub parse_unsigned-le :
    (greatest : ℕ) (s : Bytes) (v : ℕ) → parse_unsigned greatest s ≡ some v → v ≤ greatest
unfolding parse_unsigned
parse_unsigned-le greatest [] v h = cc
parse_unsigned-le greatest (c ∷ s) v h =
    ground (arith, scan_some-le greatest s v, scan_some-le greatest (c ∷ s) v)

scan-append :
    (greatest : ℕ) (s t : Bytes) (n v : ℕ)
    → scan greatest s n ≡ some v
    → scan greatest (s ++ t) n ≡ scan greatest t v
unfolding scan
scan-append greatest [] t n v h = ground arith
scan-append greatest (c ∷ s) t n v h =
    ground (arith, scan-append greatest s t (n * 10 + (c - 48)) v)

scan-digit :
    (greatest c n : ℕ)
    → c < 10
    → n * 10 + c ≤ greatest
    → scan greatest ((48 + c) ∷ []) n ≡ some (n * 10 + c)
unfolding scan
scan-digit greatest c n small fits = ground arith

scan-digits : (greatest k n : ℕ) → n < 10 ^ k → n ≤ greatest → scan greatest (digits k n) 0 ≡ some n
unfolding digits scan
scan-digits greatest zero n h fits = let e : 0 ≡ n = omega arith in ap some e
scan-digits greatest (suc k) n h fits = elim (Bool-cases (ltb n 10)) [
  | inl small ↦
      rw small (scan-digit greatest n 0 (ltb→lt _ _ small) (omega arith) ∙ ap some (omega arith))
  | inr large ↦ rw large (
      scan-append greatest (digits k (n / 10)) ((48 + n % 10) ∷ []) 0 (n / 10)
        (scan-digits greatest k (n / 10) (omega arith) (omega arith))
      ∙ (scan-digit greatest (n % 10) (n / 10) (omega arith) (omega arith) ∙ ap some (omega arith)))
]

-- A text starts with a digit.
abbrev Starts : Bytes → Type 0
Starts [] = ⊥
Starts (c ∷ s) = is_digit c ≡ true

Starts-append : (s t : Bytes) → Starts s → Starts (s ++ t)
Starts-append [] t h = absurd h
Starts-append (c ∷ s) t h = h

is_digit_lem : (n : ℕ) → n < 10 → is_digit (48 + n) ≡ true
is_digit_lem n h = ground arith

digits-Starts : (k n : ℕ) → Starts (digits (suc k) n)
unfolding digits
digits-Starts zero n = elim (Bool-cases (ltb n 10)) [
  | inl small ↦ rw small (is_digit_lem n (ltb→lt _ _ small))
  | inr large ↦ rw large (is_digit_lem (n % 10) (omega arith))
]
digits-Starts (suc k) n = elim (Bool-cases (ltb n 10)) [
  | inl small ↦ rw small (is_digit_lem n (ltb→lt _ _ small))
  | inr large ↦ rw large (Starts-append _ _ (digits-Starts k (n / 10)))
]

parse-scan : (greatest : ℕ) (s : Bytes) → Starts s → parse_unsigned greatest s ≡ scan greatest s 0
unfolding parse_unsigned scan_some
parse-scan greatest [] h = absurd h
parse-scan greatest (c ∷ s) h = ground arith

-- A number is read back from its digits where it fits the type.
pub parse_unsigned-digits :
    (greatest k n : ℕ)
    → n < 10 ^ suc k
    → n ≤ greatest
    → parse_unsigned greatest (digits (suc k) n) ≡ some n
parse_unsigned-digits greatest k n h fits =
    parse-scan greatest (digits (suc k) n) (digits-Starts k n)
    ∙ scan-digits greatest (suc k) n h fits
