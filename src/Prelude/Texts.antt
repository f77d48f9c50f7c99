-- ===== src/Prelude/Texts.antt =====
-- Rust's strings as the bytes of their UTF-8 encoding: comparison, `split` by a character, and joining.
use Prim.Native.Char.{code}
use Prim.Native.String.{String}
use Prim.Native.Nat.{ℕ}
use mathlib.Core.Path.{◌≡◌, refl, ap, ◌∙◌}
use mathlib.Core.Bool.{Bool, true, false, ◌&&◌}
use mathlib.Core.List.{List, [], ◌∷◌, ◌++◌}
use native.Mathlib.Omega.{arith}
use oasis_ethwasi_runtime.Prelude.Tests.{◌==◌, if◌then◌else◌}
use oasis_ethwasi_runtime.Prelude.Lists.{All, contains}
use oasis_ethwasi_runtime.Prelude.Bytes.{Bytes}

-- The bytes of an ASCII literal.
abbrev pub codes : String → Bytes
codes String.[] = []
codes (String.◌∷◌ c s) = code c ∷ codes s

unfoldable pub same : Bytes → Bytes → Bool
same [] [] = true
same [] (b ∷ bs) = false
same (a ∷ as_) [] = false
same (a ∷ as_) (b ∷ bs) = (a == b) && same as_ bs

pub same→eq : (as_ bs : Bytes) → same as_ bs ≡ true → as_ ≡ bs
unfolding same
same→eq [] [] h = refl
same→eq [] (b ∷ bs) h = cc
same→eq (a ∷ as_) [] h = cc
same→eq (a ∷ as_) (b ∷ bs) h = ground (arith, same→eq as_ bs)

pub same_refl : (bs : Bytes) → same bs bs ≡ true
unfolding same
same_refl [] = refl
same_refl (b ∷ bs) = ground (arith, same_refl bs)

-- A byte before the first of the pieces.
unfoldable pub grow : ℕ → List Bytes → List Bytes
grow c [] = (c ∷ []) ∷ []
grow c (p ∷ ps) = (c ∷ p) ∷ ps

-- `split`, which gives at least one piece.
unfoldable pub split : ℕ → Bytes → List Bytes
unfolding grow
split sep [] = [] ∷ []
split sep (c ∷ s) = let rest = split sep s in if c == sep then [] ∷ rest else grow c rest

unfoldable pub join : ℕ → List Bytes → Bytes
join sep [] = []
join sep (p ∷ []) = p
join sep (p ∷ q ∷ ps) = p ++ (sep ∷ join sep (q ∷ ps))

split-append :
    (sep : ℕ) (p s : Bytes) → contains sep p ≡ false → split sep (p ++ (sep ∷ s)) ≡ p ∷ split sep s
unfolding split grow
split-append sep [] s h = ground arith
split-append sep (c ∷ p) s h =
    let rest = split-append sep p s (ground arith) in
    let other : (c == sep) ≡ false = ground arith in rw (other, rest)

split_whole : (sep : ℕ) (p : Bytes) → contains sep p ≡ false → split sep p ≡ p ∷ []
unfolding split grow
split_whole sep [] h = refl
split_whole sep (c ∷ p) h =
    let rest = split_whole sep p (ground arith) in
    let other : (c == sep) ≡ false = ground arith in rw (other, rest)

pub split-join :
    (sep : ℕ) (p : Bytes) (ps : List Bytes)
    → All (λ q. contains sep q ≡ false) (p ∷ ps)
    → split sep (join sep (p ∷ ps)) ≡ p ∷ ps
unfolding join
split-join sep p [] h = split_whole sep p h.0
split-join sep p (q ∷ ps) h =
    split-append sep p (join sep (q ∷ ps)) h.0 ∙ ap (p ∷◌) (split-join sep q ps h.1)
