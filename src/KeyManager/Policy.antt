-- ===== src/KeyManager/Policy.antt =====
-- How many of the trusted signers can sign a policy (keymanager-runtime/src/api.rs).
use Prim.Native.String.{String}
use oasis_ethwasi_runtime.Prelude.{
  ℕ, ◌+◌, ◌≤◌, ◌<◌, ◌≡◌, ◌≢◌, List, [], ◌∷◌, Bool, true, false, contains, Distinct, All, length,
  ◌==◌, if◌then◌else◌, arith,
}
use oasis_ethwasi_runtime.KeyManager.{test_seeds, insert_key, insert_all, trusted_policy_signers}

erase : ℕ → List ℕ → List ℕ
erase k [] = []
erase k (x ∷ xs) = if x == k then xs else x ∷ erase k xs

length-erase : (k : ℕ) (xs : List ℕ) → contains k xs ≡ true → length (erase k xs) + 1 ≡ length xs
unfolding erase
length-erase k [] h = cc
length-erase k (x ∷ xs) h = ground (arith, length-erase k xs)

contains-erase :
    (k j : ℕ) (xs : List ℕ) → j ≢ k → contains j xs ≡ true → contains j (erase k xs) ≡ true
unfolding erase
contains-erase k j [] ne h = cc
contains-erase k j (x ∷ xs) ne h = ground (arith, contains-erase k j xs ne)

erase-All :
    (k : ℕ) (ks xs : List ℕ)
    → contains k ks ≡ false
    → All (λ j. contains j xs ≡ true) ks
    → All (λ j. contains j (erase k xs) ≡ true) ks
erase-All k [] xs out h = tt
erase-All k (j ∷ ks) xs out h =
    (contains-erase k j xs (λ e. ground arith) h.0, erase-All k ks xs (ground arith) h.1)

-- Distinct members of a list are no more than it has.
Distinct-le :
    (ks xs : List ℕ) → Distinct ks → All (λ k. contains k xs ≡ true) ks → length ks ≤ length xs
Distinct-le [] xs d h = omega arith
Distinct-le (k ∷ ks) xs d h =
    omega
      (arith, Distinct-le ks (erase k xs) d.1 (erase-All k ks xs d.0 h.1), length-erase k xs h.0)

length-insert_all :
    (public_key : String → ℕ) (seeds : List String) (set : List ℕ)
    → length (insert_all public_key seeds set) ≤ length seeds + length set
unfolding insert_all insert_key
length-insert_all public_key [] set = omega arith
length-insert_all public_key (seed ∷ seeds) set =
    ground (arith, length-insert_all public_key seeds (insert_key (public_key seed) set))

-- In every build, distinct trusted signers are fewer than the threshold, so that no policy can have the
-- signatures of as many of them as it asks for.
pub signers_below_threshold :
    (public_key : String → ℕ) (unsafe_keys : Bool) (signed : List ℕ)
    → Distinct signed
    → All (λ k. contains k (trusted_policy_signers public_key unsafe_keys).signers ≡ true) signed
    → length signed < (trusted_policy_signers public_key unsafe_keys).threshold
unfolding trusted_policy_signers
signers_below_threshold public_key true signed d h = omega (
  arith,
  Distinct-le signed (insert_all public_key test_seeds []) d h,
  length-insert_all public_key test_seeds [],
)
signers_below_threshold public_key false signed d h = omega (arith, Distinct-le signed [] d h)
