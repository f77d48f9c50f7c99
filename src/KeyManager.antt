-- ===== src/KeyManager.antt =====
-- keymanager-runtime/src/api.rs: who may sign the policy of the key manager. A key is a number, and a set of
-- keys the list of its members; the key of a test seed is another library's, a parameter.
pub mod Policy
use Prim.Native.String.{String}
use oasis_ethwasi_runtime.Prelude.{ℕ, List, [], ◌∷◌, Bool, true, false, contains, if◌then◌else◌}

pub record TrustedPolicySigners : Type 0 where
  pub signers : List ℕ
  pub threshold : ℕ

-- `HashSet::insert`.
unfoldable pub insert_key : ℕ → List ℕ → List ℕ
insert_key k set = if contains k set then set else k ∷ set

abbrev pub test_seeds : List String
test_seeds =
    "ekiden key manager test multisig key 0" ∷ "ekiden key manager test multisig key 1"
    ∷ "ekiden key manager test multisig key 2" ∷ []

unfoldable pub insert_all : (String → ℕ) → List String → List ℕ → List ℕ
unfolding insert_key
insert_all public_key [] set = set
insert_all public_key (seed ∷ seeds) set =
    insert_all public_key seeds (insert_key (public_key seed) set)

-- `unsafe_keys` says whether OASIS_UNSAFE_KM_POLICY_KEYS was set when the runtime was built.
unfoldable pub trusted_policy_signers : (String → ℕ) → Bool → TrustedPolicySigners
unfolding insert_all
trusted_policy_signers public_key unsafe_keys = record {
  signers = if unsafe_keys then insert_all public_key test_seeds [] else [];
  threshold = 9001;
}
