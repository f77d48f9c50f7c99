-- ===== src/Gateway/RpcApis/UnitTests.antt =====
-- The unit tests of gateway/src/rpc_apis.rs, each as what it asserts, but for the one about the set that is
-- there in tests only. Sets are equal where they have the same
-- members, and an API set is compared by its list.
use oasis_ethwasi_runtime.Prelude.{◌≡◌, refl, List, [], ◌∷◌, Outcome, ok, err, panic}
use oasis_ethwasi_runtime.Prelude.Bytes.{Bytes}
use oasis_ethwasi_runtime.Prelude.Texts.{codes, same}
use oasis_ethwasi_runtime.Gateway.RpcApis.{
  Api, web3, net, eth, eth_pub_sub, oasis, has, ApiSet, unsafe_context, default_set, list_apis,
  api_from_str, set_from_str,
}

abbrev SameMembers : List Api → List Api → Type 0
SameMembers xs ys = (a : Api) → has a xs ≡ has a ys

abbrev Unwraps : Outcome Bytes ApiSet → List Api → Type 0
Unwraps (ok set) apis = SameMembers (list_apis set) apis
Unwraps (err e) apis = ⊥
Unwraps panic apis = ⊥

abbrev IsErr : Outcome Bytes Api → Type 0
IsErr (ok a) = ⊥
IsErr (err e) = Unit {0}
IsErr panic = ⊥

abbrev expected : List Api
expected = web3 ∷ net ∷ eth ∷ eth_pub_sub ∷ oasis ∷ []

abbrev TestApiParsing : Type 0
TestApiParsing =
    (api_from_str (codes "web3") ≡ ok web3)
    × (api_from_str (codes "net") ≡ ok net)
    × (api_from_str (codes "eth") ≡ ok eth)
    × (api_from_str (codes "pubsub") ≡ ok eth_pub_sub)
    × (api_from_str (codes "oasis") ≡ ok oasis)
    × IsErr (api_from_str (codes "rp"))

abbrev TestApiSetDefault : Type 0
TestApiSetDefault = SameMembers (list_apis unsafe_context) (list_apis default_set)

abbrev TestApiSetParsing : Type 0
TestApiSetParsing = Unwraps (set_from_str (codes "web3,eth")) (web3 ∷ eth ∷ [])

abbrev TestApiSetUnsafeContext : Type 0
TestApiSetUnsafeContext = SameMembers (list_apis unsafe_context) expected

abbrev TestAllApis : Type 0
TestAllApis = Unwraps (set_from_str (codes "all")) expected

abbrev TestSafeParsing : Type 0
TestSafeParsing = Unwraps (set_from_str (codes "safe")) expected

test_api_parsing : TestApiParsing
unfolding api_from_str same
test_api_parsing = (refl, refl, refl, refl, refl, tt)

test_api_set_default : TestApiSetDefault
test_api_set_default a = refl

test_api_set_parsing : TestApiSetParsing
unfolding set_from_str list_apis same
test_api_set_parsing web3 = refl
test_api_set_parsing net = refl
test_api_set_parsing eth = refl
test_api_set_parsing eth_pub_sub = refl
test_api_set_parsing oasis = refl

test_api_set_unsafe_context : TestApiSetUnsafeContext
unfolding list_apis
test_api_set_unsafe_context a = refl

test_all_apis : TestAllApis
unfolding set_from_str list_apis same
test_all_apis web3 = refl
test_all_apis net = refl
test_all_apis eth = refl
test_all_apis eth_pub_sub = refl
test_all_apis oasis = refl

test_safe_parsing : TestSafeParsing
unfolding set_from_str list_apis same
test_safe_parsing web3 = refl
test_safe_parsing net = refl
test_safe_parsing eth = refl
test_safe_parsing eth_pub_sub = refl
test_safe_parsing oasis = refl
