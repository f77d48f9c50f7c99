-- ===== src/Gateway/RpcApis.antt =====
-- gateway/src/rpc_apis.rs: the names of the RPC APIs, the sets of them that a server offers, and the
-- endpoints that each adds to a server's handler. A `HashSet` is the list of its members, a text is its
-- bytes. A listener of the broker is known by its number.
pub mod Names
pub mod Members
pub mod Mentions
pub mod Pieces
pub mod Parsing
pub mod RoundTrip
pub mod Listening
mod Tests
mod UnitTests
use oasis_ethwasi_runtime.Prelude.{
  ℕ, suc, ◌==◌, List, [], ◌∷◌, ◌++◌, Bool, true, false, ◌||◌, if◌then◌else◌, Outcome, ok, err,
  panic, ◌>>=◌,
}
use oasis_ethwasi_runtime.Prelude.Bytes.{Bytes}
use oasis_ethwasi_runtime.Prelude.Texts.{codes, same, split}
use oasis_ethwasi_runtime.Gateway.Pubsub.{Broker, add_listener}

pub data Api : Type 0 where
  web3 net eth eth_pub_sub oasis : Api

-- What the derived `PartialEq` compares.
abbrev pub discriminant : Api → ℕ
discriminant web3 = 0
discriminant net = 1
discriminant eth = 2
discriminant eth_pub_sub = 3
discriminant oasis = 4

abbrev pub has : Api → List Api → Bool
has a [] = false
has a (b ∷ bs) = (discriminant b == discriminant a) || has a bs

unfoldable pub insert : Api → List Api → List Api
insert a as_ = if has a as_ then as_ else a ∷ as_

unfoldable pub extend : List Api → List Api → List Api
unfolding insert
extend as_ [] = as_
extend as_ (b ∷ bs) = extend (insert b as_) bs

unfoldable pub remove : Api → List Api → List Api
remove a [] = []
remove a (b ∷ bs) =
    let rest = remove a bs in if discriminant b == discriminant a then rest else b ∷ rest

abbrev pub unknown_api : Bytes → Bytes
unknown_api s = codes "Unknown api: " ++ s

unfoldable pub api_from_str : Bytes → Outcome Bytes Api
api_from_str s =
    if same s (codes "web3")
    then ok web3
    else if same s (codes "net")
    then ok net
    else if same s (codes "eth")
    then ok eth
    else if same s (codes "pubsub")
    then ok eth_pub_sub
    else if same s (codes "oasis")
    then ok oasis
    else err (unknown_api s)

-- `SafeContext` is there in tests only.
pub data ApiSet : Type 0 where
  unsafe_context all : ApiSet
  listed : List Api → ApiSet

abbrev pub default_set : ApiSet
default_set = unsafe_context

abbrev pub public_list : List Api
public_list = web3 ∷ net ∷ eth ∷ eth_pub_sub ∷ oasis ∷ []

unfoldable pub list_apis : ApiSet → List Api
list_apis (listed apis) = apis
list_apis unsafe_context = public_list
list_apis all = public_list

-- The arm for a piece that is neither "all" nor "safe"; 45 is '-'.
unfoldable pub apply_name : Bytes → List Api → Outcome Bytes (List Api)
unfolding api_from_str insert remove
apply_name [] apis = api_from_str [] >>= λ a. ok (insert a apis)
apply_name (c ∷ s) apis =
    if c == 45
    then (api_from_str s >>= λ a. ok (remove a apis))
    else api_from_str (c ∷ s) >>= λ a. ok (insert a apis)

unfoldable pub apply_piece : Bytes → List Api → Outcome Bytes (List Api)
unfolding apply_name extend list_apis
apply_piece api apis =
    if same api (codes "all")
    then ok (extend apis (list_apis all))
    else if same api (codes "safe")
    then ok (extend apis (list_apis unsafe_context))
    else apply_name api apis

unfoldable pub apply_pieces : List Bytes → List Api → Outcome Bytes (List Api)
unfolding apply_piece
apply_pieces [] apis = ok apis
apply_pieces (p ∷ ps) apis = apply_piece p apis >>= λ apis'. apply_pieces ps apis'

-- 44 is ','.
unfoldable pub set_from_str : Bytes → Outcome Bytes ApiSet
unfolding apply_pieces split
set_from_str s = apply_pieces (split 44 s) [] >>= λ apis. ok (listed apis)

pub data Delegate : Type 0 where
  web3_client net_client eth_client eth_signing_client eth_filter_client oasis_client : Delegate
  eth_pub_sub_client : ℕ → Delegate

-- The delegates of a server's handler, and the broker that all servers share; `fresh` is the number of
-- the next listener.
pub record Endpoints : Type 0 where
  pub delegates : List Delegate
  pub broker : Broker
  pub fresh : ℕ

abbrev extend_with : Delegate → Endpoints → Endpoints
extend_with d e = record e { delegates = e.delegates ++ (d ∷ []) }

unfoldable pub extend_one : Bool → Api → Endpoints → Endpoints
extend_one for_generic_pubsub web3 e = extend_with web3_client e
extend_one for_generic_pubsub net e = extend_with net_client e
extend_one true eth e = extend_with eth_signing_client (extend_with eth_client e)
extend_one false eth e =
    extend_with eth_filter_client (extend_with eth_signing_client (extend_with eth_client e))
extend_one true eth_pub_sub e = e
extend_one false eth_pub_sub e =
    extend_with (eth_pub_sub_client e.fresh)
      (record e { broker = add_listener e.fresh e.broker; fresh = suc e.fresh })
extend_one for_generic_pubsub oasis e = extend_with oasis_client e

unfoldable pub extend_api : Bool → List Api → Endpoints → Endpoints
unfolding extend_one
extend_api for_generic_pubsub [] e = e
extend_api for_generic_pubsub (a ∷ apis) e =
    extend_api for_generic_pubsub apis (extend_one for_generic_pubsub a e)

unfoldable pub extend_with_set : List Api → Endpoints → Endpoints
unfolding extend_api
extend_with_set apis e = extend_api false apis e
