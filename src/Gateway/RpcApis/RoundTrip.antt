-- ===== src/Gateway/RpcApis/RoundTrip.antt =====
-- That the names of APIs are parsed to these APIs (gateway/src/rpc_apis.rs).
use oasis_ethwasi_runtime.Prelude.{
  ◌≡◌, refl, ◌∙◌, List, [], ◌∷◌, Bool, true, false, ◌||◌, ok, All, map, contains,
}
use oasis_ethwasi_runtime.Prelude.Texts.{same, join, split-join}
use oasis_ethwasi_runtime.Gateway.RpcApis.{
  Api, web3, net, eth, eth_pub_sub, oasis, has, insert, extend, api_from_str, listed, apply_name,
  apply_piece, apply_pieces, set_from_str,
}
use oasis_ethwasi_runtime.Gateway.RpcApis.Names.{name}
use oasis_ethwasi_runtime.Gateway.RpcApis.Members.{has-extend}

apply_piece-name : (a : Api) (apis : List Api) → apply_piece (name a) apis ≡ ok (insert a apis)
unfolding apply_piece apply_name api_from_str same
apply_piece-name web3 apis = refl
apply_piece-name net apis = refl
apply_piece-name eth apis = refl
apply_piece-name eth_pub_sub apis = refl
apply_piece-name oasis apis = refl

apply_pieces-names : (as_ apis : List Api) → apply_pieces (map name as_) apis ≡ ok (extend apis as_)
unfolding apply_pieces extend
apply_pieces-names [] apis = refl
apply_pieces-names (a ∷ as_) apis =
    rw (apply_piece-name a apis) (apply_pieces-names as_ (insert a apis))

no_comma : (a : Api) → contains 44 (name a) ≡ false
no_comma web3 = refl
no_comma net = refl
no_comma eth = refl
no_comma eth_pub_sub = refl
no_comma oasis = refl

no_commas : (as_ : List Api) → All (λ p. contains 44 p ≡ false) (map name as_)
no_commas [] = tt
no_commas (a ∷ as_) = (no_comma a, no_commas as_)

or_false : (x : Bool) → (x || false) ≡ x
or_false true = refl
or_false false = refl

-- The names of one or more APIs, joined with commas, are parsed to the set of just these APIs.
pub set_from_str-join :
    (a : Api) (as_ : List Api)
    → (apis : List Api) × (set_from_str (join 44 (map name (a ∷ as_))) ≡ ok (listed apis))
      × ((b : Api) → has b apis ≡ has b (a ∷ as_))
unfolding set_from_str
set_from_str-join a as_ =
    let pieces = split-join 44 (name a) (map name as_) (no_commas (a ∷ as_)) in
    (
      extend [] (a ∷ as_),
      rw (pieces, apply_pieces-names (a ∷ as_) []),
      λ b. has-extend b [] (a ∷ as_) ∙ or_false (has b (a ∷ as_)),
    )
