-- ===== src/Gateway/RpcApis/Pieces.antt =====
-- The effect of one piece of a list of API names (gateway/src/rpc_apis.rs).
use oasis_ethwasi_runtime.Prelude.{
  ℕ, ◌==◌, eq→==, ==_iff, ◌≡◌, refl, sym, ap, ◌∙◌, List, [], ◌∷◌, none, some, Bool, subst, true,
  false, not, ◌&&◌, ◌||◌, if◌then◌else◌, Bool-cases, ok, err, ◌⊎◌, inl, inr, is_some,
}
use oasis_ethwasi_runtime.Prelude.Bytes.{Bytes}
use oasis_ethwasi_runtime.Prelude.Texts.{codes, same, same→eq}
use oasis_ethwasi_runtime.Gateway.RpcApis.{
  Api, web3, net, eth, eth_pub_sub, oasis, has, insert, extend, remove, unknown_api, api_from_str,
  list_apis, public_list, apply_name, apply_piece,
}
use oasis_ethwasi_runtime.Gateway.RpcApis.Names.{
  name, is, api_from_str-name, same-name, api_from_str-cases,
}
use oasis_ethwasi_runtime.Gateway.RpcApis.Members.{
  has-insert, has-remove, has-extend, has-public_list,
}
use oasis_ethwasi_runtime.Gateway.RpcApis.Mentions.{says, update, IsMeaningful, unsigned}

abbrev pub Applied : Bytes → List Api → List Api → Type 0
Applied p apis apis' =
    (apply_piece p apis ≡ ok apis')
    × IsMeaningful p
    × ((a : Api) → has a apis' ≡ update (says a p) (has a apis))

abbrev pub Refused : Bytes → List Api → Type 0
Refused p apis =
    (apply_piece p apis ≡ err (unknown_api (unsigned p))) × ((a : Api) → says a p ≡ none)

not_named : (s : Bytes) → api_from_str s ≡ err (unknown_api s) → (a : Api) → same s (name a) ≡ false
not_named s e a = elim (Bool-cases (same s (name a))) [
  | inl h ↦
      let found : api_from_str s ≡ ok a = ap api_from_str (same→eq _ _ h) ∙ api_from_str-name a in
      absurd (cc)
  | inr h ↦ h
]

same-minus : (s : Bytes) (a : Api) → same (45 ∷ s) (name a) ≡ false
unfolding same
same-minus s web3 = refl
same-minus s net = refl
same-minus s eth = refl
same-minus s eth_pub_sub = refl
same-minus s oasis = refl

says-minus :
    (a : Api) (s : Bytes) → says a (45 ∷ s) ≡ (if same s (name a) then some false else none)
unfolding same
says-minus a s = rw (same-minus s a)

update_if : (x d v : Bool) → update (if x then some v else none) d ≡ (if x then v else d)
update_if true d v = refl
update_if false d v = refl

and_not_if : (x d : Bool) → (not x && d) ≡ (if x then false else d)
and_not_if true d = refl
and_not_if false d = refl

or_if : (x d : Bool) → (x || d) ≡ (if x then true else d)
or_if true d = refl
or_if false d = refl

minus_cases :
    (s : Bytes) (apis : List Api)
    → ((apis' : List Api) × Applied (45 ∷ s) apis apis') ⊎ Refused (45 ∷ s) apis
unfolding apply_piece apply_name same
minus_cases s apis = elim (api_from_str-cases s) [
  | inl (b, e) ↦
      let found : api_from_str s ≡ ok b = ap api_from_str e ∙ api_from_str-name b in
      let tells = λ (a : Api).
        says-minus a s
        ∙ ap (λ p. if same p (name a) then some false else none) e
        ∙ ap (λ x. if x then some false else none) (same-name b a) in
      inl (
        remove b apis,
        (
          rw (found),
          (
            b,
            ap is_some (tells b)
                ∙ ap (λ x. is_some (if x then some false else none)) (eq→== _ _ refl),
          ),
          λ a.
              has-remove a b apis
              ∙ and_not_if (is b a) (has a apis)
              ∙ sym (
                  ap (λ o. update o (has a apis)) (tells a)
                  ∙ update_if (is b a) (has a apis) false),
        ),
      )
  | inr e ↦
      inr (rw (e), λ a. says-minus a s ∙ ap (λ x. if x then some false else none) (not_named s e a))
]

says_if :
    (a : Api) (p : Bytes)
    → same p (codes "all") ≡ false
    → same p (codes "safe") ≡ false
    → same p (45 ∷ name a) ≡ false
    → says a p ≡ (if same p (name a) then some true else none)
says_if a p h0 h1 h2 = rw (h0, h1, h2)

no_minus_same : (c : ℕ) (s p : Bytes) → (c == 45) ≡ false → same (c ∷ s) (45 ∷ p) ≡ false
unfolding same
no_minus_same c s p h = ap (λ x. x && same s p) h

plain_cases :
    (c : ℕ) (s : Bytes) (apis : List Api)
    → (c == 45) ≡ false
    → same (c ∷ s) (codes "all") ≡ false
    → same (c ∷ s) (codes "safe") ≡ false
    → ((apis' : List Api) × Applied (c ∷ s) apis apis') ⊎ Refused (c ∷ s) apis
unfolding apply_piece apply_name
plain_cases c s apis no_minus not_all not_safe =
    let tells_if =
      λ (a : Api). says_if a (c ∷ s) not_all not_safe (no_minus_same c s (name a) no_minus) in
    elim (api_from_str-cases (c ∷ s)) [
      | inl (b, e) ↦
          let found : api_from_str (c ∷ s) ≡ ok b = ap api_from_str e ∙ api_from_str-name b in
          let tells = λ (a : Api).
            tells_if a
            ∙ ap (λ p. if same p (name a) then some true else none) e
            ∙ ap (λ x. if x then some true else none) (same-name b a) in
          inl (
            insert b apis,
            (
              rw (not_all, not_safe, no_minus, found),
              (
                b,
                ap is_some (tells b)
                    ∙ ap (λ x. is_some (if x then some true else none)) (eq→== _ _ refl),
              ),
              λ a.
                  has-insert a b apis
                  ∙ or_if (is b a) (has a apis)
                  ∙ sym (
                      ap (λ o. update o (has a apis)) (tells a)
                      ∙ update_if (is b a) (has a apis) true),
            ),
          )
      | inr e ↦ inr (
        rw (not_all, not_safe, no_minus, e),
        λ a. tells_if a ∙ ap (λ x. if x then some true else none) (not_named (c ∷ s) e a),
      )
    ]

all_offered : (a : Api) (apis : List Api) → has a (extend apis public_list) ≡ true
all_offered a apis = has-extend a apis public_list ∙ ap (λ x. x || has a apis) (has-public_list a)

says_empty : (a : Api) → says a [] ≡ none
unfolding same
says_empty web3 = refl
says_empty net = refl
says_empty eth = refl
says_empty eth_pub_sub = refl
says_empty oasis = refl

refused_empty : (apis : List Api) → apply_piece [] apis ≡ err (unknown_api [])
unfolding apply_piece apply_name api_from_str same
refused_empty apis = refl

pub piece_cases :
    (p : Bytes) (apis : List Api) → ((apis' : List Api) × Applied p apis apis') ⊎ Refused p apis
unfolding apply_piece apply_name list_apis
piece_cases [] apis = inr (refused_empty apis, says_empty)
piece_cases (c ∷ s) apis = elim (Bool-cases (same (c ∷ s) (codes "all"))) [
  | inl e ↦
      inl
        (extend apis public_list, (rw (e), (web3, rw (e)), λ a. all_offered a apis ∙ sym (rw (e))))
  | inr not_all ↦ elim (Bool-cases (same (c ∷ s) (codes "safe"))) [
    | inl e ↦ inl (
      extend apis public_list,
      (rw (not_all, e), (web3, rw (not_all, e)), λ a. all_offered a apis ∙ sym (rw (not_all, e))),
    )
    | inr not_safe ↦ elim (Bool-cases (c == 45)) [
      | inl e ↦
          let minus : c ≡ 45 = (==_iff c 45).0 e in
          subst (λ d. ((apis' : List Api) × Applied (d ∷ s) apis apis') ⊎ Refused (d ∷ s) apis)
            (sym minus) (minus_cases s apis)
      | inr e ↦ plain_cases c s apis e not_all not_safe
    ]
  ]
]
