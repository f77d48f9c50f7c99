-- ===== src/Gateway/RpcApis/Members.antt =====
-- The members of a set of APIs (gateway/src/rpc_apis.rs).
use oasis_ethwasi_runtime.Prelude.{
  ◌≡◌, refl, sym, ap, ◌∙◌, List, [], ◌∷◌, Bool, true, false, not, ◌&&◌, ◌||◌, Bool-cases, inl, inr,
}
use oasis_ethwasi_runtime.Gateway.RpcApis.{
  Api, web3, net, eth, eth_pub_sub, oasis, has, insert, extend, remove, public_list,
}
use oasis_ethwasi_runtime.Gateway.RpcApis.Names.{is, is→eq}

pub has-insert : (a b : Api) (as_ : List Api) → has a (insert b as_) ≡ (is b a || has a as_)
unfolding insert
has-insert a b as_ = elim (Bool-cases (has b as_)) [
  | inl there ↦ elim (Bool-cases (is b a)) [
    | inl e ↦ rw (there, e, insert) (ap (λ c. has c as_) (sym (is→eq b a e)) ∙ there)
    | inr e ↦ rw (there, e, insert)
  ]
  | inr new ↦ rw (new, insert)
]

is_same : (a b c : Api) → is a b ≡ true → is a c ≡ is b c
is_same a b c h = ap (λ x. is x c) (is→eq a b h)

or_swap : (x y z : Bool) → (x || (y || z)) ≡ ((y || x) || z)
or_swap true true z = refl
or_swap true false z = refl
or_swap false true z = refl
or_swap false false z = refl

and_or : (x y z : Bool) → (x ≡ true → y ≡ false) → (y || (not x && z)) ≡ (not x && (y || z))
and_or true true z h = h refl
and_or true false z h = refl
and_or false y z h = refl

pub has-remove : (a b : Api) (as_ : List Api) → has a (remove b as_) ≡ (not (is b a) && has a as_)
unfolding remove
has-remove a b [] = elim (Bool-cases (is b a)) [ inl e ↦ rw (e) | inr e ↦ rw (e) ]
has-remove a b (c ∷ as_) =
    let rest = has-remove a b as_ in
    elim (Bool-cases (is c b)) [
      | inl e ↦ elim (Bool-cases (is b a)) [
        | inl f ↦ rw (e, f, remove) (rest ∙ ap (λ x. not x && has a as_) f)
        | inr f ↦ rw (e, f, is_same c b a e ∙ f, remove) (rest ∙ ap (λ x. not x && has a as_) f)
      ]
      | inr e ↦
          let apart = λ (f : is b a ≡ true). ap (is c) (sym (is→eq b a f)) ∙ e in
          rw (e, remove) (ap (is c a ||◌) rest ∙ and_or (is b a) (is c a) (has a as_) apart)
    ]

pub has-extend : (a : Api) (as_ bs : List Api) → has a (extend as_ bs) ≡ (has a bs || has a as_)
unfolding extend
has-extend a as_ [] = refl
has-extend a as_ (b ∷ bs) =
    has-extend a (insert b as_) bs
    ∙ ap (has a bs ||◌) (has-insert a b as_)
    ∙ or_swap (has a bs) (is b a) (has a as_)

pub has-public_list : (a : Api) → has a public_list ≡ true
has-public_list web3 = refl
has-public_list net = refl
has-public_list eth = refl
has-public_list eth_pub_sub = refl
has-public_list oasis = refl
