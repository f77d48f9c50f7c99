-- ===== src/Gateway/RpcApis/Names.antt =====
-- The names of the APIs (gateway/src/rpc_apis.rs).
use oasis_ethwasi_runtime.Prelude.{
  ℕ, zero, suc, ◌==◌, eq→==, ==_iff, ◌≡◌, refl, sym, ap, ◌∙◌, Bool, true, Bool-cases, Outcome, ok,
  err, ◌⊎◌, inl, inr,
}
use oasis_ethwasi_runtime.Prelude.Bytes.{Bytes}
use oasis_ethwasi_runtime.Prelude.Texts.{codes, same, same→eq, same_refl}
use oasis_ethwasi_runtime.Gateway.RpcApis.{
  Api, web3, net, eth, eth_pub_sub, oasis, discriminant, unknown_api, api_from_str,
}

abbrev pub name : Api → Bytes
name web3 = codes "web3"
name net = codes "net"
name eth = codes "eth"
name eth_pub_sub = codes "pubsub"
name oasis = codes "oasis"

abbrev pub is : Api → Api → Bool
is a b = discriminant a == discriminant b

api_at : ℕ → Api
api_at zero = web3
api_at (suc zero) = net
api_at (suc (suc zero)) = eth
api_at (suc (suc (suc zero))) = eth_pub_sub
api_at (suc (suc (suc (suc n)))) = oasis

api_at-discriminant : (a : Api) → api_at (discriminant a) ≡ a
unfolding api_at
api_at-discriminant web3 = refl
api_at-discriminant net = refl
api_at-discriminant eth = refl
api_at-discriminant eth_pub_sub = refl
api_at-discriminant oasis = refl

pub is→eq : (a b : Api) → is a b ≡ true → a ≡ b
is→eq a b h =
    sym (api_at-discriminant a)
    ∙ ap api_at ((==_iff (discriminant a) (discriminant b)).0 h)
    ∙ api_at-discriminant b

pub api_from_str-name : (a : Api) → api_from_str (name a) ≡ ok a
unfolding api_from_str same
api_from_str-name web3 = refl
api_from_str-name net = refl
api_from_str-name eth = refl
api_from_str-name eth_pub_sub = refl
api_from_str-name oasis = refl

name_injective : (a b : Api) → name a ≡ name b → a ≡ b
name_injective a b e =
    let found : api_from_str (name a) ≡ api_from_str (name b) = ap api_from_str e in
    let oks : Path (Outcome Bytes Api) (ok a) (ok b) =
      sym (api_from_str-name a) ∙ found ∙ api_from_str-name b in
    cc

pub same-name : (a b : Api) → same (name a) (name b) ≡ is a b
same-name a b = elim (Bool-cases (is a b)) [
  | inl yes_ ↦
      ap (λ c. same (name a) (name c)) (sym (is→eq a b yes_)) ∙ same_refl (name a) ∙ sym yes_
  | inr no_ ↦ elim (Bool-cases (same (name a) (name b))) [
    | inl e ↦
        let eq : a ≡ b = name_injective a b (same→eq _ _ e) in
        e ∙ sym (eq→== _ _ (ap discriminant eq))
    | inr e ↦ e ∙ sym no_
  ]
]

-- A text is the name of an API, which is found, or of none, which is reported.
pub api_from_str-cases :
    (s : Bytes) → ((a : Api) × (s ≡ name a)) ⊎ (api_from_str s ≡ err (unknown_api s))
unfolding api_from_str
api_from_str-cases s = elim (Bool-cases (same s (codes "web3"))) [
  | inl e ↦ inl (web3, same→eq _ _ e)
  | inr e0 ↦ elim (Bool-cases (same s (codes "net"))) [
    | inl e ↦ inl (net, same→eq _ _ e)
    | inr e1 ↦ elim (Bool-cases (same s (codes "eth"))) [
      | inl e ↦ inl (eth, same→eq _ _ e)
      | inr e2 ↦ elim (Bool-cases (same s (codes "pubsub"))) [
        | inl e ↦ inl (eth_pub_sub, same→eq _ _ e)
        | inr e3 ↦ elim (Bool-cases (same s (codes "oasis"))) [
          | inl e ↦ inl (oasis, same→eq _ _ e)
          | inr e4 ↦ inr (rw (e0, e1, e2, e3, e4))
        ]
      ]
    ]
  ]
]
