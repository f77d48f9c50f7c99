-- ===== src/Gateway/RpcApis/Listening.antt =====
-- What the APIs of a server (gateway/src/rpc_apis.rs) do to the broker (gateway/src/pubsub.rs).
use oasis_ethwasi_runtime.Prelude.{
  ℕ, suc, ◌==◌, ◌≡◌, refl, sym, ap, ◌∙◌, List, [], ◌∷◌, ◌++◌, Bool, true, false, not, ◌&&◌,
  Bool-cases, subst, if◌then◌else◌, Outcome, ok, inl, inr, ◌>>=◌, >>=-eq-ok, append-nil,
}
use oasis_ethwasi_runtime.Prelude.Bytes.{Bytes}
use oasis_ethwasi_runtime.Prelude.Texts.{same, codes, split}
use oasis_ethwasi_runtime.Gateway.Pubsub.{add_listener}
use oasis_ethwasi_runtime.Gateway.RpcApis.{
  Api, web3, net, eth, eth_pub_sub, oasis, has, insert, extend, remove, api_from_str, public_list,
  listed, ApiSet, apply_name, apply_piece, apply_pieces, set_from_str, Endpoints, extend_one,
  extend_api, extend_with_set, list_apis,
}
use oasis_ethwasi_runtime.Gateway.RpcApis.Names.{is}
use oasis_ethwasi_runtime.Gateway.RpcApis.Members.{has-remove}

-- A list that is a set: no API stands in it twice.
abbrev pub DistinctApis : List Api → Type 0
DistinctApis [] = Unit
DistinctApis (a ∷ as_) = (has a as_ ≡ false) × DistinctApis as_

insert-DistinctApis : (a : Api) (as_ : List Api) → DistinctApis as_ → DistinctApis (insert a as_)
unfolding insert
insert-DistinctApis a as_ h = elim (Bool-cases (has a as_)) [
  | inl e ↦ rw (e, insert) h
  | inr e ↦ rw (e, insert) (e, h)
]

extend-DistinctApis : (as_ bs : List Api) → DistinctApis as_ → DistinctApis (extend as_ bs)
unfolding extend
extend-DistinctApis as_ [] h = h
extend-DistinctApis as_ (b ∷ bs) h =
    extend-DistinctApis (insert b as_) bs (insert-DistinctApis b as_ h)

and_false : (x y : Bool) → y ≡ false → (x && y) ≡ false
and_false true y h = h
and_false false y h = refl

remove-DistinctApis : (a : Api) (as_ : List Api) → DistinctApis as_ → DistinctApis (remove a as_)
unfolding remove
remove-DistinctApis a [] h = tt
remove-DistinctApis a (b ∷ bs) h =
    let rest = remove-DistinctApis a bs h.1 in
    elim (Bool-cases (is b a)) [
      | inl e ↦ rw (e, remove) rest
      | inr e ↦ rw (e, remove) (has-remove b a bs ∙ and_false (not (is a b)) (has b bs) h.0, rest)
    ]

apply_name-DistinctApis :
    (p : Bytes) (as_ bs : List Api) → DistinctApis as_ → apply_name p as_ ≡ ok bs → DistinctApis bs
unfolding apply_name
apply_name-DistinctApis [] as_ bs h e =
    let (a, found, done) = >>=-eq-ok (api_from_str []) (λ a. ok (insert a as_)) e in
    let same_set : insert a as_ ≡ bs = cc in
    subst DistinctApis same_set (insert-DistinctApis a as_ h)
apply_name-DistinctApis (c ∷ s) as_ bs h e = elim (Bool-cases (c == 45)) [
  | inl minus ↦
      let chosen : (api_from_str s >>= λ a. ok (remove a as_)) ≡ ok bs = rw (minus) at e in
      let (a, found, done) = >>=-eq-ok (api_from_str s) (λ a. ok (remove a as_)) chosen in
      let same_set : remove a as_ ≡ bs = cc in
      subst DistinctApis same_set (remove-DistinctApis a as_ h)
  | inr plain ↦
      let chosen : (api_from_str (c ∷ s) >>= λ a. ok (insert a as_)) ≡ ok bs = rw (plain) at e in
      let (a, found, done) = >>=-eq-ok (api_from_str (c ∷ s)) (λ a. ok (insert a as_)) chosen in
      let same_set : insert a as_ ≡ bs = cc in
      subst DistinctApis same_set (insert-DistinctApis a as_ h)
]

apply_piece-DistinctApis :
    (p : Bytes) (as_ bs : List Api) → DistinctApis as_ → apply_piece p as_ ≡ ok bs → DistinctApis bs
unfolding apply_piece list_apis
apply_piece-DistinctApis p as_ bs h e =
    let offered : DistinctApis (extend as_ public_list) = extend-DistinctApis as_ public_list h in
    elim (Bool-cases (same p (codes "all"))) [
      | inl e0 ↦
          let chosen : Path (Outcome Bytes (List Api)) (ok (extend as_ public_list)) (ok bs) =
            rw (e0) at e in
          let same_set : extend as_ public_list ≡ bs = cc in subst DistinctApis same_set offered
      | inr e0 ↦ elim (Bool-cases (same p (codes "safe"))) [
        | inl e1 ↦
            let chosen : Path (Outcome Bytes (List Api)) (ok (extend as_ public_list)) (ok bs) =
              rw (e0, e1) at e in
            let same_set : extend as_ public_list ≡ bs = cc in subst DistinctApis same_set offered
        | inr e1 ↦ apply_name-DistinctApis p as_ bs h (rw (e0, e1) at e)
      ]
    ]

apply_pieces-DistinctApis :
    (ps : List Bytes) (as_ bs : List Api)
    → DistinctApis as_
    → apply_pieces ps as_ ≡ ok bs
    → DistinctApis bs
unfolding apply_pieces
apply_pieces-DistinctApis [] as_ bs h e =
    let same_set : as_ ≡ bs = cc in subst DistinctApis same_set h
apply_pieces-DistinctApis (p ∷ ps) as_ bs h e =
    let (cs, first, rest) = >>=-eq-ok (apply_piece p as_) (λ cs. apply_pieces ps cs) e in
    apply_pieces-DistinctApis ps cs bs (apply_piece-DistinctApis p as_ cs h first) rest

pub set_from_str-DistinctApis :
    (s : Bytes) (set : ApiSet) → set_from_str s ≡ ok set → DistinctApis (list_apis set)
unfolding set_from_str list_apis
set_from_str-DistinctApis s set e =
    let (apis, done, made) =
      >>=-eq-ok (apply_pieces (split 44 s) []) (λ apis. ok (listed apis)) e in
    let same_set : listed apis ≡ set = cc in
    subst (λ x. DistinctApis (list_apis x)) same_set
      (apply_pieces-DistinctApis (split 44 s) [] apis tt done)

-- The listener that a server with these APIs adds to the broker's.
abbrev pub own : List Api → ℕ → List ℕ
own apis l = if has eth_pub_sub apis then l ∷ [] else []

extend_api_silent :
    (apis : List Api) (e : Endpoints)
    → has eth_pub_sub apis ≡ false
    → ((extend_api false apis e).broker ≡ e.broker) × ((extend_api false apis e).fresh ≡ e.fresh)
unfolding extend_api extend_one
extend_api_silent [] e h = (refl, refl)
extend_api_silent (web3 ∷ apis) e h = extend_api_silent apis (extend_one false web3 e) h
extend_api_silent (net ∷ apis) e h = extend_api_silent apis (extend_one false net e) h
extend_api_silent (eth ∷ apis) e h = extend_api_silent apis (extend_one false eth e) h
extend_api_silent (oasis ∷ apis) e h = extend_api_silent apis (extend_one false oasis e) h
extend_api_silent (eth_pub_sub ∷ apis) e h = cc

-- Extending a server's handler with a set of APIs registers one new listener with the broker if the set
-- has Ethereum pub/sub, and none otherwise, whatever the order of the set.
pub extend_with_set-Registers :
    (apis : List Api) (e : Endpoints)
    → DistinctApis apis
    → let e' = extend_with_set apis e in
      (e'.broker.listeners ≡ e.broker.listeners ++ own apis e.fresh)
      × (e'.broker.last_notified_block ≡ e.broker.last_notified_block)
      × (e'.fresh ≡ (if has eth_pub_sub apis then suc e.fresh else e.fresh))
unfolding extend_with_set extend_api extend_one add_listener
extend_with_set-Registers [] e h = (sym (append-nil e.broker.listeners), refl, refl)
extend_with_set-Registers (web3 ∷ apis) e h =
    extend_with_set-Registers apis (extend_one false web3 e) h.1
extend_with_set-Registers (net ∷ apis) e h =
    extend_with_set-Registers apis (extend_one false net e) h.1
extend_with_set-Registers (eth ∷ apis) e h =
    extend_with_set-Registers apis (extend_one false eth e) h.1
extend_with_set-Registers (oasis ∷ apis) e h =
    extend_with_set-Registers apis (extend_one false oasis e) h.1
extend_with_set-Registers (eth_pub_sub ∷ apis) e h =
    let (b, f) = extend_api_silent apis (extend_one false eth_pub_sub e) h.0 in
    (ap (λ x. x.listeners) b, ap (λ x. x.last_notified_block) b, f)
