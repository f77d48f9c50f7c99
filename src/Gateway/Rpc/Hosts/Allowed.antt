-- ===== src/Gateway/Rpc/Hosts/Allowed.antt =====
-- Which hosts and origins a server allows (gateway/src/rpc.rs).
use oasis_ethwasi_runtime.Prelude.{
  ◌≡◌, refl, ap, sym, ◌∙◌, List, [], ◌∷◌, some, ◌||◌, Bool-cases, inl, inr,
}
use oasis_ethwasi_runtime.Prelude.Bytes.{Bytes}
use oasis_ethwasi_runtime.Prelude.Texts.{same, same→eq}
use oasis_ethwasi_runtime.Gateway.Rpc.Hosts.{
  has_text, insert_text, to_set, localhost, add_hosts, collect_hosts,
}

has_text-insert_text :
    (t s : Bytes) (ts : List Bytes) → has_text t (insert_text s ts) ≡ (same s t || has_text t ts)
unfolding insert_text
has_text-insert_text t s ts = elim (Bool-cases (has_text s ts)) [
  | inl there ↦ elim (Bool-cases (same s t)) [
    | inl e ↦ rw (there, e, insert_text) (ap (λ x. has_text x ts) (sym (same→eq s t e)) ∙ there)
    | inr e ↦ rw (there, e, insert_text)
  ]
  | inr new ↦ rw (new, insert_text)
]

has_text-to_set : (t : Bytes) (ts : List Bytes) → has_text t (to_set ts) ≡ has_text t ts
unfolding to_set
has_text-to_set t [] = refl
has_text-to_set t (s ∷ ts) =
    has_text-insert_text t s (to_set ts) ∙ ap (same s t ||◌) (has_text-to_set t ts)

-- Where hosts are restricted, just those given are allowed, the server's own and its name with
-- "localhost" in place of "127.0.0.1".
pub collect_hosts-has_text :
    (t host : Bytes) (items : List Bytes)
    → (allowed : List Bytes) × (collect_hosts (some items) (some host) ≡ some allowed)
      × (has_text t allowed ≡ (same (localhost host) t || (same host t || has_text t items)))
unfolding collect_hosts add_hosts
collect_hosts-has_text t host items =
    let own = insert_text host (to_set items) in
    (
      insert_text (localhost host) own,
      refl,
      has_text-insert_text t (localhost host) own
          ∙ ap (same (localhost host) t ||◌) (
              has_text-insert_text t host (to_set items)
              ∙ ap (same host t ||◌) (has_text-to_set t items)),
    )
