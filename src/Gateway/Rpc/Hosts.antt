-- ===== src/Gateway/Rpc/Hosts.antt =====
-- The hosts that a server allows (`collect_hosts` of gateway/src/rpc.rs).
pub mod Allowed
use oasis_ethwasi_runtime.Prelude.{
  ℕ, zero, suc, ◌+◌, ◌-◌, ◌/◌, ◌%◌, List, [], ◌∷◌, ◌++◌, Option, none, some, Bool, true, false, ltb,
  if◌then◌else◌, ◌||◌, length, take, Outcome, ok, err, panic, ◌>>=◌, ◌⊎◌, inl, inr, map, ok_or,
}
use oasis_ethwasi_runtime.Prelude.Bytes.{Bytes}
use oasis_ethwasi_runtime.Prelude.Texts.{codes, same}
use oasis_ethwasi_runtime.Gateway.Pubsub.{Broker}
use oasis_ethwasi_runtime.Gateway.RpcApis.{
  ApiSet, unsafe_context, list_apis, Delegate, Endpoints, extend_with_set,
}

-- A set of texts is the list of its members.
abbrev pub has_text : Bytes → List Bytes → Bool
has_text s [] = false
has_text s (t ∷ ts) = same t s || has_text s ts

unfoldable pub insert_text : Bytes → List Bytes → List Bytes
insert_text s ts = if has_text s ts then ts else s ∷ ts

-- `into_iter().collect()` of a list to a set.
unfoldable pub to_set : List Bytes → List Bytes
unfolding insert_text
to_set [] = []
to_set (t ∷ ts) = insert_text t (to_set ts)

-- `replace`: each occurrence of `pat`, from the left; `skip` bytes of one are still to be passed over.
unfoldable pub replace_from : Bytes → Bytes → ℕ → Bytes → Bytes
replace_from pat by skip [] = []
replace_from pat by (suc skip) (c ∷ s) = replace_from pat by skip s
replace_from pat by zero (c ∷ s) = elim (same (take (length pat) (c ∷ s)) pat) [
  | true ↦ by ++ replace_from pat by (length pat - 1) s
  | false ↦ c ∷ replace_from pat by zero s
]

unfoldable pub localhost : Bytes → Bytes
unfolding replace_from
localhost s = replace_from (codes "127.0.0.1") (codes "localhost") 0 s

unfoldable pub add_hosts : Option Bytes → List Bytes → List Bytes
unfolding localhost insert_text
add_hosts none items = items
add_hosts (some host) items = insert_text (localhost host) (insert_text host items)

unfoldable pub collect_hosts : Option (List Bytes) → Option Bytes → Option (List Bytes)
unfolding add_hosts to_set
collect_hosts none dapps_address = none
collect_hosts (some items) dapps_address = some (add_hosts dapps_address (to_set items))
