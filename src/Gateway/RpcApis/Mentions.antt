-- ===== src/Gateway/RpcApis/Mentions.antt =====
-- What the pieces of a list of API names (gateway/src/rpc_apis.rs) say of an API.
use oasis_ethwasi_runtime.Prelude.{
  ◌==◌, ◌≡◌, List, [], ◌∷◌, Option, none, some, Bool, true, false, ◌||◌, if◌then◌else◌, is_some,
}
use oasis_ethwasi_runtime.Prelude.Bytes.{Bytes}
use oasis_ethwasi_runtime.Prelude.Texts.{codes, same}
use oasis_ethwasi_runtime.Gateway.RpcApis.{Api}
use oasis_ethwasi_runtime.Gateway.RpcApis.Names.{name}

-- What a piece says of an API: that it is offered, that it is not, or nothing.
abbrev pub says : Api → Bytes → Option Bool
says a p =
    if same p (codes "all") || (same p (codes "safe") || same p (name a))
    then some true
    else if same p (45 ∷ name a)
    then some false
    else none

abbrev pub update : Option Bool → Bool → Bool
update none d = d
update (some b) d = b

-- The last piece that says something of an API decides.
abbrev pub decided : Api → List Bytes → Bool → Bool
decided a [] d = d
decided a (p ∷ ps) d = decided a ps (update (says a p) d)

abbrev pub IsMeaningful : Bytes → Type 0
IsMeaningful p = (a : Api) × (is_some (says a p) ≡ true)

-- A piece without its minus sign.
abbrev pub unsigned : Bytes → Bytes
unsigned [] = []
unsigned (c ∷ s) = if c == 45 then s else c ∷ s
