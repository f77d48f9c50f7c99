-- ===== src/Gateway/RpcApis/Parsing.antt =====
-- What a list of API names (gateway/src/rpc_apis.rs) means.
use oasis_ethwasi_runtime.Prelude.{
  ◌≡◌, refl, ap, ◌∙◌, List, [], ◌∷◌, ◌++◌, none, false, ok, err, ◌⊎◌, inl, inr, All,
}
use oasis_ethwasi_runtime.Prelude.Bytes.{Bytes}
use oasis_ethwasi_runtime.Prelude.Texts.{split}
use oasis_ethwasi_runtime.Gateway.RpcApis.{
  Api, has, unknown_api, listed, apply_pieces, set_from_str,
}
use oasis_ethwasi_runtime.Gateway.RpcApis.Mentions.{says, decided, IsMeaningful, unsigned}
use oasis_ethwasi_runtime.Gateway.RpcApis.Pieces.{piece_cases}

abbrev pub Parses : Bytes → List Api → Type 0
Parses s apis =
    (set_from_str s ≡ ok (listed apis))
    × All IsMeaningful (split 44 s)
    × ((a : Api) → has a apis ≡ decided a (split 44 s) false)

abbrev pub FailsAt : List Bytes → Bytes → List Bytes → Bytes → Type 0
FailsAt before p after s =
    (split 44 s ≡ before ++ (p ∷ after))
    × All IsMeaningful before
    × ((a : Api) → says a p ≡ none)
    × (set_from_str s ≡ err (unknown_api (unsigned p)))

pieces_cases :
    (ps : List Bytes) (apis : List Api)
    → ((apis' : List Api) × (apply_pieces ps apis ≡ ok apis')
        × All IsMeaningful ps
        × ((a : Api) → has a apis' ≡ decided a ps (has a apis)))
      ⊎ ((before : List Bytes) × (p : Bytes) × (after : List Bytes) × (ps ≡ before ++ (p ∷ after))
          × All IsMeaningful before
          × ((a : Api) → says a p ≡ none)
          × (apply_pieces ps apis ≡ err (unknown_api (unsigned p))))
unfolding apply_pieces
pieces_cases [] apis = inl (apis, refl, tt, λ a. refl)
pieces_cases (p ∷ ps) apis = elim (piece_cases p apis) [
  | inr (refused, silent) ↦ inr ([], p, ps, refl, tt, silent, rw (refused))
  | inl (apis', (applied, meaningful, updated)) ↦ elim (pieces_cases ps apis') [
    | inl (last, done, all, spec) ↦
        inl
          (last, rw (applied) done, (meaningful, all), λ a. spec a ∙ ap (decided a ps) (updated a))
    | inr (before, q, after, e, all, silent, failed) ↦
        inr (p ∷ before, q, after, ap (p ∷◌) e, (meaningful, all), silent, rw (applied) failed)
  ]
]

-- A list of API names, split at its commas, either parses, and every piece means something; then an API
-- is in the set exactly if the last piece that says something of it offers it. Or there is a first piece
-- that says nothing of any API, and the error has that piece, without its minus sign.
pub set_from_str-Verdict :
    (s : Bytes)
    → ((apis : List Api) × Parses s apis)
      ⊎ ((before : List Bytes) × (p : Bytes) × (after : List Bytes) × FailsAt before p after s)
unfolding set_from_str
set_from_str-Verdict s = elim (pieces_cases (split 44 s) []) [
  | inl (apis, done, all, spec) ↦ inl (apis, (rw (done), all, spec))
  | inr (before, p, after, e, all, silent, failed) ↦
      inr (before, p, after, (e, all, silent, rw (failed)))
]
