-- ===== src/Gateway/Translator/Logs/Order.antt =====
-- The order of the logs that `logs` (gateway/src/translator.rs) returns.
use oasis_ethwasi_runtime.Prelude.{
  ℕ, ◌≤◌, ◌<◌, sym, subst, ◌≡◌, refl, ap, ◌∙◌, arith, List, [], ◌∷◌, false, leb, leb→le, ◌==◌,
  if◌then◌else◌, All, Bool-cases, inl, inr, ok, >>=-eq-ok, ◌>>=◌,
}
use oasis_ethwasi_runtime.Gateway.Client.{TransactionSnapshot, BlockSnapshot, Filter, Client, Codec}
use oasis_ethwasi_runtime.Gateway.Translator.{LocalizedLogEntry, get_block_unwrap}
use oasis_ethwasi_runtime.Gateway.Translator.Logs.{
  insert_log, sort_logs, search, logs, log_query, flat_map_logs,
}

pub IsSorted : List LocalizedLogEntry → Type 0
IsSorted [] = Unit
IsSorted (x ∷ xs) = All (λ y. x.block_number ≤ y.block_number) xs × IsSorted xs

pub of_block : ℕ → List LocalizedLogEntry → List LocalizedLogEntry
of_block n [] = []
of_block n (x ∷ xs) = let rest = of_block n xs in if x.block_number == n then x ∷ rest else rest

All-insert :
    (n : ℕ) (x : LocalizedLogEntry) (ys : List LocalizedLogEntry)
    → n ≤ x.block_number
    → All (λ y. n ≤ y.block_number) ys
    → All (λ y. n ≤ y.block_number) (insert_log x ys)
unfolding insert_log
All-insert n x [] h all = (h, tt)
All-insert n x (y ∷ ys) h all = elim (Bool-cases (leb x.block_number y.block_number)) [
  | inl e ↦ rw (e, insert_log) (h, all)
  | inr e ↦ rw (e, insert_log) (all.0, All-insert n x ys h all.1)
]

All-le :
    (m n : ℕ) (ys : List LocalizedLogEntry)
    → m ≤ n
    → All (λ y. n ≤ y.block_number) ys
    → All (λ y. m ≤ y.block_number) ys
All-le m n [] h all = tt
All-le m n (y ∷ ys) h all = (omega (arith, all.0), All-le m n ys h all.1)

insert-IsSorted :
    (x : LocalizedLogEntry) (ys : List LocalizedLogEntry) → IsSorted ys → IsSorted (insert_log x ys)
unfolding insert_log IsSorted
insert-IsSorted x [] s = (tt, tt)
insert-IsSorted x (y ∷ ys) s = elim (Bool-cases (leb x.block_number y.block_number)) [
  | inl e ↦ let le = leb→le _ _ e in rw (e, insert_log) ((le, All-le _ _ ys le s.0), s)
  | inr e ↦
      let lt : y.block_number ≤ x.block_number = ground arith in
      rw (e, insert_log) (All-insert y.block_number x ys lt s.0, insert-IsSorted x ys s.1)
]

sort-IsSorted : (xs : List LocalizedLogEntry) → IsSorted (sort_logs xs)
unfolding sort_logs IsSorted
sort-IsSorted [] = tt
sort-IsSorted (x ∷ xs) = insert-IsSorted x (sort_logs xs) (sort-IsSorted xs)

-- Two entries of different blocks are not both of the block `n`, so their order does not matter.
skip :
    (a b n : ℕ)
    → b < a
    → (x y : LocalizedLogEntry) (ys : List LocalizedLogEntry)
    → (if b == n then y ∷ (if a == n then x ∷ ys else ys) else (if a == n then x ∷ ys else ys))
      ≡ (if a == n then x ∷ (if b == n then y ∷ ys else ys) else (if b == n then y ∷ ys else ys))
skip a b n lt x y ys = elim (Bool-cases (b == n)) [
  | inl e ↦ let f : (a == n) ≡ false = ground arith in rw (e, f)
  | inr e ↦ rw e
]

of_block-insert :
    (n : ℕ) (x : LocalizedLogEntry) (ys : List LocalizedLogEntry)
    → of_block n (insert_log x ys) ≡ of_block n (x ∷ ys)
unfolding insert_log of_block
of_block-insert n x [] = refl
of_block-insert n x (y ∷ ys) = elim (Bool-cases (leb x.block_number y.block_number)) [
  | inl e ↦ rw (e, insert_log)
  | inr e ↦
      let lt : y.block_number < x.block_number = ground arith in
      rw (e, insert_log)
        (ap (λ r. if y.block_number == n then y ∷ r else r) (of_block-insert n x ys)
          ∙ skip x.block_number y.block_number n lt x y (of_block n ys))
]

of_block-sort : (n : ℕ) (xs : List LocalizedLogEntry) → of_block n (sort_logs xs) ≡ of_block n xs
unfolding sort_logs of_block
of_block-sort n [] = refl
of_block-sort n (x ∷ xs) =
    of_block-insert n x (sort_logs xs)
    ∙ ap (λ r. if x.block_number == n then x ∷ r else r) (of_block-sort n xs)

-- Where `logs` returns, its blocks were found, the last one is indexed and the query was answered; the
-- entries come by ascending block number, and those of each block are those that the transactions of
-- the answer have in it, in the order of the transactions.
pub logs-IsSorted :
    (c : Client) (k : Codec) (f : Filter) (ls : List LocalizedLogEntry)
    → logs c k f ≡ ok ls
    → IsSorted ls
      × ((from : BlockSnapshot) × (to : BlockSnapshot) × (txns : List TransactionSnapshot)
          × (get_block_unwrap c f.from_block ≡ ok from)
          × (get_block_unwrap c f.to_block ≡ ok to)
          × (c.wait_block_indexed to.header.round ≡ ok tt)
          × (c.query_txs (log_query f from to) ≡ ok txns)
          × ((n : ℕ) → of_block n ls ≡ of_block n (flat_map_logs k f txns)))
unfolding logs search
logs-IsSorted c k f ls h =
    let first = get_block_unwrap c f.from_block in
    let second = get_block_unwrap c f.to_block in
    let (from, e, h1) = >>=-eq-ok first (λ from. second >>= λ to. search c k f from to) h in
    let (to, e1, h2) = >>=-eq-ok second (λ to. search c k f from to) h1 in
    let query = c.query_txs (log_query f from to) in
    let finish = λ (txns : List TransactionSnapshot). ok (sort_logs (flat_map_logs k f txns)) in
    let (u, e2, h3) = >>=-eq-ok (c.wait_block_indexed to.header.round) (λ u. query >>= finish) h2 in
    let (txns, e3, h4) = >>=-eq-ok query finish h3 in
    let found : sort_logs (flat_map_logs k f txns) ≡ ls = cc in
    (
      subst IsSorted found (sort-IsSorted (flat_map_logs k f txns)),
      (
        from,
        to,
        txns,
        e,
        e1,
        e2,
        e3,
        λ n. ap (of_block n) (sym found) ∙ of_block-sort n (flat_map_logs k f txns),
      ),
    )
