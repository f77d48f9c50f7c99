-- ===== src/Gateway/Eth/Consistency.antt =====
-- How answers of different `eth` calls (gateway/src/impls/eth.rs) go together.
use oasis_ethwasi_runtime.Prelude.{
  ℕ, suc, ◌+◌, ◌≡◌, refl, ap, ◌∙◌, sym, arith, List, [], ◌∷◌, Option, none, some, String, true, map,
  length, Outcome, ok, ◌>>=◌, >>=-eq-ok, Option-cases, inl, inr,
}
use oasis_ethwasi_runtime.Runtime.Types.{TxnCall, UnverifiedTransaction}
use oasis_ethwasi_runtime.Gateway.Client.{BlockSnapshot, Error, Client, Codec}
use oasis_ethwasi_runtime.Gateway.Translator.{
  transactions-calls, get_txn_by_hash, LocalizedTransaction, LocalizedReceipt, transaction, receipt,
  raw_transactions, decode_call, filter_map,
}
use oasis_ethwasi_runtime.Gateway.Translator.Blocks.{RichBlock, full, rich_block}
use oasis_ethwasi_runtime.Gateway.Translator.Blocks.Modes.{IsListing, rich_block_modes}
use oasis_ethwasi_runtime.Gateway.Translator.Logs.Agreement.{receipt-Agrees}
use oasis_ethwasi_runtime.Gateway.Eth.{
  of_found, count_transactions, transaction_by_hash, transaction_receipt, block_by_hash,
  block_transaction_count_by_hash,
}

of_found-eq-some :
    {A B : Type 0} (f : A → Outcome Error B) (o : Option A) (b : B)
    → of_found f o ≡ ok (some b)
    → (a : A) × (o ≡ some a) × (f a ≡ ok b)
of_found-eq-some f none b h = cc
of_found-eq-some f (some a) b h =
    let (b', e, h1) = >>=-eq-ok (f a) (λ b. ok (some b)) h in
    let same : b' ≡ b = cc in (a, refl, e ∙ ap (λ x. ok x) same)

-- Where the receipt of a hash is returned, the transaction of that hash is returned too, and the two
-- agree on the transaction's hash, its index and its block.
pub receipt_has_transaction :
    (c : Client) (k : Codec) (hash : ℕ) (r : LocalizedReceipt)
    → transaction_receipt c k hash ≡ ok (some r)
    → (tx : LocalizedTransaction) × (transaction_by_hash c k hash ≡ ok (some tx))
      × (r.transaction_hash ≡ tx.hash)
      × (r.transaction_index ≡ tx.transaction_index)
      × (r.block_number ≡ tx.block_number)
      × (r.block_hash ≡ tx.block_hash)
unfolding transaction_receipt transaction_by_hash
receipt_has_transaction c k hash r h =
    let (o, e, h1) = >>=-eq-ok (get_txn_by_hash c hash) (of_found (receipt k)) h in
    let (t, e1, h2) = of_found-eq-some (receipt k) o r h1 in
    let (a, found) = receipt-Agrees k t r h2 in
    (
      a.tx,
      ap (λ x. x >>= of_found (transaction k)) e
          ∙ ap (of_found (transaction k)) e1
          ∙ ap (λ x. x >>= λ b. ok (some b)) a.decodes,
      a.hash,
      a.index,
      a.number,
      a.block,
    )

-- How many elements a `filter_map` drops.
pub dropped : {A B : Type 0} → (A → Option B) → List A → ℕ
dropped f [] = 0
dropped f (x ∷ xs) = elim (f x) [ none ↦ suc (dropped f xs) | some b ↦ dropped f xs ]

length-filter_map :
    {A B : Type 0} (f : A → Option B) (xs : List A)
    → length (filter_map f xs) + dropped f xs ≡ length xs
unfolding dropped
length-filter_map f [] = omega arith
length-filter_map f (x ∷ xs) =
    let rest = length-filter_map f xs in
    elim (Option-cases (f x)) [
      | inl e ↦ rw (e, dropped) (omega (arith, rest))
      | inr (b, e) ↦ rw (e, dropped) (omega (arith, rest))
    ]

length-map : {A B : Type 0} (f : A → B) (xs : List A) → length (map f xs) ≡ length xs
length-map f [] = refl
length-map f (x ∷ xs) = ap suc (length-map f xs)

listed :
    (blk : BlockSnapshot) (ts : List UnverifiedTransaction) (L : List LocalizedTransaction)
    → IsListing blk ts L
    → length L ≡ length ts
unfolding IsListing
listed blk ts L v = sym (length-map (λ x. x.hash) L) ∙ ap length v.0 ∙ length-map (λ t. t.hash) ts

-- Where a block is returned with its transactions, so is its transaction count. The count is the number
-- of transactions listed and of the block's Ethereum calls that do not decode.
pub count_covers_listing :
    (keccak : ℕ) (info : List (String × String)) (c : Client) (k : Codec) (hash : ℕ) (b : RichBlock)
    → block_by_hash keccak info c k hash true ≡ ok (some b)
    → (blk : BlockSnapshot) × (calls : List TxnCall) × (L : List LocalizedTransaction)
      × (raw_transactions c k blk ≡ ok calls)
      × (b.transactions ≡ full L)
      × (block_transaction_count_by_hash c k hash ≡ ok (some (length calls)))
      × (length L + dropped (decode_call k) calls ≡ length calls)
unfolding block_by_hash block_transaction_count_by_hash count_transactions
count_covers_listing keccak info c k hash b h =
    let show = λ (blk : BlockSnapshot). rich_block keccak info c k blk true in
    let (o, e, h1) = >>=-eq-ok (c.get_block_by_hash hash) (of_found show) h in
    let (blk, e1, h2) = of_found-eq-some show o b h1 in
    let (ts, L, e2, e3, listing, other) = rich_block_modes keccak info c k blk b h2 in
    let (calls, e4, e5) = transactions-calls c k blk ts e2 in
    let same = listed blk ts L listing in
    (
      blk,
      calls,
      L,
      e4,
      e3,
      ap (λ x. x >>= of_found (count_transactions c k)) e
          ∙ ap (of_found (count_transactions c k)) e1
          ∙ ap (λ r. r >>= (λ txns. ok (length txns)) >>= λ n. ok (some n)) e4,
      omega (arith, same, ap length e5, length-filter_map (decode_call k) calls),
    )
