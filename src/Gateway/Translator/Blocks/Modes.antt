-- ===== src/Gateway/Translator/Blocks/Modes.antt =====
-- A block with its transactions and with their hashes only (gateway/src/translator.rs).
use oasis_ethwasi_runtime.Prelude.{
  ℕ, zero, suc, ◌+◌, ◌≡◌, refl, ap, ◌∙◌, sym, arith, List, [], ◌∷◌, some, String, true, false, map,
  get_elem?, ok, ◌>>=◌, >>=-eq-ok,
}
use oasis_ethwasi_runtime.Runtime.Types.{UnverifiedTransaction}
use oasis_ethwasi_runtime.Gateway.Client.{BlockSnapshot, Client, Codec}
use oasis_ethwasi_runtime.Gateway.Translator.{LocalizedTransaction, transactions}
use oasis_ethwasi_runtime.Gateway.Translator.Blocks.{
  RichBlock, full, tx_hashes, enumerate_txns, block_transactions, rich_header, block_of, rich_block,
}

enumerate-hashes :
    (blk : BlockSnapshot) (i : ℕ) (ts : List UnverifiedTransaction)
    → map (λ (t : LocalizedTransaction). t.hash) (enumerate_txns blk i ts) ≡ map (λ t. t.hash) ts
unfolding enumerate_txns
enumerate-hashes blk i [] = refl
enumerate-hashes blk i (t ∷ ts) = ap (t.hash ∷◌) (enumerate-hashes blk (suc i) ts)

abbrev localized : BlockSnapshot → ℕ → UnverifiedTransaction → LocalizedTransaction
localized blk i t = record {
  signed = t;
  block_number = blk.header.round;
  block_hash = blk.block_hash;
  transaction_index = i;
}

enumerate-elem :
    (blk : BlockSnapshot) (start i : ℕ) (ts : List UnverifiedTransaction) (x : LocalizedTransaction)
    → get_elem? (enumerate_txns blk start ts) i ≡ some x
    → (x.transaction_index ≡ start + i)
      × (get_elem? ts i ≡ some x.signed)
      × (x.block_number ≡ blk.header.round)
      × (x.block_hash ≡ blk.block_hash)
unfolding enumerate_txns
enumerate-elem blk start i [] x h = cc
enumerate-elem blk start zero (t ∷ ts) x h =
    let same : localized blk start t ≡ x = cc in
    (
      ap (λ x. x.transaction_index) (sym same) ∙ omega arith,
      ap (λ x. some x.signed) same,
      ap (λ x. x.block_number) (sym same),
      ap (λ x. x.block_hash) (sym same),
    )
enumerate-elem blk start (suc i) (t ∷ ts) x h =
    let (index, place, number, block) = enumerate-elem blk (suc start) i ts x h in
    (index ∙ omega arith, place, number, block)

-- What a block shows of its transactions: `ts` in order, numbered from zero, each with the block's own
-- number and hash.
unfoldable pub IsListing :
    BlockSnapshot → List UnverifiedTransaction → List LocalizedTransaction → Type 0
IsListing blk ts L =
    (map (λ x. x.hash) L ≡ map (λ t. t.hash) ts)
    × ((i : ℕ) (x : LocalizedTransaction)
        → get_elem? L i ≡ some x
        → (x.transaction_index ≡ i)
          × (get_elem? ts i ≡ some x.signed)
          × (x.block_number ≡ blk.header.round)
          × (x.block_hash ≡ blk.block_hash))

-- Where a block can be shown with its transactions, it can be shown with their hashes: the two differ
-- in the list of transactions only, and one has the hashes of the other's transactions, in order. The
-- transactions are the block's Ethereum transactions, in order and numbered from zero.
pub rich_block_modes :
    (keccak : ℕ) (info : List (String × String)) (c : Client) (k : Codec) (blk : BlockSnapshot)
    (b : RichBlock)
    → rich_block keccak info c k blk true ≡ ok b
    → (ts : List UnverifiedTransaction) × (L : List LocalizedTransaction) × (transactions c k blk
        ≡ ok ts)
      × (b.transactions ≡ full L)
      × IsListing blk ts L
      × (rich_block keccak info c k blk false
          ≡ ok (record b { transactions = tx_hashes (map (λ x. x.hash) L) }))
unfolding rich_block block_transactions IsListing block_of
rich_block_modes keccak info c k blk b h =
    let header = rich_header keccak info blk in
    let (ts, e, h1) =
      >>=-eq-ok (transactions c k blk)
        (λ ts. ok (block_of keccak info header (block_transactions blk true ts))) h in
    let L = enumerate_txns blk 0 ts in
    let same : block_of keccak info header (full L) ≡ b = cc in
    let titles = enumerate-hashes blk 0 ts in
    (
      ts,
      L,
      e,
      ap (λ b. b.transactions) (sym same),
      (
        titles,
        λ i x g.
            let (index, place, number, block) = enumerate-elem blk 0 i ts x g in
            (index ∙ omega arith, place, number, block),
      ),
      ap (λ r. r >>= λ txns. ok (block_of keccak info header (block_transactions blk false txns))) e
          ∙ (ap (λ hs. ok (block_of keccak info header (tx_hashes hs))) (sym titles)
              ∙ ap {A = RichBlock}
                  (λ b. ok (record b { transactions = tx_hashes (map (λ x. x.hash) L) })) same),
    )
