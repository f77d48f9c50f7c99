-- ===== src/Gateway/Eth/State/Latest.antt =====
-- The account calls at the latest block (gateway/src/impls/eth.rs).
use oasis_ethwasi_runtime.Prelude.{ℕ, ◌≡◌, refl, subst, ◌⊎◌, inl, inr, some, Outcome, ok, ◌>>=◌}
use oasis_ethwasi_runtime.Gateway.Client.{BlockSnapshot, Error, Client}
use oasis_ethwasi_runtime.Gateway.Eth.{
  BlockNumber, num, latest, pending, at_block, block_number, block_number_to_id,
}
use oasis_ethwasi_runtime.Gateway.Eth.State.{
  SnapshotTree, EthState, block_state, balance, storage_at, transaction_count, code_at,
  code_or_empty,
}
use oasis_ethwasi_runtime.Gateway.Translator.{get_block, get_block_unwrap}

at_block_named :
    {State A : Type 0} (state : BlockSnapshot → Outcome Error State) (ask : State → Outcome Error A)
    (c : Client) (blk : BlockSnapshot) (n : ℕ) (b : BlockNumber)
    → c.get_latest_block ≡ ok blk
    → c.get_block n ≡ ok (some blk)
    → (b ≡ latest) ⊎ (b ≡ pending)
    → at_block state ask c b ≡ at_block state ask c (num n)
unfolding at_block block_number_to_id get_block_unwrap get_block
at_block_named state ask c blk n b found listed (inl e) = rw (e, found, listed) refl
at_block_named state ask c blk n b found listed (inr e) = rw (e, found, listed) refl

module _ {State : Type 0} (e : EthState State) (t : SnapshotTree) where
  -- Where the client finds the latest block under its number: what the four account calls say at the latest
  -- block, and at the pending one, is what they say at the number that `eth_blockNumber` returns.
  pub reads_at_latest :
      (c : Client) (blk : BlockSnapshot) (n address pos : ℕ) (b : BlockNumber)
      → c.get_latest_block ≡ ok blk
      → c.get_block blk.header.round ≡ ok (some blk)
      → block_number c ≡ ok n
      → (b ≡ latest) ⊎ (b ≡ pending)
      → (balance e t c address b ≡ balance e t c address (num n))
        × (storage_at e t c address pos b ≡ storage_at e t c address pos (num n))
        × (transaction_count e t c address b ≡ transaction_count e t c address (num n))
        × (code_at e t c address b ≡ code_at e t c address (num n))
  unfolding block_number balance storage_at transaction_count code_at
  reads_at_latest c blk n address pos b found listed called named =
      let returned : Path (Outcome Error ℕ) (ok blk.header.round) (ok n) = rw (found) at called in
      let same_number : blk.header.round ≡ n = cc in
      let listed' : c.get_block n ≡ ok (some blk) =
        subst (λ k. c.get_block k ≡ ok (some blk)) same_number listed in
      (
        at_block_named (block_state e t) (λ s. e.balance s address) c blk n b found listed' named,
        at_block_named (block_state e t) (λ s. e.storage_at s address pos) c blk n b found listed'
            named,
        at_block_named (block_state e t) (λ s. e.nonce s address) c blk n b found listed' named,
        at_block_named (block_state e t) (λ s. e.code s address >>= λ code. ok (code_or_empty code))
            c blk n b found listed' named,
      )
