-- ===== src/Gateway/EthFilter.antt =====
-- gateway/src/impls/eth_filter.rs: filters that a client polls. The table of filters is parity_rpc's
-- poll manager, a parameter; so are the conversion of RPC filters and the cut of the logs to a limit.
-- The conversion of a log to its RPC form is left out.
pub mod Changes
mod Tests
use oasis_ethwasi_runtime.Prelude.{
  ℕ, zero, suc, ◌+◌, ◌-◌, ◌≡◌, List, [], ◌∷◌, Option, none, some, Bool, Outcome, ok, err, panic,
  ◌>>=◌, ok_or,
}
use oasis_ethwasi_runtime.Gateway.Client.{
  BlockSnapshot, Filter, number_id, latest, Error, block_not_found, filter_not_found, Client, Codec,
}
use oasis_ethwasi_runtime.Gateway.Translator.{LocalizedLogEntry}
use oasis_ethwasi_runtime.Gateway.Translator.Logs.{logs}

-- The set of hashes that `PollFilter::Logs` has is always empty, and left out.
pub data PollFilter (RpcFilter : Type 0) : Type 0 where
  block_filter : ℕ → PollFilter RpcFilter
  pending_filter : PollFilter RpcFilter
  logs_filter : ℕ → RpcFilter → PollFilter RpcFilter

-- A lookup may drop filters that have expired, so it returns the table too. `store` is the write
-- through the reference of `poll_mut`.
pub record PollManager (RpcFilter Polls : Type 0) : Type 0 where
  pub create_poll : PollFilter RpcFilter → Polls → Polls × ℕ
  pub poll : ℕ → Polls → Polls × Option (PollFilter RpcFilter)
  pub store : ℕ → PollFilter RpcFilter → Polls → Polls
  pub remove_poll : ℕ → Polls → Polls × Bool

-- What is found and written is found again.
pub record PollLaws {RpcFilter Polls : Type 0} (m : PollManager RpcFilter Polls) : Type 0 where
  pub poll-store :
      (id : ℕ) (f g : PollFilter RpcFilter) (p : Polls)
      → (m.poll id p).1 ≡ some g
      → (m.poll id (m.store id f (m.poll id p).0)).1 ≡ some f

pub data FilterChanges : Type 0 where
  hashes : List ℕ → FilterChanges
  log_changes : List LocalizedLogEntry → FilterChanges

-- `n` blocks from `round` on, fetched one after the other.
pub fetch_hashes : Client → ℕ → ℕ → Outcome Error (List ℕ)
fetch_hashes c round zero = ok []
fetch_hashes c round (suc n) =
    let rest = fetch_hashes c (round + 1) n in
    c.get_block round >>= λ blk.
    ok_or blk block_not_found >>= λ b. rest >>= λ hs. ok (b.block_hash ∷ hs)

module _ {RpcFilter Polls : Type 0} (m : PollManager RpcFilter Polls) (k : Codec)
    (into_filter : RpcFilter → Filter)
    (limit_logs : List LocalizedLogEntry → Option ℕ → List LocalizedLogEntry) where
  pub new_filter : Client → RpcFilter → Polls → Polls × Outcome Error ℕ
  new_filter c f p = created c.get_latest_block
    where
      created : Outcome Error BlockSnapshot → Polls × Outcome Error ℕ
      created (ok blk) =
          let (p', id) = m.create_poll (logs_filter blk.header.round f) p in (p', ok id)
      created (err e) = (p, err e)
      created panic = (p, panic)

  pub new_block_filter : Client → Polls → Polls × Outcome Error ℕ
  new_block_filter c p = created c.get_latest_block
    where
      created : Outcome Error BlockSnapshot → Polls × Outcome Error ℕ
      created (ok blk) =
          let (p', id) = m.create_poll (block_filter (blk.header.round + 1)) p in (p', ok id)
      created (err e) = (p, err e)
      created panic = (p, panic)

  pub new_pending_transaction_filter : Polls → Polls × ℕ
  new_pending_transaction_filter p = m.create_poll pending_filter p

  pub limited_logs : Client → Filter → Outcome Error (List LocalizedLogEntry)
  limited_logs c f = logs c k f >>= λ ls. ok (limit_logs ls f.limit)

  -- The chain `c` answers the searches.
  pub changes_of :
      Client
      → ℕ
      → BlockSnapshot
      → Polls × Option (PollFilter RpcFilter)
      → Polls × Outcome Error FilterChanges
  unfolding fetch_hashes limited_logs
  changes_of c id blk (p, none) = (p, err filter_not_found)
  changes_of c id blk (p, some (block_filter number)) = (
    m.store id (block_filter blk.header.round) p,
    fetch_hashes c number (blk.header.round + 1 - number) >>= λ hs. ok (hashes hs),
  )
  changes_of c id blk (p, some pending_filter) = (p, ok (hashes []))
  changes_of c id blk (p, some (logs_filter number f)) = (
    m.store id (logs_filter (blk.header.round + 1) f) p,
    limited_logs c (record (into_filter f) { from_block = number_id number; to_block = latest })
        >>= λ ls. ok (log_changes ls),
  )

  -- The chain that is asked for its latest block is `c`; it may have grown to `c'` when the searches
  -- are made.
  pub filter_changes : Client → Client → ℕ → Polls → Polls × Outcome Error FilterChanges
  unfolding changes_of
  filter_changes c c' id p = on_latest c.get_latest_block
    where
      on_latest : Outcome Error BlockSnapshot → Polls × Outcome Error FilterChanges
      on_latest (ok blk) = changes_of c' id blk (m.poll id p)
      on_latest (err e) = (p, err e)
      on_latest panic = (p, panic)

  pub filter_logs : Client → ℕ → Polls → Polls × Outcome Error (List LocalizedLogEntry)
  unfolding limited_logs
  filter_logs c id p = found (m.poll id p)
    where
      found : Polls × Option (PollFilter RpcFilter) → Polls × Outcome Error (List LocalizedLogEntry)
      found (p', none) = (p', err filter_not_found)
      found (p', some (logs_filter number f)) = (p', limited_logs c (into_filter f))
      found (p', some (block_filter number)) = (p', ok [])
      found (p', some pending_filter) = (p', ok [])

  pub uninstall_filter : ℕ → Polls → Polls × Bool
  uninstall_filter id p = m.remove_poll id p
