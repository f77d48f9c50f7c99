-- ===== src/Gateway/Eth/State.antt =====
-- gateway/src/translator.rs and gateway/src/impls/eth.rs: the state of a block, and the calls that ask it for
-- an account. The state is ethcore's and the tree behind a block oasis_core_client's, parameters.
pub mod Latest
use oasis_ethwasi_runtime.Prelude.{ℕ, List, [], Option, none, some, Outcome, ok, err, panic, ◌>>=◌}
use oasis_ethwasi_runtime.Prelude.Bytes.{Bytes}
use oasis_ethwasi_runtime.Gateway.Client.{BlockSnapshot, Error, Client}
use oasis_ethwasi_runtime.Gateway.Eth.{BlockNumber, at_block}

-- `MKVS` of a block's snapshot.
pub record SnapshotTree : Type 0 where
  pub get : BlockSnapshot → Bytes → Option Bytes
  pub insert : BlockSnapshot → Bytes → Bytes → BlockSnapshot × Option Bytes
  pub remove : BlockSnapshot → Bytes → BlockSnapshot × Option Bytes

pub record BlockSnapshotMkvs : Type 0 where
  pub snapshot : BlockSnapshot

module _ (t : SnapshotTree) where
  unfoldable pub snapshot_get : BlockSnapshotMkvs → Bytes → Option Bytes
  snapshot_get s key = t.get s.snapshot key

  unfoldable pub snapshot_insert :
      BlockSnapshotMkvs → Bytes → Bytes → BlockSnapshotMkvs × Option Bytes
  snapshot_insert s key value =
      let (snapshot, old) = t.insert s.snapshot key value in (record { snapshot = snapshot }, old)

  unfoldable pub snapshot_remove : BlockSnapshotMkvs → Bytes → BlockSnapshotMkvs × Option Bytes
  snapshot_remove s key =
      let (snapshot, old) = t.remove s.snapshot key in (record { snapshot = snapshot }, old)

-- A key-value store, as ethcore takes it.
pub record Mkvs (S : Type 0) : Type 0 where
  pub get : S → Bytes → Option Bytes
  pub insert : S → Bytes → Bytes → S × Option Bytes
  pub remove : S → Bytes → S × Option Bytes

abbrev pub block_mkvs : SnapshotTree → Mkvs BlockSnapshotMkvs
block_mkvs t = record {
  get = snapshot_get t;
  insert = snapshot_insert t;
  remove = snapshot_remove t;
}

-- `State`: made from a store and the nonce of a new account, and asked for what it knows of an account.
pub record EthState (State : Type 0) : Type 0 where
  pub from_existing : Mkvs BlockSnapshotMkvs → BlockSnapshotMkvs → ℕ → Outcome Error State
  pub balance : State → ℕ → Outcome Error ℕ
  pub nonce : State → ℕ → Outcome Error ℕ
  pub storage_at : State → ℕ → ℕ → Outcome Error ℕ
  pub code : State → ℕ → Outcome Error (Option Bytes)

-- `map_or_else(Bytes::default, ..)`.
abbrev pub code_or_empty : Option Bytes → Bytes
code_or_empty none = []
code_or_empty (some code) = code

module _ {State : Type 0} (e : EthState State) (t : SnapshotTree) where
  unfoldable pub block_state : BlockSnapshot → Outcome Error State
  block_state blk = e.from_existing (block_mkvs t) (record { snapshot = blk }) 0

  unfoldable pub balance : Client → ℕ → BlockNumber → Outcome Error ℕ
  unfolding block_state
  balance c address n = at_block block_state (λ state. e.balance state address) c n

  unfoldable pub storage_at : Client → ℕ → ℕ → BlockNumber → Outcome Error ℕ
  unfolding block_state
  storage_at c address pos n = at_block block_state (λ state. e.storage_at state address pos) c n

  unfoldable pub transaction_count : Client → ℕ → BlockNumber → Outcome Error ℕ
  unfolding block_state
  transaction_count c address n = at_block block_state (λ state. e.nonce state address) c n

  unfoldable pub code_at : Client → ℕ → BlockNumber → Outcome Error Bytes
  unfolding block_state
  code_at c address n =
      at_block block_state (λ state. e.code state address >>= λ code. ok (code_or_empty code)) c n
