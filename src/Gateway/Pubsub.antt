-- ===== src/Gateway/Pubsub.antt =====
-- gateway/src/pubsub.rs: the broker that polls for the latest block and notifies its listeners.
pub mod Gathered
pub mod Polls
pub mod Once
pub mod Bounds
use oasis_ethwasi_runtime.Prelude.{
  ℕ, ◌+◌, List, [], ◌∷◌, ◌++◌, Option, none, some, Bool, true, false, leb, if◌then◌else◌, map,
  Outcome, ok, err, panic,
}

-- A call `notify_blocks(from, to)` of the listener of that number.
pub record Notice : Type 0 where
  pub listener : ℕ
  pub from_block : ℕ
  pub to_block : ℕ

pub record Broker : Type 0 where
  pub last_notified_block : ℕ
  pub listeners : List ℕ

abbrev pub new_broker : Broker
new_broker = record { last_notified_block = 0; listeners = [] }

unfoldable pub add_listener : ℕ → Broker → Broker
add_listener l b = record b { listeners = b.listeners ++ (l ∷ []) }

-- `live` says whether a listener can still be upgraded from its weak reference.
pub notify_all : (ℕ → Bool) → List ℕ → ℕ → ℕ → List Notice
notify_all live [] from to = []
notify_all live (l ∷ ls) from to =
    let rest = notify_all live ls from to in
    if live l then record { listener = l; from_block = from; to_block = to } ∷ rest else rest

-- One poll, with the number of the latest block.
pub poll : (ℕ → Bool) → ℕ → Broker → Broker × List Notice
unfolding notify_all
poll live to b = if leb to b.last_notified_block then (b, []) else (
  record b { last_notified_block = to },
  notify_all live b.listeners (b.last_notified_block + 1) to,
)

-- The polls of the interval's ticks. A failed `get_latest_block` aborts the process: the Boolean says
-- whether that happened.
pub record Life : Type 0 where
  pub broker : Broker
  pub notices : List Notice
  pub aborted : Bool

pub start : {E : Type 0} → (ℕ → Bool) → List (Outcome E ℕ) → Broker → Life
unfolding poll
start live [] b = record { broker = b; notices = []; aborted = false }
start live (ok to ∷ polls) b =
    let (b', now) = poll live to b in
    let rest = start live polls b' in record rest { notices = now ++ rest.notices }
start live (err e ∷ polls) b = record { broker = b; notices = []; aborted = true }
start live (panic ∷ polls) b = record { broker = b; notices = []; aborted = true }
