-- ===== src/Gateway/Main/Panics.antt =====
-- When the gateway's process panics (gateway/bin/main.rs, gateway/src/lib.rs, gateway/src/run.rs).
use Prim.Native.String.{String}
use oasis_ethwasi_runtime.Prelude.{ℕ, ◌<◌, ◌≤◌, ◌≡◌, ◌≢◌, some, ok, panic, ◌⊎◌}
use oasis_ethwasi_runtime.Prelude.Bytes.{Bytes}
use oasis_ethwasi_runtime.Prelude.Options.{Matches, value_t}
use oasis_ethwasi_runtime.Gateway.Rpc.{Listeners}
use oasis_ethwasi_runtime.Gateway.Run.{Options}
use oasis_ethwasi_runtime.Gateway.Main.{World}

-- tokio's timer panics for an interval of zero, and for one that ends later than the last instant of the
-- clock, which is `room` seconds away; waiting for the node and for a signal returns.
pub record IsDocumented {Namespace Socket Addr WsServer HttpServer : Type 0}
    (w : World Namespace Socket Addr WsServer HttpServer) (room : ℕ) : Type 0 where
  pub interval_zero : w.new_interval 0 ≡ panic
  pub interval_within : (secs : ℕ) → 0 < secs → secs ≤ room → w.new_interval secs ≡ ok tt
  pub interval_beyond : (secs : ℕ) → room < secs → w.new_interval secs ≡ panic
  pub sync_returns : (node : Bytes) (runtime : Namespace) → w.wait_sync node runtime ≢ panic
  pub signal_returns : w.wait_signal ≢ panic

module _ {Namespace Socket Addr WsServer HttpServer : Type 0}
    (w : World Namespace Socket Addr WsServer HttpServer) (room : ℕ) (laws : IsDocumented w room)
    (m : Matches) (s : Listeners) where
  -- No interval that the timer takes.
  abbrev pub Refused : ℕ → Type 0
  Refused secs = (secs ≡ 0) ⊎ (room < secs)

  -- The node was found and is in step, and the timer takes no such interval.
  abbrev Strikes : Options → Type 0
  Strikes o =
      (node : Bytes) × (runtime : Namespace) × (m.value_of "node-address" ≡ some node)
      × (value_t w.parse_namespace m "runtime-id" ≡ ok runtime)
      × (w.wait_sync node runtime ≡ ok tt)
      × Refused o.pubsub_interval_secs
