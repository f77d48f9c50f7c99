-- ===== src/Gateway/Run/Tests.antt =====
-- A translator that goes away after some time, and a start-up with servers that always come up.
use oasis_ethwasi_runtime.Prelude.{
  ◌==◌, if◌then◌else◌, ℕ, suc, ◌+◌, ◌*◌, ◌≤◌, ◌≡◌, ◌⊎◌, refl, arith, List, [], ◌∷◌, some, is_some,
  Bool, true, leb, Outcome, ok,
}
use oasis_ethwasi_runtime.Prelude.Bytes.{Bytes}
use oasis_ethwasi_runtime.Gateway.Pubsub.{start}
use oasis_ethwasi_runtime.Gateway.Pubsub.Once.{Heard, newest}
use oasis_ethwasi_runtime.Gateway.Rpc.{new_ws, new_http, ws_at, http_at, started_ws, started_http}
use oasis_ethwasi_runtime.Gateway.Run.{
  sleep_duration, Exit, Holders, shutdown, execute, start_servers, start_broker, start_second,
  ws_conf, http_conf,
}
use oasis_ethwasi_runtime.Gateway.Run.Example.{servers, options, some_interval, before, gateway}
use oasis_ethwasi_runtime.Gateway.Run.Shutdown.{EndsWith}
use oasis_ethwasi_runtime.Gateway.Run.Release.{shutdown-Ends}
use oasis_ethwasi_runtime.Gateway.Run.Startup.{execute-Hears}

abbrev reading : ℕ → ℕ
reading k = k * 1500000000

reads : (k : ℕ) → reading k + sleep_duration ≤ reading (suc k)
reads k = omega arith

abbrev parts : Holders
parts = record { runtime = 2; http_server = 4; ws_server = 5; translator = 1; km_client = 0 }

-- A task that ends in round 50.
abbrev tasks : ℕ → ℕ
tasks k = if leb 50 k then 0 else 1

shutdown-Ends_example :
    (e : Exit) × (n : ℕ) × (shutdown reading reading tasks parts 301 ≡ some (e, n))
    × EndsWith reading reading (λ k. tasks k == 0) 301 0 1 e n
shutdown-Ends_example = shutdown-Ends reading reading tasks parts reads

execute-Hears_example :
    let b = (execute servers some_interval (ok tt) options before).0.broker in
    (is_some gateway.ws_server ≡ true)
    × (is_some gateway.http_server ≡ true)
    × (b.listeners ≡ 0 ∷ 1 ∷ [])
    × (b.last_notified_block ≡ 0)
    × ((l : ℕ) (live : ℕ → Bool) (polls : List (Outcome Bytes ℕ))
        → (l ≡ 0) ⊎ (l ≡ 1)
        → live l ≡ true
        → Heard l b (start live polls b).notices (start live polls b).broker
          × ((start live polls b).broker.last_notified_block ≡ newest polls b.last_notified_block))
unfolding execute start_broker start_servers start_second new_ws new_http ws_at http_at started_ws
    started_http ws_conf http_conf
execute-Hears_example = execute-Hears servers some_interval (ok tt) options before gateway refl refl
