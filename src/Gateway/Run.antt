-- ===== src/Gateway/Run.antt =====
-- gateway/src/run.rs: the start-up of the gateway, and its wait for the translator when it shuts down.
-- Times are nanoseconds. The servers, the timer and the Oasis client are other libraries', parameters.
pub mod Shutdown
pub mod Release
pub mod Example
pub mod Serving
pub mod Startup
mod Tests
use oasis_ethwasi_runtime.Prelude.{
  ℕ, zero, suc, ◌+◌, ◌*◌, Option, none, some, Bool, true, false, not, ◌&&◌, ltb, if◌then◌else◌,
  Outcome, ok, err, panic, ◌>>=◌, ◌⊎◌, ◌==◌,
}
use oasis_ethwasi_runtime.Prelude.Bytes.{Bytes}
use oasis_ethwasi_runtime.Prelude.Texts.{codes}
use oasis_ethwasi_runtime.Gateway.Translator.{Translator, new_translator}
use oasis_ethwasi_runtime.Gateway.Rpc.{Listeners, Servers, new_ws, new_http}
use oasis_ethwasi_runtime.Gateway.Rpc.Configuration.{
  WsConfiguration, HttpConfiguration, default_ws, default_http,
}

abbrev pub sleep_duration : ℕ
sleep_duration = 1000000000

abbrev pub warn_timeout : ℕ
warn_timeout = 60000000000

abbrev pub max_timeout : ℕ
max_timeout = 300000000000

-- How the wait ends: the translator was dropped, or the time was up.
pub data Exit : Type 0 where
  clean unclean : Exit

abbrev pub counted : Bool → Option (Exit × ℕ) → Option (Exit × ℕ)
counted warns none = none
counted warns (some (e, n)) = some (e, if warns then suc n else n)

-- In the `k`-th round the clock reads `elapsed k` at the head of the loop and `later k` at the test for
-- the warning, and `dropped k` says whether the translator has gone. The result has the number of
-- warnings that it takes long; none is a loop that goes on.
module _ (elapsed later : ℕ → ℕ) (dropped : ℕ → Bool) where
  unfoldable pub wait_from : ℕ → ℕ → Bool → Option (Exit × ℕ)
  wait_from zero k warned = none
  wait_from (suc fuel) k warned =
      let warns = not warned && ltb warn_timeout (later k) in
      let rest = wait_from fuel (suc k) (if warns then true else warned) in
      if ltb (elapsed k) max_timeout
      then (if dropped k then some (clean, 0) else counted warns rest)
      else some (unclean, 0)

  unfoldable pub wait_for_drop : ℕ → Option (Exit × ℕ)
  unfolding wait_from
  wait_for_drop fuel = wait_from fuel 0 false

-- The arguments of `execute` beside the clients.
pub record Options : Type 0 where
  pub pubsub_interval_secs : ℕ
  pub interface : Bytes
  pub http_port : ℕ
  pub num_threads : ℕ
  pub ws_port : ℕ
  pub ws_max_connections : ℕ
  pub ws_rate_limit : ℕ
  pub gas_price : ℕ
  pub jsonrpc_max_batch_size : ℕ

unfoldable pub ws_conf : Options → WsConfiguration
ws_conf o = record default_ws {
  origins = none;
  hosts = none;
  interface = o.interface;
  port = o.ws_port;
  max_batch_size = o.jsonrpc_max_batch_size;
  max_req_per_sec = o.ws_rate_limit;
  max_connections = o.ws_max_connections;
}

unfoldable pub http_conf : Options → HttpConfiguration
http_conf o = record default_http {
  cors = none;
  hosts = none;
  interface = o.interface;
  port = o.http_port;
  server_threads = o.num_threads;
  max_batch_size = o.jsonrpc_max_batch_size;
}

pub record RunningGateway (WsServer HttpServer : Type 0) : Type 0 where
  pub translator : Translator
  pub http_server : Option HttpServer
  pub ws_server : Option WsServer

module _ {Addr WsServer HttpServer : Type 0} (servers : Servers Addr WsServer HttpServer) where
  -- What follows the start of the WebSocket server.
  unfoldable pub start_second :
      Options
      → Listeners
      → Outcome Bytes (Option WsServer)
      → Listeners × Outcome Bytes (RunningGateway WsServer HttpServer)
  unfolding http_conf new_http
  start_second o s (err e) = (s, err e)
  start_second o s panic = (s, panic)
  start_second o s (ok ws_server) =
      let (s', http) = new_http servers (codes "HTTP JSON-RPC") (codes "jsonrpc") (http_conf o) s in
      (
        s',
        http >>= λ h. ok (record {
          translator = new_translator o.gas_price;
          http_server = h;
          ws_server = ws_server;
        }),
      )

  unfoldable pub start_servers :
      Options → Listeners → Listeners × Outcome Bytes (RunningGateway WsServer HttpServer)
  unfolding ws_conf new_ws start_second
  start_servers o s = let (s', ws) = new_ws servers (ws_conf o) s in start_second o s' ws

  -- The timer of the broker, which is made when the broker is started.
  unfoldable pub start_broker :
      Outcome Bytes (Unit {0})
      → Options
      → Listeners
      → Listeners × Outcome Bytes (RunningGateway WsServer HttpServer)
  unfolding start_servers
  start_broker (err e) o s = (s, err e)
  start_broker panic o s = (s, panic)
  start_broker (ok u) o s = start_servers o s

  -- The first argument is what the waiting for the node returns, and `s` the broker that is started after
  -- it, as no poll has changed it before the servers are there. `Interval::new_interval` of some seconds
  -- may panic.
  unfoldable pub execute :
      (ℕ → Outcome Bytes (Unit {0}))
      → Outcome Bytes (Unit {0})
      → Options
      → Listeners
      → Listeners × Outcome Bytes (RunningGateway WsServer HttpServer)
  unfolding start_broker
  execute new_interval (err e) o s = (s, err e)
  execute new_interval panic o s = (s, panic)
  execute new_interval (ok u) o s = start_broker (new_interval o.pubsub_interval_secs) o s

-- How many strong references to the translator the parts of a gateway hold, and the variable itself.
pub record Holders : Type 0 where
  pub runtime : ℕ
  pub http_server : ℕ
  pub ws_server : ℕ
  pub translator : ℕ
  pub km_client : ℕ

-- A part that is dropped holds none. `shutdown_now` drops the runtime.
abbrev pub drop_all : Holders → Holders
drop_all h =
    let h1 = record h { runtime = 0 } in
    let h2 = record h1 { http_server = 0 } in
    let h3 = record h2 { ws_server = 0 } in
    let h4 = record h3 { translator = 0 } in record h4 { km_client = 0 }

abbrev pub strong_count : Holders → ℕ → ℕ
strong_count h others =
    h.runtime + (h.http_server + (h.ws_server + (h.translator + (h.km_client + others))))

-- `others k` counts the references that tasks which still run hold in the `k`-th round of the wait.
unfoldable pub shutdown : (ℕ → ℕ) → (ℕ → ℕ) → (ℕ → ℕ) → Holders → ℕ → Option (Exit × ℕ)
unfolding wait_for_drop
shutdown elapsed later others parts fuel =
    wait_for_drop elapsed later (λ k. strong_count (drop_all parts) (others k) == 0) fuel
