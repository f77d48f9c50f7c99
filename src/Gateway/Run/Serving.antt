-- ===== src/Gateway/Run/Serving.antt =====
-- What the servers of a gateway that came up were started with (gateway/src/run.rs, gateway/src/rpc.rs).
use oasis_ethwasi_runtime.Prelude.{
  ℕ, ◌≡◌, refl, subst, Option, none, some, Outcome, ok, err, panic, ◌⊎◌, inl, inr, >>=-eq-ok,
}
use oasis_ethwasi_runtime.Prelude.Bytes.{Bytes}
use oasis_ethwasi_runtime.Prelude.Texts.{codes}
use oasis_ethwasi_runtime.Gateway.Translator.{new_translator}
use oasis_ethwasi_runtime.Gateway.Rpc.{
  Listeners, Servers, WsStart, HttpStart, new_ws, new_http, ws_at, http_at, started_ws,
  started_http,
}
use oasis_ethwasi_runtime.Gateway.Rpc.Configuration.{url}
use oasis_ethwasi_runtime.Gateway.Rpc.Hosts.{collect_hosts}
use oasis_ethwasi_runtime.Gateway.Run.{
  Options, ws_conf, http_conf, RunningGateway, start_second, start_servers, start_broker, execute,
}

module _ {Addr WsServer HttpServer : Type 0} (servers : Servers Addr WsServer HttpServer) where
  -- The WebSocket server listens where the options say, under their limits, for every origin and host.
  pub record ServesWs (o : Options) (found : Option WsServer) : Type 0 where
    pub server : WsServer
    pub start : WsStart Addr
    pub up : found ≡ some server
    pub started : servers.start_ws start ≡ inr server
    pub address : servers.parse_addr (url o.interface o.ws_port) ≡ some start.addr
    pub rate : start.max_req_per_sec ≡ o.ws_rate_limit
    pub batch : start.max_batch_size ≡ o.jsonrpc_max_batch_size
    pub connections : start.max_connections ≡ o.ws_max_connections
    pub origins : start.allowed_origins ≡ none
    pub hosts : start.allowed_hosts ≡ none

  pub record ServesHttp (o : Options) (found : Option HttpServer) : Type 0 where
    pub server : HttpServer
    pub start : HttpStart Addr
    pub up : found ≡ some server
    pub started : servers.start_http start ≡ inr server
    pub address : servers.parse_addr (url o.interface o.http_port) ≡ some start.addr
    pub batch : start.max_batch_size ≡ o.jsonrpc_max_batch_size
    pub threads : start.server_threads ≡ o.num_threads
    pub domains : start.cors_domains ≡ none
    pub hosts : start.allowed_hosts ≡ none

  ws_started :
      (at : Bytes) (r : Option Bytes ⊎ WsServer) (w : Option WsServer)
      → started_ws servers at r ≡ ok w
      → (server : WsServer) × (r ≡ inr server) × (w ≡ some server)
  unfolding started_ws
  ws_started at (inl e) w h = cc
  ws_started at (inr server) w h = (server, refl, cc)

  http_started :
      (id options at : Bytes) (r : Option Bytes ⊎ HttpServer) (w : Option HttpServer)
      → started_http servers id options at r ≡ ok w
      → (server : HttpServer) × (r ≡ inr server) × (w ≡ some server)
  unfolding started_http
  http_started id options at (inl e) w h = cc
  http_started id options at (inr server) w h = (server, refl, cc)

  ws-Serves :
      (o : Options) (s : Listeners) (a : Option Addr) (w : Option WsServer)
      → servers.parse_addr (url o.interface o.ws_port) ≡ a
      → (ws_at servers (ws_conf o) s a).1 ≡ ok w
      → ServesWs o w
  unfolding ws_at ws_conf collect_hosts
  ws-Serves o s none w e h = cc
  ws-Serves o s (some addr) w e h =
      let (server, started, up) = ws_started (url o.interface o.ws_port) _ w h in
      record {
        server = server;
        start = _;
        up = up;
        started = started;
        address = e;
        rate = refl;
        batch = refl;
        connections = refl;
        origins = refl;
        hosts = refl;
      }

  http-Serves :
      (o : Options) (s : Listeners) (a : Option Addr) (w : Option HttpServer)
      → servers.parse_addr (url o.interface o.http_port) ≡ a
      → (http_at servers (codes "HTTP JSON-RPC") (codes "jsonrpc") (http_conf o) s a).1 ≡ ok w
      → ServesHttp o w
  unfolding http_at http_conf collect_hosts
  http-Serves o s none w e h = cc
  http-Serves o s (some addr) w e h =
      let (server, started, up) =
        http_started (codes "HTTP JSON-RPC") (codes "jsonrpc") (url o.interface o.http_port) _ w
          h in
      record {
        server = server;
        start = _;
        up = up;
        started = started;
        address = e;
        batch = refl;
        threads = refl;
        domains = refl;
        hosts = refl;
      }

  -- What is served.
  pub record Serves (o : Options) (gw : RunningGateway WsServer HttpServer) : Type 0 where
    pub ws : ServesWs o gw.ws_server
    pub http : ServesHttp o gw.http_server
    pub price : gw.translator ≡ new_translator o.gas_price

  second-Serves :
      (o : Options) (s : Listeners) (ws : Outcome Bytes (Option WsServer))
      (gw : RunningGateway WsServer HttpServer)
      → ((w : Option WsServer) → ws ≡ ok w → ServesWs o w)
      → (start_second servers o s ws).1 ≡ ok gw
      → Serves o gw
  unfolding start_second new_http http_conf
  second-Serves o s (err e) gw first h = cc
  second-Serves o s panic gw first h = cc
  second-Serves o s (ok w) gw first h =
      let conf = http_conf o in
      let a = servers.parse_addr (url conf.interface conf.port) in
      let (http, listening, made) =
        >>=-eq-ok (http_at servers (codes "HTTP JSON-RPC") (codes "jsonrpc") conf s a).1 _ h in
      let both : record {
        translator = new_translator o.gas_price;
        http_server = http;
        ws_server = w;
      }
          ≡ gw =
        cc in
      subst (Serves o) both
        (record { ws = first w refl; http = http-Serves o s a http refl listening; price = refl })

  servers-Serves :
      (o : Options) (s : Listeners) (gw : RunningGateway WsServer HttpServer)
      → (start_servers servers o s).1 ≡ ok gw
      → Serves o gw
  unfolding start_servers new_ws ws_conf
  servers-Serves o s gw h =
      second-Serves o _ _ gw
        (λ w. ws-Serves o s (servers.parse_addr (url o.interface o.ws_port)) w refl) h

  broker-Serves :
      (timer : Outcome Bytes (Unit {0})) (o : Options) (s : Listeners)
      (gw : RunningGateway WsServer HttpServer)
      → (start_broker servers timer o s).1 ≡ ok gw
      → Serves o gw
  unfolding start_broker
  broker-Serves (err e) o s gw h = cc
  broker-Serves panic o s gw h = cc
  broker-Serves (ok u) o s gw h = servers-Serves o s gw h

  pub execute-Serves :
      (new_interval : ℕ → Outcome Bytes (Unit {0})) (sync : Outcome Bytes (Unit {0})) (o : Options)
      (s : Listeners) (gw : RunningGateway WsServer HttpServer)
      → (execute servers new_interval sync o s).1 ≡ ok gw
      → Serves o gw
  unfolding execute
  execute-Serves new_interval (err e) o s gw h = cc
  execute-Serves new_interval panic o s gw h = cc
  execute-Serves new_interval (ok u) o s gw h =
      broker-Serves (new_interval o.pubsub_interval_secs) o s gw h
