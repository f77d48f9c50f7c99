-- ===== src/Gateway/Rpc.antt =====
-- gateway/src/rpc.rs: the configurations of the servers and how they are started. A text is its bytes.
-- The servers, socket addresses and hosts are other libraries', parameters; a list of domains is none
-- where any domain is allowed.
pub mod Configuration
pub mod Hosts
mod UnitTests
use oasis_ethwasi_runtime.Prelude.{
  ℕ, zero, suc, ◌+◌, ◌-◌, ◌/◌, ◌%◌, List, [], ◌∷◌, ◌++◌, Option, none, some, Bool, true, false, ltb,
  if◌then◌else◌, ◌||◌, length, take, Outcome, ok, err, panic, ◌>>=◌, ◌⊎◌, inl, inr, map, ok_or,
}
use oasis_ethwasi_runtime.Prelude.Bytes.{Bytes}
use oasis_ethwasi_runtime.Prelude.Texts.{codes, same}
use oasis_ethwasi_runtime.Gateway.Pubsub.{Broker}
use oasis_ethwasi_runtime.Gateway.RpcApis.{
  ApiSet, unsafe_context, list_apis, Delegate, Endpoints, extend_with_set,
}
use oasis_ethwasi_runtime.Gateway.Rpc.Configuration.{HttpConfiguration, WsConfiguration, url}
use oasis_ethwasi_runtime.Gateway.Rpc.Hosts.{collect_hosts}

-- The broker, and the number of the next listener.
pub record Listeners : Type 0 where
  pub broker : Broker
  pub fresh : ℕ

-- What a server is started with.
pub record WsStart (Addr : Type 0) : Type 0 where
  pub addr : Addr
  pub delegates : List Delegate
  pub max_req_per_sec : ℕ
  pub max_batch_size : ℕ
  pub allowed_origins : Option (List Bytes)
  pub allowed_hosts : Option (List Bytes)
  pub max_connections : ℕ

pub record HttpStart (Addr : Type 0) : Type 0 where
  pub addr : Addr
  pub delegates : List Delegate
  pub max_batch_size : ℕ
  pub cors_domains : Option (List Bytes)
  pub allowed_hosts : Option (List Bytes)
  pub server_threads : ℕ

-- The servers' libraries. An error is that the address is in use, or has a text of its own. A host's
-- text is what parsing it leaves.
pub record Servers (Addr WsServer HttpServer : Type 0) : Type 0 where
  pub parse_addr : Bytes → Option Addr
  pub host : Bytes → Bytes
  pub start_ws : WsStart Addr → Option Bytes ⊎ WsServer
  pub start_http : HttpStart Addr → Option Bytes ⊎ HttpServer

unfoldable pub setup_apis : ApiSet → Listeners → Listeners × List Delegate
unfolding extend_with_set list_apis
setup_apis apis s =
    let e =
      extend_with_set (list_apis apis)
        (record { delegates = []; broker = s.broker; fresh = s.fresh }) in
    (record { broker = e.broker; fresh = e.fresh }, e.delegates)

module _ {Addr WsServer HttpServer : Type 0} (servers : Servers Addr WsServer HttpServer) where
  unfoldable pub ws_error : Bytes → Option Bytes → Bytes
  ws_error url none =
      codes "WebSockets address "
      ++ (url
          ++ codes
              " is already in use, make sure that another instance of an Ethereum client is not running or change the address using the --ws-port and --ws-interface options.")
  ws_error url (some text) = codes "WebSockets error: " ++ text

  unfoldable pub started_ws : Bytes → Option Bytes ⊎ WsServer → Outcome Bytes (Option WsServer)
  started_ws url (inl e) = err (ws_error url e)
  started_ws url (inr server) = ok (some server)

  -- What follows the parsing of the address.
  unfoldable pub ws_at :
      WsConfiguration → Listeners → Option Addr → Listeners × Outcome Bytes (Option WsServer)
  unfolding url collect_hosts setup_apis started_ws
  ws_at conf s none =
      (s, err (codes "Invalid WebSockets listen host/port given: " ++ url conf.interface conf.port))
  ws_at conf s (some addr) =
      let at = url conf.interface conf.port in
      let (s', delegates) = setup_apis conf.apis s in
      (
        s',
        started_ws at (
            servers.start_ws (record {
              addr = addr;
              delegates = delegates;
              max_req_per_sec = conf.max_req_per_sec;
              max_batch_size = conf.max_batch_size;
              allowed_origins = collect_hosts conf.origins conf.dapps_address;
              allowed_hosts = collect_hosts conf.hosts (some (servers.host at));
              max_connections = conf.max_connections;
            })),
      )

  unfoldable pub new_ws : WsConfiguration → Listeners → Listeners × Outcome Bytes (Option WsServer)
  unfolding url ws_at
  new_ws conf s =
      if conf.enabled
      then ws_at conf s (servers.parse_addr (url conf.interface conf.port))
      else (s, ok none)

  unfoldable pub http_error : Bytes → Bytes → Bytes → Option Bytes → Bytes
  http_error id options url none =
      id
      ++ (codes " address "
          ++ (url
              ++ (codes
                    " is already in use, make sure that another instance of an Ethereum client is not running or change the address using the --"
                  ++ (options
                      ++ (codes "-port and --" ++ (options ++ codes "-interface options."))))))
  http_error id options url (some text) = id ++ (codes " error: " ++ text)

  unfoldable pub started_http :
      Bytes → Bytes → Bytes → Option Bytes ⊎ HttpServer → Outcome Bytes (Option HttpServer)
  started_http id options url (inl e) = err (http_error id options url e)
  started_http id options url (inr server) = ok (some server)

  -- What follows the parsing of the address.
  unfoldable pub http_at :
      Bytes
      → Bytes
      → HttpConfiguration
      → Listeners
      → Option Addr
      → Listeners × Outcome Bytes (Option HttpServer)
  unfolding url collect_hosts setup_apis started_http
  http_at id options conf s none = (
    s,
    err (
        codes "Invalid "
        ++ (id ++ (codes " listen host/port given: " ++ url conf.interface conf.port))),
  )
  http_at id options conf s (some addr) =
      let at = url conf.interface conf.port in
      let (s', delegates) = setup_apis conf.apis s in
      (
        s',
        started_http id options at (
            servers.start_http (record {
              addr = addr;
              delegates = delegates;
              max_batch_size = conf.max_batch_size;
              cors_domains = conf.cors;
              allowed_hosts = collect_hosts conf.hosts (some (servers.host at));
              server_threads = conf.server_threads;
            })),
      )

  unfoldable pub new_http :
      Bytes → Bytes → HttpConfiguration → Listeners → Listeners × Outcome Bytes (Option HttpServer)
  unfolding url http_at
  new_http id options conf s =
      if conf.enabled
      then http_at id options conf s (servers.parse_addr (url conf.interface conf.port))
      else (s, ok none)
