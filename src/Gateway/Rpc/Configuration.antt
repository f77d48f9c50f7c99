-- ===== src/Gateway/Rpc/Configuration.antt =====
-- The configurations of the servers and the addresses they listen on (gateway/src/rpc.rs). A host's text
-- is what parsing it leaves.
use oasis_ethwasi_runtime.Prelude.{ℕ, List, [], ◌∷◌, ◌++◌, Option, none, some, Bool, true, false}
use oasis_ethwasi_runtime.Prelude.Bytes.{Bytes}
use oasis_ethwasi_runtime.Prelude.Texts.{codes}
use oasis_ethwasi_runtime.Prelude.Numbers.{digits}
use oasis_ethwasi_runtime.Gateway.RpcApis.{ApiSet, unsafe_context}

-- A port has five digits at most.
unfoldable pub url : Bytes → ℕ → Bytes
unfolding digits
url interface port = interface ++ (codes ":" ++ digits 5 port)

pub record HttpConfiguration : Type 0 where
  pub enabled : Bool
  pub interface : Bytes
  pub port : ℕ
  pub apis : ApiSet
  pub cors : Option (List Bytes)
  pub hosts : Option (List Bytes)
  pub server_threads : ℕ
  pub max_batch_size : ℕ

abbrev pub default_http : HttpConfiguration
default_http = record {
  enabled = true;
  interface = codes "127.0.0.1";
  port = 8545;
  apis = unsafe_context;
  cors = some [];
  hosts = some [];
  server_threads = 1;
  max_batch_size = 10;
}

pub record WsConfiguration : Type 0 where
  pub enabled : Bool
  pub interface : Bytes
  pub port : ℕ
  pub apis : ApiSet
  pub max_connections : ℕ
  pub origins : Option (List Bytes)
  pub hosts : Option (List Bytes)
  pub support_token_api : Bool
  pub dapps_address : Option Bytes
  pub max_batch_size : ℕ
  pub max_req_per_sec : ℕ

abbrev pub default_ws : WsConfiguration
default_ws = record {
  enabled = true;
  interface = codes "127.0.0.1";
  port = 8546;
  apis = unsafe_context;
  max_connections = 100;
  origins =
      some (codes "parity://*" ∷ codes "chrome-extension://*" ∷ codes "moz-extension://*" ∷ []);
  hosts = some [];
  support_token_api = true;
  dapps_address = some (codes "127.0.0.1:8545");
  max_batch_size = 10;
  max_req_per_sec = 50;
}

unfoldable pub address : (Bytes → Bytes) → Bool → Bytes → ℕ → Option (List Bytes) → Option Bytes
unfolding url
address host false bind_iface bind_port hosts = none
address host true bind_iface bind_port (some (h ∷ hs)) = some (host h)
address host true bind_iface bind_port (some []) = some (host (url bind_iface bind_port))
address host true bind_iface bind_port none = some (host (url bind_iface bind_port))
