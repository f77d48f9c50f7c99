-- ===== src/Gateway/Servers.antt =====
-- gateway/src/servers.rs: what the HTTP server does with a request before the RPC handler sees it. The
-- servers are jsonrpc's, and their settings are those of Gateway/Rpc.antt.
use oasis_ethwasi_runtime.Prelude.{[], if◌then◌else◌}
use oasis_ethwasi_runtime.Prelude.Bytes.{Bytes}
use oasis_ethwasi_runtime.Prelude.Texts.{codes, same}

pub record HttpRequest : Type 0 where
  pub uri : Bytes
  pub body : Bytes

-- A request is answered with this body and status 200, or goes on to the handler.
pub data RequestMiddlewareAction : Type 0 where
  terminate : Bytes → RequestMiddlewareAction
  proceed : HttpRequest → RequestMiddlewareAction

unfoldable pub status_middleware : HttpRequest → RequestMiddlewareAction
status_middleware request =
    if same request.uri (codes "/status") then terminate [] else proceed request
