-- ===== src/Gateway/Middleware.antt =====
-- gateway/src/middleware.rs: the limits on batch sizes and on the request rate of a WebSocket session.
-- The metrics and the log are left out; what the notifier does when a request comes is its `active`.
pub mod Limits
mod Tests
mod UnitTests
use oasis_ethwasi_runtime.Prelude.{
  ℕ, List, Option, none, some, String, Bool, ltb, if◌then◌else◌, length, map,
}
use oasis_ethwasi_runtime.Gateway.Informant.{
  Sessions, count_request, open_session, close_session, sessions_count,
}

-- An i64: `negsuc n` is `-(n + 1)`.
pub data ℤ : Type 0 where
  pos negsuc : ℕ → ℤ

abbrev pub error_batch_size_code : ℤ
error_batch_size_code = negsuc 32098

abbrev pub error_rate_limited_code : ℤ
error_rate_limited_code = negsuc 32097

-- jsonrpc_core's types, so far as they are used.
pub data CallId : Type 0 where
  null_id : CallId
  num_id : ℕ → CallId
  text_id : String → CallId

pub data Version : Type 0 where
  v2 : Version

pub record Error : Type 0 where
  pub code : ℤ
  pub message : String

pub data Call : Type 0 where
  method_call : CallId → Option Version → String → Call
  notification : Option Version → String → Call
  invalid : CallId → Call

pub data Request : Type 0 where
  single : Call → Request
  batch : List Call → Request

-- `success` is the text of a result.
pub data Output : Type 0 where
  failure : Error → CallId → Option Version → Output
  success : String → CallId → Option Version → Output

pub data Response : Type 0 where
  single_response : Output → Response
  batch_response : List Output → Response

abbrev pub error_batch_size : Error
error_batch_size = record {
  code = error_batch_size_code;
  message = "Too many JSON-RPC requests in batch";
}

abbrev pub error_rate_limited : Error
error_rate_limited = record { code = error_rate_limited_code; message = "Too many requests" }

pub generate_error_response_call : Error → Call → Output
generate_error_response_call e (method_call id version method) = failure e id version
generate_error_response_call e (notification version method) = failure e null_id version
generate_error_response_call e (invalid id) = failure e id none

pub generate_error_response_calls : Error → List Call → List Output
unfolding generate_error_response_call
generate_error_response_calls e calls = map (generate_error_response_call e) calls

pub generate_error_response : Error → Request → Response
unfolding generate_error_response_calls
generate_error_response e (single call) = single_response (generate_error_response_call e call)
generate_error_response e (batch calls) = batch_response (generate_error_response_calls e calls)

-- A request is answered at once (`Either::A`) or passed on (`Either::B`).
pub data Answer (X : Type 0) : Type 0 where
  answered : Response → Answer X
  passed : X → Answer X

pub record Middleware : Type 0 where
  pub max_batch_size : ℕ

-- The notifier has a state of its own, which `active` moves.
module _ {Notifier Meta X : Type 0} (active : Notifier → Notifier)
    (process : Request → Meta → X) where
  pub on_batch : Middleware → Meta → List Call → Answer X
  unfolding generate_error_response_calls
  on_batch m meta calls =
      if ltb m.max_batch_size (length calls)
      then answered (batch_response (generate_error_response_calls error_batch_size calls))
      else passed (process (batch calls) meta)

  pub on_request : Middleware → Notifier → Request → Meta → Notifier × Answer X
  unfolding on_batch
  on_request m notifier (single call) meta = (active notifier, passed (process (single call) meta))
  on_request m notifier (batch calls) meta = (active notifier, on_batch m meta calls)

-- `ws_origin` has the session's id.
pub data Origin : Type 0 where
  ws_origin : ℕ → Origin
  other_origin : Origin

pub record WsDispatcher : Type 0 where
  pub max_req_per_sec : ℕ

-- The state is the session table of the shared statistics; the clock's readings are arguments.
module _ {X : Type 0} (process : Request → Origin → X) where
  pub limit_rate : WsDispatcher → Request → Origin → ℕ → Answer X
  limit_rate d request origin count =
      if ltb d.max_req_per_sec count
      then answered (generate_error_response error_rate_limited request)
      else passed (process request origin)

  pub ws_on_request : WsDispatcher → ℕ → ℕ → ℕ → Sessions → Request → Origin → Sessions × Answer X
  unfolding limit_rate generate_error_response
  ws_on_request d first second third stats request (ws_origin session) =
      let (stats', count) = count_request first second third session stats in
      (stats', limit_rate d request (ws_origin session) count)
  ws_on_request d first second third stats request other_origin =
      (stats, passed (process request other_origin))

-- The gauge of open sessions is set to the table's size after each change.
pub ws_open_session : ℕ → ℕ → Sessions → Sessions × ℕ
ws_open_session now id stats =
    let stats' = open_session now id stats in (stats', sessions_count stats')

pub ws_close_session : ℕ → Sessions → Sessions × ℕ
ws_close_session id stats = let stats' = close_session id stats in (stats', sessions_count stats')
