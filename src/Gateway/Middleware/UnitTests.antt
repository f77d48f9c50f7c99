-- ===== src/Gateway/Middleware/UnitTests.antt =====
-- The unit tests of gateway/src/middleware.rs, each as what it asserts.
use oasis_ethwasi_runtime.Prelude.{ℕ, ◌≡◌, refl, [], ◌∷◌, Option, none, some}
use oasis_ethwasi_runtime.Gateway.Informant.{
  Sessions, open_session, count_request, find_session, put_session, tick, new_calculator,
}
use oasis_ethwasi_runtime.Gateway.Middleware.{
  ℤ, CallId, num_id, null_id, v2, method_call, notification, Request, single, batch, Output,
  failure, success, Response, single_response, batch_response, Answer, answered, passed, Middleware,
  on_request, WsDispatcher, ws_origin, ws_on_request, error_batch_size_code,
  error_rate_limited_code,
}

-- The notifier does nothing.
abbrev test_active : Unit {0} → Unit {0}
test_active n = n

-- What is passed on is answered by nothing.
abbrev test_process : {Meta : Type 0} → Request → Meta → Option Response
test_process request meta = none

-- What the future yields.
abbrev response_of : Answer (Option Response) → Option Response
response_of (answered response) = some response
response_of (passed response) = response

abbrev make_request : ℕ → Request
make_request id = single (method_call (num_id id) (some v2) "test")

abbrev FailsWith : Output → ℤ → CallId → Type 0
FailsWith (failure error id version) code expected = (error.code ≡ code) × (id ≡ expected)
FailsWith (success text id version) code expected = ⊥

abbrev ValidateErrorOutput : Output → CallId → Type 0
ValidateErrorOutput output id = FailsWith output error_batch_size_code id

abbrev session_id : ℕ
session_id = 1

abbrev stats : ℕ → Sessions
stats now = open_session now session_id []

abbrev dispatcher : WsDispatcher
dispatcher = record { max_req_per_sec = 1 }

abbrev send_at : ℕ → Sessions → ℕ → Sessions × Answer (Option Response)
send_at now s id =
    ws_on_request test_process dispatcher now now now s (make_request id) (ws_origin session_id)

abbrev ShouldNotLimitRequestRate : ℕ → Type 0
ShouldNotLimitRequestRate now = response_of (send_at now (stats now) 1).1 ≡ none

abbrev IsRateLimited : Option Response → ℕ → Type 0
IsRateLimited (some (single_response output)) id =
    FailsWith output error_rate_limited_code (num_id id)
IsRateLimited (some (batch_response outputs)) id = ⊥
IsRateLimited none id = ⊥

abbrev ShouldLimitRequestRate : ℕ → Type 0
ShouldLimitRequestRate now =
    IsRateLimited (response_of (send_at now (send_at now (stats now) 1).0 2).1) 2

abbrev middleware : Middleware
middleware = record { max_batch_size = 1 }

abbrev batch_1 : Request
batch_1 = batch (method_call (num_id 1) (some v2) "test" ∷ [])

abbrev batch_2 : Request
batch_2 = batch (method_call (num_id 2) (some v2) "test" ∷ notification (some v2) "test" ∷ [])

abbrev answer_of : Request → Option Response
answer_of request = response_of (on_request test_active test_process middleware tt request tt).1

abbrev IsLimitedBatch : Option Response → Type 0
IsLimitedBatch (some (batch_response (first ∷ second ∷ []))) =
    ValidateErrorOutput first (num_id 2) × ValidateErrorOutput second null_id
IsLimitedBatch other = ⊥

abbrev ShouldLimitBatchSize : Type 0
ShouldLimitBatchSize = (answer_of batch_1 ≡ none) × IsLimitedBatch (answer_of batch_2)

should_not_limit_request_rate : ShouldNotLimitRequestRate 5
unfolding ws_on_request open_session count_request find_session put_session tick new_calculator
should_not_limit_request_rate = refl

should_limit_request_rate : ShouldLimitRequestRate 5
unfolding ws_on_request open_session count_request find_session put_session tick new_calculator
should_limit_request_rate = (refl, refl)

should_limit_batch_size : ShouldLimitBatchSize
unfolding on_request
should_limit_batch_size = (refl, ((refl, refl), (refl, refl)))
