-- ===== src/Gateway/Middleware/Tests.antt =====
-- Requests that pass the limits and requests that do not.
use oasis_ethwasi_runtime.Prelude.{ℕ, ◌≡◌, arith, [], ◌∷◌, none}
use oasis_ethwasi_runtime.Gateway.Informant.{open_session}
use oasis_ethwasi_runtime.Gateway.Middleware.{
  Request, single, batch, method_call, notification, num_id, Middleware, on_request,
}
use oasis_ethwasi_runtime.Gateway.Middleware.Limits.{
  Obeys, on_request-Obeys, passed_count, ws_rate_limit,
}

abbrev process : {Meta : Type 0} → Request → Meta → ℕ
process r meta = 0

abbrev active : ℕ → ℕ
active n = n

abbrev count : ℕ
count = 0

abbrev two_calls : Request
two_calls = batch (method_call (num_id 2) none "test" ∷ notification none "test" ∷ [])

abbrev limit : Middleware
limit = record { max_batch_size = 1 }

on_request-Obeys_example :
    ((on_request active process limit 0 two_calls count).0 ≡ 0)
    × Obeys process limit two_calls count (on_request active process limit 0 two_calls count).1
on_request-Obeys_example = on_request-Obeys active process limit 0 two_calls count

abbrev request : Request
request = single (method_call (num_id 1) none "test")

ws_rate_limit_example :
    passed_count process
      (record { max_req_per_sec = 1 })
      77
      4
      (open_session 77 4 [])
      (request ∷ request ∷ [])
    ≡ 1
ws_rate_limit_example =
    ws_rate_limit process (record { max_req_per_sec = 1 }) 4 77 [] (request ∷ request ∷ [])
      (omega arith)
