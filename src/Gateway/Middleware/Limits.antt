-- ===== src/Gateway/Middleware/Limits.antt =====
-- What the limits of gateway/src/middleware.rs let through, and what they answer.
use oasis_ethwasi_runtime.Prelude.{
  ℕ, suc, ◌+◌, ◌≤◌, ◌<◌, ◌≡◌, min, refl, ap, ◌∙◌, sym, List, [], ◌∷◌, Option, none, some, Bool,
  true, false, length, arith, Bool-cases, inl, inr, ◌⊎◌, ltb, ltb→lt, ltb_false→le, get_or, eq→==,
  ◌-◌, if◌then◌else◌,
}
use oasis_ethwasi_runtime.Gateway.Informant.{
  RateCalculator, Sessions, new_calculator, elapsed, find_session, open_session, count_request,
  tick,
}
use oasis_ethwasi_runtime.Gateway.Informant.Rate.{
  tick_inside, count_at_lem, count_at_sample, count_at-length, count_at-era,
}
use oasis_ethwasi_runtime.Gateway.Informant.Sessions.{count_request_lem, find-open}
use oasis_ethwasi_runtime.Gateway.Middleware.{
  CallId, null_id, Error, Call, method_call, notification, invalid, Request, single, batch, Output,
  failure, success, batch_response, error_batch_size, error_rate_limited, generate_error_response,
  generate_error_response_call, generate_error_response_calls, Answer, answered, passed, Middleware,
  on_batch, on_request, WsDispatcher, Origin, ws_origin, ws_on_request, limit_rate,
}

-- The id that JSON-RPC wants in the answer to a call.
abbrev pub call_id : Call → CallId
call_id (method_call id version method) = id
call_id (notification version method) = null_id
call_id (invalid id) = id

abbrev pub output_id : Output → CallId
output_id (failure e id version) = id
output_id (success text id version) = id

abbrev pub output_error : Output → Option Error
output_error (failure e id version) = some e
output_error (success text id version) = none

-- `outputs` answers each call of `calls`, in their order, with the error `e` under the call's own id.
abbrev pub Refuses : Error → List Call → List Output → Type 0
Refuses e [] [] = Unit
Refuses e (c ∷ calls) (o ∷ outputs) =
    (output_id o ≡ call_id c) × (output_error o ≡ some e) × Refuses e calls outputs
Refuses e [] (o ∷ outputs) = Path Bool true false
Refuses e (c ∷ calls) [] = Path Bool true false

refuse_call :
    (e : Error) (c : Call)
    → (output_id (generate_error_response_call e c) ≡ call_id c)
      × (output_error (generate_error_response_call e c) ≡ some e)
unfolding generate_error_response_call
refuse_call e (method_call id version method) = (refl, refl)
refuse_call e (notification version method) = (refl, refl)
refuse_call e (invalid id) = (refl, refl)

refuse_calls :
    (e : Error) (calls : List Call) → Refuses e calls (generate_error_response_calls e calls)
unfolding generate_error_response_calls
refuse_calls e [] = tt
refuse_calls e (c ∷ calls) = ((refuse_call e c).0, (refuse_call e c).1, refuse_calls e calls)

abbrev pub Obeys :
    {Meta X : Type 0} → (Request → Meta → X) → Middleware → Request → Meta → Answer X → Type 0
Obeys process m (single call) meta a = a ≡ passed (process (single call) meta)
Obeys process m (batch calls) meta a =
    ((length calls ≤ m.max_batch_size) × (a ≡ passed (process (batch calls) meta)))
    ⊎ ((m.max_batch_size < length calls)
        × ((outputs : List Output) × (a ≡ answered (batch_response outputs))
            × Refuses error_batch_size calls outputs))

-- The middleware passes on a single request, and a batch of at most `max_batch_size` calls. A larger
-- batch is not processed at all: each of its calls is answered, in order and under its own id, with
-- the batch size error. The notifier hears of every request.
pub on_request-Obeys :
    {Notifier Meta X : Type 0} (active : Notifier → Notifier) (process : Request → Meta → X)
    (m : Middleware) (n : Notifier) (request : Request) (meta : Meta)
    → ((on_request active process m n request meta).0 ≡ active n)
      × Obeys process m request meta (on_request active process m n request meta).1
unfolding on_request on_batch
on_request-Obeys active process m n (single call) meta = (refl, refl)
on_request-Obeys active process m n (batch calls) meta = (
  refl,
  elim (Bool-cases (ltb m.max_batch_size (length calls))) [
    | inl over ↦ inr (
      ltb→lt _ _ over,
      (
        generate_error_response_calls error_batch_size calls,
        rw (over, on_batch),
        refuse_calls error_batch_size calls,
      ),
    )
    | inr within ↦ inl (ltb_false→le _ _ within, rw (within, on_batch))
  ],
)

abbrev is_passed : {X : Type 0} → Answer X → Bool
is_passed (answered r) = false
is_passed (passed x) = true

abbrev tally : Bool → ℕ → ℕ
tally true n = suc n
tally false n = n

-- How many of a session's requests are passed on, when all come at one instant.
pub passed_count :
    {X : Type 0} → (Request → Origin → X) → WsDispatcher → ℕ → ℕ → Sessions → List Request → ℕ
passed_count process d now id s [] = 0
passed_count process d now id s (r ∷ rs) =
    let (s', answer) = ws_on_request process d now now now s r (ws_origin id) in
    let later = passed_count process d now id s' rs in tally (is_passed answer) later

-- The session's calculator began its era at `now` and has counted `n` requests in its first second.
record IsCounting (id now n : ℕ) (s : Sessions) : Type 0 where
  calculator : RateCalculator
  found : find_session id s ≡ some calculator
  started : calculator.era ≡ now
  ten : length calculator.samples ≡ 10
  counted : get_or calculator.samples 0 0 ≡ n

count_request-IsCounting :
    (id now n : ℕ) (s : Sessions)
    → IsCounting id now n s
    → ((count_request now now now id s).1 ≡ min (n + 1) 65535)
      × IsCounting id now (min (n + 1) 65535) (count_request now now now id s).0
count_request-IsCounting id now n s v =
    let c = v.calculator in
    let e = v.started in
    let zeroth : elapsed c now ≡ 0 = omega arith in
    let tick_eq = tick_inside c now 0 zeroth (omega arith) in
    let value : (tick now now now c).1 ≡ min (n + 1) 65535 =
      ap (λ r. r.1) tick_eq
      ∙ count_at_lem c 0 v.ten (omega arith)
      ∙ ap (λ k. min (k + 1) 65535) v.counted in
    elim (count_request_lem now now now id id s) [
      | inl a ↦ absurd (cc)
      | inr (c', found', count, stored, others) ↦
          let same : c' ≡ c = cc in
          (
            count ∙ ap (λ k. (tick now now now k).1) same ∙ value,
            record {
              calculator = (tick now now now c).0;
              found = stored ∙ ap (λ k. some (tick now now now k).0) same;
              started = ap (λ r. r.0.era) tick_eq ∙ count_at-era c 0 ∙ e;
              ten = ap (λ r. length r.0.samples) tick_eq ∙ count_at-length c 0 v.ten (omega arith);
              counted =
                  ap (λ r. get_or r.0.samples 0 0) tick_eq
                  ∙ count_at_sample c 0 v.ten (omega arith)
                  ∙ ap (λ r. r.1) (sym tick_eq)
                  ∙ value;
            },
          )
    ]

module _ {X : Type 0} (process : Request → Origin → X) (d : WsDispatcher) (id now : ℕ) where
  passed_count-IsCounting :
      (rs : List Request) (n : ℕ) (s : Sessions)
      → IsCounting id now n s
      → n ≤ 65535
      → d.max_req_per_sec < 65535
      → passed_count process d now id s rs ≡ min (length rs) (d.max_req_per_sec - n)
  unfolding passed_count ws_on_request limit_rate
  passed_count-IsCounting [] n s v h small = omega arith
  passed_count-IsCounting (r ∷ rs) n s v h small =
      let m = d.max_req_per_sec in
      let step = count_request-IsCounting id now n s v in
      let rest = passed_count-IsCounting rs _ _ step.1 (omega arith) small in
      let count = (count_request now now now id s).1 in
      let answer = λ (b : Bool).
        tally
          (is_passed (
            if b
            then answered (generate_error_response error_rate_limited r)
            else passed (process r (ws_origin id))))
          (passed_count process d now id (count_request now now now id s).0 rs) in
      elim (Bool-cases (ltb m count)) [
        | inl over ↦
            let above : m < count = ltb→lt m count over in
            ap answer over ∙ rest ∙ omega (arith, step.0, above)
        | inr within ↦
            let under : count ≤ m = ltb_false→le m count within in
            ap answer within ∙ ap suc rest ∙ omega (arith, step.0, under)
      ]

-- Of the requests that a newly opened WebSocket session sends at one instant, exactly
-- `max_req_per_sec` are passed on, or all if they are fewer, if that limit is below 65535.
pub ws_rate_limit :
    {X : Type 0} (process : Request → Origin → X) (d : WsDispatcher) (id now : ℕ) (s : Sessions)
    (rs : List Request)
    → d.max_req_per_sec < 65535
    → passed_count process d now id (open_session now id s) rs ≡ min (length rs) d.max_req_per_sec
unfolding new_calculator
ws_rate_limit process d id now s rs small =
    passed_count-IsCounting process d id now rs 0 (open_session now id s)
      (record {
        calculator = new_calculator now;
        found =
            find-open now id id s
            ∙ ap (λ b. if b then some (new_calculator now) else find_session id s)
                (eq→== id id refl);
        started = refl;
        ten = refl;
        counted = refl;
      })
      (omega arith) small
    ∙ omega arith
