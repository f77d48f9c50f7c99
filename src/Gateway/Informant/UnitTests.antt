-- ===== src/Gateway/Informant/UnitTests.antt =====
-- What the unit tests of gateway/src/informant.rs assert, for clock readings within the first second.
use oasis_ethwasi_runtime.Prelude.{ℕ, zero, suc, ◌≡◌, refl, [], Option, none, some}
use oasis_ethwasi_runtime.Gateway.Informant.{
  RateCalculator, new_calculator, tick, rate, Sessions, open_session, close_session, count_request,
  find_session, sessions_count, put_session,
}

abbrev rate_found : ℕ → ℕ → Option RateCalculator → ℕ
rate_found first second none = 0
rate_found first second (some c) = rate first second c

abbrev requests_rate : ℕ → ℕ → ℕ → Sessions → ℕ
requests_rate first second id sessions = rate_found first second (find_session id sessions)

abbrev ticks : ℕ → ℕ → RateCalculator → RateCalculator
ticks now zero c = c
ticks now (suc n) c = ticks now n (tick now now now c).0

unfoldable ShouldCalculateRate : Type 0
unfolding rate tick new_calculator
ShouldCalculateRate = rate 9 9 (ticks 9 3 (new_calculator 5)) ≡ 3

should_calculate_rate : ShouldCalculateRate
unfolding ShouldCalculateRate rate tick new_calculator
should_calculate_rate = refl

abbrev after_requests : Sessions
after_requests =
    let opened = open_session 6 2 (close_session 1 (open_session 5 1 [])) in
    (count_request 8 8 8 2 (count_request 7 7 7 2 opened).0).0

unfoldable ShouldCountRpcStats : Type 0
ShouldCountRpcStats =
    ((sessions_count [] ≡ 0) × (requests_rate 5 5 1 [] ≡ 0))
    × ((sessions_count after_requests ≡ 1) × (requests_rate 9 9 2 after_requests ≡ 2))

should_count_rpc_stats : ShouldCountRpcStats
unfolding ShouldCountRpcStats open_session close_session count_request find_session rate tick
    put_session sessions_count new_calculator
should_count_rpc_stats = ((refl, refl), (refl, refl))
