-- ===== src/Gateway/Informant.antt =====
-- gateway/src/informant.rs: request counts of a session, second by second. A clock reading is a number
-- of nanoseconds and an argument of each call that reads the clock.
pub mod Rate
pub mod Sessions
mod Tests
mod UnitTests
use oasis_ethwasi_runtime.Prelude.{
  ℕ, ◌+◌, ◌-◌, ◌/◌, ◌%◌, min, List, [], ◌∷◌, Option, none, some, Bool, leb, ltb, ◌==◌,
  if◌then◌else◌, length, get_or, set, take, replicate,
}

abbrev pub rate_seconds : ℕ
rate_seconds = 10

abbrev pub nanos : ℕ
nanos = 1_000_000_000

abbrev pub u16_max : ℕ
u16_max = 65535

pub record RateCalculator : Type 0 where
  pub era : ℕ
  pub samples : List ℕ

unfoldable pub new_calculator : ℕ → RateCalculator
new_calculator now = record { era = now; samples = replicate rate_seconds 0 }

-- Whole seconds since the era began.
abbrev pub elapsed : RateCalculator → ℕ → ℕ
elapsed c now = (now - c.era) / nanos

unfoldable pub start_era : RateCalculator → ℕ → ℕ → RateCalculator
start_era c first second =
    if leb rate_seconds (elapsed c first)
    then record { era = second; samples = set c.samples 0 0 }
    else c

-- `pos` is the current second of the era.
unfoldable pub count_at : RateCalculator → ℕ → RateCalculator × ℕ
count_at c pos =
    let cleared = set c.samples ((pos + 1) % rate_seconds) 0 in
    let count = min (get_or cleared pos 0 + 1) u16_max in
    (record c { samples = set cleared pos count }, count)

-- The clock is read up to three times: for the test, for the new era and for the position.
unfoldable pub tick : ℕ → ℕ → ℕ → RateCalculator → RateCalculator × ℕ
unfolding start_era count_at
tick first second third c =
    let c' = start_era c first second in count_at c' (elapsed c' third % rate_seconds)

abbrev sum : List ℕ → ℕ
sum [] = 0
sum (x ∷ xs) = x + sum xs

pub current_rate : ℕ → RateCalculator → ℕ
current_rate now c =
    let window = if leb rate_seconds (elapsed c now) then rate_seconds else elapsed c now + 1 in
    sum (take window c.samples) / window

pub rate : ℕ → ℕ → RateCalculator → ℕ
unfolding current_rate
rate first second c = if ltb rate_seconds (elapsed c first) then 0 else current_rate second c

-- The sessions by their id.
abbrev pub Sessions : Type 0
Sessions = List (ℕ × RateCalculator)

unfoldable pub close_session : ℕ → Sessions → Sessions
close_session id [] = []
close_session id ((k, c) ∷ rest) =
    if k == id then close_session id rest else (k, c) ∷ close_session id rest

unfoldable pub open_session : ℕ → ℕ → Sessions → Sessions
unfolding close_session
open_session now id sessions = (id, new_calculator now) ∷ close_session id sessions

unfoldable pub find_session : ℕ → Sessions → Option RateCalculator
find_session id [] = none
find_session id ((k, c) ∷ rest) = if k == id then some c else find_session id rest

unfoldable pub put_session : ℕ → RateCalculator → Sessions → Sessions
put_session id c' [] = []
put_session id c' ((k, c) ∷ rest) =
    if k == id then (k, c') ∷ rest else (k, c) ∷ put_session id c' rest

unfoldable pub count_found : ℕ → ℕ → ℕ → ℕ → Sessions → Option RateCalculator → Sessions × ℕ
count_found first second third id sessions none = (sessions, 0)
count_found first second third id sessions (some c) =
    (put_session id (tick first second third c).0 sessions, (tick first second third c).1)

-- A session that is not open counts nothing.
unfoldable pub count_request : ℕ → ℕ → ℕ → ℕ → Sessions → Sessions × ℕ
unfolding count_found
count_request first second third id sessions =
    count_found first second third id sessions (find_session id sessions)

pub sessions_count : Sessions → ℕ
sessions_count sessions = length sessions
