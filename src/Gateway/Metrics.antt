-- ===== src/Gateway/Metrics.antt =====
-- gateway/bin/metrics.rs: the thread that pushes metrics to Prometheus. What a push returns is an argument:
-- for each round of the loop, which has no end, whether it succeeded.
pub mod Pushes
use oasis_ethwasi_runtime.Prelude.{ℕ, List, [], ◌∷◌, ◌++◌, Bool, true, false}
use oasis_ethwasi_runtime.Prelude.Bytes.{Bytes}
use oasis_ethwasi_runtime.Gateway.CommandLine.{MetricsConfig, push, pull}

-- A pause of some seconds, a push to an address of a job's metrics with the label of an instance, a warning
-- that it failed, and the error that the mode is not supported.
pub data Act : Type 0 where
  sleep : ℕ → Act
  sent : Bytes → Bytes → Bytes → Act
  warn not_supported : Act

unfoldable pub push_metrics : Bytes → Bytes → Bytes → Bool → List Act
push_metrics address job_name instance_name true = sent address job_name instance_name ∷ []
push_metrics address job_name instance_name false = sent address job_name instance_name ∷ warn ∷ []

-- The loop, for the rounds whose results are given.
unfoldable pub push_loop : Bytes → ℕ → Bytes → Bytes → List Bool → List Act
unfolding push_metrics
push_loop address period job_name instance_name [] = []
push_loop address period job_name instance_name (r ∷ rs) =
    sleep period
    ∷ (push_metrics address job_name instance_name r
        ++ push_loop address period job_name instance_name rs)

unfoldable pub start_metrics : {Socket : Type 0} → MetricsConfig Socket → List Bool → List Act
unfolding push_loop
start_metrics (push address period job_name instance_name) rs =
    push_loop address period job_name instance_name rs
start_metrics (pull address) rs = not_supported ∷ []
