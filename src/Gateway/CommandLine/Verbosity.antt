-- ===== src/Gateway/CommandLine/Verbosity.antt =====
-- The level of verbosity that `-v` sets (gateway/bin/main.rs).
use oasis_ethwasi_runtime.Prelude.{
  ℕ, zero, suc, ◌<◌, ◌≤◌, ◌≡◌, refl, ◌↔◌, ◌==◌, if◌then◌else◌, arith,
}
use oasis_ethwasi_runtime.Gateway.CommandLine.{LogLevel, error, warn, info, debug, trace, log_level}

-- How much is logged at a level, in the order of the `log` crate.
abbrev pub severity : LogLevel → ℕ
severity error = 1
severity warn = 2
severity info = 3
severity debug = 4
severity trace = 5

severity-log_level :
    (n : ℕ)
    → severity (log_level n)
      ≡ (if n == 0 then 1 else if n == 1 then 2 else if n == 2 then 4 else if n == 3 then 3 else 5)
unfolding log_level
severity-log_level zero = refl
severity-log_level (suc zero) = refl
severity-log_level (suc (suc zero)) = refl
severity-log_level (suc (suc (suc zero))) = refl
severity-log_level (suc (suc (suc (suc n)))) = ground arith

-- More flags never lower the level of the log, but for one pair: with three flags less is logged than with
-- two.
pub log_level_inverted :
    (m n : ℕ) → m ≤ n → (severity (log_level n) < severity (log_level m)) ↔ ((m ≡ 2) × (n ≡ 3))
log_level_inverted m n h = ground (arith, severity-log_level m, severity-log_level n)
