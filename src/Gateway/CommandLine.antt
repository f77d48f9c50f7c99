-- ===== src/Gateway/CommandLine.antt =====
-- gateway/bin/main.rs: the options of the gateway and what is read from them. The parser of socket
-- addresses is a parameter. Numbers are parsed as Rust does, a `usize` having 64 bits.
pub mod Settings
pub mod Verbosity
pub mod Metrics
use oasis_ethwasi_runtime.Prelude.{
  ℕ, zero, suc, List, [], ◌∷◌, Option, none, some, Outcome, ok, err, panic, ◌>>=◌, NoError,
  if◌then◌else◌,
}
use oasis_ethwasi_runtime.Prelude.Bytes.{Bytes}
use oasis_ethwasi_runtime.Prelude.Texts.{codes, same}
use oasis_ethwasi_runtime.Prelude.Numbers.{u16_max, u64_max, digits, parse_unsigned}
use oasis_ethwasi_runtime.Prelude.Options.{
  Arg, optional, required, with_default, Matches, ArgError, value_t,
}
use oasis_ethwasi_runtime.Runtime.Types.{min_gas_price_gwei}
use oasis_ethwasi_runtime.Gateway.Eth.Calls.{gwei_to_wei}
use oasis_ethwasi_runtime.Gateway.Run.{Options}

abbrev pub metrics_mode_pull : Bytes
metrics_mode_pull = codes "pull"

abbrev pub metrics_mode_push : Bytes
metrics_mode_push = codes "push"

-- `MIN_GAS_PRICE_GWEI.to_string()`, of a u64.
abbrev pub default_gas_price : Bytes
default_gas_price = digits 20 min_gas_price_gwei

abbrev pub app : List Arg
app =
    required "runtime-id"
    ∷ required "node-address"
    ∷ with_default "http-port" (codes "8545")
    ∷ with_default "threads" (codes "1")
    ∷ with_default "ws-port" (codes "8546")
    ∷ with_default "ws-max-connections" (codes "10000")
    ∷ with_default "ws-rate-limit" (codes "50")
    ∷ with_default "pubsub-interval" (codes "3")
    ∷ with_default "gas-price" default_gas_price
    ∷ with_default "jsonrpc-max-batch" (codes "10")
    ∷ with_default "interface" (codes "127.0.0.1")
    ∷ record (optional "prometheus-mode") {
      possible_values = metrics_mode_pull ∷ metrics_mode_push ∷ [];
    }
    ∷ optional "prometheus-push-interval"
    ∷ record (optional "prometheus-push-job-name") {
      required_if = some ("prometheus-mode", metrics_mode_push);
    }
    ∷ record (optional "prometheus-push-instance-label") {
      required_if = some ("prometheus-mode", metrics_mode_push);
    }
    ∷ record (optional "prometheus-metrics-addr") { requires = some "prometheus-mode" }
    ∷ []

pub data LogLevel : Type 0 where
  error warn info debug trace : LogLevel

unfoldable pub log_level : ℕ → LogLevel
log_level zero = error
log_level (suc zero) = warn
log_level (suc (suc zero)) = debug
log_level (suc (suc (suc zero))) = info
log_level (suc (suc (suc (suc n)))) = trace

-- The numbers and texts that `main` reads first, in the order in which it does.
unfoldable pub settings : Matches → Outcome ArgError Options
unfolding parse_unsigned gwei_to_wei
settings m = do
  num_threads ← value_t (parse_unsigned u64_max) m "threads"
  interface ← value_t some m "interface"
  http_port ← value_t (parse_unsigned u16_max) m "http-port"
  ws_port ← value_t (parse_unsigned u16_max) m "ws-port"
  ws_max_connections ← value_t (parse_unsigned u64_max) m "ws-max-connections"
  ws_rate_limit ← value_t (parse_unsigned u64_max) m "ws-rate-limit"
  pubsub_interval_secs ← value_t (parse_unsigned u64_max) m "pubsub-interval"
  gas_price ← value_t (parse_unsigned u64_max) m "gas-price"
  jsonrpc_max_batch_size ← value_t (parse_unsigned u64_max) m "jsonrpc-max-batch"
  ok (record {
    pubsub_interval_secs = pubsub_interval_secs;
    interface = interface;
    http_port = http_port;
    num_threads = num_threads;
    ws_port = ws_port;
    ws_max_connections = ws_max_connections;
    ws_rate_limit = ws_rate_limit;
    gas_price = gwei_to_wei gas_price;
    jsonrpc_max_batch_size = jsonrpc_max_batch_size;
  })

-- What the metrics thread is started with; the period is in seconds.
pub data MetricsConfig (Socket : Type 0) : Type 0 where
  push : Bytes → ℕ → Bytes → Bytes → MetricsConfig Socket
  pull : Socket → MetricsConfig Socket

-- `unwrap_or`, and `unwrap` of a result.
abbrev pub ok_else {ℓ κ} : {E : Type ℓ} {A : Type κ} → A → Outcome E A → A
ok_else a (ok b) = b
ok_else a (err e) = a
ok_else a panic = a

abbrev pub unwrap_ok {ℓ κ} : {E : Type ℓ} {A : Type κ} → Outcome E A → Outcome NoError A
unwrap_ok (ok a) = ok a
unwrap_ok (err e) = panic
unwrap_ok panic = panic

module _ {Socket : Type 0} (parse_socket : Bytes → Option Socket) where
  abbrev pub pull_config : Outcome ArgError Socket → Outcome NoError (Option (MetricsConfig Socket))
  pull_config (ok address) = ok (some (pull address))
  pull_config (err e) = ok none
  pull_config panic = panic

  abbrev pub push_config :
      Matches → Outcome ArgError Bytes → Outcome NoError (Option (MetricsConfig Socket))
  push_config m (err e) = ok none
  push_config m panic = panic
  push_config m (ok address) =
      let interval = ok_else 5 (value_t (parse_unsigned u64_max) m "prometheus-push-interval") in
      unwrap_ok (value_t some m "prometheus-push-job-name") >>= λ job_name.
      unwrap_ok (value_t some m "prometheus-push-instance-label") >>= λ instance_name.
      ok (some (push address interval job_name instance_name))

  -- Behind `prometheus-mode`.
  abbrev pub mode_config : Matches → Option Bytes → Outcome NoError (Option (MetricsConfig Socket))
  mode_config m none = ok none
  mode_config m (some mode) =
      if same mode metrics_mode_pull
      then pull_config (value_t parse_socket m "prometheus-metrics-addr")
      else if same mode metrics_mode_push
      then push_config m (value_t some m "prometheus-metrics-addr")
      else ok none

  unfoldable pub metrics_config : Matches → Outcome NoError (Option (MetricsConfig Socket))
  unfolding parse_unsigned same
  metrics_config m = mode_config m (m.value_of "prometheus-mode")
