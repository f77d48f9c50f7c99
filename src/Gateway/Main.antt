-- ===== src/Gateway/Main.antt =====
-- gateway/bin/main.rs and `start` of gateway/src/lib.rs: the gateway's process, from the options that clap
-- found to the signal that ends it. What is called of other libraries is a parameter.
pub mod Panics
pub mod Serving
mod Tests
use oasis_ethwasi_runtime.Prelude.{ℕ, Option, none, some, Outcome, ok, err, panic, ◌>>=◌, NoError}
use oasis_ethwasi_runtime.Prelude.Bytes.{Bytes}
use oasis_ethwasi_runtime.Prelude.Options.{Matches, ArgError, value_t}
use oasis_ethwasi_runtime.Gateway.Rpc.{Listeners, Servers}
use oasis_ethwasi_runtime.Gateway.Run.{Options, RunningGateway, execute}
use oasis_ethwasi_runtime.Gateway.CommandLine.{
  LogLevel, log_level, settings, MetricsConfig, metrics_config,
}

pub record World (Namespace Socket Addr WsServer HttpServer : Type 0) : Type 0 where
  pub parse_namespace : Bytes → Option Namespace
  pub parse_socket : Bytes → Option Socket
  pub servers : Servers Addr WsServer HttpServer
  pub new_interval : ℕ → Outcome Bytes (Unit {0})
  -- What `wait_sync` returns of the node at an address, for a runtime.
  pub wait_sync : Bytes → Namespace → Outcome Bytes (Unit {0})
  -- The making of the pipe, its registration for both signals, and the wait for a byte.
  pub wait_signal : Outcome Bytes (Unit {0})

-- What `start` comes to, unless it ends the process (`value_t_or_exit!`).
pub data Started (Gateway : Type 0) : Type 0 where
  exited : Started Gateway
  returned : Outcome Bytes Gateway → Started Gateway

pub data Ending (Gateway : Type 0) : Type 0 where
  -- `main` returns this error of an option, or of the signals' pipe.
  bad_argument : ArgError → Ending Gateway
  no_signal : Bytes → Ending Gateway
  -- `value_t_or_exit!` ends the process.
  exit : Ending Gateway
  -- The error is logged.
  not_started : Bytes → Ending Gateway
  -- The gateway ran, and is shut down.
  shut_down : Gateway → Ending Gateway
  panicked : Ending Gateway

pub record Process (Socket Gateway : Type 0) : Type 0 where
  pub level : LogLevel
  -- What the metrics thread was started with.
  pub metrics : Option (MetricsConfig Socket)
  pub listeners : Listeners
  pub ending : Ending Gateway

module _ {Namespace Socket Addr WsServer HttpServer : Type 0}
    (w : World Namespace Socket Addr WsServer HttpServer) where
  -- Behind the identifier of the runtime.
  unfoldable pub start_runtime :
      Options
      → Listeners
      → Bytes
      → Outcome ArgError Namespace
      → Listeners × Started (RunningGateway WsServer HttpServer)
  start_runtime o s node_address (err e) = (s, exited)
  start_runtime o s node_address panic = (s, returned panic)
  start_runtime o s node_address (ok runtime_id) =
      let (s', r) = execute w.servers w.new_interval (w.wait_sync node_address runtime_id) o s in
      (s', returned r)

  -- Behind the address of the node, which is unwrapped.
  unfoldable pub start_node :
      Matches
      → Options
      → Listeners
      → Option Bytes
      → Listeners × Started (RunningGateway WsServer HttpServer)
  unfolding start_runtime
  start_node m o s none = (s, returned panic)
  start_node m o s (some node_address) =
      start_runtime o s node_address (value_t w.parse_namespace m "runtime-id")

  unfoldable pub start :
      Matches → Options → Listeners → Listeners × Started (RunningGateway WsServer HttpServer)
  unfolding start_node
  start m o s = start_node m o s (m.value_of "node-address")

  -- What follows `start`.
  unfoldable pub finish :
      Outcome Bytes (Unit {0})
      → Started (RunningGateway WsServer HttpServer)
      → Ending (RunningGateway WsServer HttpServer)
  finish signal exited = exit
  finish signal (returned (err e)) = not_started e
  finish signal (returned panic) = panicked
  finish (ok u) (returned (ok client)) = shut_down client
  finish (err e) (returned (ok client)) = no_signal e
  finish panic (returned (ok client)) = panicked

  -- What follows the reading of the metrics' options.
  unfoldable pub with_metrics :
      Matches
      → Options
      → Listeners
      → Outcome NoError (Option (MetricsConfig Socket))
      → Process Socket (RunningGateway WsServer HttpServer)
  unfolding start finish
  with_metrics m o s (ok config) =
      let (s', r) = start m o s in
      record {
        level = log_level m.verbosity;
        metrics = config;
        listeners = s';
        ending = finish w.wait_signal r;
      }
  with_metrics m o s (err e) = elim e [ ]
  with_metrics m o s panic = record {
    level = log_level m.verbosity;
    metrics = none;
    listeners = s;
    ending = panicked;
  }

  -- What follows the reading of the other options.
  unfoldable pub with_settings :
      Matches
      → Listeners
      → Outcome ArgError Options
      → Process Socket (RunningGateway WsServer HttpServer)
  unfolding with_metrics
  with_settings m s (ok o) = with_metrics m o s (metrics_config w.parse_socket m)
  with_settings m s (err e) = record {
    level = log_level m.verbosity;
    metrics = none;
    listeners = s;
    ending = bad_argument e;
  }
  with_settings m s panic = record {
    level = log_level m.verbosity;
    metrics = none;
    listeners = s;
    ending = panicked;
  }

  unfoldable pub main : Matches → Listeners → Process Socket (RunningGateway WsServer HttpServer)
  unfolding with_settings
  main m s = with_settings m s (settings m)
