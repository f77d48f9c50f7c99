-- ===== src/Gateway/Main/Serving.antt =====
-- What a gateway that ran was serving, by its command line (gateway/bin/main.rs).
use oasis_ethwasi_runtime.Prelude.{◌≡◌, ap, Option, none, some, Outcome, ok, err, panic, inl, inr}
use oasis_ethwasi_runtime.Prelude.Bytes.{Bytes}
use oasis_ethwasi_runtime.Prelude.Options.{Matches, Accepts, ArgError, value_t}
use oasis_ethwasi_runtime.Gateway.Rpc.{Listeners}
use oasis_ethwasi_runtime.Gateway.Eth.Calls.{eth_gas_price}
use oasis_ethwasi_runtime.Gateway.Run.{Options, RunningGateway}
use oasis_ethwasi_runtime.Gateway.Run.Serving.{Serves, execute-Serves}
use oasis_ethwasi_runtime.Gateway.CommandLine.{app}
use oasis_ethwasi_runtime.Gateway.CommandLine.Settings.{IsRead, settings-Verdict}
use oasis_ethwasi_runtime.Gateway.CommandLine.Metrics.{metrics_config-IsConfigured, IsConfigured}
use oasis_ethwasi_runtime.Gateway.Main.{
  World, Started, exited, returned, shut_down, start_runtime, start_node, start, finish,
  with_metrics, with_settings, main,
}

module _ {Namespace Socket Addr WsServer HttpServer : Type 0}
    (w : World Namespace Socket Addr WsServer HttpServer) (m : Matches) (s : Listeners)
    (gw : RunningGateway WsServer HttpServer) where
  runtime-Serves :
      (o : Options) (node : Bytes) (r : Outcome ArgError Namespace)
      → (start_runtime w o s node r).1 ≡ returned (ok gw)
      → Serves w.servers o gw
  unfolding start_runtime
  runtime-Serves o node (err e) h = cc
  runtime-Serves o node panic h = cc
  runtime-Serves o node (ok runtime) h =
      execute-Serves w.servers w.new_interval (w.wait_sync node runtime) o s gw (cc)

  start-Serves :
      (o : Options) (found : Option Bytes)
      → (start_node w m o s found).1 ≡ returned (ok gw)
      → Serves w.servers o gw
  unfolding start_node
  start-Serves o none h = cc
  start-Serves o (some node) h = runtime-Serves o node (value_t w.parse_namespace m "runtime-id") h

  finish-ran :
      (signal : Outcome Bytes (Unit {0})) (r : Started (RunningGateway WsServer HttpServer))
      → finish w signal r ≡ shut_down gw
      → r ≡ returned (ok gw)
  unfolding finish
  finish-ran signal exited h = cc
  finish-ran signal (returned panic) h = cc
  finish-ran signal (returned (err e)) h = cc
  finish-ran (err e) (returned (ok client)) h = cc
  finish-ran panic (returned (ok client)) h = cc
  finish-ran (ok u) (returned (ok client)) h = cc

  -- Where clap accepts the command line and a gateway ran until the signal: its settings are what the
  -- options say, each within its type; both servers were up, each started at the address of `--interface`
  -- and its own port, under the limits of the options; `eth_gasPrice` is the price of `--gas-price` in wei;
  -- and the metrics thread was started with what the options say.
  pub main-Serves :
      Accepts app m
      → (main w m s).ending ≡ shut_down gw
      → (o : Options) × IsRead m o
        × Serves w.servers o gw
        × (eth_gas_price gw.translator ≡ o.gas_price)
        × IsConfigured w.parse_socket m (main w m s).metrics
  unfolding main with_settings with_metrics start eth_gas_price
  main-Serves h ran = elim (settings-Verdict m h) [
    | inr (e, refused, _) ↦
        let never : (with_settings w m s (err e)).ending ≡ shut_down gw = rw (refused) at ran in cc
    | inl (o, read, settled) ↦
        let (config, configured, says) = metrics_config-IsConfigured w.parse_socket m h in
        let ended : (with_metrics w m o s (ok config)).ending ≡ shut_down gw =
          rw (read, configured) at ran in
        let serves =
          start-Serves o (m.value_of "node-address") (finish-ran w.wait_signal _ ended) in
        rw (read, configured) (o, settled, serves, ap (λ t. t.gas_price) serves.price, says)
  ]
