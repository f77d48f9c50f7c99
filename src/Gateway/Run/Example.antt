-- ===== src/Gateway/Run/Example.antt =====
-- Servers that always come up, and a timer that panics for no interval but zero.
use oasis_ethwasi_runtime.Prelude.{ℕ, zero, suc, inr, some, Outcome, ok, panic}
use oasis_ethwasi_runtime.Prelude.Bytes.{Bytes}
use oasis_ethwasi_runtime.Prelude.Texts.{codes}
use oasis_ethwasi_runtime.Gateway.Pubsub.{new_broker}
use oasis_ethwasi_runtime.Gateway.Translator.{new_translator}
use oasis_ethwasi_runtime.Gateway.Rpc.{Listeners, Servers}
use oasis_ethwasi_runtime.Gateway.Run.{Options, RunningGateway}

abbrev pub servers : Servers Bytes ℕ ℕ
servers = record {
  parse_addr = λ text. some text;
  host = λ text. text;
  start_ws = λ s. inr 1;
  start_http = λ s. inr 2;
}

abbrev pub options : Options
options = record {
  pubsub_interval_secs = 3;
  gas_price = 1000000000;
  interface = codes "127.0.0.1";
  http_port = 8545;
  num_threads = 1;
  ws_port = 8546;
  ws_max_connections = 10000;
  ws_rate_limit = 50;
  jsonrpc_max_batch_size = 10;
}

abbrev pub some_interval : ℕ → Outcome Bytes (Unit {0})
some_interval zero = panic
some_interval (suc secs) = ok tt

abbrev pub before : Listeners
before = record { broker = new_broker; fresh = 0 }

abbrev pub gateway : RunningGateway ℕ ℕ
gateway = record {
  translator = new_translator 1000000000;
  http_server = some 2;
  ws_server = some 1;
}
