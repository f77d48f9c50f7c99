-- ===== src/Gateway/Main/Tests.antt =====
-- The gateway's process with the options' defaults, and with no interval.
use Prim.Native.String.{String}
use oasis_ethwasi_runtime.Prelude.{
  ℕ, zero, suc, ◌<◌, ltb, if◌then◌else◌, panic, Outcome, ◌≡◌, ◌↔◌, ◌⊎◌, refl, arith, some, is_some,
  true, ok, err, List, [], ◌∷◌,
}
use oasis_ethwasi_runtime.Prelude.Bytes.{Bytes}
use oasis_ethwasi_runtime.Prelude.Texts.{codes}
use oasis_ethwasi_runtime.Prelude.Numbers.{parse_unsigned}
use oasis_ethwasi_runtime.Prelude.Options.{
  look, Matches, Accepts, ArgError, Meets, with_default, required, optional,
}
use oasis_ethwasi_runtime.Gateway.Eth.Calls.{eth_gas_price}
use oasis_ethwasi_runtime.Gateway.Run.{Options, execute}
use oasis_ethwasi_runtime.Gateway.Run.Serving.{Serves}
use oasis_ethwasi_runtime.Gateway.CommandLine.{app, settings, metrics_config, log_level}
use oasis_ethwasi_runtime.Gateway.CommandLine.Settings.{
  IsRead, IsUnreadable, numeric, settings-Verdict,
}
use oasis_ethwasi_runtime.Gateway.CommandLine.Metrics.{IsConfigured}
use oasis_ethwasi_runtime.Gateway.CommandLine.Verbosity.{severity, log_level_inverted}
use oasis_ethwasi_runtime.Gateway.Run.Example.{servers, before, gateway}
use oasis_ethwasi_runtime.Gateway.Main.{World, main, panicked}
use oasis_ethwasi_runtime.Gateway.Main.Serving.{main-Serves}

-- The clock has a thousand seconds left.
abbrev bounded_interval : ℕ → Outcome Bytes (Unit {0})
bounded_interval zero = panic
bounded_interval (suc secs) = if ltb 1000 (suc secs) then panic else ok tt

-- `--pubsub-interval` is as given, and all else is left to its default.
abbrev table : Bytes → List (String × Bytes)
table interval =
    ("runtime-id", codes "07")
    ∷ ("node-address", codes "unix:/node")
    ∷ ("http-port", codes "8545")
    ∷ ("threads", codes "1")
    ∷ ("ws-port", codes "8546")
    ∷ ("ws-max-connections", codes "10000")
    ∷ ("ws-rate-limit", codes "50")
    ∷ ("pubsub-interval", interval)
    ∷ ("gas-price", codes "1")
    ∷ ("jsonrpc-max-batch", codes "10")
    ∷ ("interface", codes "127.0.0.1")
    ∷ []

abbrev matches : Bytes → Matches
matches interval = record { value_of = λ name. look name (table interval); verbosity = 0 }

given :
    (m : Matches) (name : String) (d : Bytes)
    → is_some (m.value_of name) ≡ true
    → Meets m (with_default name d)
given m name d e = record {
  present = λ h. e;
  defaulted = e;
  chosen = tt;
  conditional = tt;
  accompanied = tt;
}

needed : (m : Matches) (name : String) → is_some (m.value_of name) ≡ true → Meets m (required name)
needed m name e = record {
  present = λ h. e;
  defaulted = tt;
  chosen = tt;
  conditional = tt;
  accompanied = tt;
}

left_out : (m : Matches) (name : String) → Meets m (optional name)
left_out m name = record {
  present = λ h. cc;
  defaulted = tt;
  chosen = tt;
  conditional = tt;
  accompanied = tt;
}

accepted : (interval : Bytes) → Accepts app (matches interval)
accepted interval =
    let m = matches interval in
    (
      needed m "runtime-id" refl,
      (
        needed m "node-address" refl,
        (
          given m "http-port" _ refl,
          (
            given m "threads" _ refl,
            (
              given m "ws-port" _ refl,
              (
                given m "ws-max-connections" _ refl,
                (
                  given m "ws-rate-limit" _ refl,
                  (
                    given m "pubsub-interval" _ refl,
                    (
                      given m "gas-price" _ refl,
                      (
                        given m "jsonrpc-max-batch" _ refl,
                        (
                          given m "interface" _ refl,
                          (
                            record {
                              present = λ h. cc;
                              defaulted = tt;
                              chosen = tt;
                              conditional = tt;
                              accompanied = tt;
                            },
                            (
                              left_out m "prometheus-push-interval",
                              (
                                record {
                                  present = λ h. cc;
                                  defaulted = tt;
                                  chosen = tt;
                                  conditional = λ h. cc;
                                  accompanied = tt;
                                },
                                (
                                  record {
                                    present = λ h. cc;
                                    defaulted = tt;
                                    chosen = tt;
                                    conditional = λ h. cc;
                                    accompanied = tt;
                                  },
                                  (
                                    record {
                                      present = λ h. cc;
                                      defaulted = tt;
                                      chosen = tt;
                                      conditional = tt;
                                      accompanied = λ h. cc;
                                    },
                                    tt,
                                  ),
                                ),
                              ),
                            ),
                          ),
                        ),
                      ),
                    ),
                  ),
                ),
              ),
            ),
          ),
        ),
      ),
    )

settings-Verdict_example :
    let m = matches (codes "3") in
    ((o : Options) × (settings m ≡ ok o) × IsRead m o)
    ⊎ ((e : ArgError) × (settings m ≡ err e) × IsUnreadable m numeric e)
settings-Verdict_example = settings-Verdict (matches (codes "3")) (accepted (codes "3"))

log_level_inverted_example :
    (severity (log_level 3) < severity (log_level 2)) ↔ (◌≡◌ {A = ℕ} 2 2 × ◌≡◌ {A = ℕ} 3 3)
log_level_inverted_example = log_level_inverted 2 3 (omega arith)

abbrev world : World Bytes Bytes Bytes ℕ ℕ
world = record {
  parse_namespace = λ text. some text;
  parse_socket = λ text. some text;
  servers = servers;
  new_interval = bounded_interval;
  wait_sync = λ node runtime. ok tt;
  wait_signal = ok tt;
}

main-Serves_example :
    let m = matches (codes "3") in
    (o : Options) × IsRead m o
    × Serves world.servers o gateway
    × (eth_gas_price gateway.translator ≡ o.gas_price)
    × IsConfigured world.parse_socket m (main world m before).metrics
unfolding main settings metrics_config parse_unsigned execute
main-Serves_example =
    main-Serves world (matches (codes "3")) before gateway (accepted (codes "3")) refl

zero_interval : (main world (matches (codes "0")) before).ending ≡ panicked
unfolding main settings metrics_config parse_unsigned execute
zero_interval = refl
