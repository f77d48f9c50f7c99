-- ===== src/Gateway/CommandLine/Settings.antt =====
-- What the gateway reads from a command line that clap accepts (gateway/bin/main.rs).
use Prim.Native.String.{String}
use oasis_ethwasi_runtime.Prelude.{
  ℕ, ◌*◌, ◌^◌, ◌≤◌, ◌<◌, ◌≡◌, refl, List, [], ◌∷◌, none, some, is_some, true, Outcome, ok, err,
  ◌>>=◌, ◌⊎◌, inl, inr, Option-cases, arith,
}
use oasis_ethwasi_runtime.Prelude.Bytes.{Bytes}
use oasis_ethwasi_runtime.Prelude.Numbers.{u16_max, u64_max, parse_unsigned, parse_unsigned-le}
use oasis_ethwasi_runtime.Prelude.Options.{
  Matches, Accepts, ArgError, value_validation, value_t, some_found,
}
use oasis_ethwasi_runtime.Gateway.Eth.Calls.{gwei_to_wei}
use oasis_ethwasi_runtime.Gateway.Eth.Calls.Estimates.{gwei_to_wei_exact}
use oasis_ethwasi_runtime.Gateway.Run.{Options}
use oasis_ethwasi_runtime.Gateway.CommandLine.{app, settings}

-- The text of an option is a number of its type.
abbrev pub Reads : Matches → String → ℕ → ℕ → Type 0
Reads m name greatest v =
    (text : Bytes) × (m.value_of name ≡ some text)
    × (parse_unsigned greatest text ≡ some v)
    × (v ≤ greatest)

-- Every setting is what its option says, within the range of its type; the price is in wei, and exact.
pub record IsRead (m : Matches) (o : Options) : Type 0 where
  pub num_threads : Reads m "threads" u64_max o.num_threads
  pub interface : m.value_of "interface" ≡ some o.interface
  pub http_port : Reads m "http-port" u16_max o.http_port
  pub ws_port : Reads m "ws-port" u16_max o.ws_port
  pub ws_max_connections : Reads m "ws-max-connections" u64_max o.ws_max_connections
  pub ws_rate_limit : Reads m "ws-rate-limit" u64_max o.ws_rate_limit
  pub pubsub_interval : Reads m "pubsub-interval" u64_max o.pubsub_interval_secs
  pub gas_price : (gwei : ℕ) × Reads m "gas-price" u64_max gwei × (o.gas_price ≡ gwei * 1000000000)
  pub max_batch_size : Reads m "jsonrpc-max-batch" u64_max o.jsonrpc_max_batch_size

-- The text of an option is no number of its type.
abbrev Unreadable : Matches → String → ℕ → ArgError → Type 0
Unreadable m name greatest e =
    (text : Bytes) × (m.value_of name ≡ some text)
    × (parse_unsigned greatest text ≡ none)
    × (e ≡ value_validation name text)

abbrev pub IsUnreadable : Matches → List (String × ℕ) → ArgError → Type 0
IsUnreadable m [] e = ⊥
IsUnreadable m ((name, greatest) ∷ rest) e = Unreadable m name greatest e ⊎ IsUnreadable m rest e

abbrev pub numeric : List (String × ℕ)
numeric =
    ("threads", u64_max)
    ∷ ("http-port", u16_max)
    ∷ ("ws-port", u16_max)
    ∷ ("ws-max-connections", u64_max)
    ∷ ("ws-rate-limit", u64_max)
    ∷ ("pubsub-interval", u64_max)
    ∷ ("gas-price", u64_max)
    ∷ ("jsonrpc-max-batch", u64_max)
    ∷ []

abbrev Verdict : Matches → Outcome ArgError Options → Type 0
Verdict m r =
    ((o : Options) × (r ≡ ok o) × IsRead m o)
    ⊎ ((e : ArgError) × (r ≡ err e) × IsUnreadable m numeric e)

module _ (m : Matches) where
  -- One step of `settings`: a number is read, or the options are refused.
  read_then :
      (name : String) (greatest : ℕ) (next : ℕ → Outcome ArgError Options)
      → is_some (m.value_of name) ≡ true
      → ((e : ArgError) → Unreadable m name greatest e → IsUnreadable m numeric e)
      → ((v : ℕ) → Reads m name greatest v → Verdict m (next v))
      → Verdict m (value_t (parse_unsigned greatest) m name >>= next)
  read_then name greatest next there refuse read =
      let (text, found) = some_found (m.value_of name) there in
      elim (Option-cases (parse_unsigned greatest text)) [
        | inl bad ↦
            rw (found, bad)
              (inr (
                value_validation name text,
                refl,
                refuse (value_validation name text) (text, found, bad, refl),
              ))
        | inr (v, good) ↦
            rw (found, good) (read v (text, found, good, parse_unsigned-le greatest text v good))
      ]

  text_then :
      (name : String) (next : Bytes → Outcome ArgError Options)
      → is_some (m.value_of name) ≡ true
      → ((text : Bytes) → m.value_of name ≡ some text → Verdict m (next text))
      → Verdict m (value_t some m name >>= next)
  text_then name next there read =
      let (text, found) = some_found (m.value_of name) there in rw found (read text found)

  fits : (gwei : ℕ) → Reads m "gas-price" u64_max gwei → gwei < 2 ^ 64
  fits gwei (text, _, _, le) = omega arith

  -- From a command line that clap accepts, either every setting is read as its option says, each number
  -- within the range of its type, the price exactly in wei; or `main` returns the error that the text of
  -- one of the eight numeric options is no number of its type. It never misses an option.
  pub settings-Verdict :
      Accepts app m
      → ((o : Options) × (settings m ≡ ok o) × IsRead m o)
        ⊎ ((e : ArgError) × (settings m ≡ err e) × IsUnreadable m numeric e)
  unfolding settings
  settings-Verdict
        (
          _,
          (_, (http, (threads, (ws, (conns, (rate, (interval, (price, (batch, (iface, _)))))))))),
        ) =
      read_then "threads" u64_max _ threads.defaulted (λ e u. inl u)
        λ threads' t. text_then "interface" _ iface.defaulted λ iface' i.
          read_then "http-port" u16_max _ http.defaulted (λ e u. inr (inl u))
            λ http' h.
              read_then "ws-port" u16_max _ ws.defaulted (λ e u. inr (inr (inl u)))
                λ ws' w.
                  read_then "ws-max-connections" u64_max _ conns.defaulted
                    (λ e u. inr (inr (inr (inl u))))
                    λ conns' c.
                      read_then "ws-rate-limit" u64_max _ rate.defaulted
                        (λ e u. inr (inr (inr (inr (inl u)))))
                        λ rate' r.
                          read_then "pubsub-interval" u64_max _ interval.defaulted
                            (λ e u. inr (inr (inr (inr (inr (inl u))))))
                            λ interval' p.
                              read_then "gas-price" u64_max _ price.defaulted
                                (λ e u. inr (inr (inr (inr (inr (inr (inl u)))))))
                                λ price' g.
                                  read_then "jsonrpc-max-batch" u64_max _ batch.defaulted
                                    (λ e u. inr (inr (inr (inr (inr (inr (inr (inl u))))))))
                                    λ batch' b. inl (
                                      record {
                                        pubsub_interval_secs = interval';
                                        interface = iface';
                                        http_port = http';
                                        num_threads = threads';
                                        ws_port = ws';
                                        ws_max_connections = conns';
                                        ws_rate_limit = rate';
                                        gas_price = gwei_to_wei price';
                                        jsonrpc_max_batch_size = batch';
                                      },
                                      refl,
                                      record {
                                        num_threads = t;
                                        interface = i;
                                        http_port = h;
                                        ws_port = w;
                                        ws_max_connections = c;
                                        ws_rate_limit = r;
                                        pubsub_interval = p;
                                        gas_price =
                                            (price', g, gwei_to_wei_exact price' (fits price' g));
                                        max_batch_size = b;
                                      },
                                    )
