-- ===== src/Gateway/Run/Startup.antt =====
-- What a successful start-up of the gateway (gateway/src/run.rs, rpc.rs, rpc_apis.rs) leaves behind, and
-- what the broker (gateway/src/pubsub.rs) makes of it.
use oasis_ethwasi_runtime.Prelude.{
  ℕ, suc, ◌≡◌, refl, ap, sym, ◌∙◌, List, [], ◌∷◌, ◌++◌, Option, none, some, is_some, Bool, true,
  Outcome, ok, err, panic, ◌⊎◌, inl, inr, >>=-eq-ok, arith,
}
use oasis_ethwasi_runtime.Prelude.Bytes.{Bytes}
use oasis_ethwasi_runtime.Prelude.Texts.{codes}
use oasis_ethwasi_runtime.Gateway.Pubsub.{Broker, add_listener, start}
use oasis_ethwasi_runtime.Gateway.Pubsub.Gathered.{occurrences}
use oasis_ethwasi_runtime.Gateway.Pubsub.Once.{Heard, newest, start-Heard}
use oasis_ethwasi_runtime.Gateway.RpcApis.{
  unsafe_context, extend_with_set, extend_api, extend_one, list_apis,
}
use oasis_ethwasi_runtime.Gateway.Rpc.{
  Listeners, Servers, setup_apis, new_ws, new_http, ws_at, http_at, started_ws, started_http,
}
use oasis_ethwasi_runtime.Gateway.Rpc.Configuration.{WsConfiguration, HttpConfiguration, url}
use oasis_ethwasi_runtime.Gateway.Translator.{new_translator}
use oasis_ethwasi_runtime.Gateway.Run.{
  Options, ws_conf, http_conf, RunningGateway, start_second, start_servers, start_broker, execute,
}

-- The listeners after a server with the default APIs was set up.
abbrev after_one : Listeners → Listeners
after_one s = record {
  broker = record (s.broker) { listeners = s.broker.listeners ++ (s.fresh ∷ []) };
  fresh = suc s.fresh;
}

once : (l n : ℕ) → (l ≡ n) ⊎ (l ≡ suc n) → occurrences l (n ∷ suc n ∷ []) ≡ 1
unfolding occurrences
once l n (inl e) = ground arith
once l n (inr e) = ground arith

abbrev Listens :
    {WsServer HttpServer : Type 0}
    → Listeners
    → RunningGateway WsServer HttpServer
    → Broker
    → Type 0
Listens s gw b =
    (is_some gw.ws_server ≡ true)
    × (is_some gw.http_server ≡ true)
    × (b.listeners ≡ s.fresh ∷ suc s.fresh ∷ [])
    × (b.last_notified_block ≡ s.broker.last_notified_block)
    × ((l : ℕ) (live : ℕ → Bool) (polls : List (Outcome Bytes ℕ))
        → (l ≡ s.fresh) ⊎ (l ≡ suc s.fresh)
        → live l ≡ true
        → Heard l b (start live polls b).notices (start live polls b).broker
          × ((start live polls b).broker.last_notified_block ≡ newest polls b.last_notified_block))

module _ {Addr WsServer HttpServer : Type 0} (servers : Servers Addr WsServer HttpServer) where
  started_ws-ok :
      (at : Bytes) (r : Option Bytes ⊎ WsServer) (w : Option WsServer)
      → started_ws servers at r ≡ ok w
      → is_some w ≡ true
  unfolding started_ws
  started_ws-ok at (inl e) w h = cc
  started_ws-ok at (inr server) w h = let same : some server ≡ w = cc in ap is_some (sym same)

  started_http-ok :
      (id options at : Bytes) (r : Option Bytes ⊎ HttpServer) (w : Option HttpServer)
      → started_http servers id options at r ≡ ok w
      → is_some w ≡ true
  unfolding started_http
  started_http-ok id options at (inl e) w h = cc
  started_http-ok id options at (inr server) w h =
      let same : some server ≡ w = cc in ap is_some (sym same)

  ws_at-ok :
      (conf : WsConfiguration) (s : Listeners) (a : Option Addr) (w : Option WsServer)
      → (ws_at servers conf s a).1 ≡ ok w
      → (is_some w ≡ true) × ((ws_at servers conf s a).0 ≡ (setup_apis conf.apis s).0)
  unfolding ws_at
  ws_at-ok conf s none w h = cc
  ws_at-ok conf s (some addr) w h = (started_ws-ok _ _ w h, refl)

  http_at-ok :
      (id options : Bytes) (conf : HttpConfiguration) (s : Listeners) (a : Option Addr)
      (w : Option HttpServer)
      → (http_at servers id options conf s a).1 ≡ ok w
      → (is_some w ≡ true) × ((http_at servers id options conf s a).0 ≡ (setup_apis conf.apis s).0)
  unfolding http_at
  http_at-ok id options conf s none w h = cc
  http_at-ok id options conf s (some addr) w h = (started_http-ok _ _ _ _ w h, refl)

  setup_default : (s : Listeners) → (setup_apis unsafe_context s).0 ≡ after_one s
  unfolding setup_apis extend_with_set extend_api extend_one list_apis add_listener
  setup_default s = refl

  start_second-ok :
      (o : Options) (s : Listeners) (ws : Outcome Bytes (Option WsServer))
      (gw : RunningGateway WsServer HttpServer)
      → (start_second servers o s ws).1 ≡ ok gw
      → (w : Option WsServer) × (ws ≡ ok w)
        × (gw.translator ≡ new_translator o.gas_price)
        × (gw.ws_server ≡ w)
        × (is_some gw.http_server ≡ true)
        × ((start_second servers o s ws).0 ≡ after_one s)
  unfolding start_second new_http http_conf
  start_second-ok o s (err e) gw h = cc
  start_second-ok o s panic gw h = cc
  start_second-ok o s (ok w) gw h =
      let conf = http_conf o in
      let r =
        http_at servers (codes "HTTP JSON-RPC") (codes "jsonrpc") conf s
          (servers.parse_addr (url conf.interface conf.port)) in
      let (http, listening, made) =
        >>=-eq-ok r.1
          (λ h.
            ok (record { translator = new_translator o.gas_price; http_server = h; ws_server = w }))
          h in
      let (up, registered) =
        http_at-ok (codes "HTTP JSON-RPC") (codes "jsonrpc") conf s _ http listening in
      let both : record {
        translator = new_translator o.gas_price;
        http_server = http;
        ws_server = w;
      }
          ≡ gw =
        cc in
      (
        w,
        refl,
        ap (λ g. g.translator) (sym both),
        ap (λ g. g.ws_server) (sym both),
        ap (λ g. is_some g.http_server) (sym both) ∙ up,
        registered ∙ setup_default s,
      )

  -- Where both servers come up, each has registered a listener of its own.
  start_servers-ok :
      (o : Options) (s : Listeners) (gw : RunningGateway WsServer HttpServer)
      → (start_servers servers o s).1 ≡ ok gw
      → (is_some gw.ws_server ≡ true)
        × (is_some gw.http_server ≡ true)
        × ((start_servers servers o s).0 ≡ after_one (after_one s))
  unfolding start_servers new_ws ws_conf
  start_servers-ok o s gw h =
      let conf = ws_conf o in
      let (w, listening, _, same, http, second) = start_second-ok o _ _ gw h in
      let (up, first) =
        ws_at-ok conf s (servers.parse_addr (url conf.interface conf.port)) w listening in
      (ap is_some same ∙ up, http, second ∙ ap after_one (first ∙ setup_default s))

  start_broker-Hears :
      (timer : Outcome Bytes (Unit {0})) (o : Options) (s : Listeners)
      (gw : RunningGateway WsServer HttpServer)
      → s.broker.listeners ≡ []
      → (start_broker servers timer o s).1 ≡ ok gw
      → Listens s gw (start_broker servers timer o s).0.broker
  unfolding start_broker
  start_broker-Hears (err e) o s gw none_yet h = cc
  start_broker-Hears panic o s gw none_yet h = cc
  start_broker-Hears (ok u) o s gw none_yet h =
      let (ws, http, made) = start_servers-ok o s gw h in
      let b = (start_servers servers o s).0.broker in
      let two : b.listeners ≡ s.fresh ∷ suc s.fresh ∷ [] =
        ap (λ x. x.broker.listeners) made
        ∙ ap (λ ls. (ls ++ (s.fresh ∷ [])) ++ (suc s.fresh ∷ [])) none_yet in
      (
        ws,
        http,
        two,
        ap (λ x. x.broker.last_notified_block) made,
        λ l live polls one alive.
            start-Heard live l polls b alive (ap (occurrences l) two ∙ once l s.fresh one),
      )

  -- Where the start-up succeeds and nothing listened to the broker before it, the WebSocket and the HTTP
  -- server are both up and exactly two listeners are registered; and as long as such a listener is alive,
  -- it hears of every block after the last notified one, up to the highest that a poll saw, of each once
  -- and in order, whatever the polls return.
  pub execute-Hears :
      (new_interval : ℕ → Outcome Bytes (Unit {0})) (sync : Outcome Bytes (Unit {0})) (o : Options)
      (s : Listeners) (gw : RunningGateway WsServer HttpServer)
      → s.broker.listeners ≡ []
      → (execute servers new_interval sync o s).1 ≡ ok gw
      → let b = (execute servers new_interval sync o s).0.broker in
        (is_some gw.ws_server ≡ true)
        × (is_some gw.http_server ≡ true)
        × (b.listeners ≡ s.fresh ∷ suc s.fresh ∷ [])
        × (b.last_notified_block ≡ s.broker.last_notified_block)
        × ((l : ℕ) (live : ℕ → Bool) (polls : List (Outcome Bytes ℕ))
            → (l ≡ s.fresh) ⊎ (l ≡ suc s.fresh)
            → live l ≡ true
            → Heard l b (start live polls b).notices (start live polls b).broker
              × ((start live polls b).broker.last_notified_block
                  ≡ newest polls b.last_notified_block))
  unfolding execute
  execute-Hears new_interval (err e) o s gw none_yet h = cc
  execute-Hears new_interval panic o s gw none_yet h = cc
  execute-Hears new_interval (ok u) o s gw none_yet h =
      start_broker-Hears (new_interval o.pubsub_interval_secs) o s gw none_yet h
