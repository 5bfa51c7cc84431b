-- ===== src/App.antt =====
-- internal/app/app.go: what `Run` puts together, and the connections of internal/broker/paho.go that it
-- and `listen` of internal/app/listen.go open. The goroutines of `runComponents` are their results, in
-- the order in which they come.
use mqtt2prometheus.Base.{Text, ℕ, Bool, true, false, Option, none, some, List, [], ◌∷◌, ◌++◌, map}
use mqtt2prometheus.Platform.{Platform}
use mqtt2prometheus.Config.{Config}
use mqtt2prometheus.Config.Validate.{validate}
use mqtt2prometheus.Load.Files.{Files, load}
use mqtt2prometheus.Source.{Source, compile_sources}
use mqtt2prometheus.Router.{Subscription, new_router, start, subscriptions}
use mqtt2prometheus.Exporter.{Target, Registered, own, samples, own_metrics, register_all}
use mqtt2prometheus.Outcome.{
  nil_pointer, Answer, ok, err, ◌>>=◌, ◌>>◌, Status, status, of_load, checked, compiled,
}

-- broker.Credentials
pub record Credentials : Type 0 where
  pub url : Text
  pub client_id : Text
  pub username : Text
  pub password : Text
  pub clean_session : Bool

-- autopaho.ClientConfig, in the fields that `clientConfig` sets, without the callbacks
pub record ClientConfig : Type 0 where
  pub server_url : Text
  pub keep_alive : ℕ
  pub clean_start : Bool
  pub session_expiry : ℕ
  pub connect_username : Text
  pub connect_password : Text
  pub client_id : Text

unfoldable pub client_config : Credentials → ClientConfig
client_config creds = record {
  server_url = creds.url;
  keep_alive = 20;
  clean_start = creds.clean_session;
  session_expiry = 3600;
  connect_username = creds.username;
  connect_password = creds.password;
  client_id = creds.client_id;
}

-- What the parts of `Run` take from outside. A function into `Option E` tells the error, if there is
-- one: of `ListenAndServe` where it ends by itself, other than that of a server that is closed, and of
-- `Shutdown` where the context ends first; of parsing the URL of the broker and of connecting.
pub data Served (E : Type 0) : Type 0 where
  ended : Option E → Served E
  cancelled : Option E → Served E

pub record Outside (E : Type 0) : Type 1 where
  pub Registry : Type 0
  pub new_registry : Registry
  pub register : Registry → Target → Registered E Registry
  pub server : Text → Served E
  pub parse_url : Text → Option E
  pub dial : ClientConfig → List Subscription → Option E
  -- whether the result of the server comes before that of the connection
  pub server_first : Bool

-- the `CleanSession: *cfg.MQTT.CleanSession` of `connect`
unfoldable pub run_credentials : {F : Type 0} → Config F → Option Credentials
run_credentials cfg = elim cfg.mqtt.clean_session [
  | none ↦ none
  | some clean ↦ some (record {
    url = cfg.mqtt.broker;
    client_id = cfg.mqtt.client_id;
    username = cfg.mqtt.username;
    password = cfg.mqtt.password;
    clean_session = clean;
  })
]

-- those of `listen`
unfoldable pub listen_credentials : {F : Type 0} → Config F → Text → Credentials
listen_credentials cfg suffix = record {
  url = cfg.mqtt.broker;
  client_id = cfg.mqtt.client_id ++ suffix;
  username = cfg.mqtt.username;
  password = cfg.mqtt.password;
  clean_session = true;
}

-- the error that `runComponents` keeps of two
unfoldable pub first_error : {E : Type 0} → Status E → Status E → Status E
first_error (ok _) second = second
first_error (err e) second = err e

unfoldable pub serve : {E : Type 0} → Served E → Status E
serve (ended e) = status e
serve (cancelled e) = status e

module _ {E : Type 0} (o : Outside E) where
  -- `Paho.Run`: once it is connected it ends with its context and without an error, since one of
  -- `Disconnect` is only logged.
  unfoldable pub client_run : Credentials → List Subscription → Status E
  unfolding client_config
  client_run creds subs =
      status (o.parse_url creds.url) >> status (o.dial (client_config creds) subs)

  abbrev pub connect_with : List Subscription → Option Credentials → Status E
  connect_with subs none = err nil_pointer
  connect_with subs (some creds) = client_run creds subs

  unfoldable pub connect : {F : Type 0} → Config F → List Subscription → Status E
  unfolding run_credentials
  connect cfg subs = connect_with subs (run_credentials cfg)

  unfoldable pub run_components : {F : Type 0} → Config F → List Subscription → Status E
  unfolding serve connect first_error
  run_components cfg subs =
      let served : Status E = serve (o.server cfg.listen) in
      let met : Status E = connect cfg subs in
      elim o.server_first [ true ↦ first_error served met | false ↦ first_error met served ]

module _ (P : Platform) {E : Type 0} where
  open P use {Float, Regexp}

  -- `loadConfig` of internal/app/command.go
  unfoldable pub load_config : Files Float → Text → Answer E (Config Float)
  load_config files dir = do cfg ← of_load (load files dir); checked (validate P cfg) cfg

  -- `load` of internal/app/app.go
  unfoldable pub load_sources :
      Files Float → Text → Answer E (Config Float × List (Source Float Regexp))
  unfolding load_config
  load_sources files dir = do
    cfg ← load_config files dir
    sources ← compiled (compile_sources P cfg)
    ok (cfg, sources)

  unfoldable pub run : Files Float → Outside E → Text → Status E
  unfolding load_sources
  run files o dir = do
    (cfg, sources) ← load_sources files dir
    _ ← register_all o.register o.new_registry (map own own_metrics ++ samples ∷ [])
    run_components o cfg (subscriptions (start sources (new_router [])))
