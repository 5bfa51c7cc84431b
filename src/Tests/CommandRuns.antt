-- ===== src/Tests/CommandRuns.antt =====
-- A directory with one main file and one source file, and the commands in it.
use mqtt2prometheus.Base.{
  Text, ℕ, ◌≡◌, ◌↔◌, ◌-◌, ◌&&◌, refl, true, false, codes, none, some, List, [], ◌∷◌, ◌++◌, ◌==◌,
  ◌+◌, if◌then◌else◌, arith,
}
use mqtt2prometheus.Base.Dict.{lookup}
use mqtt2prometheus.Base.Sort.{sort_texts}
use mqtt2prometheus.Config.{Config, effective_broker}
use mqtt2prometheus.Config.Validate.{validate}
use mqtt2prometheus.Config.Validate.Sound.{IsConfig}
use mqtt2prometheus.Config.Validate.Complete.{validate-eq-nil}
use mqtt2prometheus.Source.{compile_sources}
use mqtt2prometheus.Source
use mqtt2prometheus.Rules.Rule.{compile_rule}
use mqtt2prometheus.Rules.Value.{new_extractor}
use mqtt2prometheus.Load.{expand_env, scan_env}
use mqtt2prometheus.Load.Files.{Files, decoded, decode_file, load_sources, load_listed, load}
use mqtt2prometheus.Load.Order.{IsLoaded, load_lem}
use mqtt2prometheus.Client.{new_client, on_events}
use mqtt2prometheus.Client.Ready.{last_up, any_message, ups}
use mqtt2prometheus.Http.{Response, respond, readyz, healthz, unreachable}
use mqtt2prometheus.Http.Readiness.{respond-on_events}
use mqtt2prometheus.Outcome.{ok}
use mqtt2prometheus.App.{Outside, cancelled, serve, connect}
use mqtt2prometheus.App
use mqtt2prometheus.Report.{Format, report}
use mqtt2prometheus.Report.Secrets.{DifferInSecrets, report_secret}
use mqtt2prometheus.Command.Flags.{pos, flags}
use mqtt2prometheus.Command.Execute.{World, exit_code, execute, verify_dir}
use mqtt2prometheus.Command.Grammar.{is_misuse}
use mqtt2prometheus.Command.Misuse.{misuse_lem}
use mqtt2prometheus.Command.Verified.{subscribed, IsVerified, verify_runs}
use mqtt2prometheus.Tests.Toy.{toy}
use mqtt2prometheus.Tests.ConfigRuns.{source_a, config_a, no_problems}
use mqtt2prometheus.Tests.SourceRuns.{compiled, made}
use mqtt2prometheus.Tests.ExporterRuns.{register_name, register_name-IsRegistry, own_metrics-IsNew}
use mqtt2prometheus.Tests.ClientRuns.{twice}

validate-eq-nil_example : (validate toy config_a ≡ []) ↔ IsConfig toy config_a
validate-eq-nil_example = validate-eq-nil toy config_a

abbrev files_a : Files ℕ
files_a = record {
  read_file = λ path. some path;
  lookup_env = λ name. none;
  glob = λ pattern. some (codes "s.yaml" ∷ []);
  join_path = λ dir name. name;
  base = λ path. path;
  decode_main = λ text. decoded (record config_a { source_list = [] });
  decode_source = λ text. decoded (record source_a { path = [] });
}

config_a_loaded : load files_a (codes "d") ≡ ok config_a
unfolding load decode_file load_sources load_listed expand_env scan_env sort_texts ◌==◌
config_a_loaded = refl

load_lem_example : IsLoaded files_a (codes "d") config_a
load_lem_example = load_lem files_a (codes "d") config_a config_a_loaded

abbrev outside_a : Outside Text
outside_a = record {
  Registry = List Text;
  new_registry = [];
  register = register_name;
  server = λ address. cancelled none;
  parse_url = λ url. none;
  dial = λ config subs. none;
  server_first = true;
}

abbrev format_a : Format
format_a = record {
  padded = λ width s. s;
  padded_number = λ width n. (48 + n) ∷ [];
  number = λ n. (48 + n) ∷ [];
}

-- The flags are at their defaults, and all arguments are left.
abbrev world_a : World toy Text
world_a = record {
  config_dir = codes "d";
  parse_flags = λ name args. flags (record { window = pos 30; count = pos 0; depth = pos 1 }) args;
  files = files_a;
  write = λ p. none;
  write_report = λ text. none;
  format = format_a;
  net = record {
    split_host_port = λ address. none;
    join_host_port = λ host port. host ++ b':' ∷ port;
    get = λ url. unreachable (codes "refused");
    bad_status = λ status. status;
  };
  outside = outside_a;
  target_lines = λ creds sub s. codes "a/b" ∷ [];
  write_line = λ line. none;
}

misuse_lem_example :
    (exit_code (execute toy world_a (codes "capture" ∷ [])) ≡ 2)
    ↔ (is_misuse world_a.parse_flags (codes "capture" ∷ []) ≡ true)
misuse_lem_example = misuse_lem toy world_a (λ p. refl) (codes "capture" ∷ [])

capture_without_filter : is_misuse world_a.parse_flags (codes "capture" ∷ []) ≡ true
unfolding lookup ◌==◌
capture_without_filter = refl

dir_accepted : verify_dir toy world_a (codes "d") ≡ ok tt
unfolding verify_dir App.load_sources App.load_config
dir_accepted = rw (config_a_loaded, no_problems, made) refl

verify_runs_example :
    (cfg : Config ℕ) × (sources : List (Source.Source ℕ Text)) × IsVerified toy files_a
      (codes "d")
      cfg
      sources
    × ((App.run toy files_a outside_a (codes "d") ≡ ok tt) ↔ (
        (serve (outside_a.server cfg.listen) ≡ ok tt)
        × (connect outside_a cfg (subscribed toy sources) ≡ ok tt)))
unfolding register_name-IsRegistry
verify_runs_example =
    verify_runs toy world_a (codes "d") register_name-IsRegistry own_metrics-IsNew dir_accepted

abbrev config_with : Text → Text → Text → Config ℕ
config_with credentials username password = record config_a {
  mqtt = record config_a.mqtt {
    broker = codes "tcp://" ++ (credentials ++ codes "@h");
    username = username;
    password = password;
  };
}

abbrev config_one : Config ℕ
config_one = config_with (codes "u:p") (codes "u") (codes "p")

abbrev config_two : Config ℕ
config_two = config_with (codes "v") (codes "v") (codes "q")

differ : DifferInSecrets toy config_one config_two
differ = record {
  sources = refl;
  qos = refl;
  client_id = refl;
  listen = refl;
  usernames = (λ e. cc e, λ e. cc e);
  passwords = (λ e. cc e, λ e. cc e);
  scheme = codes "tcp";
  host = codes "h";
  is_scheme = (omega arith, (omega arith, (omega arith, tt)));
  is_host = (omega arith, tt);
  first = (codes "u:p", refl);
  second = (codes "v", refl);
}

abbrev sources_one : List (Source.Source ℕ Text)
sources_one = record compiled { broker_url = config_one.mqtt.broker } ∷ []

abbrev sources_two : List (Source.Source ℕ Text)
sources_two = record compiled { broker_url = config_two.mqtt.broker } ∷ []

made_one : compile_sources toy config_one ≡ ok sources_one
unfolding compile_sources compiled compile_rule new_extractor effective_broker ◌==◌
made_one = refl

made_two : compile_sources toy config_two ≡ ok sources_two
unfolding compile_sources compiled compile_rule new_extractor effective_broker ◌==◌
made_two = refl

report_secret_example :
    report format_a config_one sources_one ≡ report format_a config_two sources_two
report_secret_example =
    report_secret toy format_a config_one config_two sources_one sources_two differ made_one
      made_two

abbrev page : Response
page = record { status = 200; content_type = []; body = [] }

respond-on_events_example :
    ((respond page (on_events new_client twice) readyz).status
      ≡ (if last_up false twice && any_message twice then 200 else 503))
    × ((respond page (on_events new_client twice) healthz).status ≡ 200)
    × ((on_events new_client twice).reconnects ≡ ups twice - 1)
respond-on_events_example = respond-on_events page twice
