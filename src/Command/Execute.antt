-- ===== src/Command/Execute.antt =====
-- `Execute` of internal/app/command.go with the subcommands, and `run` and `exitCode` of
-- cmd/mqtt2prometheus/main.go.
use mqtt2prometheus.Base.{
  Text, ℕ, Bool, true, false, ◌==◌, codes, Option, none, some, List, [], ◌∷◌, if◌then◌else◌,
}
use mqtt2prometheus.Platform.{Platform}
use mqtt2prometheus.Config.{Config}
use mqtt2prometheus.Load.Files.{Files}
use mqtt2prometheus.Router.{Subscription}
use mqtt2prometheus.Listen.{topic_filter}
use mqtt2prometheus.Report.{Format, report}
use mqtt2prometheus.Http.{Net}
use mqtt2prometheus.Http
use mqtt2prometheus.App.{
  Credentials, listen_credentials, Outside, client_run, load_config, load_sources,
}
use mqtt2prometheus.App
use mqtt2prometheus.Outcome.{
  Misuse, no_subcommand, unknown_subcommand, usage_error, help, dir_not_set, failed, nil_pointer,
  Answer, ok, err, ◌>>=◌, ◌>>◌, Status, status,
}
use mqtt2prometheus.Command.{
  Subcommand, run, verify, healthcheck, version, discover, capture, none_given, unknown, dispatch,
}
use mqtt2prometheus.Command.Flags.{Settings, Parsed, arg, parse, check_discover, check_capture}

-- what is written to the standard error and the standard output
pub data Printed : Type 0 where
  usage_text : Printed
  flag_usage : Text → Printed
  waiting : Printed
  closing : Printed
  version_line : Printed

-- What the commands take from outside: the environment, package `flag`, the files, the writers, the
-- connections, and the lines that `discover` and `capture` make of the messages. A function into
-- `Option E` tells the error, if there is one.
pub record World (P : Platform) (E : Type 0) : Type 1 where
  pub config_dir : Text
  pub parse_flags : Text → List Text → Parsed
  pub files : Files P.Float
  pub write : Printed → Option E
  pub write_report : Text → Option E
  pub format : Format
  pub net : Net E
  pub outside : Outside E
  -- the lines that the target of a connection gives out until it is closed, and the output
  pub target_lines : Credentials → Subscription → Settings → List Text
  pub write_line : Text → Option E

-- `errors.Join`
abbrev pub joined_errors : {E : Type 0} → Option E → Option E → Status E
joined_errors none none = ok tt
joined_errors (some e) none = err (failed (e ∷ []))
joined_errors none (some e) = err (failed (e ∷ []))
joined_errors (some e) (some d) = err (failed (e ∷ d ∷ []))

-- `drainLines`: the first error of the output ends it.
unfoldable pub drain_lines : {E : Type 0} → (Text → Option E) → List Text → Option E
drain_lines write_line [] = none
drain_lines write_line (line ∷ lines) =
    let rest = drain_lines write_line lines in
    elim (write_line line) [ none ↦ rest | some e ↦ some e ]

module _ (P : Platform) {E : Type 0} (w : World P E) where
  open P use {Float}

  abbrev pub loaded : Text → Answer E (Config Float)
  loaded dir = load_config P w.files dir

  unfoldable pub find_dir : Answer E Text
  find_dir = if w.config_dir == [] then err dir_not_set else ok w.config_dir

  unfoldable pub configuration : Answer E (Config Float)
  unfolding find_dir
  configuration = do dir ← find_dir; loaded dir

  unfoldable pub parse_for : Text → List Text → ℕ → Answer E (Settings × List Text)
  unfolding parse
  parse_for name args max = parse (w.write (flag_usage name)) name (w.parse_flags name args) max

  unfoldable pub settings : Text → List Text → Answer E Text
  unfolding parse_for find_dir
  settings name args = do _ ← parse_for name args 0; find_dir

  unfoldable pub usage : Misuse → Status E
  usage message = status (w.write usage_text) >> err (usage_error message)

  -- `listen` and `drainLines` run side by side; an error of `listen` comes before the others.
  unfoldable pub listening : Config Float → Text → Subscription → Settings → Status E
  unfolding drain_lines
  listening cfg suffix sub s =
      let creds = listen_credentials cfg suffix in
      client_run w.outside creds (sub ∷ [])
      >> joined_errors (drain_lines w.write_line (w.target_lines creds sub s)) (w.write closing)

  -- the `*cfg.MQTT.QoS` of `follow`
  abbrev pub granted : Config Float → Option ℕ → Text → Text → Bool → Settings → Status E
  granted cfg none suffix filter skip s = err nil_pointer
  granted cfg (some qos) suffix filter skip s =
      listening cfg suffix (record { filter = filter; qos = qos; skip_retained = skip }) s

  unfoldable pub follow : Config Float → Text → Text → Bool → Settings → Status E
  unfolding listening
  follow cfg suffix filter skip s =
      status (w.write waiting) >> granted cfg cfg.mqtt.qos suffix filter skip s

  unfoldable pub run_command : List Text → Status E
  unfolding settings
  run_command args = do
    dir ← settings (codes "run") args
    _ ← loaded dir
    App.run P w.files w.outside dir

  -- `Verify` of internal/app/verify.go
  unfoldable pub verify_dir : Text → Status E
  verify_dir dir = do
    (cfg, sources) ← load_sources P w.files dir
    status (w.write_report (report w.format cfg sources))

  unfoldable pub verify_command : List Text → Status E
  unfolding settings verify_dir
  verify_command args = do dir ← settings (codes "verify") args; verify_dir dir

  unfoldable pub healthcheck_command : List Text → Status E
  unfolding settings
  healthcheck_command args = do
    dir ← settings (codes "healthcheck") args
    Http.healthcheck w.net w.files dir

  unfoldable pub version_command : List Text → Status E
  unfolding parse_for
  version_command args = do _ ← parse_for (codes "version") args 0; status (w.write version_line)

  unfoldable pub discover_command : List Text → Status E
  unfolding parse_for check_discover configuration follow
  discover_command args = do
    (s, rest) ← parse_for (codes "discover") args 1
    check_discover s
    cfg ← configuration
    follow cfg (codes "-discover") (topic_filter (arg 0 rest)) false s

  unfoldable pub capture_command : List Text → Status E
  unfolding parse_for check_capture configuration follow
  capture_command args = do
    (s, rest) ← parse_for (codes "capture") args 1
    check_capture s (arg 0 rest)
    cfg ← configuration
    follow cfg (codes "-capture") (arg 0 rest) true s

  unfoldable pub perform : Subcommand → Status E
  unfolding run_command verify_command healthcheck_command version_command discover_command
      capture_command usage
  perform none_given = usage no_subcommand
  perform (unknown name) = usage (unknown_subcommand name)
  perform (run args) = run_command args
  perform (verify args) = verify_command args
  perform (healthcheck args) = healthcheck_command args
  perform (version args) = version_command args
  perform (discover args) = discover_command args
  perform (capture args) = capture_command args

  -- `Execute` takes the request for help for a success.
  abbrev pub forgive_help : Status E → Status E
  forgive_help (err help) = ok tt
  forgive_help m = m

  unfoldable pub execute : List Text → Status E
  unfolding perform dispatch
  execute args = forgive_help (perform (dispatch args))

-- `run` of main.go: 0, the code of the error, or the 2 of a panic
unfoldable pub exit_code : {E : Type 0} → Status E → ℕ
exit_code (ok _) = 0
exit_code (err (usage_error m)) = 2
exit_code (err nil_pointer) = 2
exit_code (err e) = 1
