-- ===== src/Command/Subcommands.antt =====
-- The subcommands of internal/app/command.go, one by one: which of their outcomes have the exit code 2.
use mqtt2prometheus.Base.{
  Text, ℕ, ◌≡◌, refl, ◌∙◌, Bool, true, false, ◌||◌, ◌==◌, ltb, eqb, codes, Option, none, some, List,
  [], ◌∷◌, length, if◌then◌else◌, arith,
}
use mqtt2prometheus.Base.Results.{>>=-eq-ok}
use mqtt2prometheus.Platform.{Platform}
use mqtt2prometheus.Config.{Config}
use mqtt2prometheus.Config.Validate.{validate}
use mqtt2prometheus.Config.Validate.Sound.{validate_sound}
use mqtt2prometheus.Load.Files.{load}
use mqtt2prometheus.Http
use mqtt2prometheus.Outcome.{
  Misuse, unexpected, usage_error, dir_not_set, failed, Answer, ok, err, ◌>>=◌, ◌>>◌, Status,
  of_load,
}
use mqtt2prometheus.App.{client_run, listen_credentials}
use mqtt2prometheus.App
use mqtt2prometheus.Command.Flags.{
  Settings, Parsed, asked_help, bad_flags, flags, is_negative, is_below_one, arg, parse, refuse_if,
  check_discover, check_capture,
}
use mqtt2prometheus.Command.Execute.{
  World, Printed, flag_usage, waiting, closing, version_line, find_dir, loaded, configuration,
  parse_for, settings, granted, listening, joined_errors, follow, run_command, verify_dir,
  verify_command, healthcheck_command, version_command, discover_command, capture_command,
}
use mqtt2prometheus.Command.Blames.{
  blames, blames-bind, blames-status, blames-of_load, blames-client_run, blames-load_config,
  blames-load_sources, load_config-eq-ok, blames-run,
}
use mqtt2prometheus.Command.Grammar.{Refusal, nothing, of_discover, of_capture, misparsed}

-- what cannot be blamed after `m` leaves the blame to it
blames-before :
    {E A B : Type 0} (m : Answer E A) (f : A → Answer E B)
    → ((a : A) → m ≡ ok a → blames (f a) ≡ false)
    → blames (m >>= f) ≡ blames m
blames-before (ok a) f h = h a refl
blames-before (err e) f h = refl

blames-checks :
    (E : Type 0) (a b c : Bool) (m n o : Misuse)
    → blames {E = E} (do refuse_if a m; refuse_if b n; refuse_if c o) ≡ (a || (b || c))
blames-checks E a b c m n o = ground arith

module _ (P : Platform) {E : Type 0} (w : World P E)
    (writes : (p : Printed) → w.write p ≡ none) where
  open P use {Float}

  blames-parse_for :
      {B : Type 0} (name : Text) (args : List Text) (max : ℕ) (wrong : Refusal)
      (f : Settings × List Text → Answer E B)
      → ((s : Settings) (rest : List Text) → blames (f (s, rest)) ≡ wrong s rest)
      → blames (parse_for P w name args max >>= f) ≡ misparsed max wrong (w.parse_flags name args)
  unfolding parse_for parse
  blames-parse_for name args max wrong f h =
      rw (writes (flag_usage name)) (go (w.parse_flags name args))
    where
      go : (p : Parsed) → blames (parse {E = E} none name p max >>= f) ≡ misparsed max wrong p
      go asked_help = refl
      go (bad_flags message) = refl
      go (flags s rest) = test (ltb max (length rest))
        where
          test :
              (b : Bool)
              → blames (
                  (if b then err (usage_error (unexpected name (arg max rest))) else ok (s, rest))
                  >>= f)
                ≡ (b || wrong s rest)
          test true = refl
          test false = h s rest

  blames-find_dir : blames (find_dir P w) ≡ false
  unfolding find_dir
  blames-find_dir = go (w.config_dir == [])
    where
      go : (b : Bool) → blames {E = E} (if b then err dir_not_set else ok w.config_dir) ≡ false
      go true = refl
      go false = refl

  -- a subcommand without values, after which nothing is to blame
  blames-settings :
      (name : Text) (args : List Text) (f : Text → Status E)
      → ((dir : Text) → blames (f dir) ≡ false)
      → blames (settings P w name args >>= f) ≡ misparsed 0 nothing (w.parse_flags name args)
  unfolding settings
  blames-settings name args f h =
      blames-before (settings P w name args) f (λ dir _. h dir)
      ∙ blames-parse_for name args 0 nothing _ (λ s rest. blames-find_dir)

  -- A valid configuration has a QoS, so that `follow` finds no nil pointer.
  blames-follow :
      (cfg : Config Float) (suffix filter : Text) (skip : Bool) (s : Settings)
      → validate P cfg ≡ []
      → blames (follow P w cfg suffix filter skip s) ≡ false
  unfolding follow listening
  blames-follow cfg suffix filter skip s h =
      let (qos, set, _) = (validate_sound P cfg h).process.qos in
      rw (writes waiting) (go qos cfg.mqtt.qos set)
    where
      blames-joined : (d e : Option E) → blames (joined_errors d e) ≡ false
      blames-joined none none = refl
      blames-joined (some d) none = refl
      blames-joined none (some e) = refl
      blames-joined (some d) (some e) = refl

      go :
          (qos : ℕ) (o : Option ℕ)
          → o ≡ some qos
          → blames (granted P w cfg o suffix filter skip s) ≡ false
      go qos none e = cc
      go qos (some q) e =
          blames-bind (client_run w.outside (listen_credentials cfg suffix) _) _
            (blames-client_run w.outside _ _) (λ _ _. blames-joined _ (w.write closing))

  blames-followed :
      (suffix filter : Text) (skip : Bool) (s : Settings)
      → blames (configuration P w >>= (λ cfg. follow P w cfg suffix filter skip s)) ≡ false
  unfolding configuration
  blames-followed suffix filter skip s =
      blames-bind (configuration P w) _
        (blames-bind (find_dir P w) _ blames-find_dir (λ dir _. blames-load_config P E w.files dir))
        (λ cfg h. blames-follow cfg suffix filter skip s (valid cfg h))
    where
      valid : (cfg : Config Float) → configuration P w ≡ ok cfg → validate P cfg ≡ []
      valid cfg h =
          let (dir, _, k) = >>=-eq-ok (find_dir P w) _ h in load_config-eq-ok P E w.files dir cfg k

  pub blames-discover :
      (args : List Text)
      → blames (discover_command P w args)
        ≡ misparsed 1 of_discover (w.parse_flags (codes "discover") args)
  unfolding discover_command check_discover
  blames-discover args = blames-parse_for (codes "discover") args 1 of_discover _ (λ s rest.
      blames-before (check_discover s) _ (λ _ _. blames-followed (codes "-discover") _ false s)
      ∙ blames-checks E (is_below_one s.depth) (is_negative s.count) (is_negative s.window) _ _ _)

  pub blames-capture :
      (args : List Text)
      → blames (capture_command P w args)
        ≡ misparsed 1 of_capture (w.parse_flags (codes "capture") args)
  unfolding capture_command check_capture
  blames-capture args = blames-parse_for (codes "capture") args 1 of_capture _ (λ s rest.
      blames-before (check_capture s (arg 0 rest)) _
        (λ _ _. blames-followed (codes "-capture") _ true s)
      ∙ blames-checks E (arg 0 rest == []) (is_negative s.count) (is_negative s.window) _ _ _)

  pub blames-version :
      (args : List Text)
      → blames (version_command P w args)
        ≡ misparsed 0 nothing (w.parse_flags (codes "version") args)
  unfolding version_command
  blames-version args =
      blames-parse_for (codes "version") args 0 nothing _
        (λ s rest. blames-status (w.write version_line))

  pub blames-run_command :
      (args : List Text)
      → blames (run_command P w args) ≡ misparsed 0 nothing (w.parse_flags (codes "run") args)
  unfolding run_command
  blames-run_command args = blames-settings (codes "run") args _ (λ dir.
      blames-bind (loaded P w dir) _ (blames-load_config P E w.files dir)
        (λ _ _. blames-run P E w.files w.outside dir))

  pub blames-verify :
      (args : List Text)
      → blames (verify_command P w args) ≡ misparsed 0 nothing (w.parse_flags (codes "verify") args)
  unfolding verify_command verify_dir
  blames-verify args = blames-settings (codes "verify") args _ (λ dir.
      blames-bind (App.load_sources P w.files dir) _ (blames-load_sources P E w.files dir)
        (λ read _. blames-status (w.write_report _)))

  pub blames-healthcheck :
      (args : List Text)
      → blames (healthcheck_command P w args)
        ≡ misparsed 0 nothing (w.parse_flags (codes "healthcheck") args)
  unfolding healthcheck_command Http.healthcheck Http.probed
  blames-healthcheck args = blames-settings (codes "healthcheck") args _ (λ dir.
      blames-bind (of_load (load w.files dir)) _ (blames-of_load E (load w.files dir))
        (λ cfg _. blames-probed (w.net.get (Http.health_url w.net cfg.listen))))
    where
      blames-probed : (r : Http.Probed E) → blames (Http.probed w.net r) ≡ false
      blames-probed (Http.unreachable e) = refl
      blames-probed (Http.answered code text) = go (eqb code 200)
        where
          go :
              (b : Bool)
              → blames (if b then ok tt else err (failed (w.net.bad_status text ∷ []))) ≡ false
          go true = refl
          go false = refl
