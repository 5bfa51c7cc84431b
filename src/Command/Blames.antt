-- ===== src/Command/Blames.antt =====
-- Which errors of internal/app have the exit code 2: the loading of a directory, the connections and
-- `Run`.
use mqtt2prometheus.Base.{
  ap, ◌∙◌, Text, ◌≡◌, refl, subst, Bool, true, false, Option, none, some, List, [], ◌∷◌,
}
use mqtt2prometheus.Base.Results.{>>=-eq-ok, ok-injective}
use mqtt2prometheus.Platform.{Platform}
use mqtt2prometheus.Config.{Config}
use mqtt2prometheus.Config.Problems.{Problems}
use mqtt2prometheus.Config.Validate.{validate}
use mqtt2prometheus.Config.Validate.Sound.{validate_sound}
use mqtt2prometheus.Load.Files.{load}
use mqtt2prometheus.Load.Files
use mqtt2prometheus.Source.{Source, of_rules, compile_list, compile_with, compile_sources}
use mqtt2prometheus.Router.{Subscription}
use mqtt2prometheus.Exporter.{Target, Registered, added, refused, of_registered, register_all}
use mqtt2prometheus.Outcome.{
  usage_error, nil_pointer, Answer, ok, err, ◌>>=◌, Status, status, of_load, checked, compiled,
}
use mqtt2prometheus.App.{
  Outside, Served, ended, cancelled, run_credentials, connect, run_components, first_error, serve,
  client_run, load_config, load_sources,
}
use mqtt2prometheus.App

-- the errors with the exit code 2
abbrev pub blames : {E A : Type 0} → Answer E A → Bool
blames (ok a) = false
blames (err (usage_error m)) = true
blames (err nil_pointer) = true
blames (err _) = false

pub blames-bind :
    {E A B : Type 0} (m : Answer E A) (f : A → Answer E B)
    → blames m ≡ false
    → ((a : A) → m ≡ ok a → blames (f a) ≡ false)
    → blames (m >>= f) ≡ false
blames-bind (ok a) f h k = k a refl
blames-bind (err e) f h k = h

pub blames-status : {E : Type 0} (e : Option E) → blames (status e) ≡ false
blames-status none = refl
blames-status (some e) = refl

pub blames-of_load :
    (E : Type 0) {A : Type 0} (r : Files.Loaded A) → blames (of_load {E = E} r) ≡ false
blames-of_load E (ok a) = refl
blames-of_load E (err e) = refl

blames-checked :
    (E : Type 0) {A : Type 0} (ps : Problems) (a : A) → blames (checked {E = E} ps a) ≡ false
blames-checked E [] a = refl
blames-checked E (p ∷ ps) a = refl

blames-register_all :
    {E R : Type 0} (register : R → Target → Registered E R) (reg : R) (targets : List Target)
    → blames (register_all register reg targets) ≡ false
unfolding register_all
blames-register_all register reg [] = refl
blames-register_all register reg (t ∷ targets) =
    blames-bind (of_registered (register reg t)) _ (go (register reg t))
      (λ reg _. blames-register_all register reg targets)
  where
    go : {E R : Type 0} (r : Registered E R) → blames (of_registered r) ≡ false
    go (added reg) = refl
    go (refused e) = refl

blames-first_error :
    {E : Type 0} (first second : Status E)
    → blames first ≡ false
    → blames second ≡ false
    → blames (first_error first second) ≡ false
unfolding first_error
blames-first_error (ok _) second h k = k
blames-first_error (err e) second h k = h

blames-serve : {E : Type 0} (s : Served E) → blames (serve s) ≡ false
unfolding serve
blames-serve (ended e) = blames-status e
blames-serve (cancelled e) = blames-status e

pub blames-client_run :
    {E : Type 0} (o : Outside E) (creds : App.Credentials) (subs : List Subscription)
    → blames (client_run o creds subs) ≡ false
unfolding client_run
blames-client_run o creds subs =
    blames-bind (status (o.parse_url creds.url)) _ (blames-status _)
      (λ _ _. blames-status (o.dial (App.client_config creds) subs))

of_load-eq-ok :
    (E : Type 0) {A : Type 0} (r : Files.Loaded A) (a : A) → of_load {E = E} r ≡ ok a → r ≡ ok a
of_load-eq-ok E (ok b) a h = ap ok (ok-injective _ _ h)
of_load-eq-ok E (err e) a h = cc

checked-ok :
    {E A : Type 0} (ps : Problems) (a b : A) → checked {E = E} ps a ≡ ok b → (ps ≡ []) × (a ≡ b)
checked-ok [] a b h = (refl, cc h)
checked-ok (p ∷ ps) a b h = cc

module _ (P : Platform) (E : Type 0) where
  open P use {Float}

  pub blames-load_config :
      (files : Files.Files Float) (dir : Text) → blames (load_config P {E = E} files dir) ≡ false
  unfolding load_config
  blames-load_config files dir =
      blames-bind (of_load (load files dir)) _ (blames-of_load E (load files dir))
        (λ cfg _. blames-checked E (validate P cfg) cfg)

  -- a configuration that is loaded is valid
  pub load_config-eq-ok :
      (files : Files.Files Float) (dir : Text) (cfg : Config Float)
      → load_config P {E = E} files dir ≡ ok cfg
      → validate P cfg ≡ []
  unfolding load_config
  load_config-eq-ok files dir cfg h =
      let (read, _, h') = >>=-eq-ok (of_load {E = E} (load files dir)) _ h in
      let (valid, same) = checked-ok (validate P read) read cfg h' in
      subst (λ c. validate P c ≡ []) same valid

  -- and it is the one that the directory holds
  pub load_config-loaded :
      (files : Files.Files Float) (dir : Text) (cfg : Config Float)
      → load_config P {E = E} files dir ≡ ok cfg
      → load files dir ≡ ok cfg
  unfolding load_config
  load_config-loaded files dir cfg h =
      let (read, loaded, h') = >>=-eq-ok (of_load {E = E} (load files dir)) _ h in
      let (_, same) = checked-ok (validate P read) read cfg h' in
      of_load-eq-ok E (load files dir) read loaded ∙ ap ok same

  -- Compiling meets a nil QoS in no configuration that has one.
  blames-compiled :
      (cfg : Config Float)
      → validate P cfg ≡ []
      → blames (compiled {E = E} (compile_sources P cfg)) ≡ false
  unfolding compile_sources
  blames-compiled cfg h =
      let (qos, set, _) = (validate_sound P cfg h).process.qos in
      ap (λ o. blames (compiled {E = E} (compile_with P o cfg.mqtt.broker cfg.source_list))) set
      ∙ go (compile_list P qos cfg.mqtt.broker cfg.source_list)
    where
      go : {A : Type 0} (o : Option A) → blames (compiled {E = E} (of_rules o)) ≡ false
      go none = refl
      go (some a) = refl

  pub blames-load_sources :
      (files : Files.Files Float) (dir : Text) → blames (load_sources P {E = E} files dir) ≡ false
  unfolding load_sources
  blames-load_sources files dir =
      blames-bind (load_config P files dir) _ (blames-load_config files dir) (λ cfg h.
        blames-bind (compiled (compile_sources P cfg)) _
          (blames-compiled cfg (load_config-eq-ok files dir cfg h)) (λ sources _. refl))

  load_sources-eq-ok :
      (files : Files.Files Float) (dir : Text) (cfg : Config Float)
      (sources : List (Source Float P.Regexp))
      → load_sources P {E = E} files dir ≡ ok (cfg, sources)
      → validate P cfg ≡ []
  unfolding load_sources
  load_sources-eq-ok files dir cfg sources h =
      let (read, loaded, h') = >>=-eq-ok (load_config P {E = E} files dir) _ h in
      let (_, _, h'') = >>=-eq-ok (compiled {E = E} (compile_sources P read)) _ h' in
      subst (λ c. validate P c ≡ []) (cc h'') (load_config-eq-ok files dir read loaded)

  blames-connect :
      (o : Outside E) (cfg : Config Float) (subs : List Subscription)
      → validate P cfg ≡ []
      → blames (connect o cfg subs) ≡ false
  unfolding connect run_credentials
  blames-connect o cfg subs h =
      let (clean, set) = (validate_sound P cfg h).process.clean_session in
      rw set (blames-client_run o _ subs)

  blames-run_components :
      (o : Outside E) (cfg : Config Float) (subs : List Subscription)
      → validate P cfg ≡ []
      → blames (run_components o cfg subs) ≡ false
  unfolding run_components
  blames-run_components o cfg subs h = go o.server_first
    where
      served : Status E
      served = serve (o.server cfg.listen)

      met : Status E
      met = connect o cfg subs

      go :
          (b : Bool)
          → blames (elim b [ true ↦ first_error served met | false ↦ first_error met served ])
            ≡ false
      go true =
          blames-first_error _ _ (blames-serve (o.server cfg.listen)) (blames-connect o cfg subs h)
      go false =
          blames-first_error _ _ (blames-connect o cfg subs h) (blames-serve (o.server cfg.listen))

  pub blames-run :
      (files : Files.Files Float) (o : Outside E) (dir : Text)
      → blames (App.run P files o dir) ≡ false
  unfolding App.run
  blames-run files o dir =
      blames-bind (load_sources P files dir) _ (blames-load_sources files dir) (λ loaded h.
        blames-bind (register_all o.register o.new_registry _) _
          (blames-register_all o.register o.new_registry _)
          (λ _ _.
            blames-run_components o loaded.0 _ (load_sources-eq-ok files dir loaded.0 loaded.1 h)))
