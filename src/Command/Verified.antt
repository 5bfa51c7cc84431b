-- ===== src/Command/Verified.antt =====
-- What `verify` of internal/app/verify.go promises of `Run` of internal/app/app.go on the same
-- directory.
use mqtt2prometheus.Base.{
  Text, ◌≡◌, ◌↔◌, refl, ◌∙◌, sym, ap, subst, Bool, true, false, List, [], ◌∷◌, ◌++◌, map, All,
}
use mqtt2prometheus.Base.Results.{Result, >>=-eq-ok, ok-injective}
use mqtt2prometheus.Platform.{Platform}
use mqtt2prometheus.Config.{Config}
use mqtt2prometheus.Config.Validate.{validate}
use mqtt2prometheus.Load.Files.{Files, load}
use mqtt2prometheus.Source.{Source, CompileError, bad_rule, nil_qos, compile_sources}
use mqtt2prometheus.Router.{Subscription, new_router, start, subscriptions}
use mqtt2prometheus.Exporter.{own, samples, own_metrics, register_all}
use mqtt2prometheus.Exporter.Register.{IsRegistry, IsNew, register_all-own_metrics}
use mqtt2prometheus.Outcome.{ok, err, ◌>>=◌, Status, compiled}
use mqtt2prometheus.App.{
  Outside, first_error, serve, connect, run_components, load_config, load_sources,
}
use mqtt2prometheus.App
use mqtt2prometheus.Command.Execute.{World, verify_dir}
use mqtt2prometheus.Command.Blames.{load_config-eq-ok, load_config-loaded}

first_error-eq-ok :
    {E : Type 0} (a b : Status E) → (first_error a b ≡ ok tt) ↔ ((a ≡ ok tt) × (b ≡ ok tt))
unfolding first_error
first_error-eq-ok (ok tt) b = (λ h. (refl, h), λ h. h.1)
first_error-eq-ok (err e) b = (λ h. (cc h, cc h), λ h. h.0)

-- The order in which the two components end does not matter for success.
run_components-eq-ok :
    {E F : Type 0} (o : Outside E) (cfg : Config F) (subs : List Subscription)
    → (run_components o cfg subs ≡ ok tt)
      ↔ ((serve (o.server cfg.listen) ≡ ok tt) × (connect o cfg subs ≡ ok tt))
unfolding run_components
run_components-eq-ok {E = E} o cfg subs = go o.server_first
  where
    served : Status E
    served = serve (o.server cfg.listen)

    met : Status E
    met = connect o cfg subs

    go :
        (b : Bool)
        → ((elim b [ true ↦ first_error served met | false ↦ first_error met served ]) ≡ ok tt)
          ↔ ((served ≡ ok tt) × (met ≡ ok tt))
    go true = first_error-eq-ok served met
    go false =
        let (to, from) = first_error-eq-ok met served in
        (λ h. ((to h).1, (to h).0), λ h. from (h.1, h.0))

compiled-eq-ok :
    (E : Type 0) {A : Type 0} (r : Result CompileError A) (a : A)
    → compiled {E = E} r ≡ ok a
    → r ≡ ok a
compiled-eq-ok E (err bad_rule) a h = cc
compiled-eq-ok E (err nil_qos) a h = cc
compiled-eq-ok E (ok b) a h = ap ok (ok-injective _ _ h)

module _ (P : Platform) where
  open P use {Float, Regexp}

  abbrev pub subscribed : List (Source Float Regexp) → List Subscription
  subscribed sources = subscriptions (start sources (new_router []))

  -- what `Verify` has seen of a directory that it accepts
  pub record IsVerified (files : Files Float) (dir : Text) (cfg : Config Float)
      (sources : List (Source Float Regexp)) : Type 0 where
    pub read : load files dir ≡ ok cfg
    pub valid : validate P cfg ≡ []
    pub made : compile_sources P cfg ≡ ok sources

module _ (P : Platform) {E : Type 0} where
  open P use {Float, Regexp}

  load_sources-IsVerified :
      (files : Files Float) (dir : Text) (cfg : Config Float) (sources : List (Source Float Regexp))
      → load_sources P {E = E} files dir ≡ ok (cfg, sources)
      → IsVerified P files dir cfg sources
  unfolding load_sources
  load_sources-IsVerified files dir cfg sources e =
      let (read, loaded, h) = >>=-eq-ok (load_config P {E = E} files dir) _ e in
      let (ss, made, k) = >>=-eq-ok (compiled {E = E} (compile_sources P read)) _ h in
      let found : IsVerified P files dir read ss = record {
        read = load_config-loaded P E files dir read loaded;
        valid = load_config-eq-ok P E files dir read loaded;
        made = compiled-eq-ok E (compile_sources P read) ss made;
      } in
      subst (λ (p : Config Float × List (Source Float Regexp)). IsVerified P files dir p.0 p.1)
        (ok-injective _ _ k) found

  -- If `verify` accepts a directory, then `Run` on it, with a registry that has none of the program's
  -- names, comes as far as the server and the connection: it has no error exactly if neither of them
  -- has one, in whichever order they end. The configuration is the one in the directory, is valid and
  -- compiles.
  pub verify_runs :
      (w : World P E) (dir : Text) (law : IsRegistry w.outside.register)
      → All (IsNew (law.names w.outside.new_registry)) own_metrics
      → verify_dir P w dir ≡ ok tt
      → (cfg : Config Float) × (sources : List (Source Float Regexp)) × IsVerified P w.files dir cfg
          sources
        × ((App.run P w.files w.outside dir ≡ ok tt) ↔ (
            (serve (w.outside.server cfg.listen) ≡ ok tt)
            × (connect w.outside cfg (subscribed P sources) ≡ ok tt)))
  unfolding verify_dir App.run
  verify_runs w dir law new h =
      let ((cfg, sources), both, _) = >>=-eq-ok (load_sources P {E = E} w.files dir) _ h in
      let (reg, registered, _) =
        register_all-own_metrics w.outside.register law w.outside.new_registry new in
      let runs : App.run P w.files w.outside dir
          ≡ run_components w.outside cfg (subscribed P sources) =
        ap (λ m. m >>= rest) both
        ∙ ap (λ r. r >>= (λ _. run_components w.outside cfg (subscribed P sources))) registered in
      (
        cfg,
        sources,
        load_sources-IsVerified w.files dir cfg sources both,
        subst
            (λ r. (r ≡ ok tt) ↔ (
              (serve (w.outside.server cfg.listen) ≡ ok tt)
              × (connect w.outside cfg (subscribed P sources) ≡ ok tt)))
            (sym runs) (run_components-eq-ok w.outside cfg (subscribed P sources)),
      )
    where
      rest : Config Float × List (Source Float Regexp) → Status E
      rest loaded =
          register_all w.outside.register w.outside.new_registry
            (map own own_metrics ++ samples ∷ [])
          >>= (λ _. run_components w.outside loaded.0 (subscribed P loaded.1))
