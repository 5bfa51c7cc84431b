-- ===== src/Router/Threads/Agree.antt =====
-- What a scrape shows at any moment, whatever the goroutines have done so far.
use mqtt2prometheus.Base.{◌≡◌, sym, ◌∙◌, subst, List, [], ◌∷◌, All, In}
use mqtt2prometheus.Base.Dict.{Dict}
use mqtt2prometheus.Base.Results.{ok, ok-injective}
use mqtt2prometheus.Platform.{Platform}
use mqtt2prometheus.Config.{Config}
use mqtt2prometheus.Config.Metrics.{Shape, joined}
use mqtt2prometheus.Config.Validate.{validate}
use mqtt2prometheus.Config.Validate.Sound.{validate_sound}
use mqtt2prometheus.Store.{Store, Sample, snapshot}
use mqtt2prometheus.Store.History.{Write, run}
use mqtt2prometheus.Store.Uniform.{
  FitsWrite, IsUniform, IsUniform-nil, write-IsUniform, snapshot-IsUniform,
}
use mqtt2prometheus.Source.{Source, compile_sources}
use mqtt2prometheus.Source.Conforms.{SourceFits}
use mqtt2prometheus.Source.Compiled.{HasMaps, compile_sources_total}
use mqtt2prometheus.Source.Fitting.{sources-Keeps}
use mqtt2prometheus.Router.Threads.Stored.{steps-IsWritten}
use mqtt2prometheus.Router.Threads.{Action, start_threads, steps}

module _ (P : Platform) where
  open P use {Float, Regexp}

  run-IsUniform :
      (m : Dict Shape) (ws : List (Write Float)) (s : Store Float)
      → All (FitsWrite m) ws
      → IsUniform P m s
      → IsUniform P m (run P s ws)
  run-IsUniform m [] s f u = u
  run-IsUniform m (w ∷ ws) s (f, fs) u = run-IsUniform m ws _ fs (write-IsUniform P m s w f u)

  -- If `Validate` finds no problem in a configuration, then at every moment of a run of its sources,
  -- with any interleaving of dispatches, of the single writes of the goroutines, of the end of the
  -- context and of a `Stop`, two samples of a scrape that share a metric name agree on help text, kind
  -- and label names, these joined by spaces. The maps of the configuration have each key once, and the
  -- metric name of no source's heartbeat holds the byte 0.
  pub scrapes_agree_always :
      (c : Config Float) (sources : List (Source Float Regexp)) (actions : List Action)
      (a b : Sample Float)
      → validate P c ≡ []
      → All HasMaps c.source_list
      → compile_sources P c ≡ ok sources
      → In a (snapshot P (steps P (start_threads [] sources) actions).samples)
      → In b (snapshot P (steps P (start_threads [] sources) actions).samples)
      → a.key.name ≡ b.key.name
      → (joined a.key.label_names ≡ joined b.key.label_names)
        × (a.help ≡ b.help)
        × (a.kind ≡ b.kind)
  scrapes_agree_always c sources actions a b h maps made =
      let valid = validate_sound P c h in
      let (result, made', fits) = compile_sources_total P c valid maps in
      let same : result ≡ sources = ok-injective _ _ (sym made' ∙ made) in
      let kept =
        sources-Keeps P valid.shapes sources (subst (All (SourceFits valid.shapes)) same fits) in
      let (ws, written, fit) = steps-IsWritten P (FitsWrite valid.shapes) sources actions kept in
      snapshot-IsUniform P valid.shapes _ a b (
        subst (IsUniform P valid.shapes) (sym written)
          (run-IsUniform valid.shapes ws [] fit (IsUniform-nil P valid.shapes)))
