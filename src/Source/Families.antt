-- ===== src/Source/Families.antt =====
-- From the configuration to the scrape: what the messages of valid sources leave in the store.
use mqtt2prometheus.Base.{Text, ℕ, ◌≡◌, List, [], ◌∷◌, All, In, inl, inr, subst, sym, ◌∙◌}
use mqtt2prometheus.Base.Dict.{Dict}
use mqtt2prometheus.Base.Results.{ok, ok-injective}
use mqtt2prometheus.Platform.{Platform}
use mqtt2prometheus.Config.{Config}
use mqtt2prometheus.Config.Metrics.{Shape, joined}
use mqtt2prometheus.Config.Validate.{validate}
use mqtt2prometheus.Config.Validate.Sound.{validate_sound}
use mqtt2prometheus.Store.{Store, Sample, snapshot}
use mqtt2prometheus.Store.Uniform.{IsUniform, IsUniform-nil, snapshot-IsUniform}
use mqtt2prometheus.Source.{Source, apply, compile_sources}
use mqtt2prometheus.Source.Conforms.{SourceFits, apply-IsUniform}
use mqtt2prometheus.Source.Compiled.{HasMaps, compile_sources_total}

-- A message that a source handles, with the time at which it does.
pub record Event (F R : Type 0) : Type 0 where
  pub source : Source F R
  pub now : ℕ
  pub topic : Text
  pub payload : Text

-- Every event is handled by one of the sources.
abbrev pub HandledBy : {F R : Type 0} → List (Source F R) → List (Event F R) → Type 0
HandledBy sources = All (λ e. In e.source sources)

module _ (P : Platform) where
  open P use {Float, Regexp}

  unfoldable pub handle_all : Store Float → List (Event Float Regexp) → Store Float
  handle_all s [] = s
  handle_all s (e ∷ events) = handle_all (apply P e.source s e.now e.topic e.payload).samples events

  source_fits :
      (m : Dict Shape) (s : Source Float Regexp) (sources : List (Source Float Regexp))
      → All (SourceFits m) sources
      → In s sources
      → SourceFits m s
  source_fits m s [] f h = absurd h
  source_fits m s (t ∷ sources) (f, fs) (inl e) = subst (SourceFits m) (sym e) f
  source_fits m s (t ∷ sources) (f, fs) (inr h) = source_fits m s sources fs h

  handle_all-IsUniform :
      (m : Dict Shape) (sources : List (Source Float Regexp)) (events : List (Event Float Regexp))
      (s : Store Float)
      → All (SourceFits m) sources
      → HandledBy sources events
      → IsUniform P m s
      → IsUniform P m (handle_all s events)
  unfolding handle_all
  handle_all-IsUniform m sources [] s fits h u = u
  handle_all-IsUniform m sources (e ∷ events) s fits (h, hs) u =
      handle_all-IsUniform m sources events _ fits hs (
        apply-IsUniform P m e.source s e.now e.topic e.payload
          (source_fits m e.source sources fits h) u)

  -- A configuration in which `Validate` finds no problem is compiled: no expression is refused and no
  -- nil pointer is read. The maps of the configuration have each key once, and the metric name of no
  -- source's heartbeat holds the byte 0.
  pub compile_sources_defined :
      (c : Config Float)
      → validate P c ≡ []
      → All HasMaps c.source_list
      → (sources : List (Source Float Regexp)) × (compile_sources P c ≡ ok sources)
  compile_sources_defined c h maps =
      let (sources, made, _) = compile_sources_total P c (validate_sound P c h) maps in
      (sources, made)

  -- If `Validate` finds no problem in a configuration, then whatever messages its sources handle, in
  -- any order and at any times, two samples of a scrape that share a metric name agree on help text,
  -- kind and label names, these joined by spaces as `Validate` compares them. The maps of the
  -- configuration have each key once, and the metric name of no source's heartbeat holds the byte 0.
  pub families_agree :
      (c : Config Float) (sources : List (Source Float Regexp)) (events : List (Event Float Regexp))
      (a b : Sample Float)
      → validate P c ≡ []
      → All HasMaps c.source_list
      → compile_sources P c ≡ ok sources
      → HandledBy sources events
      → In a (snapshot P (handle_all [] events))
      → In b (snapshot P (handle_all [] events))
      → a.key.name ≡ b.key.name
      → (joined a.key.label_names ≡ joined b.key.label_names)
        × (a.help ≡ b.help)
        × (a.kind ≡ b.kind)
  families_agree c sources events a b h maps made handled =
      let valid = validate_sound P c h in
      let (result, made', fits) = compile_sources_total P c valid maps in
      let same : result ≡ sources = ok-injective _ _ (sym made' ∙ made) in
      snapshot-IsUniform P valid.shapes _ a b (
        handle_all-IsUniform valid.shapes sources events []
          (subst (All (SourceFits valid.shapes)) same fits) handled (IsUniform-nil P valid.shapes))
