-- ===== src/Source/Fitting.antt =====
-- The writes of a source whose metrics have shapes: each fits the map of shapes.
use mqtt2prometheus.Base.{Text, List, [], ◌∷◌, All}
use mqtt2prometheus.Base.Dict.{Dict}
use mqtt2prometheus.Platform.{Platform}
use mqtt2prometheus.Config.Metrics.{Shape}
use mqtt2prometheus.Store.Uniform.{FitsWrite}
use mqtt2prometheus.Rules.Rule.{Rule}
use mqtt2prometheus.Source.{Source}
use mqtt2prometheus.Source.Conforms.{BeatFits, RuleFits, SourceFits}
use mqtt2prometheus.Source.Keeping.{BeatKeeps, RuleKeeps, SourceKeeps}

module _ (P : Platform) (m : Dict Shape) where
  open P use {Float, Regexp}

  beat-Keeps :
      (name : Text) (names : List Text)
      → BeatFits m name names
      → BeatKeeps P (FitsWrite m) name names
  beat-Keeps name names f labels now n = record { named = f.named; shape = rw n f.shape }

  rules-Keeps :
      (rules : List (Rule Float Regexp))
      → All (RuleFits m) rules
      → All (RuleKeeps P (FitsWrite m)) rules
  rules-Keeps [] h = tt
  rules-Keeps (r ∷ rules) (f, h) = (
    record {
      ordered = f.ordered;
      distinct = f.distinct;
      metric = λ d n. record { named = f.named; shape = rw n f.shape };
      heartbeat = λ given. beat-Keeps r.last_updated_metric r.auto_labels (f.heartbeat given);
    },
    rules-Keeps rules h,
  )

  pub sources-Keeps :
      (sources : List (Source Float Regexp))
      → All (SourceFits m) sources
      → All (SourceKeeps P (FitsWrite m)) sources
  sources-Keeps [] h = tt
  sources-Keeps (s ∷ sources) (f, h) = (
    record {
      rules = rules-Keeps s.rules f.rules;
      ordered = f.ordered;
      distinct = f.distinct;
      heartbeat = λ given. beat-Keeps s.last_updated_metric s.labels.names (f.heartbeat given);
    },
    sources-Keeps sources h,
  )
