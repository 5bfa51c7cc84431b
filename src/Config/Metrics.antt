-- ===== src/Config/Metrics.antt =====
-- `validateMetricConsistency` of internal/config/validate.go: the rules that share a metric name. The
-- map `seen` is passed on as state.
pub mod Laws
pub mod Complete
use mqtt2prometheus.Base.{
  Text, ℕ, suc, Bool, not, ◌||◌, ◌==◌, join, Option, none, some, List, [], ◌∷◌, ◌++◌, if◌then◌else◌,
}
use mqtt2prometheus.Base.Dict.{Dict, lookup, insert}
use mqtt2prometheus.Platform.{Platform}
use mqtt2prometheus.Config.{Source, Rule, heartbeat_help, type_gauge}
use mqtt2prometheus.Config.Labels.{label_names, named}
use mqtt2prometheus.Config.Problems.{
  Where, file, rule, Problems, other_labels, other_help, other_kind, flag,
}

pub record Shape : Type 0 where
  pub labels : Text
  pub help : Text
  pub kind : Text

-- `seen` and the problems so far
abbrev pub Seen : Type 0
Seen = Problems × Dict Shape

unfoldable pub heartbeat_shape : Text → Shape
heartbeat_shape labels = record { labels = labels; help = heartbeat_help; kind = type_gauge }

unfoldable pub differences : Shape → Where → Text → Shape → Problems
differences m at name other =
    let p₁ =
      flag [] (not (m.labels == other.labels)) (other_labels at name m.labels other.labels) in
    let p₂ = flag p₁ (not (m.help == other.help)) (other_help at name m.help other.help) in
    flag p₂ (not (m.kind == other.kind)) (other_kind at name m.kind other.kind)

-- the two branches of `record`: on a name without a shape and with one
unfoldable pub record_found : Option Shape → Where → Text → Shape → Seen → Seen
unfolding differences
record_found none at name shape (p, seen) = (p, insert name shape seen)
record_found (some first) at name shape (p, seen) = (p ++ differences first at name shape, seen)

unfoldable pub record_shape : Where → Text → Shape → Seen → Seen
record_shape at name shape (p, seen) = record_found (lookup name seen) at name shape (p, seen)

-- the call for a `last_updated_metric`, which may be missing
unfoldable pub record_heartbeat : Where → Text → Text → Seen → Seen
record_heartbeat at name labels state =
    if not (name == []) then record_shape at name (heartbeat_shape labels) state else state

-- the label names, separated by blanks
abbrev pub joined : List Text → Text
joined names = join names (32 ∷ [])

module _ (P : Platform) where
  open P use {Float, Regexp, compile, subexp_names}

  abbrev pub rule_labels : Regexp → Rule Float → Source Float → Text
  rule_labels re r s = joined (label_names (named (subexp_names re)) (r.labels ∷ s.labels ∷ []))

  abbrev pub rule_shape : Regexp → Rule Float → Source Float → Shape
  rule_shape re r s = record { labels = rule_labels re r s; help = r.help; kind = r.type }

  abbrev pub source_labels : Source Float → Text
  source_labels s = joined (label_names [] (s.labels ∷ []))

  -- the calls of `record` for a rule whose expression compiles
  unfoldable pub record_metrics : Source Float → ℕ → Rule Float → Regexp → Seen → Seen
  record_metrics s i r re state =
      let at = rule s.path i in
      let state₁ = record_shape at r.metric_name (rule_shape re r s) state in
      record_heartbeat at r.last_updated_metric (rule_labels re r s) state₁

  unfoldable pub record_compiled : Option Regexp → Source Float → ℕ → Rule Float → Seen → Seen
  record_compiled none s i r state = state
  record_compiled (some re) s i r state = record_metrics s i r re state

  unfoldable pub record_rule : Source Float → ℕ → Rule Float → Seen → Seen
  record_rule s i r state =
      if r.metric_name == [] || r.match == []
      then state
      else record_compiled (compile r.match) s i r state

  unfoldable pub record_rules : Source Float → ℕ → List (Rule Float) → Seen → Seen
  unfolding record_rule
  record_rules s i [] state = state
  record_rules s i (r ∷ rules) state = record_rules s (suc i) rules (record_rule s i r state)

  unfoldable pub validate_metric_consistency : Source Float → Seen → Seen
  unfolding record_rules
  validate_metric_consistency s state =
      let state₁ = record_rules s 0 s.rules state in
      record_heartbeat (file s.path) s.last_updated_metric (source_labels s) state₁
