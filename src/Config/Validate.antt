-- ===== src/Config/Validate.antt =====
-- The rule and source checks of internal/config/validate.go, and `Validate` itself.
pub mod Spec
pub mod Sound
pub mod Complete
use mqtt2prometheus.Base.{
  Text, ℕ, zero, suc, Bool, not, ◌&&◌, ◌==◌, codes, Option, none, some, List, [], ◌∷◌, ◌++◌,
  is_empty, if◌then◌else◌,
}
use mqtt2prometheus.Base.Dict.{Dict, lookup, insert}
use mqtt2prometheus.Platform.{Platform}
use mqtt2prometheus.Config.{Config, Source, Rule, type_gauge, type_counter}
use mqtt2prometheus.Config.Problems.{
  Where, file, rule, Problem, Problems, required, duplicate_source, bad_metric_name, bad_type,
  bad_match, bad_capture, flag, qos_problems, is_metric_name, is_label_name,
}
use mqtt2prometheus.Config.Fields.{validate_process, validate_labels, validate_value}
use mqtt2prometheus.Config.Metrics.{Shape, validate_metric_consistency}

-- the loop over `re.SubexpNames()` in `validateMatch`: the captures and the problems
unfoldable pub captures_from : Where → ℕ → List Text → List Text × Problems
captures_from at i [] = ([], [])
captures_from at i (name ∷ names) =
    let (captures, p) = captures_from at (suc i) names in
    if name == []
    then (captures, p)
    else if not (is_label_name name)
    then (captures, bad_capture at i name ∷ p)
    else (name ∷ captures, p)

abbrev pub metric_name_problems : Text → Where → Problems → Problems
metric_name_problems name at p =
    if name == []
    then p ++ required at (codes "metric_name") ∷ []
    else flag p (not (is_metric_name name)) (bad_metric_name at name)

abbrev pub type_problems : Text → Where → Problems → Problems
type_problems type at p =
    if type == []
    then p ++ required at (codes "type") ∷ []
    else if type == type_gauge
    then p
    else flag p (not (type == type_counter)) (bad_type at type)

-- the variables of the loop in `Validate`
pub record Progress : Type 0 where
  pub problems : Problems
  pub seen_source : Dict Text
  pub shapes : Dict Shape

module _ (P : Platform) where
  open P use {Float, Regexp, compile, subexp_names}

  -- what follows the call of `regexp.Compile`
  unfoldable pub compiled_match : Option Regexp → Where → List Text × Problems
  unfolding captures_from
  compiled_match none at = ([], bad_match at ∷ [])
  compiled_match (some re) at = captures_from at 0 (subexp_names re)

  unfoldable pub validate_match : Text → Where → List Text × Problems
  validate_match match at =
      if match == []
      then ([], required at (codes "match") ∷ [])
      else compiled_match (compile match) at

  unfoldable pub validate_rule : Rule Float → Where → Problems → Problems
  validate_rule r at p₀ =
      let p₁ = metric_name_problems r.metric_name at p₀ in
      let p₂ =
        flag p₁ (not (r.last_updated_metric == []) && not (is_metric_name r.last_updated_metric))
          (bad_metric_name at r.last_updated_metric) in
      let p₃ = type_problems r.type at p₂ in
      let (captures, problems) = validate_match r.match at in
      let p₄ = validate_value P r.value at (p₃ ++ problems) in
      validate_labels at captures r.labels p₄

  unfoldable pub validate_rules : Text → ℕ → List (Rule Float) → Problems → Problems
  validate_rules path i [] p = p
  validate_rules path i (r ∷ rules) p =
      validate_rules path (suc i) rules (validate_rule r (rule path i) p)

  unfoldable pub validate_source : Source Float → Problems → Problems
  unfolding validate_rules
  validate_source s p₀ =
      let at = file s.path in
      let p₁ = flag p₀ (s.name == []) (required at (codes "name")) in
      let p₂ = flag p₁ (s.subscribe == []) (required at (codes "subscribe")) in
      let p₃ = qos_problems at s.qos p₂ in
      let p₄ = flag p₃ (is_empty s.rules) (required at (codes "rules")) in
      let p₅ = validate_labels at [] s.labels p₄ in validate_rules s.path 0 s.rules p₅

  -- the two branches on `seenSource[src.Name]`
  unfoldable pub found_name : Option Text → Source Float → Progress → Progress
  found_name (some first) s t = record t {
    problems = t.problems ++ duplicate_source s.path s.name first ∷ [];
  }
  found_name none s t =
      if not (s.name == [])
      then record t { seen_source = insert s.name s.path t.seen_source }
      else t

  unfoldable pub check_name : Source Float → Progress → Progress
  unfolding found_name
  check_name s t = found_name (lookup s.name t.seen_source) s t

  unfoldable pub check_source : Source Float → Progress → Progress
  check_source s t =
      let t₁ = check_name s (record t { problems = validate_source s t.problems }) in
      let (p, shapes) = validate_metric_consistency P s (t₁.problems, t₁.shapes) in
      record t₁ { problems = p; shapes = shapes }

  unfoldable pub check_sources : List (Source Float) → Progress → Progress
  unfolding check_source
  check_sources [] t = t
  check_sources (s ∷ sources) t = check_sources sources (check_source s t)

  -- The problems of a configuration; `Validate` returns nil where there are none.
  unfoldable pub validate : Config Float → Problems
  unfolding check_sources
  validate c =
      (check_sources c.source_list
        (record { problems = validate_process c []; seen_source = []; shapes = [] })).problems
