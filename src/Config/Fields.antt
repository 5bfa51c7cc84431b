-- ===== src/Config/Fields.antt =====
-- The process, label and value checks of internal/config/validate.go.
pub mod Process
pub mod Labels
pub mod Values
use mqtt2prometheus.Base.{
  Text, ℕ, zero, suc, ◌+◌, Bool, true, false, not, ◌&&◌, ◌||◌, ◌==◌, ltb, eqb, leb, join, codes,
  Option, none, some, get_or, List, [], ◌∷◌, ◌++◌, is_empty, if◌then◌else◌,
}
use mqtt2prometheus.Base.Dict.{Dict, keys, values, lookup, insert, Keys, contains}
use mqtt2prometheus.Base.Sort.{sort_texts}
use mqtt2prometheus.Platform.{Platform}
use mqtt2prometheus.Config.{
  Config, Source, Rule, Label, Value, heartbeat_help, type_gauge, type_counter, from_json, from_raw,
  from_static,
}
use mqtt2prometheus.Config.Template.{is_name_start, is_name_byte, template_refs}
use mqtt2prometheus.Config.Labels.{label_names, named}
use mqtt2prometheus.Config.Problems.{
  Where, main_file, file, rule, label, Problem, Problems, required, not_allowed, bad_qos, bad_level,
  no_sources, bad_label_name, capture_clash, unknown_capture, bad_from, empty_mapped, bad_regex,
  bad_groups, zero_scale, flag, qos_problems, is_level, is_label_name,
}

abbrev level_problems : Text → Problems → Problems
level_problems level p =
    if level == []
    then p ++ required main_file (codes "log.level") ∷ []
    else flag p (not (is_level level)) (bad_level level)

abbrev main_qos_problems : Option ℕ → Problems → Problems
main_qos_problems none p = p ++ required main_file (codes "mqtt.qos") ∷ []
main_qos_problems (some n) p = qos_problems main_file (some n) p

abbrev clean_session_problems : Option Bool → Problems → Problems
clean_session_problems none p = p ++ required main_file (codes "mqtt.clean_session") ∷ []
clean_session_problems (some _) p = p

unfoldable pub validate_process : {F : Type 0} → Config F → Problems → Problems
validate_process c p₀ =
    let p₁ = flag p₀ (c.mqtt.broker == []) (required main_file (codes "mqtt.broker")) in
    let p₂ = flag p₁ (c.mqtt.client_id == []) (required main_file (codes "mqtt.client_id")) in
    let p₃ = flag p₂ (c.mqtt.username == []) (required main_file (codes "mqtt.username")) in
    let p₄ = flag p₃ (c.mqtt.password == []) (required main_file (codes "mqtt.password")) in
    let p₅ = main_qos_problems c.mqtt.qos p₄ in
    let p₆ = clean_session_problems c.mqtt.clean_session p₅ in
    let p₇ = flag p₆ (c.listen == []) (required main_file (codes "server.listen")) in
    let p₈ = level_problems c.log_level p₇ in flag p₈ (is_empty c.source_list) no_sources

-- the loop over `l.Map`
unfoldable pub mapped_problems : Where → List Text → Problems → Problems
mapped_problems at [] p = p
mapped_problems at (mapped ∷ rest) p =
    mapped_problems at rest (flag p (mapped == []) (empty_mapped at))

abbrev pub map_problems : Where → Option (Dict Text) → Problems → Problems
map_problems at none p = p
map_problems at (some m) p = mapped_problems at (values m) p

unfoldable pub validate_label : Label → Where → Problems → Problems
unfolding mapped_problems
validate_label l at p =
    if l.from == []
    then p ++ required at (codes "from") ∷ []
    else if l.from == from_static
    then map_problems at l.mapping (
        flag (flag p (l.value == []) (required at (codes "value"))) (not (l.path == []))
          (not_allowed at (codes "path")))
    else if l.from == from_json
    then map_problems at l.mapping (
        flag (flag p (l.path == []) (required at (codes "path"))) (not (l.value == []))
          (not_allowed at (codes "value")))
    else p ++ bad_from at l.from ∷ []

-- the inner loop of `validateLabels`
unfoldable pub ref_problems : Where → Text → Keys → List Text → Problems → Problems
ref_problems at name captures [] p = p
ref_problems at name captures (r ∷ refs) p =
    ref_problems at name captures refs
      (flag p (not (contains r captures)) (unknown_capture at name r))

-- `labels[name]`, the zero `Label` where the key is missing
abbrev pub label_at : Text → Dict Label → Label
label_at name labels =
    get_or (lookup name labels) (record { from = []; value = []; path = []; mapping = none })

unfoldable pub label_problems : Where → Keys → Dict Label → List Text → Problems → Problems
unfolding validate_label ref_problems
label_problems at captures labels [] p = p
label_problems at captures labels (name ∷ names) p =
    let l = label_at name labels in
    let p₁ = flag p (not (is_label_name name)) (bad_label_name at name) in
    let p₂ = flag p₁ (contains name captures) (capture_clash at name) in
    let p₃ = validate_label l (label at name) p₂ in
    label_problems at captures labels names
      (ref_problems at name captures (template_refs l.value) p₃)

abbrev pub sorted_keys : Dict Label → List Text
sorted_keys m = sort_texts (keys m)

unfoldable pub validate_labels : Where → Keys → Dict Label → Problems → Problems
unfolding label_problems
validate_labels at captures labels p = label_problems at captures labels (sorted_keys labels) p

module _ (P : Platform) where
  open P use {Float, is_zero, compile, num_subexp}

  abbrev compiled_problems : Where → Option P.Regexp → Problems → Problems
  compiled_problems at none p = p ++ bad_regex at ∷ []
  compiled_problems at (some re) p =
      flag p (not (eqb (num_subexp re) 1)) (bad_groups at (num_subexp re))

  abbrev regex_problems : Where → Text → Problems → Problems
  regex_problems at regex p =
      if not (regex == []) then compiled_problems at (compile regex) p else p

  abbrev scale_problems : Where → Option Float → Problems → Problems
  scale_problems at none p = p
  scale_problems at (some scale) p = flag p (is_zero scale) (zero_scale at)

  unfoldable pub validate_value : Value Float → Where → Problems → Problems
  validate_value v at p =
      if v.from == []
      then p ++ required at (codes "value.from") ∷ []
      else if v.from == from_json
      then scale_problems at v.scale
          (regex_problems at v.regex (flag p (v.path == []) (required at (codes "value.path"))))
      else if v.from == from_raw
      then scale_problems at v.scale (
          regex_problems at v.regex
            (flag p (not (v.path == [])) (not_allowed at (codes "value.path"))))
      else p ++ bad_from at v.from ∷ []
