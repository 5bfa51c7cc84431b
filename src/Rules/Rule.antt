-- ===== src/Rules/Rule.antt =====
-- internal/rules/rule.go: a rule and what it makes of a message.
use mqtt2prometheus.Base.{
  Text, Bool, not, ◌==◌, Option, none, some, get_or, List, [], ◌∷◌, if◌then◌else◌,
}
use mqtt2prometheus.Base.Dict.{Dict, lookup, insert}
use mqtt2prometheus.Platform.{Platform}
use mqtt2prometheus.Config
use mqtt2prometheus.Config.{type_counter}
use mqtt2prometheus.Config.Labels.{label_names, named}
use mqtt2prometheus.Rules.Payload.{Failure, Outcome, found, absent, failed, panicked, ◌>>=◌}
use mqtt2prometheus.Rules.Value.{Extractor, new_extractor, extract}
use mqtt2prometheus.Rules.Label.{Labels, in_label, compile_labels, resolve}

pub record Rule (F R : Type 0) : Type 0 where
  pub metric_name : Text
  pub help : Text
  pub counter : Bool
  pub last_updated_metric : Text
  pub match : R
  pub captures : List Text
  pub labels : Labels
  pub auto_labels : List Text
  pub value : Extractor F R

pub record Match (F : Type 0) : Type 0 where
  pub labels : Dict Text
  pub value : F

-- What `Apply` returns: no hit; a hit with an error; a hit without a sample, whose labels are nil; a
-- hit with a sample. `crashed` is an index out of range.
pub data Applied (F : Type 0) : Type 0 where
  no_match : Applied F
  error : Failure → Applied F
  nothing : Applied F
  sample : Match F → Applied F
  crashed : Applied F

-- the loop that copies one map over another
unfoldable pub overlay {ℓ} : {V : Type ℓ} → Dict V → Dict V → Dict V
overlay [] declared = declared
overlay ((name, l) ∷ labels) declared = overlay labels (insert name l declared)

-- `captured[name] = found[i]` for each named group; `none` is an index out of range
unfoldable pub capture : List Text → List Text → Dict Text → Option (Dict Text)
capture [] groups captured = some captured
capture (name ∷ names) [] captured = if not (name == []) then none else capture names [] captured
capture (name ∷ names) (group ∷ groups) captured =
    capture names groups (if not (name == []) then insert name group captured else captured)

abbrev pub to_applied : {F : Type 0} → Outcome (Match F) → Applied F
to_applied (found m) = sample m
to_applied absent = nothing
to_applied (failed e) = error e
to_applied panicked = crashed

module _ (P : Platform) where
  open P use {Float, Regexp, compile, find_submatch, subexp_names}

  -- the labels of the source with those of the rule over them
  abbrev pub declared : Config.Source Float → Config.Rule Float → Dict Config.Label
  declared src r = overlay r.labels (overlay src.labels [])

  abbrev pub rule_of :
      Config.Source Float → Config.Rule Float → Regexp → Extractor Float Regexp → Rule Float Regexp
  rule_of src r match value = record {
    metric_name = r.metric_name;
    help = r.help;
    counter = r.type == type_counter;
    last_updated_metric = r.last_updated_metric;
    match = match;
    captures = named (subexp_names match);
    labels = compile_labels (declared src r);
    auto_labels = label_names (named (subexp_names match)) (declared src r ∷ []);
    value = value;
  }

  -- `none` is an error of `regexp.Compile`.
  unfoldable pub compile_rule : Config.Source Float → Config.Rule Float → Option (Rule Float Regexp)
  compile_rule src r = elim (compile r.match) [
    | none ↦ none
    | some match ↦ elim (new_extractor P r.value) [
      | none ↦ none
      | some value ↦ some (rule_of src r match value)
    ]
  ]

  -- one name of the loop of `resolveLabels`
  unfoldable pub auto_label : Labels → Text → Dict Text → Text → Outcome Text
  auto_label labels name captured payload = elim (lookup name labels.extractors) [
    | none ↦ found (get_or (lookup name captured) [])
    | some e ↦ in_label name (resolve P e captured payload)
  ]

  unfoldable pub auto_from : Labels → List Text → Dict Text → Text → Dict Text → Outcome (Dict Text)
  auto_from labels [] captured payload resolved = found resolved
  auto_from labels (name ∷ names) captured payload resolved =
      auto_label labels name captured payload >>= λ value.
      auto_from labels names captured payload (insert name value resolved)

  unfoldable pub sample_from : Rule Float Regexp → Dict Text → Text → Outcome (Match Float)
  sample_from r captured payload = do
    value ← extract P r.value payload
    labels ← auto_from r.labels r.auto_labels captured payload []
    found (record { labels = labels; value = value })

  unfoldable pub apply_captured : Rule Float Regexp → Option (Dict Text) → Text → Applied Float
  unfolding sample_from
  apply_captured r none payload = crashed
  apply_captured r (some captured) payload = to_applied (sample_from r captured payload)

  unfoldable pub apply_groups : Rule Float Regexp → Option (List Text) → Text → Applied Float
  unfolding apply_captured
  apply_groups r none payload = no_match
  apply_groups r (some groups) payload =
      apply_captured r (capture (subexp_names r.match) groups []) payload

  unfoldable pub apply : Rule Float Regexp → Text → Text → Applied Float
  unfolding apply_groups
  apply r topic payload = apply_groups r (find_submatch r.match topic) payload
