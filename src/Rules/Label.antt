-- ===== src/Rules/Label.antt =====
-- internal/rules/label.go: the value of a label.
use mqtt2prometheus.Base.{
  Text, Bool, true, false, not, ◌==◌, split, codes, Option, none, some, get_or, List, [], ◌∷◌,
  if◌then◌else◌,
}
use mqtt2prometheus.Base.Dict.{Dict, keys, lookup, insert}
use mqtt2prometheus.Base.Sort.{sort_texts}
use mqtt2prometheus.Platform.{Platform, Json, bool, number, string}
use mqtt2prometheus.Config
use mqtt2prometheus.Config.{from_json}
use mqtt2prometheus.Config.Template.{expand_template}
use mqtt2prometheus.Rules.Payload.{
  Outcome, found, absent, failed, panicked, not_a_label, label, ◌>>=◌, or_absent, read,
}

pub record LabelExtractor : Type 0 where
  pub static : Text
  pub from_json : Bool
  pub path : List Text
  pub mapping : Option (Dict Text)

unfoldable pub new_label_extractor : Config.Label → LabelExtractor
new_label_extractor declared = record {
  static = declared.value;
  from_json = declared.from == from_json;
  path = if declared.from == from_json then split declared.path 46 else [];
  mapping = declared.mapping;
}

-- `fmt.Errorf("label %q: %w", name, err)`
abbrev pub in_label {ℓ} : {A : Type ℓ} → Text → Outcome A → Outcome A
in_label name (found a) = found a
in_label name absent = absent
in_label name (failed e) = failed (label name e)
in_label name panicked = panicked

abbrev pub mapped : Option (Dict Text) → Text → Outcome Text
mapped none value = found value
mapped (some m) value = or_absent (lookup value m)

-- The map of extractors; `names` holds its keys in order.
pub record Labels : Type 0 where
  pub names : List Text
  pub extractors : Dict LabelExtractor

unfoldable pub extractors_of : Dict Config.Label → Dict LabelExtractor
unfolding new_label_extractor
extractors_of [] = []
extractors_of ((name, l) ∷ declared) = (name, new_label_extractor l) ∷ extractors_of declared

unfoldable pub compile_labels : Dict Config.Label → Labels
unfolding extractors_of
compile_labels declared = record {
  names = sort_texts (keys declared);
  extractors = extractors_of declared;
}

-- the zero `labelExtractor`, which a missing key of the map would give
abbrev pub zero_extractor : LabelExtractor
zero_extractor = record { static = []; from_json = false; path = []; mapping = none }

module _ (P : Platform) where
  open P use {Float, format_float}

  unfoldable pub as_label : Json Float → Outcome Text
  as_label (string s) = found s
  as_label (number x) = found (format_float x)
  as_label (bool true) = found (codes "true")
  as_label (bool false) = found (codes "false")
  as_label _ = failed not_a_label

  unfoldable pub read_label : LabelExtractor → Dict Text → Text → Outcome Text
  unfolding as_label
  read_label e captured payload =
      if not e.from_json
      then found (expand_template e.static captured)
      else read P payload e.path >>= as_label

  unfoldable pub resolve : LabelExtractor → Dict Text → Text → Outcome Text
  unfolding read_label
  resolve e captured payload = read_label e captured payload >>= mapped e.mapping

  unfoldable pub resolve_from :
      Dict LabelExtractor → List Text → Dict Text → Text → Dict Text → Outcome (Dict Text)
  unfolding resolve
  resolve_from extractors [] captured payload resolved = found resolved
  resolve_from extractors (name ∷ names) captured payload resolved =
      in_label name (resolve (get_or (lookup name extractors) zero_extractor) captured payload)
      >>= λ value. resolve_from extractors names captured payload (insert name value resolved)

  -- `Labels.Resolve`
  unfoldable pub resolve_labels : Labels → Dict Text → Text → Outcome (Dict Text)
  unfolding resolve_from
  resolve_labels l captured payload = resolve_from l.extractors l.names captured payload []
