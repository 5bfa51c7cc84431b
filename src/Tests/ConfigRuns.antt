-- ===== src/Tests/ConfigRuns.antt =====
-- A valid configuration with two rules that share a metric, and what its checks say.
use mqtt2prometheus.Base.{
  Text, ℕ, ◌≡◌, refl, true, not, ◌&&◌, ◌||◌, ◌==◌, less, join, codes, none, some, List, [], ◌∷◌,
  All, arith,
}
use mqtt2prometheus.Base.Dict.{Dict, lookup, insert, contains, add, Distinct}
use mqtt2prometheus.Base.Sort.{IsOrdered, sort_texts}
use mqtt2prometheus.Config.{Config, Source, Rule, Label, from_raw, from_static, type_gauge}
use mqtt2prometheus.Config.Template.{
  filled, Token, byte, ref, IsPart, unscan, template_refs, expand_template, expand_template-unscan,
  is_name_start, is_name_byte,
}
use mqtt2prometheus.Config.Labels.{label_names, named, declares, consumes, label_names_lem}
use mqtt2prometheus.Config.Problems.{flag, is_level, is_metric_name, is_label_name}
use mqtt2prometheus.Config.Fields.{
  validate_process, validate_labels, validate_label, validate_value,
}
use mqtt2prometheus.Config.Metrics.{
  record_shape, record_found, record_heartbeat, heartbeat_shape, record_metrics, record_compiled,
  validate_metric_consistency,
}
use mqtt2prometheus.Config.Validate.{
  check_name, validate, validate_match, compiled_match, validate_rule, validate_source,
}
use mqtt2prometheus.Tests.Toy.{toy}

abbrev pub static_label : Label
static_label = record { from = from_static; value = codes "v"; path = []; mapping = none }

abbrev pub raw_rule : Text → Rule ℕ
raw_rule match = record {
  match = match;
  metric_name = codes "m";
  type = type_gauge;
  help = [];
  value = record { from = from_raw; path = []; regex = []; scale = none; mapping = none };
  last_updated_metric = codes "n";
  labels = (codes "l", static_label) ∷ [];
}

abbrev pub source_a : Source ℕ
source_a = record {
  name = codes "s";
  broker = [];
  subscribe = codes "a/#";
  qos = none;
  last_updated_metric = [];
  labels = [];
  rules = raw_rule (codes "a/x") ∷ raw_rule (codes "a/y") ∷ [];
  path = codes "s.yaml";
}

abbrev pub config_a : Config ℕ
config_a = record {
  mqtt = record {
    broker = codes "b";
    client_id = codes "c";
    username = codes "u";
    password = codes "p";
    qos = some 1;
    clean_session = some true;
  };
  listen = codes ":1";
  log_level = codes "info";
  sources = codes "s";
  source_list = source_a ∷ [];
}

pub no_problems : validate toy config_a ≡ []
unfolding validate check_name validate_process validate_source validate_rule validate_match
    compiled_match validate_labels validate_label validate_value validate_metric_consistency
    record_shape record_found record_heartbeat record_metrics record_compiled heartbeat_shape
    label_names named flag is_level is_metric_name is_label_name is_name_start is_name_byte
    template_refs lookup insert contains add sort_texts ◌==◌ less join
no_problems = refl

abbrev labels_a : Dict Label
labels_a = (codes "l", static_label) ∷ []

label_names_lem_example :
    IsOrdered less (label_names (codes "d" ∷ []) (labels_a ∷ []))
    × Distinct (label_names (codes "d" ∷ []) (labels_a ∷ []))
    × ((k : Text)
        → contains k (label_names (codes "d" ∷ []) (labels_a ∷ [])) ≡ (
            contains k (codes "d" ∷ []) && not (consumes k (labels_a ∷ []))
            || declares k (labels_a ∷ [])))
label_names_lem_example = label_names_lem (codes "d" ∷ []) (labels_a ∷ [])

abbrev parts : List Token
parts = byte b'e' ∷ ref (codes "ep") ∷ []

parts-IsPart : All IsPart parts
unfolding is_name_start is_name_byte
parts-IsPart = (omega arith, ((refl, (refl, tt)), tt))

expand_template-unscan_example :
    (template_refs (codes "e{ep}") ≡ codes "ep" ∷ [])
    × (expand_template (codes "e{ep}") ((codes "ep", codes "7") ∷ []) ≡ codes "e7")
unfolding unscan filled lookup ◌==◌
expand_template-unscan_example =
    expand_template-unscan parts ((codes "ep", codes "7") ∷ []) parts-IsPart
