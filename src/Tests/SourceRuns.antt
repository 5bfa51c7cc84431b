-- ===== src/Tests/SourceRuns.antt =====
-- The sources of a valid configuration at work.
use mqtt2prometheus.Base.{
  length, ap, Option-cases, Option, ◌≢◌, Text, ℕ, ◌≡◌, inl, inr, refl, true, false, ◌==◌, less,
  join, codes, none, some, List, [], ◌∷◌, All, In, subst, sym, some-injective, ◌∙◌, arith,
}
use mqtt2prometheus.Base.Dict.{Dict, lookup, insert, contains, add}
use mqtt2prometheus.Base.Sort.{sort, sort_texts}
use mqtt2prometheus.Base.Results.{ok, ok-injective}
use mqtt2prometheus.Config
use mqtt2prometheus.Config.{Label}
use mqtt2prometheus.Config.Problems.{main_file, flag, is_label_name}
use mqtt2prometheus.Config.Validate.Sound.{validate_sound}
use mqtt2prometheus.Config.Fields.{validate_labels, validate_label}
use mqtt2prometheus.Config.Labels.{label_names, label_names_lem, named}
use mqtt2prometheus.Config.Metrics.{Shape, joined, rule_labels}
use mqtt2prometheus.Config.Template.{is_name_start, is_name_byte, template_refs, expand_template}
use mqtt2prometheus.Config.Fields.Labels.{IsLabels, validate_labels-eq-nil}
use mqtt2prometheus.Rules.Rule
use mqtt2prometheus.Store.{
  gauge, Sample, flatten, identity, set, update, fresh, snapshot, sample_before,
}
use mqtt2prometheus.Store.Uniform.{IsUniform, IsUniform-nil}
use mqtt2prometheus.Rules.Payload.{Payload, new_payload, walk, walk_lem, IsPayload}
use mqtt2prometheus.Rules.Safe.{apply-crashed}
use mqtt2prometheus.Rules.Rule.{crashed}
use mqtt2prometheus.Rules.Value.{RegexpLaws, new_extractor, extract, from_string}
use mqtt2prometheus.Rules.Label.{compile_labels, resolve}
use mqtt2prometheus.Rules.Rule.{
  Rule, Match, sample, rule_of, compile_rule, declared, overlay, auto_label, auto_from, capture,
}
use mqtt2prometheus.Rules.Names.{apply_names}
use mqtt2prometheus.Rules.Agreement.{rule_labels_lem}
use mqtt2prometheus.Source.{Source, topic_prefix, owns, kind_of, compile_sources, source_of}
use mqtt2prometheus.Source
use mqtt2prometheus.Source.Topic.{Matches, rest, same, owns-Matches, parent_not_owned}
use mqtt2prometheus.Source.Conforms.{SourceFits, apply-IsUniform}
use mqtt2prometheus.Source.Compiled.{HasMaps, compile_sources_total}
use mqtt2prometheus.Source.Families.{Event, handle_all, compile_sources_defined, families_agree}
use mqtt2prometheus.Tests.Toy.{toy, behind}
use mqtt2prometheus.Tests.ConfigRuns.{static_label, raw_rule, source_a, config_a, no_problems}

pub source_a-HasMaps : HasMaps source_a
unfolding lookup
source_a-HasMaps = record {
  labels = tt;
  rule_labels = ((refl, tt), ((refl, tt), tt));
  heartbeat = tt;
}

compile_sources_defined_example :
    (sources : List (Source ℕ Text)) × (compile_sources toy config_a ≡ ok sources)
compile_sources_defined_example =
    compile_sources_defined toy config_a no_problems (source_a-HasMaps, tt)

unfoldable pub compiled : Source ℕ Text
compiled = source_of toy source_a 1 (codes "b") (
    rule_of toy source_a (raw_rule (codes "a/x")) (codes "a/x")
      (record { from_json = false; path = []; regex = none; scale = none; mapping = none })
    ∷ rule_of toy source_a (raw_rule (codes "a/y")) (codes "a/y")
        (record { from_json = false; path = []; regex = none; scale = none; mapping = none })
    ∷ [])

pub made : compile_sources toy config_a ≡ ok (compiled ∷ [])
unfolding compile_sources compiled compile_rule new_extractor ◌==◌
made = refl

abbrev events : List (Event ℕ Text)
events =
    record { source = compiled; now = 9; topic = codes "a/x1"; payload = codes "5" }
    ∷ record { source = compiled; now = 9; topic = codes "a/y2"; payload = codes "7" }
    ∷ []

abbrev sample_m : Text → ℕ → Sample ℕ
sample_m device value = record {
  key = record {
    name = codes "m";
    label_names = codes "device" ∷ codes "l" ∷ [];
    label_values = device ∷ codes "v" ∷ [];
  };
  kind = gauge;
  help = [];
  value = value;
}

abbrev pub of_x : Sample ℕ
of_x = sample_m (codes "1") 5

abbrev pub of_y : Sample ℕ
of_y = sample_m (codes "2") 7

x_y_snapshot :
    In of_x (snapshot toy (handle_all toy [] events))
    × In of_y (snapshot toy (handle_all toy [] events))
unfolding snapshot handle_all compiled topic_prefix Source.apply Rule.apply resolve sample_before
    flatten identity update fresh set sort sort_texts lookup insert kind_of label_names named walk
    extract from_string compile_labels auto_label auto_from overlay capture contains template_refs
    add expand_template ◌==◌ less join
x_y_snapshot = (inl refl, inr (inl refl))

families_agree_example :
    (joined of_x.key.label_names ≡ joined of_y.key.label_names)
    × (of_x.help ≡ of_y.help)
    × (of_x.kind ≡ of_y.kind)
families_agree_example =
    families_agree toy config_a (compiled ∷ []) events of_x of_y no_problems (source_a-HasMaps, tt)
      made (inl refl, (inl refl, tt)) x_y_snapshot.0 x_y_snapshot.1 refl

abbrev label_env : Dict Label
label_env = (codes "env", static_label) ∷ []

abbrev source_b : Config.Source ℕ
source_b = record source_a { labels = label_env }

label_env-IsLabels : IsLabels [] label_env
unfolding validate_labels validate_label flag is_label_name is_name_start is_name_byte template_refs
    contains add sort_texts ◌==◌ less lookup
label_env-IsLabels = ((validate_labels-eq-nil main_file [] label_env []).0 refl).1

rule_labels_lem_example :
    rule_labels toy (codes "a/x") (raw_rule (codes "a/x")) source_b
    ≡ joined
        (label_names (codes "device" ∷ []) (declared toy source_b (raw_rule (codes "a/x")) ∷ []))
unfolding named ◌==◌ lookup
rule_labels_lem_example =
    rule_labels_lem toy (codes "a/x") (raw_rule (codes "a/x")) source_b (refl, tt) (refl, tt)
      label_env-IsLabels

abbrev rule_x : Rule ℕ Text
rule_x =
    rule_of toy source_a (raw_rule (codes "a/x")) (codes "a/x")
      (record { from_json = false; path = []; regex = none; scale = none; mapping = none })

abbrev match_x : Match ℕ
match_x = record { labels = (codes "device", codes "1") ∷ (codes "l", codes "v") ∷ []; value = 5 }

hit : Rule.apply toy rule_x (codes "a/x1") (codes "5") ≡ sample match_x
unfolding Rule.apply resolve lookup insert label_names named walk extract from_string compile_labels
    auto_label auto_from overlay capture contains template_refs add expand_template sort_texts ◌==◌
    less
hit = refl

apply_names_example : (flatten match_x.labels).0 ≡ rule_x.auto_labels
apply_names_example =
    apply_names toy rule_x (codes "a/x1") (codes "5") match_x
      (label_names_lem (named (codes "" ∷ codes "device" ∷ []))
        (declared toy source_a (raw_rule (codes "a/x")) ∷ [])).0
      (label_names_lem (named (codes "" ∷ codes "device" ∷ []))
        (declared toy source_a (raw_rule (codes "a/x")) ∷ [])).1
      hit

abbrev parsed : Payload ℕ
parsed = record { raw = codes "{7"; memo = some (toy.unmarshal (codes "{7")) }

walk_lem_example :
    ((walk toy parsed (codes "value" ∷ [])).1
      ≡ (walk toy (new_payload (codes "{7")) (codes "value" ∷ [])).1)
    × ((walk toy parsed (codes "value" ∷ [])).0.raw ≡ codes "{7")
    × IsPayload toy (walk toy parsed (codes "value" ∷ [])).0
walk_lem_example = walk_lem toy parsed (codes "value" ∷ []) (inr refl)

prefix_a : compiled.prefix ≡ topic_prefix (codes "a/#")
unfolding compiled
prefix_a = refl

owns-Matches_example : owns compiled (codes "a/x1") ≡ true
owns-Matches_example = owns-Matches compiled (same b'a' (same b'/' (rest (codes "x1")))) prefix_a tt

parent_not_owned_example : Matches (codes "a/#") (codes "a") × (owns compiled (codes "a") ≡ false)
parent_not_owned_example =
    parent_not_owned compiled (codes "a") prefix_a ((omega arith, omega arith), tt)

shapes_a : Dict Shape
shapes_a = (validate_sound toy config_a no_problems).shapes

compiled_fits : All (SourceFits shapes_a) (compiled ∷ [])
unfolding shapes_a
compiled_fits =
    let (result, made', fits) =
      compile_sources_total toy config_a (validate_sound toy config_a no_problems)
        (source_a-HasMaps, tt) in
    let same : result ≡ compiled ∷ [] = ok-injective _ _ (sym made' ∙ made) in
    subst (All (SourceFits shapes_a)) same fits

apply-IsUniform_example :
    IsUniform toy shapes_a (Source.apply toy compiled [] 9 (codes "a/x1") (codes "5")).samples
apply-IsUniform_example =
    apply-IsUniform toy shapes_a compiled [] 9 (codes "a/x1") (codes "5") compiled_fits.0
      (IsUniform-nil toy shapes_a)

toy_groups :
    (re s : Text) (found : List Text) → toy.find_submatch re s ≡ some found → length found ≡ 2
toy_groups re s found h = elim (Option-cases (behind re s)) [
  | inl n ↦ absurd (cc (h, ap matched n))
  | inr (after, n) ↦ omega (arith, ap length (some-injective _ _ (sym h ∙ ap matched n)))
]
  where
    matched : Option Text → Option (List Text)
    matched o = elim o [ none ↦ none | some after ↦ some (s ∷ after ∷ []) ]

toy-RegexpLaws : RegexpLaws toy
toy-RegexpLaws = record { groups = toy_groups; names = λ re. refl }

apply-crashed_example : Rule.apply toy rule_x (codes "a/x1") (codes "5") ≢ crashed
apply-crashed_example = apply-crashed toy toy-RegexpLaws rule_x (codes "a/x1") (codes "5") tt
