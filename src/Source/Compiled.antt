-- ===== src/Source/Compiled.antt =====
-- `compileSources` of internal/app/source.go on a valid configuration.
use mqtt2prometheus.Base.{
  Text, ℕ, ◌≡◌, refl, ◌∙◌, ap, Bool, true, false, ◌||◌, ◌==◌, eq_iff, eqb, some, List, [], ◌∷◌, All,
  arith, inl, inr, ◌⊎◌, and_left, and_right,
}
use mqtt2prometheus.Base.Dict.{Dict, keys, NodupKeys, keys-Distinct, contains-nil}
use mqtt2prometheus.Base.Sort.{
  IsOrdered-unique, sort_texts, contains-sort_texts, sort_texts-IsOrdered, sort_texts-Distinct,
}
use mqtt2prometheus.Base.Results.{ok}
use mqtt2prometheus.Platform.{Platform}
use mqtt2prometheus.Config
use mqtt2prometheus.Config.{Config, type_gauge, type_counter, heartbeat_help}
use mqtt2prometheus.Config.Template.{is_name_start, is_name_byte}
use mqtt2prometheus.Config.Labels.{label_names, label_names_lem, named}
use mqtt2prometheus.Config.Problems.{is_metric_name, all_bytes}
use mqtt2prometheus.Config.Fields.Labels.{IsLabels}
use mqtt2prometheus.Config.Metrics.{Shape, heartbeat_shape}
use mqtt2prometheus.Config.Metrics.Laws.{IsRecorded, IsRuleRecorded, IsSourceRecorded}
use mqtt2prometheus.Config.Validate.Spec.{IsRule}
use mqtt2prometheus.Config.Validate.Sound.{Accepted, IsConfig}
use mqtt2prometheus.Store.{gauge}
use mqtt2prometheus.Store.Identity.{LacksZero}
use mqtt2prometheus.Store.Uniform.{shape_of, kind_text}
use mqtt2prometheus.Rules.Value.{Extractor, new_extractor_total}
use mqtt2prometheus.Rules.Label.{compile_labels}
use mqtt2prometheus.Rules.Agreement.{rule_labels_lem}
use mqtt2prometheus.Rules.Rule.{Rule, rule_of, compile_rule, declared}
use mqtt2prometheus.Source.{
  Source, kind_of, compile_rules, compile_list, compile_with, compile_sources, of_rules, source_of,
}
use mqtt2prometheus.Source.Conforms.{RuleFits, SourceFits}

all_bytes-LacksZero :
    (test : ℕ → Bool) (s : Text) → test 0 ≡ false → all_bytes test s ≡ true → LacksZero s
all_bytes-LacksZero test [] h e = tt
all_bytes-LacksZero test (c ∷ s) h e = (
  λ q. cc (ap test q, h, and_left (test c) _ e),
  all_bytes-LacksZero test s h (and_right (test c) _ e),
)

-- A metric name holds no byte 0.
is_metric_name-LacksZero : (s : Text) → is_metric_name s ≡ true → LacksZero s
unfolding is_metric_name is_name_start is_name_byte
is_metric_name-LacksZero [] h = tt
is_metric_name-LacksZero (c ∷ s) h =
    let first : (is_name_start c || eqb c b':') ≡ true = and_left _ _ h in
    (
      λ q. cc (ap (λ (b : ℕ). is_name_start b || eqb b b':') q, first),
      all_bytes-LacksZero _ s refl (and_right _ _ h),
    )

-- Go's maps have each key once.
pub record HasMaps {F : Type 0} (s : Config.Source F) : Type 0 where
  pub labels : NodupKeys s.labels
  pub rule_labels : All (λ (r : Config.Rule F). NodupKeys r.labels) s.rules
  -- `Validate` does not look at the name of a source's `last_updated_metric`.
  pub heartbeat : LacksZero s.last_updated_metric

kind_text-kind_of :
    {F R : Type 0} (r : Rule F R) (type : Text)
    → r.counter ≡ (type == type_counter)
    → (type ≡ type_gauge) ⊎ (type ≡ type_counter)
    → kind_text (kind_of r) ≡ type
unfolding kind_of
kind_text-kind_of r type e (inl g) = ground (arith, eq_iff type type_counter)
kind_text-kind_of r type e (inr c) = ground (arith, eq_iff type type_counter)

-- The labels of a source alone are its declared names.
label_names-keys :
    (labels : Dict Config.Label)
    → NodupKeys labels
    → label_names [] (labels ∷ []) ≡ sort_texts (keys labels)
label_names-keys labels u =
    let names = label_names_lem [] (labels ∷ []) in
    IsOrdered-unique _ _ names.0 (sort_texts-IsOrdered _) names.1
      (sort_texts-Distinct _ (keys-Distinct labels u))
      (λ k. names.2 k ∙ ground (arith, contains-nil k, contains-sort_texts k (keys labels)))

module _ (P : Platform) where
  open P use {Float, Regexp, compile, subexp_names}

  rule_of-RuleFits :
      (m : Dict Shape) (s : Config.Source Float) (r : Config.Rule Float) (re : Regexp)
      (v : Extractor Float Regexp)
      → IsRule P r
      → IsLabels [] s.labels
      → NodupKeys r.labels
      → NodupKeys s.labels
      → IsRecorded P m s r re
      → RuleFits m (rule_of P s r re v)
  rule_of-RuleFits m s r re v valid ls ur us rec =
      let names = label_names_lem (named (subexp_names re)) (declared P s r ∷ []) in
      let labels = rule_labels_lem P re r s ur us ls in
      let kind = kind_text-kind_of (rule_of P s r re v) r.type refl valid.type in
      record {
        ordered = names.0;
        distinct = names.1;
        named = is_metric_name-LacksZero r.metric_name valid.metric_named;
        shape = cc (rec.metric, labels, kind);
        heartbeat = λ n. record {
          named = is_metric_name-LacksZero r.last_updated_metric (valid.heartbeat n);
          shape = unfold heartbeat_shape in cc (rec.heartbeat n, labels);
        };
      }

  -- the compiled rules, and that they fit
  record CompiledRules (m : Dict Shape) (s : Config.Source Float) (rules : List (Config.Rule Float))
      : Type 0 where
    result : List (Rule Float Regexp)
    compiled : compile_rules P s rules ≡ some result
    fits : All (RuleFits m) result

  compile_rule_total :
      (m : Dict Shape) (s : Config.Source Float) (r : Config.Rule Float)
      → IsRule P r
      → IsLabels [] s.labels
      → NodupKeys r.labels
      → NodupKeys s.labels
      → IsRuleRecorded P m s r
      → (c : Rule Float Regexp) × (compile_rule P s r ≡ some c) × RuleFits m c
  unfolding compile_rule
  compile_rule_total m s r valid ls ur us rec =
      let re = valid.match.expression in
      let (v, made, _) = new_extractor_total P r.value valid.value in
      (
        rule_of P s r re v,
        ground (arith, valid.match.compiled, made),
        rule_of-RuleFits m s r re v valid ls ur us
            (rec valid.metric_name valid.match.given re valid.match.compiled),
      )

  compile_rules_total :
      (m : Dict Shape) (s : Config.Source Float) (rules : List (Config.Rule Float))
      → IsLabels [] s.labels
      → NodupKeys s.labels
      → All (IsRule P) rules
      → All (λ (r : Config.Rule Float). NodupKeys r.labels) rules
      → All (IsRuleRecorded P m s) rules
      → CompiledRules m s rules
  unfolding compile_rules
  compile_rules_total m s [] ls us v u rec = record { result = []; compiled = refl; fits = tt }
  compile_rules_total m s (r ∷ rules) ls us (v, vs) (u, ur) (rec, recs) =
      let (c, made, fit) = compile_rule_total m s r v ls u us rec in
      let rest = compile_rules_total m s rules ls us vs ur recs in
      record {
        result = c ∷ rest.result;
        compiled = ground (arith, made, rest.compiled);
        fits = (fit, rest.fits);
      }

  pub record CompiledList (m : Dict Shape) (qos : ℕ) (broker : Text)
      (sources : List (Config.Source Float)) : Type 0 where
    pub result : List (Source Float Regexp)
    pub compiled : compile_list P qos broker sources ≡ some result
    pub fits : All (SourceFits m) result

  source_of-SourceFits :
      (m : Dict Shape) (s : Config.Source Float) (qos : ℕ) (broker : Text)
      (rules : List (Rule Float Regexp))
      → HasMaps s
      → All (RuleFits m) rules
      → IsSourceRecorded P m s
      → SourceFits m (source_of P s qos broker rules)
  unfolding compile_labels
  source_of-SourceFits m s qos broker rules maps fits rec = record {
    rules = fits;
    ordered = sort_texts-IsOrdered (keys s.labels);
    distinct = sort_texts-Distinct _ (keys-Distinct s.labels maps.labels);
    heartbeat = λ n. record {
      named = maps.heartbeat;
      shape =
          unfold heartbeat_shape in
          rec.heartbeat n
          ∙ ap (λ (ns : List Text). some (shape_of ns heartbeat_help gauge))
              (label_names-keys s.labels maps.labels);
    };
  }

  compile_list_total :
      (m : Dict Shape) (qos : ℕ) (broker : Text) (sources : List (Config.Source Float))
      → All HasMaps sources
      → All (Accepted P m) sources
      → CompiledList m qos broker sources
  unfolding compile_list
  compile_list_total m qos broker [] maps checked = record {
    result = [];
    compiled = refl;
    fits = tt;
  }
  compile_list_total m qos broker (s ∷ sources) (maps, more) ((valid, rec), checked) =
      let one =
        compile_rules_total m s s.rules valid.labels maps.labels valid.rules maps.rule_labels
          rec.rules in
      let rest = compile_list_total m qos broker sources more checked in
      record {
        result = source_of P s qos broker one.result ∷ rest.result;
        compiled = ground (arith, one.compiled, rest.compiled);
        fits = (source_of-SourceFits m s qos broker one.result maps one.fits rec, rest.fits);
      }

  -- A valid configuration is compiled, and every metric of the compiled sources has the shape that
  -- `Validate` recorded for its name.
  pub compile_sources_total :
      (c : Config Float) (valid : IsConfig P c)
      → All HasMaps c.source_list
      → (sources : List (Source Float Regexp)) × (compile_sources P c ≡ ok sources)
        × All (SourceFits valid.shapes) sources
  unfolding compile_sources
  compile_sources_total c valid maps =
      let (qos, e, _) = valid.process.qos in
      let all =
        compile_list_total valid.shapes qos c.mqtt.broker c.source_list maps valid.accepted in
      (
        all.result,
        ap (λ o. compile_with P o c.mqtt.broker c.source_list) e ∙ ap of_rules all.compiled,
        all.fits,
      )
