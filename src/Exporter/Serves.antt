-- ===== src/Exporter/Serves.antt =====
-- A scrape of a program that runs a valid configuration: internal/config/validate.go, the goroutines of
-- internal/app/router.go and `Collect` together.
use mqtt2prometheus.Base.{
  ◌∙◌, ap, Text, ℕ, ◌≡◌, refl, sym, subst, Option, none, some, some-injective, List, [], ◌∷◌, All,
}
use mqtt2prometheus.Base.Dict.{Dict, keys}
use mqtt2prometheus.Base.Results.{ok}
use mqtt2prometheus.Platform.{Platform}
use mqtt2prometheus.Config.{Config}
use mqtt2prometheus.Config
use mqtt2prometheus.Config.Metrics.{Shape}
use mqtt2prometheus.Config.Fields.Labels.{IsLabels}
use mqtt2prometheus.Config.Validate.{validate}
use mqtt2prometheus.Config.Validate.Spec.{IsRule, IsSource}
use mqtt2prometheus.Config.Validate.Sound.{Accepted, validate_sound}
use mqtt2prometheus.Store.{snapshot}
use mqtt2prometheus.Rules.Value.{Extractor, new_extractor}
use mqtt2prometheus.Rules.Rule.{Rule, rule_of, compile_rule}
use mqtt2prometheus.Source.{
  Source, compile_rules, compile_list, compile_with, compile_sources, source_of, of_rules-eq-ok,
}
use mqtt2prometheus.Source.Keeping.{RuleKeeps, SourceKeeps}
use mqtt2prometheus.Router.Threads.{Action, start_threads, steps}
use mqtt2prometheus.Router.Threads.Stored.{steps-IsWritten}
use mqtt2prometheus.Exporter.{ClientLibrary, collect}
use mqtt2prometheus.Exporter.Sends.{WriteNames, IsLibrary, SendsAll, collect_lem}
use mqtt2prometheus.Exporter.Names.{IsFreeRule, IsFreeSource, IsFree, rule-Keeps, source-Keeps}

-- what a list of two compilations that both succeed is made of
abbrev both : {A B : Type 0} → (A → B) → Option A → Option (List B) → Option (List B)
both f one others = elim one [
  | none ↦ none
  | some x ↦ elim others [ none ↦ none | some xs ↦ some (f x ∷ xs) ]
]

record Both {A B : Type 0} (f : A → B) (one : Option A) (others : Option (List B)) (result : List B)
    : Type 0 where
  item : A
  items : List B
  first : one ≡ some item
  second : others ≡ some items
  same : f item ∷ items ≡ result

both-eq-some :
    {A B : Type 0} (f : A → B) (one : Option A) (others : Option (List B)) (result : List B)
    → both f one others ≡ some result
    → Both f one others result
both-eq-some f none others result e = cc
both-eq-some f (some x) none result e = cc
both-eq-some f (some x) (some xs) result e = record {
  item = x;
  items = xs;
  first = refl;
  second = refl;
  same = some-injective _ _ e;
}

module _ (P : Platform) where
  open P use {Float, Regexp, compile, subexp_names}

  compile_rule-Keeps :
      (s : Config.Source Float) (r : Config.Rule Float) (c : Rule Float Regexp)
      → IsRule P r
      → IsLabels [] s.labels
      → IsFreeRule P r
      → All IsFree (keys s.labels)
      → compile_rule P s r ≡ some c
      → RuleKeeps P (WriteNames P) c
  unfolding compile_rule
  compile_rule-Keeps s r c valid ls free source e =
      go (compile r.match) (new_extractor P r.value) refl e
    where
      go :
          (o : Option Regexp) (x : Option (Extractor Float Regexp))
          → compile r.match ≡ o
          → (elim o [
            | none ↦ none
            | some re ↦ elim x [ none ↦ none | some v ↦ some (rule_of P s r re v) ]
          ])
            ≡ some c
          → RuleKeeps P (WriteNames P) c
      go none x h k = cc
      go (some re) none h k = cc
      go (some re) (some v) h k =
          subst (RuleKeeps P (WriteNames P)) (some-injective _ _ k)
            (rule-Keeps P s r re v valid ls free source h)

  compile_rules-Keeps :
      (s : Config.Source Float) (rules : List (Config.Rule Float))
      (result : List (Rule Float Regexp))
      → IsLabels [] s.labels
      → All IsFree (keys s.labels)
      → All (IsRule P) rules
      → All (IsFreeRule P) rules
      → compile_rules P s rules ≡ some result
      → All (RuleKeeps P (WriteNames P)) result
  unfolding compile_rules
  compile_rules-Keeps s [] result ls free v f e =
      subst (All (RuleKeeps P (WriteNames P))) (some-injective [] result e) tt
  compile_rules-Keeps s (r ∷ rules) result ls free (v, vs) (f, fs) e =
      let made = both-eq-some (λ c. c) (compile_rule P s r) (compile_rules P s rules) result e in
      subst (All (RuleKeeps P (WriteNames P))) made.same (
        compile_rule-Keeps s r made.item v ls f free made.first,
        compile_rules-Keeps s rules made.items ls free vs fs made.second,
      )

  compile_list-Keeps :
      (qos : ℕ) (broker : Text) (sources : List (Config.Source Float))
      (result : List (Source Float Regexp))
      → All (IsSource P) sources
      → All (IsFreeSource P) sources
      → compile_list P qos broker sources ≡ some result
      → All (SourceKeeps P (WriteNames P)) result
  unfolding compile_list
  compile_list-Keeps qos broker [] result v f e =
      subst (All (SourceKeeps P (WriteNames P))) (some-injective [] result e) tt
  compile_list-Keeps qos broker (s ∷ sources) result (v, vs) (f, fs) e =
      let made =
        both-eq-some (source_of P s qos broker) (compile_rules P s s.rules)
          (compile_list P qos broker sources) result e in
      let rules =
        compile_rules-Keeps s s.rules made.item v.labels f.labels v.rules f.rules made.first in
      subst (All (SourceKeeps P (WriteNames P))) made.same (
        source-Keeps P s qos broker made.item v.labels f rules,
        compile_list-Keeps qos broker sources made.items vs fs made.second,
      )

  Accepted-IsSource :
      (m : Dict Shape) (sources : List (Config.Source Float))
      → All (Accepted P m) sources
      → All (IsSource P) sources
  Accepted-IsSource m [] h = tt
  Accepted-IsSource m (s ∷ sources) ((v, _), h) = (v, Accepted-IsSource m sources h)

  compile_sources-Keeps :
      (c : Config Float) (sources : List (Source Float Regexp))
      → validate P c ≡ []
      → All (IsFreeSource P) c.source_list
      → compile_sources P c ≡ ok sources
      → All (SourceKeeps P (WriteNames P)) sources
  unfolding compile_sources
  compile_sources-Keeps c sources h free e =
      let valid = validate_sound P c h in
      let (qos, set, _) = valid.process.qos in
      let made : compile_with P (some qos) c.mqtt.broker c.source_list ≡ ok sources =
        ap (λ o. compile_with P o c.mqtt.broker c.source_list) (sym set) ∙ e in
      compile_list-Keeps qos c.mqtt.broker c.source_list sources
        (Accepted-IsSource valid.shapes c.source_list valid.accepted) free
        (of_rules-eq-ok _ sources made)

  -- If `Validate` finds no problem in a configuration, then at every moment of a run of its sources,
  -- with any interleaving of dispatches, single writes, the end of the context and a `Stop`, a scrape
  -- answers the samples of the snapshot one by one and in order: for a sample whose label values are
  -- all valid UTF-8 it sends a metric with the sample's name, help text, kind, value and labels, and
  -- for any other sample an invalid metric with the sample's description. The configuration has no
  -- label and no capture group whose name begins with `__`, each of its sources has a valid name for
  -- its own heartbeat, if it has one, and the maps of its sources' labels have each key once; the
  -- client library takes valid names with a value for each label, if the values are valid UTF-8, and
  -- refuses other values.
  pub scrapes_valid :
      (L : ClientLibrary Float) (law : IsLibrary L) (c : Config Float)
      (sources : List (Source Float Regexp)) (actions : List Action)
      → validate P c ≡ []
      → All (IsFreeSource P) c.source_list
      → compile_sources P c ≡ ok sources
      → SendsAll P L law
          (snapshot P (steps P (start_threads [] sources) actions).samples)
          (collect P L (steps P (start_threads [] sources) actions).samples)
  scrapes_valid L law c sources actions h free made =
      let kept = compile_sources-Keeps c sources h free made in
      let (ws, written, names) = steps-IsWritten P (WriteNames P) sources actions kept in
      subst (λ s. SendsAll P L law (snapshot P s) (collect P L s)) (sym written)
        (collect_lem P L law ws names)
