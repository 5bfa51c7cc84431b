-- ===== src/Config/Validate/Complete.antt =====
-- `Validate` of internal/config/validate.go on a valid configuration.
use mqtt2prometheus.Base.{
  Bool-cases, Text, ℕ, suc, ◌≡◌, ◌≢◌, ◌↔◌, ◌⊎◌, inl, inr, refl, ap, sym, subst, ◌∙◌, Bool, true,
  false, not, ◌&&◌, ◌==◌, eq_iff, eq_refl, codes, Option, none, some, All, List, [], ◌∷◌, ◌++◌, ltb,
  is_empty, if◌then◌else◌, arith,
}
use mqtt2prometheus.Base.Dict.{
  Dict, lookup, lookup-nil, lookup-insert, contains, contains-cons, Distinct,
}
use mqtt2prometheus.Platform.{Platform}
use mqtt2prometheus.Config.{Config, Source, Rule, type_gauge, type_counter}
use mqtt2prometheus.Config.Labels.{named}
use mqtt2prometheus.Config.Problems.{
  Where, file, rule, Problems, required, bad_metric_name, flag, flag-eq-nil, is_metric_name,
  is_label_name, qos_problems, bad_qos, bad_capture, append-eq-nil,
}
use mqtt2prometheus.Config.Fields.{validate_value}
use mqtt2prometheus.Config.Fields.Process.{validate_process-eq-nil}
use mqtt2prometheus.Config.Fields.Labels.{IsLabels, validate_labels-eq-nil}
use mqtt2prometheus.Config.Fields.Values.{validate_value-eq-nil}
use mqtt2prometheus.Config.Metrics.{Shape}
use mqtt2prometheus.Config.Metrics.Complete.{Within, validate_metric_consistency-Within}
use mqtt2prometheus.Config.Validate.{
  captures_from, metric_name_problems, type_problems, Progress, compiled_match, validate_match,
  validate_rule, validate_rules, validate_source, found_name, check_name, check_source,
  check_sources, validate,
}
use mqtt2prometheus.Config.Validate.Spec.{IsMatch, IsRule, IsQos, IsSource}
use mqtt2prometheus.Config.Validate.Sound.{IsConfig, Accepted, names_of, validate_sound}

captures_from_all :
    (at : Where) (i : ℕ) (names : List Text)
    → All (λ (n : Text). is_label_name n ≡ true) (named names)
    → captures_from at i names ≡ (named names, [])
unfolding captures_from named
captures_from_all at i [] h = refl
captures_from_all at i (name ∷ names) h = go (name == []) h (captures_from_all at (suc i) names)
  where
    rest : List Text × Problems
    rest = captures_from at (suc i) names

    go :
        (b : Bool)
        → All
            (λ (n : Text). is_label_name n ≡ true)
            (if not b then name ∷ named names else named names)
        → (All (λ (n : Text). is_label_name n ≡ true) (named names) → rest ≡ (named names, []))
        → ◌≡◌ {A = List Text × Problems}
            (if b
              then (rest.0, rest.1)
              else if not (is_label_name name)
              then (rest.0, bad_capture at i name ∷ rest.1)
              else (name ∷ rest.0, rest.1))
            (if not b then name ∷ named names else named names, [])
    go true k ih = ih k
    go false (k, ks) ih = rw (k, ih ks)

metric_name_problems_all :
    (name : Text) (at : Where) (p : Problems)
    → p ≡ []
    → name ≢ []
    → is_metric_name name ≡ true
    → metric_name_problems name at p ≡ []
metric_name_problems_all name at p e n h =
    ground
      (arith, eq_iff name [], flag-eq-nil p (not (is_metric_name name)) (bad_metric_name at name))

type_problems_all :
    (type : Text) (at : Where) (p : Problems)
    → p ≡ []
    → (type ≡ type_gauge) ⊎ (type ≡ type_counter)
    → type_problems type at p ≡ []
unfolding ◌==◌
type_problems_all type at p e (inl h) = rw (h, e)
type_problems_all type at p e (inr h) = rw (h, e) (unfold flag in refl)

module _ (P : Platform) where
  open P use {Float, Regexp, compile, subexp_names}

  validate_match_all :
      (match : Text) (at : Where) (captures : List Text)
      → IsMatch P match captures
      → validate_match P match at ≡ (captures, [])
  unfolding validate_match compiled_match
  validate_match_all match at captures h = go (match == []) refl
    where
      names : captures_from at 0 (subexp_names h.expression) ≡ (captures, [])
      names = rw h.captured (
          captures_from_all at 0 (subexp_names h.expression)
            (subst (All (λ (n : Text). is_label_name n ≡ true)) h.captured h.names))

      go :
          (b : Bool)
          → (match == []) ≡ b
          → (if b
              then ([], required at (codes "match") ∷ [])
              else compiled_match P (compile match) at)
            ≡ (captures, [])
      go true e = absurd (h.given ((eq_iff match []).0 e))
      go false e = ap (λ o. compiled_match P o at) h.compiled ∙ names

  validate_rule_all :
      (r : Rule Float) (at : Where) (p : Problems)
      → p ≡ []
      → IsRule P r
      → validate_rule P r at p ≡ []
  unfolding validate_rule
  validate_rule_all r at p₀ e₀ h =
      let p₁ = metric_name_problems r.metric_name at p₀ in
      let beat = not (r.last_updated_metric == []) && not (is_metric_name r.last_updated_metric) in
      let p₂ = flag p₁ beat (bad_metric_name at r.last_updated_metric) in
      let p₃ = type_problems r.type at p₂ in
      let (captures, problems) = validate_match P r.match at in
      let p₄ = validate_value P r.value at (p₃ ++ problems) in
      let m = validate_match_all r.match at h.captures h.match in
      let e₁ = metric_name_problems_all r.metric_name at p₀ e₀ h.metric_name h.metric_named in
      let e₂ = (flag-eq-nil p₁ beat (bad_metric_name at r.last_updated_metric)).1 (e₁, quiet) in
      let e₃ = type_problems_all r.type at p₂ e₂ h.type in
      let e₄ =
        (validate_value-eq-nil P r.value at (p₃ ++ problems)).1
          ((append-eq-nil p₃ problems).1 (e₃, ap (λ (z : List Text × Problems). z.1) m), h.value) in
      (validate_labels-eq-nil at captures r.labels p₄).1 (
        e₄,
        subst (λ c. IsLabels c r.labels) (sym (ap (λ (z : List Text × Problems). z.0) m)) h.labels,
      )
    where
      quiet :
          (not (r.last_updated_metric == []) && not (is_metric_name r.last_updated_metric)) ≡ false
      quiet = go (r.last_updated_metric == []) refl
        where
          go :
              (b : Bool)
              → (r.last_updated_metric == []) ≡ b
              → (not b && not (is_metric_name r.last_updated_metric)) ≡ false
          go true e = refl
          go false e = rw (h.heartbeat (λ n. cc (e, (eq_iff r.last_updated_metric []).1 n)))

  validate_rules_all :
      (path : Text) (i : ℕ) (rules : List (Rule Float)) (p : Problems)
      → p ≡ []
      → All (IsRule P) rules
      → validate_rules P path i rules p ≡ []
  unfolding validate_rules
  validate_rules_all path i [] p e h = e
  validate_rules_all path i (r ∷ rules) p e (h, hs) =
      validate_rules_all path (suc i) rules _ (validate_rule_all r (rule path i) p e h) hs

  qos_problems_all :
      (at : Where) (o : Option ℕ) (p : Problems) → p ≡ [] → IsQos P o → qos_problems at o p ≡ []
  qos_problems_all at none p e h = e
  qos_problems_all at (some n) p e h = ground (arith, flag-eq-nil p (ltb 2 n) (bad_qos at n))

  validate_source_all :
      (s : Source Float) (p : Problems) → p ≡ [] → IsSource P s → validate_source P s p ≡ []
  unfolding validate_source
  validate_source_all s p₀ e₀ h =
      let at = file s.path in
      let p₁ = flag p₀ (s.name == []) (required at (codes "name")) in
      let p₂ = flag p₁ (s.subscribe == []) (required at (codes "subscribe")) in
      let p₃ = qos_problems at s.qos p₂ in
      let p₄ = flag p₃ (is_empty s.rules) (required at (codes "rules")) in
      let e₁ =
        (flag-eq-nil p₀ (s.name == []) (required at (codes "name"))).1
          (e₀, ground (arith, eq_iff s.name [], h.name)) in
      let e₂ =
        (flag-eq-nil p₁ (s.subscribe == []) (required at (codes "subscribe"))).1
          (e₁, ground (arith, eq_iff s.subscribe [], h.subscribe)) in
      let e₃ = qos_problems_all at s.qos p₂ e₂ h.qos in
      let e₄ =
        (flag-eq-nil p₃ (is_empty s.rules) (required at (codes "rules"))).1 (e₃, h.rules_given) in
      validate_rules_all s.path 0 s.rules _
        ((validate_labels-eq-nil at [] s.labels p₄).1 (e₄, h.labels)) h.rules

  -- what holds before each round of the loop over the sources
  record Ready (m : Dict Shape) (t : Progress) (sources : List (Source Float)) : Type 0 where
    within : Within m (t.problems, t.shapes)
    fresh : (k : Text) → contains k (names_of P sources) ≡ true → lookup k t.seen_source ≡ none

  record Named (name path : Text) (t after : Progress) : Type 0 where
    problems : after.problems ≡ t.problems
    shapes : after.shapes ≡ t.shapes
    keeps : (k : Text) → (k == name) ≡ false → lookup k after.seen_source ≡ lookup k t.seen_source

  found_name-Named :
      (s : Source Float) (t : Progress) (o : Option Text)
      → o ≡ none
      → Named s.name s.path t (found_name P o s t)
  unfolding found_name
  found_name-Named s t (some first) e = cc
  found_name-Named s t none e = record {
    problems = ground arith;
    shapes = ground arith;
    keeps = λ k q. ground (arith, lookup-insert k s.name s.path t.seen_source);
  }

  another :
      (k name : Text) (names : List Text)
      → contains k names ≡ true
      → contains name names ≡ false
      → (k == name) ≡ false
  another k name names q new = elim (Bool-cases (k == name)) [
    | inl e ↦ absurd (cc (subst (λ x. contains x names ≡ true) ((eq_iff k name).0 e) q, new))
    | inr e ↦ e
  ]

  check_source-Ready :
      (m : Dict Shape) (s : Source Float) (sources : List (Source Float)) (t : Progress)
      → Distinct (names_of P (s ∷ sources))
      → Accepted P m s
      → Ready m t (s ∷ sources)
      → Ready m (check_source P s t) sources
  unfolding check_source check_name
  check_source-Ready m s sources t (new, d) (valid, recorded) h =
      let t₀ : Progress = record t { problems = validate_source P s t.problems } in
      let named = found_name-Named s t₀ (lookup s.name t.seen_source) (
        h.fresh s.name
          (ground (arith, contains-cons s.name s.name (names_of P sources), eq_refl s.name))) in
      let t₁ = found_name P (lookup s.name t.seen_source) s t₀ in
      let within : Within m (t₁.problems, t₁.shapes) = record {
        clean = named.problems ∙ validate_source_all s t.problems h.within.clean valid;
        seen = λ k shape q. h.within.seen k shape (ap (lookup k) (sym named.shapes) ∙ q);
      } in
      record {
        within = validate_metric_consistency-Within P m s (t₁.problems, t₁.shapes) recorded within;
        fresh = λ k q.
            named.keeps k (another k s.name (names_of P sources) q new)
            ∙ h.fresh k (ground (arith, q, contains-cons k s.name (names_of P sources)));
      }

  check_sources-Ready :
      (m : Dict Shape) (sources : List (Source Float)) (t : Progress)
      → Distinct (names_of P sources)
      → All (Accepted P m) sources
      → Ready m t sources
      → (check_sources P sources t).problems ≡ []
  unfolding check_sources
  check_sources-Ready m [] t d a h = h.within.clean
  check_sources-Ready m (s ∷ sources) t d (a, all) h =
      check_sources-Ready m sources (check_source P s t) d.1 all
        (check_source-Ready m s sources t d a h)

  validate_complete : (c : Config Float) → IsConfig P c → validate P c ≡ []
  unfolding validate
  validate_complete c h =
      check_sources-Ready h.shapes c.source_list _ h.distinct h.accepted (record {
        within = record {
          clean = (validate_process-eq-nil c []).1 (refl, h.process);
          seen = λ k shape q. absurd (cc (lookup-nil {V = Shape} k, q));
        };
        fresh = λ k q. lookup-nil k;
      })

  -- `Validate` finds no problem in a configuration exactly when it is valid: its process section is
  -- complete and in range, its sources and their rules are valid, no two sources have one name, and one
  -- map gives the shapes of all uses of every metric.
  pub validate-eq-nil : (c : Config Float) → (validate P c ≡ []) ↔ IsConfig P c
  validate-eq-nil c = (validate_sound P c, validate_complete c)
