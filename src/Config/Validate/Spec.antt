-- ===== src/Config/Validate/Spec.antt =====
-- What a valid rule and a valid source are, and that their checks accept exactly these.
use mqtt2prometheus.Base.{
  Text, ℕ, suc, ◌≤◌, ◌≡◌, ◌≢◌, ◌⊎◌, refl, Bool, true, false, not, ◌&&◌, ◌==◌, eq_iff, codes, Option,
  none, some, List, [], ◌∷◌, ◌++◌, All, ltb, is_empty, if◌then◌else◌, arith,
}
use mqtt2prometheus.Platform.{Platform}
use mqtt2prometheus.Config.{Source, Rule, type_gauge, type_counter}
use mqtt2prometheus.Config.Labels.{named}
use mqtt2prometheus.Config.Problems.{
  Where, file, rule, Problems, required, bad_metric_name, bad_type, flag, flag-eq-nil,
  append-ne-nil, append-eq-nil, is_metric_name, is_label_name, qos_problems, bad_qos,
}
use mqtt2prometheus.Config.Fields.{validate_labels, validate_value}
use mqtt2prometheus.Config.Fields.Labels.{IsLabels, validate_labels-eq-nil}
use mqtt2prometheus.Config.Fields.Values.{IsValue, validate_value-eq-nil}
use mqtt2prometheus.Config.Validate.{
  captures_from, metric_name_problems, type_problems, validate_match, validate_rule, validate_rules,
  validate_source, compiled_match,
}

-- Every named group has a valid label name: nothing is reported and all of them are captures.
captures_from_lem :
    (at : Where) (i : ℕ) (names : List Text)
    → (captures_from at i names).1 ≡ []
    → ((captures_from at i names).0 ≡ named names)
      × All (λ (n : Text). is_label_name n ≡ true) (named names)
unfolding captures_from named
captures_from_lem at i [] h = (refl, tt)
captures_from_lem at i (name ∷ names) h = ground (arith, captures_from_lem at (suc i) names)

metric_name_problems_lem :
    (name : Text) (at : Where) (p : Problems)
    → metric_name_problems name at p ≡ []
    → (p ≡ []) × (name ≢ []) × (is_metric_name name ≡ true)
metric_name_problems_lem name at p h = ground (
  arith,
  eq_iff name [],
  append-ne-nil p (required at (codes "metric_name")),
  flag-eq-nil p (not (is_metric_name name)) (bad_metric_name at name),
)

type_problems_lem :
    (type : Text) (at : Where) (p : Problems)
    → type_problems type at p ≡ []
    → (p ≡ []) × ((type ≡ type_gauge) ⊎ (type ≡ type_counter))
type_problems_lem type at p h = ground (
  arith,
  eq_iff type [],
  eq_iff type type_gauge,
  eq_iff type type_counter,
  append-ne-nil p (required at (codes "type")),
  flag-eq-nil p (not (type == type_counter)) (bad_type at type),
)

module _ (P : Platform) where
  open P use {Float, Regexp, compile, subexp_names}

  -- the expression of a rule, and its captures
  pub record IsMatch (match : Text) (captures : List Text) : Type 0 where
    pub given : match ≢ []
    pub expression : Regexp
    pub compiled : compile match ≡ some expression
    pub captured : captures ≡ named (subexp_names expression)
    pub names : All (λ (n : Text). is_label_name n ≡ true) captures

  compiled_match_lem :
      (match : Text) (at : Where) (o : Option Regexp)
      → match ≢ []
      → compile match ≡ o
      → (compiled_match P o at).1 ≡ []
      → IsMatch match (compiled_match P o at).0
  unfolding compiled_match
  compiled_match_lem match at none n e h = cc
  compiled_match_lem match at (some re) n e h =
      let (same, names) = captures_from_lem at 0 (subexp_names re) h in
      record { given = n; expression = re; compiled = e; captured = same; names = rw same names }

  validate_match_lem :
      (match : Text) (at : Where)
      → (validate_match P match at).1 ≡ []
      → IsMatch match (validate_match P match at).0
  unfolding validate_match
  validate_match_lem match at h = go (match == []) refl h
    where
      go :
          (b : Bool)
          → (match == []) ≡ b
          → (if b
              then ([], required at (codes "match") ∷ [])
              else compiled_match P (compile match) at).1
            ≡ []
          → IsMatch match
              (if b
                then ([], required at (codes "match") ∷ [])
                else compiled_match P (compile match) at).0
      go true e k = cc
      go false e k =
          compiled_match_lem match at (compile match) (λ q. cc (e, (eq_iff match []).1 q)) refl k

  -- A rule as docs/configuration.md wants it.
  pub record IsRule (r : Rule Float) : Type 0 where
    pub metric_name : r.metric_name ≢ []
    pub metric_named : is_metric_name r.metric_name ≡ true
    pub heartbeat : r.last_updated_metric ≢ [] → is_metric_name r.last_updated_metric ≡ true
    pub type : (r.type ≡ type_gauge) ⊎ (r.type ≡ type_counter)
    pub captures : List Text
    pub match : IsMatch r.match captures
    pub value : IsValue P r.value
    pub labels : IsLabels captures r.labels

  -- A rule that adds no problem is one.
  pub validate_rule_lem :
      (r : Rule Float) (at : Where) (p : Problems)
      → validate_rule P r at p ≡ []
      → (p ≡ []) × IsRule r
  unfolding validate_rule
  validate_rule_lem r at p₀ h =
      let p₁ = metric_name_problems r.metric_name at p₀ in
      let beat = not (r.last_updated_metric == []) && not (is_metric_name r.last_updated_metric) in
      let p₂ = flag p₁ beat (bad_metric_name at r.last_updated_metric) in
      let p₃ = type_problems r.type at p₂ in
      let (captures, problems) = validate_match P r.match at in
      let p₄ = validate_value P r.value at (p₃ ++ problems) in
      let (n₄, labels) = (validate_labels-eq-nil at captures r.labels p₄).0 h in
      let (n₃, value) = (validate_value-eq-nil P r.value at (p₃ ++ problems)).0 n₄ in
      let (n₂, m) = (append-eq-nil p₃ problems).0 n₃ in
      let (n₁, type) = type_problems_lem r.type at p₂ n₂ in
      let (n₀, b) = (flag-eq-nil p₁ beat (bad_metric_name at r.last_updated_metric)).0 n₁ in
      let (start, given, named) = metric_name_problems_lem r.metric_name at p₀ n₀ in
      (
        start,
        record {
          metric_name = given;
          metric_named = named;
          heartbeat = λ n. ground (arith, b, n, eq_iff r.last_updated_metric []);
          type = type;
          captures = captures;
          match = validate_match_lem r.match at m;
          value = value;
          labels = labels;
        },
      )

  validate_rules_lem :
      (path : Text) (i : ℕ) (rules : List (Rule Float)) (p : Problems)
      → validate_rules P path i rules p ≡ []
      → (p ≡ []) × All IsRule rules
  unfolding validate_rules
  validate_rules_lem path i [] p h = (h, tt)
  validate_rules_lem path i (r ∷ rules) p h =
      let (n, all) = validate_rules_lem path (suc i) rules (validate_rule P r (rule path i) p) h in
      let (start, one) = validate_rule_lem r (rule path i) p n in (start, (one, all))

  abbrev pub IsQos : Option ℕ → Type 0
  IsQos none = Unit
  IsQos (some n) = n ≤ 2

  qos_problems_lem :
      (at : Where) (o : Option ℕ) (p : Problems) → qos_problems at o p ≡ [] → (p ≡ []) × IsQos o
  qos_problems_lem at none p h = (h, tt)
  qos_problems_lem at (some n) p h = ground (arith, flag-eq-nil p (ltb 2 n) (bad_qos at n))

  pub record IsSource (s : Source Float) : Type 0 where
    pub name : s.name ≢ []
    pub subscribe : s.subscribe ≢ []
    pub qos : IsQos s.qos
    pub rules_given : is_empty s.rules ≡ false
    pub labels : IsLabels [] s.labels
    pub rules : All IsRule s.rules

  -- A source that adds no problem is one.
  pub validate_source_lem :
      (s : Source Float) (p : Problems) → validate_source P s p ≡ [] → (p ≡ []) × IsSource s
  unfolding validate_source
  validate_source_lem s p₀ h =
      let at = file s.path in
      let p₁ = flag p₀ (s.name == []) (required at (codes "name")) in
      let p₂ = flag p₁ (s.subscribe == []) (required at (codes "subscribe")) in
      let p₃ = qos_problems at s.qos p₂ in
      let p₄ = flag p₃ (is_empty s.rules) (required at (codes "rules")) in
      let p₅ = validate_labels at [] s.labels p₄ in
      let (n₅, rules) = validate_rules_lem s.path 0 s.rules p₅ h in
      let (n₄, labels) = (validate_labels-eq-nil at [] s.labels p₄).0 n₅ in
      let (n₃, given) = (flag-eq-nil p₃ (is_empty s.rules) (required at (codes "rules"))).0 n₄ in
      let (n₂, qos) = qos_problems_lem at s.qos p₂ n₃ in
      let (n₁, sub) = (flag-eq-nil p₁ (s.subscribe == []) (required at (codes "subscribe"))).0 n₂ in
      let (n₀, name) = (flag-eq-nil p₀ (s.name == []) (required at (codes "name"))).0 n₁ in
      (
        n₀,
        record {
          name = λ e. cc (name, (eq_iff s.name []).1 e);
          subscribe = λ e. cc (sub, (eq_iff s.subscribe []).1 e);
          qos = qos;
          rules_given = given;
          labels = labels;
          rules = rules;
        },
      )
