-- ===== src/Config/Metrics/Laws.antt =====
-- What the check of shared metric names accepts: every use of a name has one shape.
use mqtt2prometheus.Base.{
  Text, ℕ, suc, ◌≡◌, ◌≢◌, ◌↔◌, refl, ap, subst, ◌∙◌, Bool, true, false, not, ◌||◌, ◌==◌, eq_iff,
  eq_refl, Option, none, some, All, List, [], ◌∷◌, if◌then◌else◌, arith, some-injective,
}
use mqtt2prometheus.Base.Dict.{Dict, lookup, lookup-insert}
use mqtt2prometheus.Platform.{Platform}
use mqtt2prometheus.Config.{Source, Rule}
use mqtt2prometheus.Config.Problems.{
  Where, file, rule, other_labels, other_help, other_kind, flag, flag-eq-nil, append-eq-nil,
}
use mqtt2prometheus.Config.Metrics.{
  record_found, rule_shape, source_labels, record_heartbeat, record_metrics, record_compiled, Shape,
  Seen, heartbeat_shape, differences, record_shape, rule_labels, record_rule, record_rules,
  validate_metric_consistency,
}

-- No difference is reported exactly when the shapes are equal.
pub differences-eq-nil :
    (m : Shape) (at : Where) (name : Text) (other : Shape)
    → (differences m at name other ≡ []) ↔ (m ≡ other)
unfolding differences
differences-eq-nil m at name other =
    let p₁ =
      flag [] (not (m.labels == other.labels)) (other_labels at name m.labels other.labels) in
    let p₂ = flag p₁ (not (m.help == other.help)) (other_help at name m.help other.help) in
    ground (
      arith,
      flag-eq-nil [] (not (m.labels == other.labels)) (other_labels at name m.labels other.labels),
      flag-eq-nil p₁ (not (m.help == other.help)) (other_help at name m.help other.help),
      flag-eq-nil p₂ (not (m.kind == other.kind)) (other_kind at name m.kind other.kind),
      eq_iff m.labels other.labels,
      eq_iff m.help other.help,
      eq_iff m.kind other.kind,
    )

-- What a step of the check does, where it leaves no problem: there was none before, every name that
-- had a shape keeps it, and `name` has `shape`.
pub record Adds (state : Seen) (after : Seen) : Type 0 where
  pub start : state.0 ≡ []
  pub keeps : (k : Text) (m : Shape) → lookup k state.1 ≡ some m → lookup k after.1 ≡ some m

pub Adds-refl : (state : Seen) → state.0 ≡ [] → Adds state state
Adds-refl state h = record { start = h; keeps = λ k m e. e }

pub Adds-trans : (a b c : Seen) → Adds a b → Adds b c → Adds a c
Adds-trans a b c h k = record { start = h.start; keeps = λ n m e. k.keeps n m (h.keeps n m e) }

record_found-Adds :
    (at : Where) (name : Text) (shape : Shape) (state : Seen) (o : Option Shape)
    → lookup name state.1 ≡ o
    → (record_found o at name shape state).0 ≡ []
    → Adds state (record_found o at name shape state)
      × (lookup name (record_found o at name shape state).1 ≡ some shape)
unfolding record_found
record_found-Adds at name shape (p, seen) none e h = (
  record { start = h; keeps = λ k m q. rw lookup-insert (ground (arith, eq_iff k name)) },
  rw (lookup-insert, eq_refl),
)
record_found-Adds at name shape (p, seen) (some first) e h =
    let r = (append-eq-nil p (differences first at name shape)).0 h in
    (
      record { start = r.0; keeps = λ k m q. q },
      e ∙ ap some ((differences-eq-nil first at name shape).0 r.1),
    )

record_shape-Adds :
    (at : Where) (name : Text) (shape : Shape) (state : Seen)
    → (record_shape at name shape state).0 ≡ []
    → Adds state (record_shape at name shape state)
      × (lookup name (record_shape at name shape state).1 ≡ some shape)
unfolding record_shape
record_shape-Adds at name shape (p, seen) =
    record_found-Adds at name shape (p, seen) (lookup name seen) refl

record_heartbeat-Adds :
    (at : Where) (name labels : Text) (state : Seen)
    → (record_heartbeat at name labels state).0 ≡ []
    → Adds state (record_heartbeat at name labels state)
      × (name ≢ []
          → lookup name (record_heartbeat at name labels state).1 ≡ some (heartbeat_shape labels))
unfolding record_heartbeat
record_heartbeat-Adds at name labels state h = go (name == []) refl h
  where
    go :
        (b : Bool)
        → (name == []) ≡ b
        → (if not b then record_shape at name (heartbeat_shape labels) state else state).0 ≡ []
        → Adds state (if not b then record_shape at name (heartbeat_shape labels) state else state)
          × (name ≢ []
              → lookup name
                  (if not b then record_shape at name (heartbeat_shape labels) state else state).1
                ≡ some (heartbeat_shape labels))
    go true e k = (Adds-refl state k, λ n. absurd (n ((eq_iff name []).0 e)))
    go false e k =
        let (adds, found) = record_shape-Adds at name (heartbeat_shape labels) state k in
        (adds, λ n. found)

module _ (P : Platform) where
  open P use {Float, Regexp, compile}

  -- In the map the metric of the rule has the shape of the rule, and its `last_updated_metric`, if
  -- there is one, that of a gauge with the rule's labels.
  pub record IsRecorded (m : Dict Shape) (s : Source Float) (r : Rule Float) (re : Regexp)
      : Type 0 where
    pub metric : lookup r.metric_name m ≡ some (rule_shape P re r s)
    pub heartbeat :
        r.last_updated_metric ≢ []
        → lookup r.last_updated_metric m ≡ some (heartbeat_shape (rule_labels P re r s))

  -- the same for a rule as it is declared
  abbrev pub IsRuleRecorded : Dict Shape → Source Float → Rule Float → Type 0
  IsRuleRecorded m s r =
      r.metric_name ≢ []
      → r.match ≢ []
      → (re : Regexp) → compile r.match ≡ some re
      → IsRecorded m s r re

  IsRuleRecorded-keeps :
      (a b : Seen) (s : Source Float) (r : Rule Float)
      → Adds a b
      → IsRuleRecorded a.1 s r
      → IsRuleRecorded b.1 s r
  IsRuleRecorded-keeps a b s r adds h n₁ n₂ re e =
      let q = h n₁ n₂ re e in
      record { metric = adds.keeps _ _ q.metric; heartbeat = λ n. adds.keeps _ _ (q.heartbeat n) }

  record_metrics-Adds :
      (s : Source Float) (i : ℕ) (r : Rule Float) (re : Regexp) (state : Seen)
      → (record_metrics P s i r re state).0 ≡ []
      → Adds state (record_metrics P s i r re state)
        × IsRecorded (record_metrics P s i r re state).1 s r re
  unfolding record_metrics
  record_metrics-Adds s i r re state h =
      let at = rule s.path i in
      let (tail, beat) =
        record_heartbeat-Adds at r.last_updated_metric (rule_labels P re r s) _ h in
      let (head, name) =
        record_shape-Adds at r.metric_name (rule_shape P re r s) state tail.start in
      (Adds-trans _ _ _ head tail, record { metric = tail.keeps _ _ name; heartbeat = beat })

  record_compiled-Adds :
      (s : Source Float) (i : ℕ) (r : Rule Float) (o : Option Regexp) (state : Seen)
      → (record_compiled P o s i r state).0 ≡ []
      → Adds state (record_compiled P o s i r state)
        × ((re : Regexp) → o ≡ some re → IsRecorded (record_compiled P o s i r state).1 s r re)
  unfolding record_compiled
  record_compiled-Adds s i r none state h = (Adds-refl state h, λ re e. cc)
  record_compiled-Adds s i r (some re) state h =
      let (adds, recorded) = record_metrics-Adds s i r re state h in
      (
        adds,
        λ re' e.
            subst (IsRecorded (record_metrics P s i r re state).1 s r) (some-injective _ _ e)
              recorded,
      )

  record_rule-Adds :
      (s : Source Float) (i : ℕ) (r : Rule Float) (state : Seen)
      → (record_rule P s i r state).0 ≡ []
      → Adds state (record_rule P s i r state) × IsRuleRecorded (record_rule P s i r state).1 s r
  unfolding record_rule
  record_rule-Adds s i r state h = go (r.metric_name == [] || r.match == []) refl h
    where
      rest : Seen
      rest = record_compiled P (compile r.match) s i r state

      go :
          (b : Bool)
          → (r.metric_name == [] || r.match == []) ≡ b
          → (if b then state else rest).0 ≡ []
          → Adds state (if b then state else rest)
            × IsRuleRecorded (if b then state else rest).1 s r
      go true e k = (
        Adds-refl state k,
        λ n₁ n₂ re c. absurd (ground (arith, eq_iff r.metric_name [], eq_iff r.match [])),
      )
      go false e k =
          let (adds, recorded) = record_compiled-Adds s i r (compile r.match) state k in
          (adds, λ n₁ n₂ re c. recorded re c)

  record_rules-Adds :
      (s : Source Float) (i : ℕ) (rules : List (Rule Float)) (state : Seen)
      → (record_rules P s i rules state).0 ≡ []
      → Adds state (record_rules P s i rules state)
        × All (IsRuleRecorded (record_rules P s i rules state).1 s) rules
  unfolding record_rules
  record_rules-Adds s i [] state h = (Adds-refl state h, tt)
  record_rules-Adds s i (r ∷ rules) state h =
      let state₁ = record_rule P s i r state in
      let (adds, all) = record_rules-Adds s (suc i) rules state₁ h in
      let (first, recorded) = record_rule-Adds s i r state adds.start in
      (
        Adds-trans _ _ _ first adds,
        (
          IsRuleRecorded-keeps state₁ (record_rules P s (suc i) rules state₁) s r adds recorded,
          all,
        ),
      )

  -- In the map each metric of the source has the shape that the source declares.
  pub record IsSourceRecorded (m : Dict Shape) (s : Source Float) : Type 0 where
    pub rules : All (IsRuleRecorded m s) s.rules
    pub heartbeat :
        s.last_updated_metric ≢ []
        → lookup s.last_updated_metric m ≡ some (heartbeat_shape (source_labels P s))

  All-keeps :
      (a b : Seen) (s : Source Float) (rules : List (Rule Float))
      → Adds a b
      → All (IsRuleRecorded a.1 s) rules
      → All (IsRuleRecorded b.1 s) rules
  All-keeps a b s [] adds h = tt
  All-keeps a b s (r ∷ rules) adds (h, hs) =
      (IsRuleRecorded-keeps a b s r adds h, All-keeps a b s rules adds hs)

  pub IsSourceRecorded-keeps :
      (a b : Seen) (s : Source Float) → Adds a b → IsSourceRecorded a.1 s → IsSourceRecorded b.1 s
  IsSourceRecorded-keeps a b s adds h = record {
    rules = All-keeps a b s s.rules adds h.rules;
    heartbeat = λ n. adds.keeps _ _ (h.heartbeat n);
  }

  -- A source that adds no problem leaves a map with the shapes of all its metrics.
  pub validate_metric_consistency-Adds :
      (s : Source Float) (state : Seen)
      → (validate_metric_consistency P s state).0 ≡ []
      → Adds state (validate_metric_consistency P s state)
        × IsSourceRecorded (validate_metric_consistency P s state).1 s
  unfolding validate_metric_consistency
  validate_metric_consistency-Adds s state h =
      let state₁ = record_rules P s 0 s.rules state in
      let (tail, beat) =
        record_heartbeat-Adds (file s.path) s.last_updated_metric (source_labels P s) state₁ h in
      let (head, all) = record_rules-Adds s 0 s.rules state tail.start in
      (
        Adds-trans _ _ _ head tail,
        record { rules = All-keeps state₁ _ s s.rules tail all; heartbeat = beat },
      )
