-- ===== src/Config/Metrics/Complete.antt =====
-- The check of shared metric names on a configuration in which one map has the shapes of all uses.
use mqtt2prometheus.Base.{
  Text, ℕ, suc, ◌≡◌, ◌≢◌, refl, sym, ◌∙◌, Bool, true, false, not, ◌||◌, ◌==◌, eq_iff, Option, none,
  some, some-injective, All, List, [], ◌∷◌, if◌then◌else◌, arith,
}
use mqtt2prometheus.Base.Dict.{Dict, lookup, lookup-insert}
use mqtt2prometheus.Platform.{Platform}
use mqtt2prometheus.Config.{Source, Rule}
use mqtt2prometheus.Config.Problems.{Where, file, rule, append-eq-nil}
use mqtt2prometheus.Config.Metrics.{
  Shape, Seen, heartbeat_shape, differences, record_found, record_shape, record_heartbeat,
  rule_labels, rule_shape, source_labels, record_metrics, record_compiled, record_rule,
  record_rules, validate_metric_consistency,
}
use mqtt2prometheus.Config.Metrics.Laws.{
  differences-eq-nil, IsRecorded, IsRuleRecorded, IsSourceRecorded,
}

-- No problem so far, and the shapes that are seen are those of the map.
pub record Within (m : Dict Shape) (state : Seen) : Type 0 where
  pub clean : state.0 ≡ []
  pub seen : (k : Text) (shape : Shape) → lookup k state.1 ≡ some shape → lookup k m ≡ some shape

module _ (m : Dict Shape) where
  record_found-Within :
      (at : Where) (name : Text) (shape : Shape) (state : Seen) (o : Option Shape)
      → lookup name m ≡ some shape
      → lookup name state.1 ≡ o
      → Within m state
      → Within m (record_found o at name shape state)
  unfolding record_found
  record_found-Within at name shape (p, seen) none e q h = record {
    clean = h.clean;
    seen = λ k other.
        ground (arith, lookup-insert k name shape seen, eq_iff k name, h.seen k other, e);
  }
  record_found-Within at name shape (p, seen) (some first) e q h =
      let same : first ≡ shape = some-injective _ _ (sym (h.seen name first q) ∙ e) in
      record {
        clean =
            (append-eq-nil p (differences first at name shape)).1
              (h.clean, (differences-eq-nil first at name shape).1 same);
        seen = h.seen;
      }

  record_shape-Within :
      (at : Where) (name : Text) (shape : Shape) (state : Seen)
      → lookup name m ≡ some shape
      → Within m state
      → Within m (record_shape at name shape state)
  unfolding record_shape
  record_shape-Within at name shape (p, seen) e =
      record_found-Within at name shape (p, seen) (lookup name seen) e refl

  record_heartbeat-Within :
      (at : Where) (name labels : Text) (state : Seen)
      → (name ≢ [] → lookup name m ≡ some (heartbeat_shape labels))
      → Within m state
      → Within m (record_heartbeat at name labels state)
  unfolding record_heartbeat
  record_heartbeat-Within at name labels state e h = go (name == []) refl
    where
      go :
          (b : Bool)
          → (name == []) ≡ b
          → Within m (if not b then record_shape at name (heartbeat_shape labels) state else state)
      go true q = h
      go false q =
          record_shape-Within at name (heartbeat_shape labels) state
            (e (λ n. cc (q, (eq_iff name []).1 n))) h

module _ (P : Platform) (m : Dict Shape) where
  open P use {Float, Regexp, compile}

  record_compiled-Within :
      (s : Source Float) (i : ℕ) (r : Rule Float) (o : Option Regexp) (state : Seen)
      → ((re : Regexp) → o ≡ some re → IsRecorded P m s r re)
      → Within m state
      → Within m (record_compiled P o s i r state)
  unfolding record_compiled record_metrics
  record_compiled-Within s i r none state e h = h
  record_compiled-Within s i r (some re) state e h =
      let recorded = e re refl in
      record_heartbeat-Within m (rule s.path i) r.last_updated_metric (rule_labels P re r s) _
        recorded.heartbeat
        (record_shape-Within m (rule s.path i) r.metric_name (rule_shape P re r s) state
          recorded.metric h)

  record_rule-Within :
      (s : Source Float) (i : ℕ) (r : Rule Float) (state : Seen)
      → IsRuleRecorded P m s r
      → Within m state
      → Within m (record_rule P s i r state)
  unfolding record_rule
  record_rule-Within s i r state e h = go (r.metric_name == [] || r.match == []) refl
    where
      go :
          (b : Bool)
          → (r.metric_name == [] || r.match == []) ≡ b
          → Within m (if b then state else record_compiled P (compile r.match) s i r state)
      go true q = h
      go false q =
          record_compiled-Within s i r (compile r.match) state
            (e (λ n. ground (arith, q, n, eq_iff r.metric_name []))
              (λ n. ground (arith, q, n, eq_iff r.match [])))
            h

  record_rules-Within :
      (s : Source Float) (i : ℕ) (rules : List (Rule Float)) (state : Seen)
      → All (IsRuleRecorded P m s) rules
      → Within m state
      → Within m (record_rules P s i rules state)
  unfolding record_rules
  record_rules-Within s i [] state e h = h
  record_rules-Within s i (r ∷ rules) state (e, es) h =
      record_rules-Within s (suc i) rules (record_rule P s i r state) es
        (record_rule-Within s i r state e h)

  pub validate_metric_consistency-Within :
      (s : Source Float) (state : Seen)
      → IsSourceRecorded P m s
      → Within m state
      → Within m (validate_metric_consistency P s state)
  unfolding validate_metric_consistency
  validate_metric_consistency-Within s state e h =
      record_heartbeat-Within m (file s.path) s.last_updated_metric (source_labels P s) _
        e.heartbeat (record_rules-Within s 0 s.rules state e.rules h)
