-- ===== src/Exporter/Names.antt =====
-- The names that a compiled rule and a compiled source write, where `Validate` accepts their
-- declarations: those that the client library takes.
use mqtt2prometheus.Base.{
  Text, ℕ, ◌≡◌, ◌≢◌, ◌∙◌, sym, ap, subst, true, false, ◌==◌, eq_iff, codes, some, some-injective,
  List, [], ◌∷◌, All, arith, Bool-cases, inl, inr, ◌⊎◌,
}
use mqtt2prometheus.Base.Dict.{
  Dict, keys, contains, contains-cons, contains-nil, NodupKeys, keys-Distinct,
}
use mqtt2prometheus.Base.Sort.{contains-sort_texts, sort_texts-IsOrdered, sort_texts-Distinct}
use mqtt2prometheus.Platform.{Platform}
use mqtt2prometheus.Config.{Config}
use mqtt2prometheus.Config
use mqtt2prometheus.Config.Labels.{label_names, label_names_lem, named}
use mqtt2prometheus.Config.Problems.{is_metric_name, is_label_name}
use mqtt2prometheus.Config.Fields.Labels.{IsLabels}
use mqtt2prometheus.Config.Validate.Spec.{IsRule}
use mqtt2prometheus.Rules.Value.{Extractor}
use mqtt2prometheus.Rules.Label.{compile_labels}
use mqtt2prometheus.Rules.Agreement.{contains-keys-overlay}
use mqtt2prometheus.Rules.Rule.{Rule, rule_of, overlay, declared}
use mqtt2prometheus.Source.{starts_with, source_of}
use mqtt2prometheus.Source.Keeping.{RuleKeeps, SourceKeeps}
use mqtt2prometheus.Exporter.Sends.{WriteNames}

-- the names with `__` in front, which the client library keeps to itself and `Validate` lets pass
abbrev pub IsFree : Text → Type 0
IsFree n = starts_with n (codes "__") ≡ false

abbrev pub IsGood : Text → Type 0
IsGood n = (is_label_name n ≡ true) × IsFree n

All-contains :
    (Q : Text → Type 0) (names : List Text)
    → ((k : Text) → contains k names ≡ true → Q k)
    → All Q names
All-contains Q [] h = tt
All-contains Q (n ∷ names) h = (
  h n (contains-cons n n names ∙ ground (arith, eq_iff n n)),
  All-contains Q names (λ k m. h k (contains-cons k n names ∙ ground (arith, m))),
)

contains-All :
    (Q : Text → Type 0) (names : List Text) (k : Text) → All Q names → contains k names ≡ true → Q k
contains-All Q [] k h m = absurd (cc (contains-nil k))
contains-All Q (n ∷ names) k (h, hs) m = elim (Bool-cases (k == n)) [
  | inl e ↦ subst Q (sym ((eq_iff k n).0 e)) h
  | inr e ↦ contains-All Q names k hs (ground (arith, contains-cons k n names, m, e))
]

module _ (P : Platform) where
  open P use {Float, Regexp, compile, subexp_names}

  -- What `Validate` does not ask of a source: names of labels and capture groups that are not
  -- reserved, and a valid name of its own heartbeat, if it has one. Go's maps have each key once.
  pub record IsFreeRule (r : Config.Rule Float) : Type 0 where
    pub labels : All IsFree (keys r.labels)
    pub captures : (re : Regexp) → compile r.match ≡ some re → All IsFree (named (subexp_names re))

  pub record IsFreeSource (s : Config.Source Float) : Type 0 where
    pub nodup : NodupKeys s.labels
    pub labels : All IsFree (keys s.labels)
    pub rules : All IsFreeRule s.rules
    pub heartbeat : s.last_updated_metric ≢ [] → is_metric_name s.last_updated_metric ≡ true

  keys-IsGood :
      (captures : List Text) (labels : Dict Config.Label)
      → IsLabels captures labels
      → All IsFree (keys labels)
      → (k : Text) → contains k (keys labels) ≡ true
      → IsGood k
  keys-IsGood captures labels valid free k m =
      ((valid k m).0, contains-All IsFree (keys labels) k free m)

  -- where a label name of a rule comes from
  origin :
      (s : Config.Source Float) (r : Config.Rule Float) (re : Regexp) (k : Text)
      → contains k (label_names (named (subexp_names re)) (declared P s r ∷ [])) ≡ true
      → (contains k (named (subexp_names re)) ≡ true)
        ⊎ ((contains k (keys r.labels) ≡ true) ⊎ (contains k (keys s.labels) ≡ true))
  origin s r re k m = ground (
    arith,
    (label_names_lem (named (subexp_names re)) (declared P s r ∷ [])).2 k,
    m,
    contains-keys-overlay k r.labels (overlay s.labels []),
    contains-keys-overlay k s.labels [],
    contains-nil k,
  )

  auto_labels-IsGood :
      (s : Config.Source Float) (r : Config.Rule Float) (re : Regexp)
      → IsRule P r
      → IsLabels [] s.labels
      → IsFreeRule r
      → All IsFree (keys s.labels)
      → compile r.match ≡ some re
      → All IsGood (label_names (named (subexp_names re)) (declared P s r ∷ []))
  auto_labels-IsGood s r re valid ls free source e =
      let same : valid.match.expression ≡ re = some-injective _ _ (sym valid.match.compiled ∙ e) in
      let captures : valid.captures ≡ named (subexp_names re) =
        valid.match.captured ∙ ap (λ x. named (subexp_names x)) same in
      All-contains IsGood _ (λ k m. elim (origin s r re k m) [
        | inl capture ↦ (
          contains-All (λ n. is_label_name n ≡ true) valid.captures k valid.match.names
              (ap (contains k) captures ∙ capture),
          contains-All IsFree (named (subexp_names re)) k (free.captures re e) capture,
        )
        | inr (inl own) ↦ keys-IsGood valid.captures r.labels valid.labels free.labels k own
        | inr (inr shared) ↦ keys-IsGood [] s.labels ls source k shared
      ])

  -- names that the client library wants, for a rule and for a source
  pub rule-Keeps :
      (s : Config.Source Float) (r : Config.Rule Float) (re : Regexp) (v : Extractor Float Regexp)
      → IsRule P r
      → IsLabels [] s.labels
      → IsFreeRule r
      → All IsFree (keys s.labels)
      → compile r.match ≡ some re
      → RuleKeeps P (WriteNames P) (rule_of P s r re v)
  rule-Keeps s r re v valid ls free source e =
      let names = label_names_lem (named (subexp_names re)) (declared P s r ∷ []) in
      let good = auto_labels-IsGood s r re valid ls free source e in
      record {
        ordered = names.0;
        distinct = names.1;
        metric =
            λ d n. rw n (record { metric = valid.metric_named; labels = good; distinct = names.1 });
        heartbeat = λ given labels now n.
            rw n (record { metric = valid.heartbeat given; labels = good; distinct = names.1 });
      }

  pub source-Keeps :
      (s : Config.Source Float) (qos : ℕ) (broker : Text) (rules : List (Rule Float Regexp))
      → IsLabels [] s.labels
      → IsFreeSource s
      → All (RuleKeeps P (WriteNames P)) rules
      → SourceKeeps P (WriteNames P) (source_of P s qos broker rules)
  unfolding compile_labels
  source-Keeps s qos broker rules ls free kept =
      let distinct = sort_texts-Distinct _ (keys-Distinct s.labels free.nodup) in
      record {
        rules = kept;
        ordered = sort_texts-IsOrdered (keys s.labels);
        distinct = distinct;
        heartbeat = λ given labels now n. rw n (record {
          metric = free.heartbeat given;
          labels = All-contains IsGood _ (λ k m.
              keys-IsGood [] s.labels ls free.labels k
                (sym (contains-sort_texts k (keys s.labels)) ∙ m));
          distinct = distinct;
        });
      }
