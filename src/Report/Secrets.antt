-- ===== src/Report/Secrets.antt =====
-- The report of internal/app/verify.go on two configurations with other credentials.
use mqtt2prometheus.Base.{
  Text, ℕ, suc, ◌+◌, ◌≡◌, ◌≢◌, refl, ◌∙◌, sym, ap, ap₂, eq_iff, codes, Option, none, some,
  some-injective, List, [], ◌∷◌, ◌++◌, map, length, IsPiece, arith,
}
use mqtt2prometheus.Base.Dict.{Keys}
use mqtt2prometheus.Base.Results.{ok, ok-injective}
use mqtt2prometheus.Platform.{Platform}
use mqtt2prometheus.Config.{Config}
use mqtt2prometheus.Config
use mqtt2prometheus.Rules.Rule.{Rule}
use mqtt2prometheus.Source.{
  Source, metric_names, compile_rules, source_of, compile_list, compile_with, compile_sources,
  of_rules-eq-ok,
}
use mqtt2prometheus.Report.{
  Format, add_all, all_metrics, count_rules, redact, redact_url, source_line, summary, report_lines,
  report,
}
use mqtt2prometheus.Report.Redact.{redact_url_lem}

-- a source without the URL of its broker
abbrev hidden : {F R : Type 0} → Source F R → Source F R
hidden s = record s { broker_url = [] }

module _ {F R : Type 0} (format : Format) where
  lines-hidden :
      (ss : List (Source F R))
      → map (source_line format) (map hidden ss) ≡ map (source_line format) ss
  unfolding source_line
  lines-hidden [] = refl
  lines-hidden (s ∷ ss) = ap (λ ls. source_line format s ∷ ls) (lines-hidden ss)

count_rules-hidden :
    {F R : Type 0} (ss : List (Source F R)) → count_rules (map hidden ss) ≡ count_rules ss
unfolding count_rules
count_rules-hidden [] = refl
count_rules-hidden (s ∷ ss) = ap (λ n. length s.rules + n) (count_rules-hidden ss)

length-hidden : {F R : Type 0} (ss : List (Source F R)) → length (map hidden ss) ≡ length ss
length-hidden [] = refl
length-hidden (s ∷ ss) = ap suc (length-hidden ss)

all_metrics-hidden :
    {F R : Type 0} (format : Format) (ss : List (Source F R)) (found : Keys)
    → all_metrics format (map hidden ss) found ≡ all_metrics format ss found
unfolding all_metrics metric_names
all_metrics-hidden format [] found = refl
all_metrics-hidden format (s ∷ ss) found =
    all_metrics-hidden format ss (add_all (metric_names s) found)

summary-hidden :
    {F R : Type 0} (format : Format) (ss : List (Source F R))
    → summary format (map hidden ss) ≡ summary format ss
unfolding summary
summary-hidden format ss =
    rw (length-hidden ss, count_rules-hidden ss, all_metrics-hidden format ss []) refl

-- the lines after the empty one
abbrev last_lines : {F R : Type 0} → Format → List (Source F R) → List Text
last_lines format ss = map (source_line format) ss ++ ([] ∷ summary format ss ∷ [])

last_lines-hidden :
    {F R : Type 0} (format : Format) (ss : List (Source F R))
    → last_lines format (map hidden ss) ≡ last_lines format ss
last_lines-hidden format ss =
    ap₂ (λ ls t. ls ++ ([] ∷ t ∷ [])) (lines-hidden format ss) (summary-hidden format ss)

redact_same : (s t : Text) → s ≢ [] → t ≢ [] → redact s ≡ redact t
unfolding redact
redact_same s t h k = ground (arith, eq_iff s [], eq_iff t [], h, k)

module _ (P : Platform) where
  open P use {Float, Regexp}

  compile_list-hidden :
      (qos : ℕ) (a b : Text) (list : List (Config.Source Float))
      (ss ts : List (Source Float Regexp))
      → compile_list P qos a list ≡ some ss
      → compile_list P qos b list ≡ some ts
      → map hidden ss ≡ map hidden ts
  unfolding compile_list
  compile_list-hidden qos a b [] ss ts h k =
      ap (map hidden) (sym (some-injective _ _ h) ∙ some-injective _ _ k)
  compile_list-hidden qos a b (s ∷ list) ss ts h k =
      go (compile_rules P s s.rules) (compile_list P qos a list) (compile_list P qos b list)
        (λ us vs e f. compile_list-hidden qos a b list us vs e f) h k
    where
      with_rest :
          Text
          → List (Rule Float Regexp)
          → Option (List (Source Float Regexp))
          → Option (List (Source Float Regexp))
      with_rest broker rules o = elim o [
        | none ↦ none
        | some rest ↦ some (source_of P s qos broker rules ∷ rest)
      ]

      go :
          (rules : Option (List (Rule Float Regexp))) (o q : Option (List (Source Float Regexp)))
          → ((us vs : List (Source Float Regexp))
              → o ≡ some us
              → q ≡ some vs
              → map hidden us ≡ map hidden vs)
          → (elim rules [ none ↦ none | some r ↦ with_rest a r o ]) ≡ some ss
          → (elim rules [ none ↦ none | some r ↦ with_rest b r q ]) ≡ some ts
          → map hidden ss ≡ map hidden ts
      go none o q ih h k = cc
      go (some r) none q ih h k = cc
      go (some r) (some us) none ih h k = cc
      go (some r) (some us) (some vs) ih h k =
          ap (map hidden) (sym (some-injective _ _ h))
          ∙ ap (λ rest. hidden (source_of P s qos a r) ∷ rest) (ih us vs refl refl)
          ∙ ap (map hidden) (some-injective _ _ k)

  -- Two configurations that agree but for the username and the password, which both have, and the
  -- credentials in the URL of the broker.
  pub record DifferInSecrets (c d : Config Float) : Type 0 where
    pub sources : c.source_list ≡ d.source_list
    pub qos : c.mqtt.qos ≡ d.mqtt.qos
    pub client_id : c.mqtt.client_id ≡ d.mqtt.client_id
    pub listen : c.listen ≡ d.listen
    pub usernames : (c.mqtt.username ≢ []) × (d.mqtt.username ≢ [])
    pub passwords : (c.mqtt.password ≢ []) × (d.mqtt.password ≢ [])
    pub scheme : Text
    pub host : Text
    pub is_scheme : IsPiece b':' scheme
    pub is_host : IsPiece b'@' host
    pub first : (s : Text) × (c.mqtt.broker ≡ scheme ++ (codes "://" ++ (s ++ b'@' ∷ host)))
    pub second : (s : Text) × (d.mqtt.broker ≡ scheme ++ (codes "://" ++ (s ++ b'@' ∷ host)))

  compile_sources-hidden :
      (c d : Config Float) (ss ts : List (Source Float Regexp))
      → c.source_list ≡ d.source_list
      → c.mqtt.qos ≡ d.mqtt.qos
      → compile_sources P c ≡ ok ss
      → compile_sources P d ≡ ok ts
      → map hidden ss ≡ map hidden ts
  unfolding compile_sources
  compile_sources-hidden c d ss ts e f h k =
      go c.mqtt.qos c.source_list h (ap₂ (λ o list. compile_with P o d.mqtt.broker list) f e ∙ k)
    where
      go :
          (o : Option ℕ) (list : List (Config.Source Float))
          → compile_with P o c.mqtt.broker list ≡ ok ss
          → compile_with P o d.mqtt.broker list ≡ ok ts
          → map hidden ss ≡ map hidden ts
      go none [] h k = ap (map hidden) (sym (ok-injective _ _ h) ∙ ok-injective _ _ k)
      go none (s ∷ list) h k = cc
      go (some qos) list h k =
          compile_list-hidden qos c.mqtt.broker d.mqtt.broker list ss ts (of_rules-eq-ok _ ss h)
            (of_rules-eq-ok _ ts k)

  -- Two configurations that compile and differ only in their credentials, these being the username and
  -- the password, given in both, and what stands before the last `@` of the URL of the broker, have the
  -- same report: what `verify` prints tells nothing of them. The URL is a scheme without `:`, `://`,
  -- the credentials, and `@` with a host without `@`.
  pub report_secret :
      (format : Format) (c d : Config Float) (ss ts : List (Source Float Regexp))
      → DifferInSecrets c d
      → compile_sources P c ≡ ok ss
      → compile_sources P d ≡ ok ts
      → report format c ss ≡ report format d ts
  unfolding report report_lines
  report_secret format c d ss ts h made made' =
      let (u, url) = h.first in
      let (v, url') = h.second in
      let broker : redact_url c.mqtt.broker ≡ redact_url d.mqtt.broker =
        ap redact_url url
        ∙ redact_url_lem h.scheme u h.host h.is_scheme h.is_host
        ∙ sym (redact_url_lem h.scheme v h.host h.is_scheme h.is_host)
        ∙ ap redact_url (sym url') in
      let username = redact_same c.mqtt.username d.mqtt.username h.usernames.0 h.usernames.1 in
      let password = redact_same c.mqtt.password d.mqtt.password h.passwords.0 h.passwords.1 in
      let last : last_lines format ss ≡ last_lines format ts =
        sym (last_lines-hidden format ss)
        ∙ ap (last_lines format) (compile_sources-hidden c d ss ts h.sources h.qos made made')
        ∙ last_lines-hidden format ts in
      cc (broker, username, password, last, h.client_id, h.listen)
