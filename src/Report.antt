-- ===== src/Report.antt =====
-- internal/app/verify.go: the report of `verify`. The directives of `fmt.Sprintf` for a padded text and
-- for a number are parameters.
pub mod Redact
pub mod Secrets
use mqtt2prometheus.Base.{
  Text, ℕ, ◌+◌, ◌==◌, eqb, codes, Option, none, some, List, [], ◌∷◌, ◌++◌, map, length, join,
  if◌then◌else◌,
}
use mqtt2prometheus.Base.Dict.{Keys, add}
use mqtt2prometheus.Config.{Config}
use mqtt2prometheus.Source.{Source, starts_with, metric_names}

unfoldable pub count_rules : {F R : Type 0} → List (Source F R) → ℕ
count_rules [] = 0
count_rules (s ∷ sources) = length s.rules + count_rules sources

unfoldable pub redact : Text → Text
redact value = if value == [] then codes "(empty)" else codes "(set, redacted)"

abbrev pub add_all : List Text → Keys → Keys
add_all [] found = found
add_all (name ∷ names) found = add_all names (add name found)

-- `raw[at:]` for the last `@`
unfoldable pub from_last_at : Text → Option Text
from_last_at [] = none
from_last_at (c ∷ s) = elim (from_last_at s) [
  | some tail ↦ some tail
  | none ↦ if eqb c b'@' then some (c ∷ s) else none
]

-- `raw[:scheme+3]` for the first `://`
unfoldable pub up_to_scheme : Text → Option Text
up_to_scheme [] = none
up_to_scheme (c ∷ s) =
    let rest = up_to_scheme s in
    if starts_with (c ∷ s) (codes "://")
    then some (codes "://")
    else (elim rest [ none ↦ none | some head ↦ some (c ∷ head) ])

unfoldable pub redact_url : Text → Text
unfolding from_last_at up_to_scheme
redact_url raw = elim (from_last_at raw) [
  | none ↦ raw
  | some tail ↦ elim (up_to_scheme raw) [
    | none ↦ codes "(redacted)" ++ tail
    | some head ↦ head ++ (codes "(redacted)" ++ tail)
  ]
]

-- `%-14s`, `%-18s`, `%2d` and `%d`
pub record Format : Type 0 where
  pub padded : ℕ → Text → Text
  pub padded_number : ℕ → ℕ → Text
  pub number : ℕ → Text

module _ (format : Format) where
  open format use {padded, padded_number, number}

  unfoldable pub source_line : {F R : Type 0} → Source F R → Text
  source_line src =
      padded 14 src.name
      ++ (codes " "
          ++ (padded_number 2 (length src.rules)
              ++ (codes " rules  subscribes "
                  ++ (padded 18 src.subscribe ++ (codes " qos " ++ number src.qos)))))

  -- the map `metrics`
  unfoldable pub all_metrics : {F R : Type 0} → List (Source F R) → Keys → Keys
  all_metrics [] found = found
  all_metrics (src ∷ sources) found = all_metrics sources (add_all (metric_names src) found)

  unfoldable pub summary : {F R : Type 0} → List (Source F R) → Text
  unfolding all_metrics count_rules
  summary sources =
      number (length sources)
      ++ (codes " sources, "
          ++ (number (count_rules sources)
              ++ (codes " rules, "
                  ++ (number (length (all_metrics sources [])) ++ codes " metrics, no problems"))))

  unfoldable pub report_lines : {F G R : Type 0} → Config F → List (Source G R) → List Text
  unfolding redact redact_url source_line summary
  report_lines cfg sources =
      (codes "broker      " ++ redact_url cfg.mqtt.broker)
      ∷ (codes "client id   " ++ cfg.mqtt.client_id)
      ∷ (codes "username    " ++ redact cfg.mqtt.username)
      ∷ (codes "password    " ++ redact cfg.mqtt.password)
      ∷ (codes "listen      " ++ cfg.listen)
      ∷ []
      ∷ (map source_line sources ++ ([] ∷ summary sources ∷ []))

  -- what is written
  unfoldable pub report : {F G R : Type 0} → Config F → List (Source G R) → Text
  unfolding report_lines
  report cfg sources = join (report_lines cfg sources) (b'\n' ∷ []) ++ b'\n' ∷ []
