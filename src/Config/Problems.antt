-- ===== src/Config/Problems.antt =====
-- What internal/config/validate.go reports. A problem is a value that says which message was appended,
-- with the arguments of the message; the `where` strings are values too. The wording is not modelled.
use mqtt2prometheus.Base.{
  ◌≡◌, ◌↔◌, refl, Text, ℕ, Bool, true, false, ◌&&◌, ◌||◌, ◌==◌, ltb, eqb, codes, Option, none, some,
  List, [], ◌∷◌, ◌++◌, if◌then◌else◌,
}
use mqtt2prometheus.Config.Template.{is_name_start, is_name_byte}

pub data Where : Type 0 where
  main_file : Where
  file : Text → Where
  rule : Text → ℕ → Where
  label : Where → Text → Where

pub data Problem : Type 0 where
  -- "… is required", with the field
  required : Where → Text → Problem
  -- "… is only valid when", with the field
  not_allowed : Where → Text → Problem
  bad_qos : Where → ℕ → Problem
  bad_level : Text → Problem
  no_sources : Problem
  duplicate_source : Text → Text → Text → Problem
  bad_metric_name : Where → Text → Problem
  bad_type : Where → Text → Problem
  bad_match : Where → Problem
  bad_capture : Where → ℕ → Text → Problem
  bad_label_name : Where → Text → Problem
  capture_clash : Where → Text → Problem
  unknown_capture : Where → Text → Text → Problem
  bad_from : Where → Text → Problem
  empty_mapped : Where → Problem
  bad_regex : Where → Problem
  bad_groups : Where → ℕ → Problem
  zero_scale : Where → Problem
  other_labels : Where → Text → Text → Text → Problem
  other_help : Where → Text → Text → Text → Problem
  other_kind : Where → Text → Text → Text → Problem

abbrev pub Problems : Type 0
Problems = List Problem

-- `if test { p = append(p, problem) }`
unfoldable pub flag : Problems → Bool → Problem → Problems
flag p test problem = if test then p ++ problem ∷ [] else p

-- `*qos > 2`, on a pointer that is not nil
abbrev pub qos_problems : Where → Option ℕ → Problems → Problems
qos_problems where' none p = p
qos_problems where' (some n) p = flag p (ltb 2 n) (bad_qos where' n)

abbrev pub all_bytes : (ℕ → Bool) → Text → Bool
all_bytes test [] = true
all_bytes test (c ∷ s) = test c && all_bytes test s

-- ^[a-zA-Z_:][a-zA-Z0-9_:]*$
unfoldable pub is_metric_name : Text → Bool
is_metric_name [] = false
is_metric_name (c ∷ s) =
    (is_name_start c || eqb c b':') && all_bytes (λ b. is_name_byte b || eqb b b':') s

-- ^[a-zA-Z_][a-zA-Z0-9_]*$
unfoldable pub is_label_name : Text → Bool
is_label_name [] = false
is_label_name (c ∷ s) = is_name_start c && all_bytes is_name_byte s

unfoldable pub is_level : Text → Bool
is_level level =
    level == codes "debug"
    || level == codes "info"
    || level == codes "warn"
    || level == codes "error"

-- The list stays empty if it was empty and the test fails.
pub flag-eq-nil :
    (p : Problems) (test : Bool) (problem : Problem)
    → (flag p test problem ≡ []) ↔ ((p ≡ []) × (test ≡ false))
unfolding flag
flag-eq-nil [] true problem = (λ h. cc, λ h. cc (h.1))
flag-eq-nil [] false problem = (λ h. (refl, refl), λ h. refl)
flag-eq-nil (q ∷ p) true problem = (λ h. cc, λ h. cc (h.0))
flag-eq-nil (q ∷ p) false problem = (λ h. cc, λ h. cc (h.0))

pub append-ne-nil : (p : Problems) (problem : Problem) → p ++ problem ∷ [] ≡ [] → ⊥
append-ne-nil [] problem h = cc
append-ne-nil (q ∷ p) problem h = cc

pub append-eq-nil : (p q : Problems) → (p ++ q ≡ []) ↔ ((p ≡ []) × (q ≡ []))
append-eq-nil [] q = (λ h. (refl, h), λ h. h.1)
append-eq-nil (x ∷ p) q = (λ h. cc, λ h. cc (h.0))
