-- ===== src/Config/Fields/Process.antt =====
-- What the check of mqtt2prometheus.yaml accepts: no problem is added exactly when the fields are as
-- docs/configuration.md wants them.
use mqtt2prometheus.Base.{
  Text, ℕ, ◌≤◌, ◌≡◌, ◌≢◌, ◌↔◌, refl, Bool, true, false, not, ◌==◌, eq_iff, ltb, codes, Option, none,
  some, List, [], ◌∷◌, is_empty, arith,
}
use mqtt2prometheus.Config.{Config}
use mqtt2prometheus.Config.Problems.{
  Where, Problems, flag, flag-eq-nil, append-ne-nil, is_level, required, bad_level, bad_qos,
  main_file, no_sources,
}
use mqtt2prometheus.Config.Fields.{
  validate_process, level_problems, main_qos_problems, clean_session_problems,
}

pub record IsProcess {F : Type 0} (c : Config F) : Type 0 where
  pub broker : c.mqtt.broker ≢ []
  pub client_id : c.mqtt.client_id ≢ []
  pub username : c.mqtt.username ≢ []
  pub password : c.mqtt.password ≢ []
  pub qos : (n : ℕ) × (c.mqtt.qos ≡ some n) × (n ≤ 2)
  pub clean_session : (b : Bool) × (c.mqtt.clean_session ≡ some b)
  pub listen : c.listen ≢ []
  pub level : is_level c.log_level ≡ true
  pub sources : c.source_list ≢ []

level_problems-eq-nil :
    (level : Text) (p : Problems)
    → (level_problems level p ≡ []) ↔ ((p ≡ []) × (is_level level ≡ true))
level_problems-eq-nil level p = ground (
  arith,
  eq_iff level [],
  append-ne-nil p (required main_file (codes "log.level")),
  flag-eq-nil p (not (is_level level)) (bad_level level),
  is_level-nil,
)
  where
    is_level-nil : is_level [] ≡ false
    is_level-nil = unfold is_level ◌==◌ in refl

main_qos_problems-eq-nil :
    (o : Option ℕ) (p : Problems)
    → (main_qos_problems o p ≡ []) ↔ ((p ≡ []) × ((n : ℕ) × (o ≡ some n) × (n ≤ 2)))
main_qos_problems-eq-nil none p = (λ h. absurd (append-ne-nil p _ h), λ h. absurd (cc (h.1.1)))
main_qos_problems-eq-nil (some n) p = (
  λ h.
      let r = (flag-eq-nil p (ltb 2 n) (bad_qos main_file n)).0 h in (r.0, (n, refl, ground arith)),
  λ h. (flag-eq-nil p (ltb 2 n) (bad_qos main_file n)).1 (h.0, ground arith),
)

clean_session_problems-eq-nil :
    (o : Option Bool) (p : Problems)
    → (clean_session_problems o p ≡ []) ↔ ((p ≡ []) × ((b : Bool) × (o ≡ some b)))
clean_session_problems-eq-nil none p = (λ h. absurd (append-ne-nil p _ h), λ h. absurd (cc (h.1.1)))
clean_session_problems-eq-nil (some b) p = (λ h. (h, (b, refl)), λ h. h.0)

is_empty-false {ℓ} : {A : Type ℓ} (xs : List A) → (is_empty xs ≡ false) ↔ (xs ≢ [])
is_empty-false [] = (λ h. cc, λ h. absurd (h refl))
is_empty-false (x ∷ xs) = (λ h e. cc, λ h. refl)

required-eq-nil :
    (p : Problems) (s : Text) (at : Where) (field : Text)
    → (flag p (s == []) (required at field) ≡ []) ↔ ((p ≡ []) × (s ≢ []))
required-eq-nil p s at field =
    ground (arith, flag-eq-nil p (s == []) (required at field), eq_iff s [])

-- There is no problem after the check of the process section exactly when there was none before and
-- every field is given and in range.
pub validate_process-eq-nil :
    {F : Type 0} (c : Config F) (p : Problems)
    → (validate_process c p ≡ []) ↔ ((p ≡ []) × IsProcess c)
unfolding validate_process
validate_process-eq-nil c p₀ =
    let p₁ = flag p₀ (c.mqtt.broker == []) (required main_file (codes "mqtt.broker")) in
    let p₂ = flag p₁ (c.mqtt.client_id == []) (required main_file (codes "mqtt.client_id")) in
    let p₃ = flag p₂ (c.mqtt.username == []) (required main_file (codes "mqtt.username")) in
    let p₄ = flag p₃ (c.mqtt.password == []) (required main_file (codes "mqtt.password")) in
    let p₅ = main_qos_problems c.mqtt.qos p₄ in
    let p₆ = clean_session_problems c.mqtt.clean_session p₅ in
    let p₇ = flag p₆ (c.listen == []) (required main_file (codes "server.listen")) in
    let p₈ = level_problems c.log_level p₇ in
    let e₁ = required-eq-nil p₀ c.mqtt.broker main_file (codes "mqtt.broker") in
    let e₂ = required-eq-nil p₁ c.mqtt.client_id main_file (codes "mqtt.client_id") in
    let e₃ = required-eq-nil p₂ c.mqtt.username main_file (codes "mqtt.username") in
    let e₄ = required-eq-nil p₃ c.mqtt.password main_file (codes "mqtt.password") in
    let e₅ = main_qos_problems-eq-nil c.mqtt.qos p₄ in
    let e₆ = clean_session_problems-eq-nil c.mqtt.clean_session p₅ in
    let e₇ = required-eq-nil p₆ c.listen main_file (codes "server.listen") in
    let e₈ = level_problems-eq-nil c.log_level p₇ in
    let e₉ = flag-eq-nil p₈ (is_empty c.source_list) no_sources in
    let e = is_empty-false c.source_list in
    (
      λ h.
          let r₉ = e₉.0 h in
          let r₈ = e₈.0 r₉.0 in
          let r₇ = e₇.0 r₈.0 in
          let r₆ = e₆.0 r₇.0 in
          let r₅ = e₅.0 r₆.0 in
          let r₄ = e₄.0 r₅.0 in
          let r₃ = e₃.0 r₄.0 in
          let r₂ = e₂.0 r₃.0 in
          let r₁ = e₁.0 r₂.0 in
          (
            r₁.0,
            record {
              broker = r₁.1;
              client_id = r₂.1;
              username = r₃.1;
              password = r₄.1;
              qos = r₅.1;
              clean_session = r₆.1;
              listen = r₇.1;
              level = r₈.1;
              sources = e.0 r₉.1;
            },
          ),
      λ h.
          let (start, v) = h in
          let q₄ =
            e₄.1 (e₃.1 (e₂.1 (e₁.1 (start, v.broker), v.client_id), v.username), v.password) in
          e₉.1 (
            e₈.1 (e₇.1 (e₆.1 (e₅.1 (q₄, v.qos), v.clean_session), v.listen), v.level),
            e.1 v.sources,
          ),
    )
