-- ===== src/Config/Fields/Values.antt =====
-- What the check of a rule's value accepts.
use mqtt2prometheus.Base.{
  Text, ◌≡◌, ◌≢◌, ◌↔◌, ◌⊎◌, inl, inr, refl, false, not, ◌==◌, eq_iff, eqb, codes, Option, none,
  some, some-injective, [], Bool-cases, arith,
}
use mqtt2prometheus.Platform.{Platform}
use mqtt2prometheus.Config.{Value, from_json, from_raw}
use mqtt2prometheus.Config.Problems.{
  Where, Problems, flag, flag-eq-nil, append-ne-nil, required, not_allowed, bad_groups, zero_scale,
}
use mqtt2prometheus.Config.Fields.{
  validate_value, regex_problems, compiled_problems, scale_problems,
}

module _ (P : Platform) where
  open P use {Float, is_zero, compile, num_subexp}

  -- an expression with one capture group, or none given
  abbrev pub IsPattern : Text → Type 0
  IsPattern regex = regex ≢ [] → (re : P.Regexp) × (compile regex ≡ some re) × (num_subexp re ≡ 1)

  abbrev pub IsScale : Option Float → Type 0
  IsScale none = Unit
  IsScale (some x) = is_zero x ≡ false

  pub record IsValue (v : Value Float) : Type 0 where
    pub origin : ((v.from ≡ from_json) × (v.path ≢ [])) ⊎ ((v.from ≡ from_raw) × (v.path ≡ []))
    pub pattern : IsPattern v.regex
    pub scale : IsScale v.scale

  compiled-eq-nil :
      (at : Where) (o : Option P.Regexp) (p : Problems)
      → (compiled_problems P at o p ≡ [])
        ↔ ((p ≡ []) × ((re : P.Regexp) × (o ≡ some re) × (num_subexp re ≡ 1)))
  compiled-eq-nil at none p = (λ h. absurd (append-ne-nil p _ h), λ h. absurd (cc (h.1.1)))
  compiled-eq-nil at (some re) p =
      let e = flag-eq-nil p (not (eqb (num_subexp re) 1)) (bad_groups at (num_subexp re)) in
      (
        λ h. ((e.0 h).0, (re, refl, ground (arith, (e.0 h).1))),
        λ h.
            let (start, (re', q, n)) = h in e.1 (start, ground (arith, n, some-injective re re' q)),
      )

  regex_problems-eq-nil :
      (at : Where) (regex : Text) (p : Problems)
      → (regex_problems P at regex p ≡ []) ↔ ((p ≡ []) × IsPattern regex)
  regex_problems-eq-nil at regex p = elim (Bool-cases (regex == [])) [
    | inl e ↦ rw e (λ h. (h, λ n. absurd (n ((eq_iff regex []).0 e))), λ h. h.0)
    | inr e ↦
        let c = compiled-eq-nil at (compile regex) p in
        rw e (
          λ h. ((c.0 h).0, λ _. (c.0 h).1),
          λ h. c.1 (h.0, h.1 (λ q. cc (e, (eq_iff regex []).1 q))),
        )
  ]

  scale_problems-eq-nil :
      (at : Where) (o : Option Float) (p : Problems)
      → (scale_problems P at o p ≡ []) ↔ ((p ≡ []) × IsScale o)
  scale_problems-eq-nil at none p = (λ h. (h, tt), λ h. h.0)
  scale_problems-eq-nil at (some x) p = flag-eq-nil p (is_zero x) (zero_scale at)

  -- There is no problem after the check of a value exactly when there was none before and the value is
  -- well declared.
  pub validate_value-eq-nil :
      (v : Value Float) (at : Where) (p : Problems)
      → (validate_value P v at p ≡ []) ↔ ((p ≡ []) × IsValue v)
  unfolding validate_value
  validate_value-eq-nil v at p =
      let p₁ = flag p (v.path == []) (required at (codes "value.path")) in
      let p₂ = flag p (not (v.path == [])) (not_allowed at (codes "value.path")) in
      let e₁ = flag-eq-nil p (v.path == []) (required at (codes "value.path")) in
      let e₂ = flag-eq-nil p (not (v.path == [])) (not_allowed at (codes "value.path")) in
      let r₁ = regex_problems-eq-nil at v.regex p₁ in
      let r₂ = regex_problems-eq-nil at v.regex p₂ in
      let s₁ = scale_problems-eq-nil at v.scale (regex_problems P at v.regex p₁) in
      let s₂ = scale_problems-eq-nil at v.scale (regex_problems P at v.regex p₂) in
      let is_nil = eq_iff v.from [] in
      let is_json = eq_iff v.from from_json in
      let is_raw = eq_iff v.from from_raw in
      let no_path = eq_iff v.path [] in
      elim (Bool-cases (v.from == [])) [
        | inl e ↦ rw e (
          λ h. absurd (append-ne-nil p _ h),
          λ h. absurd (let o = h.1.origin in ground (arith, is_nil)),
        )
        | inr e ↦ elim (Bool-cases (v.from == from_json)) [
          | inl j ↦
              rw (e, j)
                (
                  λ h.
                      let a = s₁.0 h in
                      let b = r₁.0 a.0 in
                      let c = e₁.0 b.0 in
                      (
                        c.0,
                        record {
                          origin = inl (is_json.0 j, ground (arith, no_path, c.1));
                          pattern = b.1;
                          scale = a.1;
                        },
                      ),
                  λ h.
                      let o = h.1.origin in
                      s₁.1 (
                        r₁.1 (e₁.1 (h.0, ground (arith, no_path, is_json)), h.1.pattern),
                        h.1.scale,
                      ),
                )
          | inr j ↦ elim (Bool-cases (v.from == from_raw)) [
            | inl r ↦
                rw (e, j, r)
                  (
                    λ h.
                        let a = s₂.0 h in
                        let b = r₂.0 a.0 in
                        let c = e₂.0 b.0 in
                        (
                          c.0,
                          record {
                            origin = inr (is_raw.0 r, ground (arith, no_path, c.1));
                            pattern = b.1;
                            scale = a.1;
                          },
                        ),
                    λ h.
                        let o = h.1.origin in
                        s₂.1 (
                          r₂.1 (e₂.1 (h.0, ground (arith, no_path, is_json)), h.1.pattern),
                          h.1.scale,
                        ),
                  )
            | inr r ↦
                rw (e, j, r)
                  (
                    λ h. absurd (append-ne-nil p _ h),
                    λ h. absurd (let o = h.1.origin in ground (arith, is_json, is_raw)),
                  )
          ]
        ]
      ]
