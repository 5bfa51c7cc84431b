-- ===== src/Config/Fields/Labels.antt =====
-- What the checks of labels accept.
use mqtt2prometheus.Base.{
  Text, ◌≡◌, ◌≢◌, ◌↔◌, ◌⊎◌, inl, inr, ◌∙◌, sym, true, false, not, ◌==◌, eq_iff, eq_refl, codes,
  Option, none, some, List, [], ◌∷◌, All, Bool-cases, arith,
}
use mqtt2prometheus.Base.Dict.{Dict, keys, values, Keys, contains}
use mqtt2prometheus.Base.Sort.{sort_texts, contains-sort_texts}
use mqtt2prometheus.Config.{Label, from_json, from_static}
use mqtt2prometheus.Config.Template.{template_refs}
use mqtt2prometheus.Config.Problems.{
  Where, Problems, label, flag, flag-eq-nil, append-ne-nil, is_label_name, empty_mapped,
  unknown_capture, required, not_allowed, bad_from, bad_label_name, capture_clash,
}
use mqtt2prometheus.Config.Fields.{
  mapped_problems, map_problems, validate_label, ref_problems, label_at, label_problems,
  validate_labels,
}

abbrev pub IsFilled : Option (Dict Text) → Type 0
IsFilled none = Unit
IsFilled (some m) = All (λ (v : Text). v ≢ []) (values m)

-- a static label with a value, or a JSON label with a path, and no empty mapped value
abbrev pub IsLabel : Label → Type 0
IsLabel l =
    (((l.from ≡ from_static) × (l.value ≢ []) × (l.path ≡ []))
      ⊎ ((l.from ≡ from_json) × (l.path ≢ []) × (l.value ≡ [])))
    × IsFilled l.mapping

mapped_problems-eq-nil :
    (at : Where) (ms : List Text) (p : Problems)
    → (mapped_problems at ms p ≡ []) ↔ ((p ≡ []) × All (λ (v : Text). v ≢ []) ms)
unfolding mapped_problems
mapped_problems-eq-nil at [] p = (λ h. (h, tt), λ h. h.0)
mapped_problems-eq-nil at (m ∷ ms) p = ground (
  arith,
  mapped_problems-eq-nil at ms (flag p (m == []) (empty_mapped at)),
  flag-eq-nil p (m == []) (empty_mapped at),
  eq_iff m [],
)

map_problems-eq-nil :
    (at : Where) (m : Option (Dict Text)) (p : Problems)
    → (map_problems at m p ≡ []) ↔ ((p ≡ []) × IsFilled m)
map_problems-eq-nil at none p = (λ h. (h, tt), λ h. h.0)
map_problems-eq-nil at (some m) p = mapped_problems-eq-nil at (values m) p

-- A label adds no problem exactly when it is well declared.
pub validate_label-eq-nil :
    (l : Label) (at : Where) (p : Problems) → (validate_label l at p ≡ []) ↔ ((p ≡ []) × IsLabel l)
unfolding validate_label
validate_label-eq-nil l at p =
    let p₁ = flag p (l.value == []) (required at (codes "value")) in
    let p₂ = flag p (l.path == []) (required at (codes "path")) in
    ground (
      arith,
      eq_iff l.from [],
      eq_iff l.from from_static,
      eq_iff l.from from_json,
      eq_iff l.value [],
      eq_iff l.path [],
      append-ne-nil p (required at (codes "from")),
      append-ne-nil p (bad_from at l.from),
      flag-eq-nil p (l.value == []) (required at (codes "value")),
      flag-eq-nil p (l.path == []) (required at (codes "path")),
      flag-eq-nil p₁ (not (l.path == [])) (not_allowed at (codes "path")),
      flag-eq-nil p₂ (not (l.value == [])) (not_allowed at (codes "value")),
      map_problems-eq-nil at l.mapping
          (flag p₁ (not (l.path == [])) (not_allowed at (codes "path"))),
      map_problems-eq-nil at l.mapping
          (flag p₂ (not (l.value == [])) (not_allowed at (codes "value"))),
    )

ref_problems-eq-nil :
    (at : Where) (name : Text) (captures : Keys) (refs : List Text) (p : Problems)
    → (ref_problems at name captures refs p ≡ [])
      ↔ ((p ≡ []) × All (λ (r : Text). contains r captures ≡ true) refs)
unfolding ref_problems
ref_problems-eq-nil at name captures [] p = (λ h. (h, tt), λ h. h.0)
ref_problems-eq-nil at name captures (r ∷ refs) p = ground (
  arith,
  ref_problems-eq-nil at name captures refs
      (flag p (not (contains r captures)) (unknown_capture at name r)),
  flag-eq-nil p (not (contains r captures)) (unknown_capture at name r),
)

-- A label of a rule with these captures: its name is a Prometheus label name and not that of a
-- capture, it is well declared, and its template refers to captures only.
abbrev pub IsEntry : Keys → Dict Label → Text → Type 0
IsEntry captures labels name =
    (is_label_name name ≡ true)
    × (contains name captures ≡ false)
    × IsLabel (label_at name labels)
    × All (λ (r : Text). contains r captures ≡ true) (template_refs (label_at name labels).value)

abbrev pub IsLabels : Keys → Dict Label → Type 0
IsLabels captures labels =
    (name : Text) → contains name (keys labels) ≡ true → IsEntry captures labels name

label_problems-eq-nil :
    (at : Where) (captures : Keys) (labels : Dict Label) (names : List Text) (p : Problems)
    → (label_problems at captures labels names p ≡ [])
      ↔ ((p ≡ []) × All (IsEntry captures labels) names)
unfolding label_problems
label_problems-eq-nil at captures labels [] p = (λ h. (h, tt), λ h. h.0)
label_problems-eq-nil at captures labels (name ∷ names) p =
    let l = label_at name labels in
    let p₁ = flag p (not (is_label_name name)) (bad_label_name at name) in
    let p₂ = flag p₁ (contains name captures) (capture_clash at name) in
    let p₃ = validate_label l (label at name) p₂ in
    let p₄ = ref_problems at name captures (template_refs l.value) p₃ in
    let e₁ = flag-eq-nil p (not (is_label_name name)) (bad_label_name at name) in
    let e₂ = flag-eq-nil p₁ (contains name captures) (capture_clash at name) in
    let e₃ = validate_label-eq-nil l (label at name) p₂ in
    let e₄ = ref_problems-eq-nil at name captures (template_refs l.value) p₃ in
    let e₅ = label_problems-eq-nil at captures labels names p₄ in
    (
      λ h.
          let r₅ = e₅.0 h in
          let r₄ = e₄.0 r₅.0 in
          let r₃ = e₃.0 r₄.0 in
          let r₂ = e₂.0 r₃.0 in
          let r₁ = e₁.0 r₂.0 in (r₁.0, ((ground (arith, r₁.1), r₂.1, r₃.1, r₄.1), r₅.1)),
      λ h.
          let ((n, c, v, r), rest) = h.1 in
          e₅.1 (e₄.1 (e₃.1 (e₂.1 (e₁.1 (h.0, ground (arith, n)), c), v), r), rest),
    )

All-contains :
    (Q : Text → Type 0) (xs : List Text) → All Q xs ↔ ((k : Text) → contains k xs ≡ true → Q k)
unfolding contains
All-contains Q [] = (λ h k m. cc, λ h. tt)
All-contains Q (x ∷ xs) = (
  λ h k m. elim (Bool-cases (k == x)) [
    | inl e ↦ rw ((eq_iff k x).0 e) (h.0)
    | inr e ↦ (All-contains Q xs).0 h.1 k (rw e at m)
  ],
  λ h. (h x (rw (eq_refl x)), (All-contains Q xs).1 (λ k m. h k (ground (arith, m)))),
)

-- There is no problem after the check of the labels of a source or a rule exactly when there was none
-- before and each label is well declared.
pub validate_labels-eq-nil :
    (at : Where) (captures : Keys) (labels : Dict Label) (p : Problems)
    → (validate_labels at captures labels p ≡ []) ↔ ((p ≡ []) × IsLabels captures labels)
unfolding validate_labels
validate_labels-eq-nil at captures labels p =
    let e = label_problems-eq-nil at captures labels (sort_texts (keys labels)) p in
    let a = All-contains (IsEntry captures labels) (sort_texts (keys labels)) in
    (
      λ h. ((e.0 h).0, λ name m. a.0 (e.0 h).1 name (contains-sort_texts name (keys labels) ∙ m)),
      λ h. e.1 (h.0, a.1 (λ name m. h.1 name (sym (contains-sort_texts name (keys labels)) ∙ m))),
    )
