-- ===== src/Exporter/Register.antt =====
-- `Register` of internal/exporter/self.go on a registry that refuses a name it has.
use mqtt2prometheus.Base.{
  Text, ◌≡◌, refl, ◌∙◌, ap, true, false, ◌==◌, List, [], ◌∷◌, ◌++◌, map, All, eq_iff, arith,
}
use mqtt2prometheus.Base.Dict.{contains, contains-cons, Distinct}
use mqtt2prometheus.Config.Template.{is_name_start, is_name_byte}
use mqtt2prometheus.Config.Problems.{is_metric_name, is_label_name}
use mqtt2prometheus.Source.{starts_with}
use mqtt2prometheus.Exporter.Names.{IsGood}
use mqtt2prometheus.Outcome.{Answer, ok, ◌>>=◌}
use mqtt2prometheus.Exporter.{
  OwnMetric, own_metrics, Target, own, samples, Registered, added, of_registered, register_all,
}

-- What `Registry.Register` promises: a metric is added if its name is valid and new and its label names
-- are valid, not reserved and all different; a collector that describes nothing is always added.
pub record IsRegistry {E R : Type 0} (register : R → Target → Registered E R) : Type 0 where
  pub names : R → List Text
  pub accepts :
      (reg : R) (m : OwnMetric)
      → is_metric_name m.name ≡ true
      → All IsGood m.labels
      → Distinct m.labels
      → contains m.name (names reg) ≡ false
      → (reg' : R) × (register reg (own m) ≡ added reg') × (names reg' ≡ m.name ∷ names reg)
  pub unchecked :
      (reg : R) → (reg' : R) × (register reg samples ≡ added reg') × (names reg' ≡ names reg)

-- the names of metrics, the first at the end
abbrev pub with_names : List OwnMetric → List Text → List Text
with_names [] names = names
with_names (m ∷ ms) names = with_names ms (m.name ∷ names)

abbrev pub IsNew : List Text → OwnMetric → Type 0
IsNew names m = contains m.name names ≡ false

abbrev AreValid : OwnMetric → Type 0
AreValid m = (is_metric_name m.name ≡ true) × All IsGood m.labels × Distinct m.labels

own_names : List OwnMetric → List Text
own_names = map (λ m. m.name)

AreValid-own : All AreValid own_metrics
unfolding own_metrics is_metric_name is_label_name is_name_start is_name_byte starts_with contains
    ◌==◌
AreValid-own = (
  (refl, ((refl, refl), ((refl, refl), ((refl, refl), tt))), (refl, (refl, (refl, tt)))),
  (
    (refl, tt, tt),
    (
      (refl, tt, tt),
      (
        (refl, ((refl, refl), tt), (refl, tt)),
        (
          (refl, tt, tt),
          ((refl, ((refl, refl), ((refl, refl), tt)), (refl, (refl, tt))), ((refl, tt, tt), tt)),
        ),
      ),
    ),
  ),
)

own_metrics-Distinct : Distinct (own_names own_metrics)
unfolding own_metrics own_names contains ◌==◌
own_metrics-Distinct = (refl, (refl, (refl, (refl, (refl, (refl, (refl, tt)))))))

module _ {E R : Type 0} (register : R → Target → Registered E R) (law : IsRegistry register) where
  open law use {names}

  abbrev register_rest : Answer E R → List Target → Answer E R
  register_rest r targets = r >>= (λ reg. register_all register reg targets)

  Registers : R → List Target → List Text → Type 0
  Registers reg targets found =
      (reg' : R) × (register_all register reg targets ≡ ok reg') × (names reg' ≡ found)

  IsNew-cons :
      (m : OwnMetric) (reg reg' : R) (ms : List OwnMetric)
      → names reg' ≡ m.name ∷ names reg
      → contains m.name (own_names ms) ≡ false
      → All (IsNew (names reg)) ms
      → All (IsNew (names reg')) ms
  unfolding own_names
  IsNew-cons m reg reg' [] e h k = tt
  IsNew-cons m reg reg' (n ∷ ms) e h (new, k) =
      let apart = contains-cons m.name n.name (own_names ms) in
      (
        ap (contains n.name) e
            ∙ contains-cons n.name m.name (names reg)
            ∙ ground (arith, apart, h, new, eq_iff n.name m.name, eq_iff m.name n.name),
        IsNew-cons m reg reg' ms e (ground (arith, apart, h)) k,
      )

  registers :
      (reg : R) (ms : List OwnMetric)
      → All AreValid ms
      → Distinct (own_names ms)
      → All (IsNew (names reg)) ms
      → Registers reg (map own ms ++ samples ∷ []) (with_names ms (names reg))
  unfolding register_all Registers own_names
  registers reg [] v d f =
      let (reg', e, same) = law.unchecked reg in
      (reg', ap (λ a. register_rest (of_registered a) []) e, same)
  registers reg (m ∷ ms) ((named, labels, apart_labels), v) (apart, d) (new, f) =
      let (next, e, shown) = law.accepts reg m named labels apart_labels new in
      let (reg', all, found) = registers next ms v d (IsNew-cons m reg next ms shown apart f) in
      (
        reg',
        ap (λ a. register_rest (of_registered a) (map own ms ++ samples ∷ [])) e ∙ all,
        found ∙ ap (with_names ms) shown,
      )

  -- A registry that keeps `IsRegistry` takes all metrics of the program and the collector of the
  -- samples, if it has none of the metrics' names.
  pub register_all-own_metrics :
      (reg : R)
      → All (IsNew (names reg)) own_metrics
      → (reg' : R) × (register_all register reg (map own own_metrics ++ samples ∷ []) ≡ ok reg')
        × (names reg' ≡ with_names own_metrics (names reg))
  unfolding Registers
  register_all-own_metrics reg f = registers reg own_metrics AreValid-own own_metrics-Distinct f
