-- ===== src/Store/Snapshot.antt =====
-- `Snapshot` of internal/store/store.go: what a scrape reads.
use mathlib.Core.List.{Perm}
use mqtt2prometheus.Base.{
  Text, ◌≡◌, refl, subst, Bool, ◌&&◌, ◌||◌, ◌==◌, less, eq_iff, less_asym, less_negtrans,
  less_total, join, some, List, [], ◌∷◌, map, In, inl, inr, Bool-cases, arith,
}
use mqtt2prometheus.Base.Dict.{values, lookup}
use mqtt2prometheus.Base.Sort.{place, sort, sort-perm, sort-IsOrdered, IsWeakOrder, IsOrdered}
use mqtt2prometheus.Platform.{Platform}
use mqtt2prometheus.Store.{Series, Sample, Store, sample_before, sample_of, snapshot}

sample_before-IsWeakOrder : {F : Type 0} → IsWeakOrder (sample_before {F = F})
unfolding sample_before
sample_before-IsWeakOrder = record {
  asym = λ a b h. ground (
    arith,
    eq_iff a.key.name b.key.name,
    eq_iff b.key.name a.key.name,
    less_asym a.key.name b.key.name,
    less_asym (join a.key.label_values (0 ∷ [])) (join b.key.label_values (0 ∷ [])),
  );
  negtrans = λ a b c h k. ground (
    arith,
    eq_iff a.key.name b.key.name,
    eq_iff b.key.name a.key.name,
    eq_iff c.key.name b.key.name,
    eq_iff c.key.name a.key.name,
    less_negtrans a.key.name b.key.name c.key.name,
    less_total a.key.name b.key.name,
    less_total c.key.name b.key.name,
    less_negtrans (join a.key.label_values (0 ∷ [])) (join b.key.label_values (0 ∷ []))
        (join c.key.label_values (0 ∷ [])),
  );
}

-- the order by name, and then by the label values
abbrev pub shown_before : {F : Type 0} → Sample F → Sample F → Bool
shown_before a b =
    less a.key.name b.key.name
    || (a.key.name == b.key.name
        && less (join a.key.label_values (0 ∷ [])) (join b.key.label_values (0 ∷ [])))

sample_before_lem : {F : Type 0} (a b : Sample F) → sample_before a b ≡ shown_before a b
unfolding sample_before
sample_before_lem a b = ground (
  arith,
  eq_iff a.key.name b.key.name,
  less_asym a.key.name b.key.name,
  less_asym b.key.name a.key.name,
  less_total a.key.name b.key.name,
)

module _ (P : Platform) where
  open P use {Float, plus}

  -- what is shown for a series
  abbrev pub shown_for : Series Float → Sample Float
  shown_for c = record {
    key = record { name = c.name; label_names = c.names; label_values = c.values };
    kind = c.kind;
    help = c.help;
    value = plus c.last c.offset;
  }

  sample_of-shown_for : (c : Series Float) → sample_of P c ≡ shown_for c
  unfolding sample_of
  sample_of-shown_for c = refl

  -- A snapshot is the stored series, one sample for each, with the series' metric, labels, kind and
  -- help text and the sum of its last value and its offset. The samples are sorted by the names of
  -- their metrics, and those of one name by their label values, joined with NUL.
  pub snapshot_lem :
      (s : Store Float)
      → Perm (snapshot P s) (map shown_for (values s)) × IsOrdered shown_before (snapshot P s)
  unfolding snapshot
  snapshot_lem s = (
    subst (λ f. Perm (snapshot P s) (map f (values s))) (λ i c. sample_of-shown_for c i)
        (sort-perm _ _),
    subst (λ before. IsOrdered before (snapshot P s)) (λ i a b. sample_before_lem a b i)
        (sort-IsOrdered sample_before sample_before-IsWeakOrder (map (sample_of P) (values s))),
  )

  In-place :
      (a x : Sample Float) (ys : List (Sample Float))
      → In a (x ∷ ys)
      → In a (place sample_before x ys)
  unfolding place
  In-place a x [] h = h
  In-place a x (y ∷ ys) h = elim (Bool-cases (sample_before y x)) [
    | inl e ↦ rw e (elim h [
      | inl here ↦ inr (In-place a x ys (inl here))
      | inr (inl next) ↦ inl next
      | inr (inr later) ↦ inr (In-place a x ys (inr later))
    ])
    | inr e ↦ rw e h
  ]

  In-sort : (a : Sample Float) (xs : List (Sample Float)) → In a xs → In a (sort sample_before xs)
  unfolding sort
  In-sort a [] h = h
  In-sort a (x ∷ xs) (inl h) = In-place a x _ (inl h)
  In-sort a (x ∷ xs) (inr h) = In-place a x _ (inr (In-sort a xs h))

  In-values :
      (k : Text) (c : Series Float) (s : Store Float)
      → lookup k s ≡ some c
      → In (sample_of P c) (map (sample_of P) (values s))
  unfolding lookup
  In-values k c [] h = cc
  In-values k c ((j, d) ∷ s) h = elim (Bool-cases (k == j)) [
    | inl e ↦ inl (cc (rw e at h))
    | inr e ↦ inr (In-values k c s (rw e at h))
  ]

  -- A series that the store has at some identity is shown, with its name, labels and value.
  pub In-snapshot :
      (k : Text) (c : Series Float) (s : Store Float)
      → lookup k s ≡ some c
      → In (sample_of P c) (snapshot P s)
  unfolding snapshot
  In-snapshot k c s h = In-sort _ _ (In-values k c s h)
