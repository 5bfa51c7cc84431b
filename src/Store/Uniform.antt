-- ===== src/Store/Uniform.antt =====
-- A store whose series agree with one shape for each metric name: what a scrape needs.
use mqtt2prometheus.Base.{
  Text, ◌≡◌, refl, sym, ap, subst, subst₂, Bool, true, false, ◌==◌, eq_iff, Option, none, some,
  some-injective, List, [], ◌∷◌, map, In, Bool-cases, inl, inr, if◌then◌else◌, arith,
}
use mqtt2prometheus.Base.Dict.{
  Dict, values, lookup, lookup-cons, lookup-nil, NodupKeys, insert-NodupKeys,
}
use mqtt2prometheus.Base.Sort.{place, sort}
use mqtt2prometheus.Platform.{Platform}
use mqtt2prometheus.Config.{type_gauge, type_counter}
use mqtt2prometheus.Config.Metrics.{Shape, joined}
use mqtt2prometheus.Store.{
  Kind, gauge, counter, Sample, Series, Store, flatten, identity, set, update, fresh, sample_of,
  sample_before, snapshot,
}
use mqtt2prometheus.Store.Identity.{LacksZero, name-identity}
use mqtt2prometheus.Store.History.{Write, write, written, id_of, lookup-set}

abbrev pub kind_text : Kind → Text
kind_text gauge = type_gauge
kind_text counter = type_counter

kind_text-injective : (k l : Kind) → kind_text k ≡ kind_text l → k ≡ l
kind_text-injective gauge gauge h = refl
kind_text-injective gauge counter h = cc
kind_text-injective counter gauge h = cc
kind_text-injective counter counter h = refl

abbrev pub shape_of : List Text → Text → Kind → Shape
shape_of names help kind = record { labels = joined names; help = help; kind = kind_text kind }

-- The series stands at its identity, and the map of shapes has its shape under its name.
pub record FitsAt {F : Type 0} (m : Dict Shape) (k : Text) (c : Series F) : Type 0 where
  pub filed : k ≡ identity c.name c.names c.values
  pub named : LacksZero c.name
  pub shape : lookup c.name m ≡ some (shape_of c.names c.help c.kind)

-- the same for a write
pub record FitsWrite {F : Type 0} (m : Dict Shape) (w : Write F) : Type 0 where
  pub named : LacksZero w.name
  pub shape : lookup w.name m ≡ some (shape_of (flatten w.labels).0 w.help w.kind)

module _ (P : Platform) where
  open P use {Float}

  pub record IsUniform (m : Dict Shape) (s : Store Float) : Type 0 where
    pub nodup : NodupKeys s
    pub at : (k : Text) (c : Series Float) → lookup k s ≡ some c → FitsAt m k c

  -- what `update` leaves alone, and what it writes
  pub record Updated (c : Series Float) (k : Kind) (h : Text) (d : Series Float) : Type 0 where
    pub name : d.name ≡ c.name
    pub names : d.names ≡ c.names
    pub values : d.values ≡ c.values
    pub kind : d.kind ≡ k
    pub help : d.help ≡ h

  pub update_lem :
      (kind : Kind) (help : Text) (v : Float) (c : Series Float)
      → Updated c kind help (update P kind help v c)
  unfolding update
  update_lem gauge help v c = record {
    name = refl;
    names = refl;
    values = refl;
    kind = refl;
    help = refl;
  }
  update_lem counter help v c = ground arith

  written-FitsAt :
      (m : Dict Shape) (w : Write Float) (o : Option (Series Float))
      → FitsWrite m w
      → ((c : Series Float) → o ≡ some c → FitsAt m (id_of w.name w.labels) c)
      → FitsAt m (id_of w.name w.labels) (written P o w)
  written-FitsAt m w none f h =
      let c = fresh P w.name w.kind w.help (flatten w.labels).0 (flatten w.labels).1 in
      let u = update_lem w.kind w.help w.value c in
      record {
        filed = unfold fresh in cc (u.name, u.names, u.values);
        named = unfold fresh in rw (u.name) f.named;
        shape = unfold fresh in cc (u.name, u.names, u.kind, u.help, f.shape);
      }
  written-FitsAt m w (some c) f h =
      let u = update_lem w.kind w.help w.value c in
      let old = h c refl in
      let same : c.name ≡ w.name = name-identity _ _ _ _ _ _ old.named f.named (sym old.filed) in
      let agree : shape_of c.names c.help c.kind ≡ shape_of (flatten w.labels).0 w.help w.kind =
        some-injective _ _ (cc (old.shape, f.shape, same)) in
      let labels : joined c.names ≡ joined (flatten w.labels).0 =
        ap (λ (z : Shape). z.labels) agree in
      record {
        filed = cc (u.name, u.names, u.values, old.filed);
        named = rw (u.name) old.named;
        shape = cc (u.name, u.names, u.kind, u.help, f.shape, same, labels);
      }

  -- A write that fits keeps the store uniform.
  pub write-IsUniform :
      (m : Dict Shape) (s : Store Float) (w : Write Float)
      → FitsWrite m w
      → IsUniform m s
      → IsUniform m (write P s w)
  write-IsUniform m s w f h = record {
    nodup = unfold set in insert-NodupKeys _ _ s h.nodup;
    at = λ k c e. elim (Bool-cases (k == id_of w.name w.labels)) [
      | inl same ↦
          let k_id : k ≡ id_of w.name w.labels = (eq_iff _ _).0 same in
          subst₂ (FitsAt m) (sym k_id) (some-injective _ _ (cc (lookup-set P s w k, same, e)))
            (written-FitsAt m w (lookup k s) f (λ d q. subst (λ i. FitsAt m i d) k_id (h.at k d q)))
      | inr other ↦ h.at k c (cc (lookup-set P s w k, other))
    ];
  }

  pub IsUniform-nil : (m : Dict Shape) → IsUniform m []
  IsUniform-nil m = record {
    nodup = tt;
    at = λ k c e. absurd (cc (lookup-nil {V = Series Float} k, e));
  }

  place-In_if :
      (b : Bool) (a x y : Sample Float) (ys zs : List (Sample Float))
      → (In a zs → In a (x ∷ ys))
      → In a (if b then y ∷ zs else x ∷ y ∷ ys)
      → In a (x ∷ y ∷ ys)
  place-In_if true a x y ys zs f (inl h) = inr (inl h)
  place-In_if true a x y ys zs f (inr h) = elim (f h) [ inl e ↦ inl e | inr q ↦ inr (inr q) ]
  place-In_if false a x y ys zs f h = h

  place-In :
      (a x : Sample Float) (ys : List (Sample Float))
      → In a (place sample_before x ys)
      → In a (x ∷ ys)
  unfolding place
  place-In a x [] h = h
  place-In a x (y ∷ ys) h =
      place-In_if (sample_before y x) a x y ys (place sample_before x ys) (place-In a x ys) h

  sort-In : (a : Sample Float) (xs : List (Sample Float)) → In a (sort sample_before xs) → In a xs
  unfolding sort
  sort-In a [] h = h
  sort-In a (x ∷ xs) h = elim (place-In a x (sort sample_before xs) h) [
    | inl e ↦ inl e
    | inr later ↦ inr (sort-In a xs later)
  ]

  -- a sample that shows a series of the store
  pub record Shows (s : Store Float) (a : Sample Float) : Type 0 where
    pub key : Text
    pub series : Series Float
    pub stored : lookup key s ≡ some series
    pub shown : a ≡ sample_of P series

  values-In :
      (a : Sample Float) (s : Store Float)
      → NodupKeys s
      → In a (map (sample_of P) (values s))
      → Shows s a
  values-In a [] u h = absurd h
  values-In a ((k, c) ∷ s) (fresh, u) (inl e) = record {
    key = k;
    series = c;
    stored = ground (arith, lookup-cons k k c s, eq_iff k k);
    shown = e;
  }
  values-In a ((k, c) ∷ s) (fresh, u) (inr later) =
      let rest = values-In a s u later in
      record {
        key = rest.key;
        series = rest.series;
        stored = ground (arith, lookup-cons rest.key k c s, eq_iff rest.key k, rest.stored);
        shown = rest.shown;
      }

  pub snapshot-Shows :
      (a : Sample Float) (s : Store Float) → NodupKeys s → In a (snapshot P s) → Shows s a
  unfolding snapshot
  snapshot-Shows a s u h = values-In a s u (sort-In a _ h)

  -- In a snapshot of a uniform store, samples of one metric agree on label names, help text and kind.
  pub snapshot-IsUniform :
      (m : Dict Shape) (s : Store Float) (a b : Sample Float)
      → IsUniform m s
      → In a (snapshot P s)
      → In b (snapshot P s)
      → a.key.name ≡ b.key.name
      → (joined a.key.label_names ≡ joined b.key.label_names)
        × (a.help ≡ b.help)
        × (a.kind ≡ b.kind)
  unfolding snapshot
  snapshot-IsUniform m s a b h ina inb same =
      let x = snapshot-Shows a s h.nodup ina in
      let y = snapshot-Shows b s h.nodup inb in
      let c = x.series in
      let d = y.series in
      let fc = (h.at x.key c x.stored).shape in
      let fd = (h.at y.key d y.stored).shape in
      let names : c.name ≡ d.name = cc (x.shown, y.shown, same) in
      let agree : shape_of c.names c.help c.kind ≡ shape_of d.names d.help d.kind =
        some-injective _ _ (cc (fc, fd, names)) in
      let labels : joined c.names ≡ joined d.names = ap (λ (z : Shape). z.labels) agree in
      let help : c.help ≡ d.help = ap (λ (z : Shape). z.help) agree in
      let kind : c.kind ≡ d.kind = kind_text-injective _ _ (ap (λ (z : Shape). z.kind) agree) in
      (cc (x.shown, y.shown, labels), cc (x.shown, y.shown, help), cc (x.shown, y.shown, kind))
