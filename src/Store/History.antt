-- ===== src/Store/History.antt =====
-- The store against the history of its writes: what each series holds depends on the writes to its
-- identity alone, in their order.
use mqtt2prometheus.Base.{
  Text, ◌+◌, ◌≡◌, refl, ◌∙◌, sym, subst, subst₂, ◌&&◌, ◌==◌, eq_iff, less, Option, none, some,
  some-injective, get_or, List, [], ◌∷◌, ◌++◌, foldl, Bool-cases, inl, inr, length, if◌then◌else◌,
  arith,
}
use mqtt2prometheus.Base.Dict.{
  Dict, keys, lookup, lookup-insert, length-insert, NodupKeys, insert-NodupKeys,
}
use mqtt2prometheus.Base.Sort.{IsOrdered, sort_texts-IsOrdered}
use mqtt2prometheus.Platform.{Platform}
use mqtt2prometheus.Store.{
  Kind, gauge, counter, Series, Store, flatten, identity, set, update, fresh, len,
}
use mqtt2prometheus.Store.Identity.{length-flatten}

-- the arguments of one call of `Set`
pub record Write (F : Type 0) : Type 0 where
  pub name : Text
  pub kind : Kind
  pub help : Text
  pub labels : Dict Text
  pub value : F

abbrev pub id_of : Text → Dict Text → Text
id_of name labels = let (names, values) = flatten labels in identity name names values

module _ (P : Platform) where
  open P use {Float}

  abbrev pub write : Store Float → Write Float → Store Float
  write s w = set P s w.name w.kind w.help w.labels w.value

  abbrev pub run : Store Float → List (Write Float) → Store Float
  run = foldl write

  pub run-append :
      (s : Store Float) (ws us : List (Write Float)) → run s (ws ++ us) ≡ run (run s ws) us
  run-append s [] us = refl
  run-append s (w ∷ ws) us = run-append (write s w) ws us

  -- the writes to one identity
  abbrev pub history : Text → List (Write Float) → List (Write Float)
  history j [] = []
  history j (w ∷ ws) =
      let rest = history j ws in if j == id_of w.name w.labels then w ∷ rest else rest

  abbrev pub written : Option (Series Float) → Write Float → Series Float
  written o w =
      let (names, values) = flatten w.labels in
      update P w.kind w.help w.value (get_or o (fresh P w.name w.kind w.help names values))

  abbrev pub replay : Option (Series Float) → List (Write Float) → Option (Series Float)
  replay = foldl (λ o w. some (written o w))

  pub lookup-set :
      (s : Store Float) (w : Write Float) (j : Text)
      → lookup j (write s w)
        ≡ (if j == id_of w.name w.labels then some (written (lookup j s) w) else lookup j s)
  unfolding set
  lookup-set s w j = lookup-insert j _ _ s ∙ ground (arith, eq_iff j (id_of w.name w.labels))

  -- After any writes, the series of an identity is the one that the writes to this identity alone
  -- build, in their order.
  pub lookup-run :
      (s : Store Float) (ws : List (Write Float)) (j : Text)
      → lookup j (run s ws) ≡ replay (lookup j s) (history j ws)
  lookup-run s [] j = refl
  lookup-run s (w ∷ ws) j =
      lookup-run (write s w) ws j
      ∙ rw lookup-set
          (elim (Bool-cases (j == id_of w.name w.labels)) [ inl e ↦ rw e | inr e ↦ rw e ])

  -- Each series stands at the identity of its own name and labels.
  pub record IsFiled (k : Text) (c : Series Float) : Type 0 where
    pub filed : k ≡ identity c.name c.names c.values
    pub paired : length c.names ≡ length c.values
    pub ordered : IsOrdered less c.names

  pub record IsValid (s : Store Float) : Type 0 where
    pub nodup : NodupKeys s
    pub at : (k : Text) (c : Series Float) → lookup k s ≡ some c → IsFiled k c

  update-IsFiled :
      (k : Text) (kind : Kind) (help : Text) (v : Float) (c : Series Float)
      → IsFiled k c
      → IsFiled k (update P kind help v c)
  unfolding update
  update-IsFiled k gauge help v c f = record {
    filed = f.filed;
    paired = f.paired;
    ordered = f.ordered;
  }
  update-IsFiled k counter help v c f = elim (Bool-cases (c.seen && P.lt v c.last)) [
    | inl e ↦ rw e (record { filed = f.filed; paired = f.paired; ordered = f.ordered })
    | inr e ↦ rw e (record { filed = f.filed; paired = f.paired; ordered = f.ordered })
  ]

  fresh-IsFiled :
      (name : Text) (kind : Kind) (help : Text) (labels : Dict Text)
      → let (names, values) = flatten labels in
        IsFiled (id_of name labels) (fresh P name kind help names values)
  unfolding fresh flatten
  fresh-IsFiled name kind help labels = record {
    filed = refl;
    paired = length-flatten labels;
    ordered = sort_texts-IsOrdered (keys labels);
  }

  written-IsFiled :
      (o : Option (Series Float)) (w : Write Float)
      → ((c : Series Float) → o ≡ some c → IsFiled (id_of w.name w.labels) c)
      → IsFiled (id_of w.name w.labels) (written o w)
  written-IsFiled none w f =
      update-IsFiled _ w.kind w.help w.value _ (fresh-IsFiled w.name w.kind w.help w.labels)
  written-IsFiled (some c) w f = update-IsFiled _ w.kind w.help w.value c (f c refl)

  -- `Set` keeps a well-formed store well formed: one entry for each key, each at its own identity, with
  -- sorted label names and a value for each.
  pub set-IsValid : (s : Store Float) (w : Write Float) → IsValid s → IsValid (write s w)
  set-IsValid s w h = record {
    nodup = unfold set in insert-NodupKeys _ _ s h.nodup;
    at = λ k c e. elim (Bool-cases (k == id_of w.name w.labels)) [
      | inl same ↦
          let k_id : k ≡ id_of w.name w.labels = (eq_iff _ _).0 same in
          subst₂ IsFiled (sym k_id) (some-injective _ _ (cc (lookup-set s w k, same, e)))
            (written-IsFiled (lookup k s) w (λ d f. subst (λ i. IsFiled i d) k_id (h.at k d f)))
      | inr other ↦ h.at k c (cc (lookup-set s w k, other))
    ];
  }

  -- A write adds one to `Len` if the store has no series for its identity, and nothing otherwise.
  pub len-set :
      (s : Store Float) (w : Write Float)
      → len (write s w)
        ≡ (elim (lookup (id_of w.name w.labels) s) [ none ↦ len s + 1 | some c ↦ len s ])
  unfolding set len
  len-set s w = length-insert _ _ s
