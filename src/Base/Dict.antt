-- ===== src/Base/Dict.antt =====
-- Go's maps with string keys, as association lists in the order of insertion. Go iterates over a
-- map in any order, so what a loop over a map yields is stated up to that order or after a sort.
use mathlib.Core.Path.{◌≡◌, refl}
use mathlib.Core.Bool.{Bool, true, false}
use mathlib.Core.Logic.{◌↔◌}
use mathlib.Core.Option.{Option, none, some}
use mathlib.Core.List.{List, [], ◌∷◌, ◌++◌}
use native.Mathlib.Omega.{arith}
use Prim.Native.Nat.{◌+◌}
use mqtt2prometheus.Base.Lists.{length}
use mqtt2prometheus.Base.Tests.{if◌then◌else◌}
use mqtt2prometheus.Base.Bytes.{Text, ◌==◌, eq_iff}

abbrev pub Dict {ℓ} : Type ℓ → Type ℓ
Dict V = List (Text × V)

module _ {ℓ} {V : Type ℓ} where
  abbrev pub keys : Dict V → List Text
  keys [] = []
  keys ((k, _) ∷ d) = k ∷ keys d

  abbrev pub values : Dict V → List V
  values [] = []
  values ((_, v) ∷ d) = v ∷ values d

  -- `v, ok := d[k]`
  unfoldable pub lookup : Text → Dict V → Option V
  lookup k [] = none
  lookup k ((j, v) ∷ d) = if k == j then some v else lookup k d

  -- `d[k] = v`
  unfoldable pub insert : Text → V → Dict V → Dict V
  insert k v [] = (k, v) ∷ []
  insert k v ((j, w) ∷ d) = if k == j then (k, v) ∷ d else (j, w) ∷ insert k v d

  abbrev pub NodupKeys : Dict V → Type ℓ
  NodupKeys [] = Unit
  NodupKeys ((k, _) ∷ d) = (lookup k d ≡ none) × NodupKeys d

  pub lookup-nil : (k : Text) → lookup k [] ≡ none
  unfolding lookup
  lookup-nil k = refl

  pub lookup-cons :
      (j k : Text) (v : V) (d : Dict V)
      → lookup j ((k, v) ∷ d) ≡ (if j == k then some v else lookup j d)
  unfolding lookup
  lookup-cons j k v d = refl

  pub lookup-insert :
      (j k : Text) (v : V) (d : Dict V)
      → lookup j (insert k v d) ≡ (if j == k then some v else lookup j d)
  unfolding insert lookup
  lookup-insert j k v [] = refl
  lookup-insert j k v ((i, w) ∷ d) =
      ground (arith, lookup-insert j k v d, eq_iff j k, eq_iff j i, eq_iff k i)

  pub insert-NodupKeys : (k : Text) (v : V) (d : Dict V) → NodupKeys d → NodupKeys (insert k v d)
  unfolding insert
  insert-NodupKeys k v [] h = (lookup-nil k, tt)
  insert-NodupKeys k v ((j, w) ∷ d) (fresh, h) =
      ground (arith, insert-NodupKeys k v d h, lookup-insert j k v d, eq_iff k j, eq_iff j k)

pub length-insert {ℓ} :
    {V : Type ℓ} (k : Text) (v : V) (d : Dict V)
    → length (insert k v d) ≡ (elim (lookup k d) [ none ↦ length d + 1 | some w ↦ length d ])
unfolding insert lookup
length-insert k v [] = refl
length-insert k v ((j, w) ∷ d) = ground (arith, length-insert k v d)

-- a set of strings, `map[string]struct{}`
abbrev pub Keys : Type 0
Keys = List Text

unfoldable pub contains : Text → Keys → Bool
contains k [] = false
contains k (j ∷ s) = if k == j then true else contains k s

pub contains-cons :
    (k j : Text) (s : Keys) → contains k (j ∷ s) ≡ (if k == j then true else contains k s)
unfolding contains
contains-cons k j s = refl

pub contains-nil : (k : Text) → contains k [] ≡ false
unfolding contains
contains-nil k = refl

unfoldable pub add : Text → Keys → Keys
add k [] = k ∷ []
add k (j ∷ s) = if k == j then j ∷ s else j ∷ add k s

pub contains-add :
    (j k : Text) (s : Keys) → contains j (add k s) ≡ (if j == k then true else contains j s)
unfolding add contains
contains-add j k [] = refl
contains-add j k (i ∷ s) = ground (arith, contains-add j k s, eq_iff j k, eq_iff j i, eq_iff k i)

-- what `add` builds has no key twice
abbrev pub Distinct : Keys → Type 0
Distinct [] = Unit
Distinct (k ∷ s) = (contains k s ≡ false) × Distinct s

pub add-Distinct : (k : Text) (s : Keys) → Distinct s → Distinct (add k s)
unfolding add contains
add-Distinct k [] h = (refl, tt)
add-Distinct k (j ∷ s) (fresh, h) =
    ground (arith, add-Distinct k s h, contains-add j k s, eq_iff j k, eq_iff k j)

pub contains-keys {ℓ} :
    {V : Type ℓ} (k : Text) (d : Dict V) → (contains k (keys d) ≡ false) ↔ (lookup k d ≡ none)
unfolding contains lookup
contains-keys k [] = (λ _. refl, λ _. refl)
contains-keys k ((j, v) ∷ d) = ground (arith, contains-keys k d)

pub keys-Distinct {ℓ} : {V : Type ℓ} (d : Dict V) → NodupKeys d → Distinct (keys d)
keys-Distinct [] h = tt
keys-Distinct ((k, v) ∷ d) (fresh, h) = ((contains-keys k d).1 fresh, keys-Distinct d h)

pub contains-keys-insert {ℓ} :
    {V : Type ℓ} (k j : Text) (v : V) (d : Dict V)
    → contains k (keys (insert j v d)) ≡ (if k == j then true else contains k (keys d))
unfolding insert contains
contains-keys-insert k j v [] = refl
contains-keys-insert k j v ((i, w) ∷ d) =
    ground (arith, contains-keys-insert k j v d, eq_iff k j, eq_iff k i, eq_iff j i)

pub contains-append :
    (k p : Text) (xs : List Text)
    → contains k (xs ++ p ∷ []) ≡ (if k == p then true else contains k xs)
unfolding contains
contains-append k p [] = refl
contains-append k p (x ∷ xs) = ground (arith, contains-append k p xs)

pub append-Distinct :
    (p : Text) (xs : List Text) → contains p xs ≡ false → Distinct xs → Distinct (xs ++ p ∷ [])
append-Distinct p [] h d = (contains-nil p, tt)
append-Distinct p (x ∷ xs) h (fresh, d) = (
  ground (arith, contains-append x p xs, fresh, h, contains-cons p x xs, eq_iff p x, eq_iff x p),
  append-Distinct p xs (ground (arith, h, contains-cons p x xs)) d,
)
