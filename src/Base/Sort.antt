-- ===== src/Base/Sort.antt =====
-- Go's `sort.Strings` and `sort.Slice`, as an insertion sort by the same comparison.
use mathlib.Core.Path.{◌≡◌, refl, ◌∙◌, sym, ap, ap₂}
use mathlib.Core.Logic.{inl, inr}
use mathlib.Core.Bool.{Bool, true, false}
use mathlib.Core.List.{List, [], ◌∷◌, Perm}
use mathlib.Core.List.Perm
use native.Mathlib.Omega.{arith}
use mqtt2prometheus.Base.Tests.{Bool-cases, if◌then◌else◌}
use mqtt2prometheus.Base.Lists.{All}
use mqtt2prometheus.Base.Bytes.{
  Text, ◌==◌, eq_iff, less, less_asym, less_negtrans, less_total, less_irrefl,
}
use mqtt2prometheus.Base.Dict.{Keys, contains, Distinct}

module _ {ℓ} {A : Type ℓ} (before : A → A → Bool) where
  unfoldable pub place : A → List A → List A
  place x [] = x ∷ []
  place x (y ∷ ys) = if before y x then y ∷ place x ys else x ∷ y ∷ ys

  unfoldable pub sort : List A → List A
  unfolding place
  sort [] = []
  sort (x ∷ xs) = place x (sort xs)

  place-perm_if :
      (b : Bool) (x y : A) {ys zs : List A}
      → Perm zs (x ∷ ys)
      → Perm (if b then y ∷ zs else x ∷ y ∷ ys) (x ∷ y ∷ ys)
  place-perm_if true x y h = Perm.trans (Perm.cons y h) (Perm.swap _ _ _)
  place-perm_if false x y h = Perm.refl _

  place-perm : (x : A) (ys : List A) → Perm (place x ys) (x ∷ ys)
  unfolding place
  place-perm x [] = Perm.refl _
  place-perm x (y ∷ ys) = place-perm_if (before y x) x y (place-perm x ys)

  pub sort-perm : (xs : List A) → Perm (sort xs) xs
  unfolding sort
  sort-perm [] = Perm.refl []
  sort-perm (x ∷ xs) = Perm.trans (place-perm x (sort xs)) (Perm.cons x (sort-perm xs))

  -- No item is before one that stands ahead of it.
  abbrev pub IsOrdered : List A → Type ℓ
  IsOrdered [] = Unit
  IsOrdered (x ∷ xs) = All (λ y. before y x ≡ false) xs × IsOrdered xs

-- What makes a comparison one to sort by.
pub record IsWeakOrder {ℓ} {A : Type ℓ} (before : A → A → Bool) : Type ℓ where
  pub asym : (a b : A) → before a b ≡ true → before b a ≡ false
  pub negtrans : (a b c : A) → before c b ≡ false → before b a ≡ false → before c a ≡ false

module _ {ℓ} {A : Type ℓ} (before : A → A → Bool) (order : IsWeakOrder before) where
  All-negtrans :
      (x y : A) (ys : List A)
      → before y x ≡ false
      → All (λ z. before z y ≡ false) ys
      → All (λ z. before z x ≡ false) ys
  All-negtrans x y [] h _ = tt
  All-negtrans x y (z ∷ ys) h (k, hs) = (order.negtrans x y z k h, All-negtrans x y ys h hs)

  All-place :
      (w x : A) (ys : List A)
      → before x w ≡ false
      → All (λ z. before z w ≡ false) ys
      → All (λ z. before z w ≡ false) (place before x ys)
  unfolding place
  All-place w x [] h hs = (h, tt)
  All-place w x (y ∷ ys) h (k, hs) = ground (arith, All-place w x ys h hs)

  place-IsOrdered :
      (x : A) (ys : List A) → IsOrdered before ys → IsOrdered before (place before x ys)
  unfolding place
  place-IsOrdered x [] h = (tt, tt)
  place-IsOrdered x (y ∷ ys) (k, h) = elim (Bool-cases (before y x)) [
    | inl e ↦ rw e (All-place y x ys (order.asym y x e) k, place-IsOrdered x ys h)
    | inr e ↦ rw e ((e, All-negtrans x y ys e k), (k, h))
  ]

  pub sort-IsOrdered : (xs : List A) → IsOrdered before (sort before xs)
  unfolding sort
  sort-IsOrdered [] = tt
  sort-IsOrdered (x ∷ xs) = place-IsOrdered x (sort before xs) (sort-IsOrdered xs)

pub less-IsWeakOrder : IsWeakOrder less
less-IsWeakOrder = record {
  asym = λ a b h. less_asym a b h;
  negtrans = λ a b c h k. less_negtrans a b c h k;
}

-- `sort.Strings`
unfoldable pub sort_texts : List Text → List Text
unfolding sort
sort_texts = sort less

pub contains-place :
    (k x : Text) (ys : Keys)
    → contains k (place less x ys) ≡ (if k == x then true else contains k ys)
unfolding place contains
contains-place k x [] = refl
contains-place k x (y ∷ ys) = ground (arith, contains-place k x ys)

-- Sorting keeps the members of a set.
pub contains-sort_texts : (k : Text) (s : Keys) → contains k (sort_texts s) ≡ contains k s
unfolding sort_texts contains
contains-sort_texts k [] = refl
contains-sort_texts k (x ∷ s) =
    contains-place k x (sort less s) ∙ ground (arith, contains-sort_texts k s)

place-Distinct :
    (x : Text) (ys : Keys) → contains x ys ≡ false → Distinct ys → Distinct (place less x ys)
unfolding place contains
place-Distinct x [] h d = (refl, tt)
place-Distinct x (y ∷ ys) h (fresh, d) =
    ground (arith, contains-place y x ys, place-Distinct x ys, eq_iff x y, eq_iff y x)

pub sort_texts-Distinct : (s : Keys) → Distinct s → Distinct (sort_texts s)
unfolding sort_texts
sort_texts-Distinct [] h = tt
sort_texts-Distinct (x ∷ s) (fresh, h) =
    place-Distinct x (sort less s) (contains-sort_texts x s ∙ fresh) (sort_texts-Distinct s h)

pub sort_texts-IsOrdered : (s : List Text) → IsOrdered less (sort_texts s)
unfolding sort_texts
sort_texts-IsOrdered s = sort-IsOrdered less less-IsWeakOrder s

head-least :
    (x : Text) (xs : Keys) (y : Text)
    → All (λ z. less z x ≡ false) xs
    → contains y xs ≡ true
    → less y x ≡ false
unfolding contains
head-least x [] y h m = cc
head-least x (z ∷ xs) y (k, h) m = ground (arith, head-least x xs y h, eq_iff y z)

head-least_of_mem :
    (x : Text) (xs : Keys) (y : Text)
    → IsOrdered less (x ∷ xs)
    → contains y (x ∷ xs) ≡ true
    → less y x ≡ false
unfolding contains
head-least_of_mem x xs y (k, _) m = ground (arith, head-least x xs y k, eq_iff y x, less_irrefl x)

contains-head : (x : Text) (xs : Keys) → contains x (x ∷ xs) ≡ true
unfolding contains
contains-head x xs = ground (arith, eq_iff x x)

contains-tail :
    (x : Text) (xs ys : Keys) (k : Text)
    → contains x xs ≡ false
    → contains x ys ≡ false
    → contains k (x ∷ xs) ≡ contains k (x ∷ ys)
    → contains k xs ≡ contains k ys
unfolding contains
contains-tail x xs ys k h j e = ground (arith, eq_iff k x)

-- Two sorted lists without duplicates that have the same members are one list.
pub IsOrdered-unique :
    (xs ys : Keys)
    → IsOrdered less xs
    → IsOrdered less ys
    → Distinct xs
    → Distinct ys
    → ((k : Text) → contains k xs ≡ contains k ys)
    → xs ≡ ys
IsOrdered-unique [] [] ox oy dx dy h = refl
IsOrdered-unique [] (y ∷ ys) ox oy dx dy h = unfold contains in cc (h y, contains-head y ys)
IsOrdered-unique (x ∷ xs) [] ox oy dx dy h = unfold contains in cc (h x, contains-head x xs)
IsOrdered-unique (x ∷ xs) (y ∷ ys) ox oy dx dy h =
    ap₂ (◌∷◌) same (IsOrdered-unique xs ys ox.1 oy.1 dx.1 dy.1 tails)
  where
    same : x ≡ y
    same =
        less_total x y (head-least_of_mem y ys x oy (sym (h x) ∙ contains-head x xs))
          (head-least_of_mem x xs y ox (h y ∙ contains-head y ys))

    tails : (k : Text) → contains k xs ≡ contains k ys
    tails k =
        contains-tail x xs ys k dx.0 (rw same dy.0) (h k ∙ ap (λ z. contains k (z ∷ ys)) (sym same))

-- Sorting forgets the order of a set: what Go's map iteration may permute comes out the same.
pub sort_texts_unique :
    (xs ys : Keys)
    → Distinct xs
    → Distinct ys
    → ((k : Text) → contains k xs ≡ contains k ys)
    → sort_texts xs ≡ sort_texts ys
sort_texts_unique xs ys dx dy h =
    IsOrdered-unique _ _ (sort_texts-IsOrdered xs) (sort_texts-IsOrdered ys)
      (sort_texts-Distinct xs dx) (sort_texts-Distinct ys dy)
      (λ k. contains-sort_texts k xs ∙ h k ∙ sym (contains-sort_texts k ys))
