-- ===== src/Config/Labels.antt =====
-- `LabelNames` and `CaptureNames` of internal/config/labels.go.
use mqtt2prometheus.Base.{
  Text, ◌≡◌, refl, ◌∙◌, Bool, true, false, not, ◌&&◌, ◌||◌, ◌==◌, eq_iff, less, List, [], ◌∷◌,
  if◌then◌else◌, arith,
}
use mqtt2prometheus.Base.Dict.{
  Dict, keys, Keys, contains, add, contains-add, Distinct, add-Distinct,
}
use mqtt2prometheus.Base.Sort.{
  IsOrdered, sort_texts, contains-sort_texts, sort_texts-IsOrdered, sort_texts-Distinct,
  IsOrdered-unique,
}
use mqtt2prometheus.Config.{Label}
use mqtt2prometheus.Config.Template.{template_refs}

-- `consumed[ref] = struct{}{}` for each reference
unfoldable pub add_all : List Text → Keys → Keys
add_all [] s = s
add_all (r ∷ refs) s = add_all refs (add r s)

-- the two sets of `LabelNames`, `consumed` and `set`
unfoldable pub gather : Dict Label → Keys × Keys → Keys × Keys
unfolding add_all
gather [] sets = sets
gather ((name, label) ∷ labels) (consumed, set) =
    gather labels (add_all (template_refs label.value) consumed, add name set)

unfoldable pub gather_sets : List (Dict Label) → Keys × Keys → Keys × Keys
unfolding gather
gather_sets [] sets = sets
gather_sets (labels ∷ label_sets) sets = gather_sets label_sets (gather labels sets)

unfoldable pub add_captures : List Text → Keys → Keys → Keys
add_captures [] consumed set = set
add_captures (name ∷ captures) consumed set =
    add_captures captures consumed (if contains name consumed then set else add name set)

unfoldable pub label_names : List Text → List (Dict Label) → List Text
unfolding gather_sets add_captures
label_names captures label_sets =
    let (consumed, set) = gather_sets label_sets ([], []) in
    sort_texts (add_captures captures consumed set)

-- The named groups of an expression: `SubexpNames` has an empty name for any other group.
unfoldable pub named : List Text → List Text
named [] = []
named (name ∷ names) = let rest = named names in if not (name == []) then name ∷ rest else rest

-- `k` is declared in one of the sets
abbrev pub declares : Text → List (Dict Label) → Bool
declares k [] = false
declares k (labels ∷ sets) = contains k (keys labels) || declares k sets

abbrev pub refers : Text → Dict Label → Bool
refers k [] = false
refers k ((name, label) ∷ labels) = contains k (template_refs label.value) || refers k labels

-- a template of one of the sets refers to the capture group `k`
abbrev pub consumes : Text → List (Dict Label) → Bool
consumes k [] = false
consumes k (labels ∷ sets) = refers k labels || consumes k sets

contains-add_all :
    (k : Text) (refs : List Text) (s : Keys)
    → contains k (add_all refs s) ≡ (contains k refs || contains k s)
unfolding add_all contains
contains-add_all k [] s = refl
contains-add_all k (r ∷ refs) s =
    ground (arith, contains-add_all k refs (add r s), contains-add k r s)

contains-gather :
    (k : Text) (labels : Dict Label) (consumed set : Keys)
    → let r : Keys × Keys = gather labels (consumed, set) in
      (contains k r.0 ≡ (refers k labels || contains k consumed))
      × (contains k r.1 ≡ (contains k (keys labels) || contains k set))
unfolding gather contains
contains-gather k [] consumed set = (refl, refl)
contains-gather k ((name, label) ∷ labels) consumed set = ground (
  arith,
  contains-gather k labels (add_all (template_refs label.value) consumed) (add name set),
  contains-add_all k (template_refs label.value) consumed,
  contains-add k name set,
)

contains-gather_sets :
    (k : Text) (sets : List (Dict Label)) (consumed set : Keys)
    → let r : Keys × Keys = gather_sets sets (consumed, set) in
      (contains k r.0 ≡ (consumes k sets || contains k consumed))
      × (contains k r.1 ≡ (declares k sets || contains k set))
unfolding gather_sets
contains-gather_sets k [] consumed set = (refl, refl)
contains-gather_sets k (labels ∷ sets) consumed set =
    let (c, s) = gather labels (consumed, set) in
    ground (arith, contains-gather_sets k sets c s, contains-gather k labels consumed set)

contains-add_captures :
    (k : Text) (captures : List Text) (consumed set : Keys)
    → contains k (add_captures captures consumed set)
      ≡ (contains k captures && not (contains k consumed) || contains k set)
unfolding add_captures contains
contains-add_captures k [] consumed set = refl
contains-add_captures k (name ∷ captures) consumed set = ground (
  arith,
  contains-add_captures k captures consumed (if contains name consumed then set else add name set),
  contains-add k name set,
  eq_iff k name,
)

gather-Distinct :
    (labels : Dict Label) (consumed set : Keys)
    → Distinct set
    → Distinct (gather labels (consumed, set)).1
unfolding gather
gather-Distinct [] consumed set h = h
gather-Distinct ((name, label) ∷ labels) consumed set h =
    gather-Distinct labels _ (add name set) (add-Distinct name set h)

gather_sets-Distinct :
    (sets : List (Dict Label)) (consumed set : Keys)
    → Distinct set
    → Distinct (gather_sets sets (consumed, set)).1
unfolding gather_sets
gather_sets-Distinct [] consumed set h = h
gather_sets-Distinct (labels ∷ sets) consumed set h =
    gather_sets-Distinct sets (gather labels (consumed, set)).0 (gather labels (consumed, set)).1
      (gather-Distinct labels consumed set h)

add_captures-Distinct :
    (captures : List Text) (consumed set : Keys)
    → Distinct set
    → Distinct (add_captures captures consumed set)
unfolding add_captures
add_captures-Distinct [] consumed set h = h
add_captures-Distinct (name ∷ captures) consumed set h =
    add_captures-Distinct captures consumed _ (kept (contains name consumed))
  where
    kept : (b : Bool) → Distinct (if b then set else add name set)
    kept true = h
    kept false = add-Distinct name set h

-- The label names of a rule are sorted, without duplicates, and are exactly the declared names and
-- the capture groups that no template refers to.
pub label_names_lem :
    (captures : List Text) (sets : List (Dict Label))
    → IsOrdered less (label_names captures sets)
      × Distinct (label_names captures sets)
      × ((k : Text)
          → contains k (label_names captures sets)
            ≡ (contains k captures && not (consumes k sets) || declares k sets))
unfolding label_names
label_names_lem captures sets =
    let (consumed, set) = gather_sets sets ([], []) in
    (
      sort_texts-IsOrdered _,
      sort_texts-Distinct _
          (add_captures-Distinct captures consumed set (gather_sets-Distinct sets [] [] tt)),
      λ k.
          contains-sort_texts k _
          ∙ unfold contains in
            ground (
              arith,
              contains-add_captures k captures consumed set,
              contains-gather_sets k sets [] [],
            ),
    )

-- Label sets that declare the same names and refer to the same captures give the same label names:
-- the order in which Go iterates over the maps does not matter.
pub label_names_unique :
    (captures : List Text) (sets others : List (Dict Label))
    → ((k : Text) → declares k sets ≡ declares k others)
    → ((k : Text) → contains k captures ≡ true → consumes k sets ≡ consumes k others)
    → label_names captures sets ≡ label_names captures others
label_names_unique captures sets others d c =
    let one = label_names_lem captures sets in
    let two = label_names_lem captures others in
    IsOrdered-unique _ _ one.0 two.0 one.1 two.1 (λ k. one.2 k ∙ ground (arith, two.2 k, d k, c k))
