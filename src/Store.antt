-- ===== src/Store.antt =====
-- internal/store/store.go: the samples by metric and labels. The mutex is not modelled: each method
-- holds it from its first read of the map to its last, so a method is one step.
pub mod Identity
pub mod Counter
pub mod History
pub mod Snapshot
pub mod Uniform
use mqtt2prometheus.Base.{
  Text, ℕ, Bool, true, false, not, ◌&&◌, ◌==◌, less, join, Option, get_or, List, [], ◌∷◌, ◌++◌, map,
  length, if◌then◌else◌,
}
use mqtt2prometheus.Base.Dict.{Dict, keys, values, lookup, insert}
use mqtt2prometheus.Base.Sort.{sort, sort_texts}
use mqtt2prometheus.Platform.{Platform}

pub data Kind : Type 0 where
  gauge counter : Kind

pub record Key : Type 0 where
  pub name : Text
  pub label_names : List Text
  pub label_values : List Text

pub record Sample (F : Type 0) : Type 0 where
  pub key : Key
  pub kind : Kind
  pub help : Text
  pub value : F

pub record Series (F : Type 0) : Type 0 where
  pub kind : Kind
  pub help : Text
  pub names : List Text
  pub values : List Text
  pub name : Text
  pub last : F
  pub offset : F
  pub seen : Bool

abbrev pub Store : Type 0 → Type 0
Store F = Dict (Series F)

-- `labels[name]`, the empty string where the key is missing
abbrev pub label_value : Dict Text → Text → Text
label_value labels name = get_or (lookup name labels) []

unfoldable pub flatten : Dict Text → List Text × List Text
flatten labels = let names = sort_texts (keys labels) in (names, map (label_value labels) names)

-- The loop of `identity`. `flatten` gives as many values as names, so the index is in range.
unfoldable pub write_labels : List Text → List Text → Text
write_labels [] values = []
write_labels (n ∷ names) [] = []
write_labels (n ∷ names) (v ∷ values) = 0 ∷ n ++ (0 ∷ v ++ write_labels names values)

unfoldable pub identity : Text → List Text → List Text → Text
unfolding write_labels
identity name names values = name ++ write_labels names values

-- The first comparison of `Snapshot`'s sort, and the second where the names agree.
unfoldable pub sample_before : {F : Type 0} → Sample F → Sample F → Bool
sample_before a b =
    if not (a.key.name == b.key.name)
    then less a.key.name b.key.name
    else less (join a.key.label_values (0 ∷ [])) (join b.key.label_values (0 ∷ []))

unfoldable pub len : {F : Type 0} → Store F → ℕ
len s = length s

module _ (P : Platform) where
  open P use {Float, zero, plus, lt}

  unfoldable pub observe_counter : Series Float → Float → Series Float
  observe_counter c value =
      if c.seen && lt value c.last
      then record c { offset = plus c.offset c.last; last = value; seen = true }
      else record c { last = value; seen = true }

  -- `existing` after the write of the kind, the help text and the value
  unfoldable pub update : Kind → Text → Float → Series Float → Series Float
  unfolding observe_counter
  update counter help value c = observe_counter (record c { kind = counter; help = help }) value
  update gauge help value c = record c { kind = gauge; help = help; last = value; seen = true }

  unfoldable pub fresh : Text → Kind → Text → List Text → List Text → Series Float
  fresh name kind help names values = record {
    kind = kind;
    help = help;
    names = names;
    values = values;
    name = name;
    last = zero;
    offset = zero;
    seen = false;
  }

  unfoldable pub set : Store Float → Text → Kind → Text → Dict Text → Float → Store Float
  unfolding flatten identity fresh update
  set s name kind help labels value =
      let (names, values) = flatten labels in
      let id = identity name names values in
      let existing = get_or (lookup id s) (fresh name kind help names values) in
      insert id (update kind help value existing) s

  unfoldable pub sample_of : Series Float → Sample Float
  sample_of entry = record {
    key = record { name = entry.name; label_names = entry.names; label_values = entry.values };
    kind = entry.kind;
    help = entry.help;
    value = plus entry.last entry.offset;
  }

  unfoldable pub snapshot : Store Float → List (Sample Float)
  unfolding sort sample_before sample_of
  snapshot s = sort sample_before (map sample_of (values s))
