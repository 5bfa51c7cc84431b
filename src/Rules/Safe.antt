-- ===== src/Rules/Safe.antt =====
-- The index expressions of internal/rules/rule.go and internal/rules/value.go are in range.
use mqtt2prometheus.Base.{
  Text, ◌≡◌, ◌≢◌, refl, Bool, true, false, not, Option, none, some, get_or, List, [], ◌∷◌, length,
  get_elem?, if◌then◌else◌, arith,
}
use mqtt2prometheus.Base.Dict.{Dict, lookup, insert}
use mqtt2prometheus.Platform.{Platform, Json, null, bool, number, string, array, object}
use mqtt2prometheus.Rules.Payload.{
  Outcome, found, absent, failed, panicked, regex_no_match, not_numeric, ◌>>=◌, or_panic, read,
  IsSafe, >>=-IsSafe, or_absent-IsSafe, read-IsSafe,
}
use mqtt2prometheus.Rules.Value.{
  Extractor, group_of, number_of, from_string, to_number, raw_value, extract, RegexpLaws, HasGroup,
}
use mqtt2prometheus.Rules.Label.{
  LabelExtractor, Labels, in_label, mapped, as_label, read_label, resolve,
}
use mqtt2prometheus.Config.Template.{expand_template}
use mqtt2prometheus.Rules.Rule.{
  Rule, Match, crashed, to_applied, capture, auto_label, auto_from, sample_from, apply_captured,
  apply_groups, apply,
}

module _ (P : Platform) where
  open P use {Float, Regexp, find_submatch, num_subexp}

  second : (groups : List Text) → length groups ≡ 2 → IsSafe (or_panic (get_elem? groups 1))
  second [] h = absurd (omega (arith, h))
  second (a ∷ []) h = absurd (omega (arith, h))
  second (a ∷ b ∷ groups) h = tt

  module _ (laws : RegexpLaws P) where
    group_of-IsSafe : (re : Option Regexp) (s : Text) → HasGroup P re → IsSafe (group_of P re s)
    unfolding group_of
    group_of-IsSafe none s h = tt
    group_of-IsSafe (some re) s h = go (find_submatch re s) refl
      where
        go :
            (o : Option (List Text))
            → find_submatch re s ≡ o
            → IsSafe (elim o [
              | none ↦ failed regex_no_match
              | some groups ↦ or_panic (get_elem? groups 1)
            ])
        go none e = tt
        go (some groups) e = second groups (omega (arith, laws.groups re s groups e, h))

    number_of-IsSafe : (m : Option (Dict Float)) (s : Text) → IsSafe (number_of P m s)
    unfolding number_of
    number_of-IsSafe (some m) s = or_absent-IsSafe (lookup s m)
    number_of-IsSafe none s = go (P.parse_float (P.trim_space s))
      where
        go : (o : Option Float) → IsSafe (elim o [ none ↦ failed not_numeric | some x ↦ found x ])
        go none = tt
        go (some x) = tt

    to_number-IsSafe :
        (e : Extractor Float Regexp) (raw : Json Float)
        → HasGroup P e.regex
        → IsSafe (to_number P e raw)
    unfolding to_number from_string
    to_number-IsSafe e (number x) h = tt
    to_number-IsSafe e (bool true) h = tt
    to_number-IsSafe e (bool false) h = tt
    to_number-IsSafe e (string s) h =
        >>=-IsSafe (group_of P e.regex s) (number_of P e.mapping) (group_of-IsSafe e.regex s h)
          (number_of-IsSafe e.mapping)
    to_number-IsSafe e null h = tt
    to_number-IsSafe e (array xs) h = tt
    to_number-IsSafe e (object fs) h = tt

    raw_value-IsSafe :
        (e : Extractor Float Regexp) (payload : Text) → IsSafe (raw_value P e payload)
    unfolding raw_value
    raw_value-IsSafe e payload = go (not e.from_json)
      where
        go : (b : Bool) → IsSafe (if b then found (string payload) else read P payload e.path)
        go true = tt
        go false = read-IsSafe P payload e.path

    extract-IsSafe :
        (e : Extractor Float Regexp) (payload : Text)
        → HasGroup P e.regex
        → IsSafe (extract P e payload)
    unfolding extract
    extract-IsSafe e payload h =
        >>=-IsSafe (raw_value P e payload) _ (raw_value-IsSafe e payload)
          (λ raw. >>=-IsSafe (to_number P e raw) _ (to_number-IsSafe e raw h) (λ x. tt))

    as_label-IsSafe : (raw : Json Float) → IsSafe (as_label P raw)
    unfolding as_label
    as_label-IsSafe (string s) = tt
    as_label-IsSafe (number x) = tt
    as_label-IsSafe (bool true) = tt
    as_label-IsSafe (bool false) = tt
    as_label-IsSafe null = tt
    as_label-IsSafe (array xs) = tt
    as_label-IsSafe (object fs) = tt

    read_label-IsSafe :
        (e : LabelExtractor) (captured : Dict Text) (payload : Text)
        → IsSafe (read_label P e captured payload)
    unfolding read_label
    read_label-IsSafe e captured payload = go (not e.from_json)
      where
        go :
            (b : Bool)
            → IsSafe (
                if b
                then found (expand_template e.static captured)
                else read P payload e.path >>= as_label P)
        go true = tt
        go false =
            >>=-IsSafe (read P payload e.path) (as_label P) (read-IsSafe P payload e.path)
              as_label-IsSafe

    mapped-IsSafe : (m : Option (Dict Text)) (value : Text) → IsSafe (mapped m value)
    mapped-IsSafe none value = tt
    mapped-IsSafe (some m) value = or_absent-IsSafe (lookup value m)

    in_label-IsSafe : (name : Text) (o : Outcome Text) → IsSafe o → IsSafe (in_label name o)
    in_label-IsSafe name (found a) h = tt
    in_label-IsSafe name absent h = tt
    in_label-IsSafe name (failed e) h = tt
    in_label-IsSafe name panicked h = h

    resolve-IsSafe :
        (e : LabelExtractor) (captured : Dict Text) (payload : Text)
        → IsSafe (resolve P e captured payload)
    unfolding resolve
    resolve-IsSafe e captured payload =
        >>=-IsSafe (read_label P e captured payload) (mapped e.mapping)
          (read_label-IsSafe e captured payload) (mapped-IsSafe e.mapping)

    auto_label-IsSafe :
        (l : Labels) (name : Text) (captured : Dict Text) (payload : Text)
        → IsSafe (auto_label P l name captured payload)
    unfolding auto_label
    auto_label-IsSafe l name captured payload = go (lookup name l.extractors)
      where
        go :
            (o : Option LabelExtractor)
            → IsSafe (elim o [
              | none ↦ found (get_or (lookup name captured) [])
              | some e ↦ in_label name (resolve P e captured payload)
            ])
        go none = tt
        go (some e) = in_label-IsSafe name _ (resolve-IsSafe e captured payload)

    auto_from-IsSafe :
        (l : Labels) (names : List Text) (captured : Dict Text) (payload : Text)
        (resolved : Dict Text)
        → IsSafe (auto_from P l names captured payload resolved)
    unfolding auto_from
    auto_from-IsSafe l [] captured payload resolved = tt
    auto_from-IsSafe l (name ∷ names) captured payload resolved =
        >>=-IsSafe (auto_label P l name captured payload) _
          (auto_label-IsSafe l name captured payload)
          (λ value. auto_from-IsSafe l names captured payload (insert name value resolved))

    sample_from-IsSafe :
        (r : Rule Float Regexp) (captured : Dict Text) (payload : Text)
        → HasGroup P r.value.regex
        → IsSafe (sample_from P r captured payload)
    unfolding sample_from
    sample_from-IsSafe r captured payload h =
        >>=-IsSafe (extract P r.value payload) _ (extract-IsSafe r.value payload h) (λ value.
          >>=-IsSafe (auto_from P r.labels r.auto_labels captured payload []) _
            (auto_from-IsSafe r.labels r.auto_labels captured payload []) (λ labels. tt))

    capture_total :
        (names groups : List Text) (captured : Dict Text)
        → length names ≡ length groups
        → (result : Dict Text) × (capture names groups captured ≡ some result)
    unfolding capture
    capture_total [] groups captured h = (captured, refl)
    capture_total (name ∷ names) [] captured h = absurd (omega (arith, h))
    capture_total (name ∷ names) (group ∷ groups) captured h =
        capture_total names groups _ (omega (arith, h))

    to_applied-IsSafe : (o : Outcome (Match Float)) → IsSafe o → to_applied o ≢ crashed
    to_applied-IsSafe (found m) h = λ e. cc
    to_applied-IsSafe absent h = λ e. cc
    to_applied-IsSafe (failed q) h = λ e. cc
    to_applied-IsSafe panicked h = absurd h

    -- Where matches of expressions have the lengths that package `regexp` documents, a rule whose value
    -- has no expression or one with one group never reads an index out of range.
    pub apply-crashed :
        (r : Rule Float Regexp) (topic payload : Text)
        → HasGroup P r.value.regex
        → apply P r topic payload ≢ crashed
    unfolding apply apply_groups apply_captured
    apply-crashed r topic payload h = go (find_submatch r.match topic) refl
      where
        go :
            (o : Option (List Text))
            → find_submatch r.match topic ≡ o
            → apply_groups P r o payload ≢ crashed
        go none e = λ q. cc
        go (some groups) e =
            let same : length (P.subexp_names r.match) ≡ length groups =
              omega (arith, laws.names r.match, laws.groups r.match topic groups e) in
            let (captured, made) = capture_total (P.subexp_names r.match) groups [] same in
            rw made (to_applied-IsSafe _ (sample_from-IsSafe r captured payload h))
