-- ===== src/Rules/Value.antt =====
-- internal/rules/value.go: the number that a rule takes from a message.
use mqtt2prometheus.Base.{
  Text, ◌+◌, ◌≡◌, Bool, true, false, not, ◌==◌, eq_iff, split, length, Option, none, some, List, [],
  Bool-cases, inl, inr, get_elem?, if◌then◌else◌,
}
use mqtt2prometheus.Base.Dict.{Dict, lookup}
use mqtt2prometheus.Platform.{Platform, Json, bool, number, string}
use mqtt2prometheus.Config.{from_json}
use mqtt2prometheus.Config
use mqtt2prometheus.Config.Fields.Values.{IsValue}
use mqtt2prometheus.Rules.Payload.{
  Outcome, found, failed, not_numeric, regex_no_match, ◌>>=◌, or_absent, or_panic, read,
}

pub record Extractor (F R : Type 0) : Type 0 where
  pub from_json : Bool
  pub path : List Text
  pub regex : Option R
  pub scale : Option F
  pub mapping : Option (Dict F)

module _ (P : Platform) where
  open P use {
    Float, zero, one, times, Regexp, compile, find_submatch, parse_float, trim_space, num_subexp,
  }

  abbrev extractor_of : Config.Value Float → Option Regexp → Extractor Float Regexp
  extractor_of v regex = record {
    from_json = v.from == from_json;
    path = if v.from == from_json then split v.path 46 else [];
    regex = regex;
    scale = v.scale;
    mapping = v.mapping;
  }

  -- `none` is the error of `regexp.Compile`.
  unfoldable pub new_extractor : Config.Value Float → Option (Extractor Float Regexp)
  new_extractor v =
      if not (v.regex == [])
      then (elim (compile v.regex) [ none ↦ none | some re ↦ some (extractor_of v (some re)) ])
      else some (extractor_of v none)

  -- the text that is looked up or parsed: group 1 where there is an expression
  unfoldable pub group_of : Option Regexp → Text → Outcome Text
  group_of none s = found s
  group_of (some re) s = elim (find_submatch re s) [
    | none ↦ failed regex_no_match
    | some groups ↦ or_panic (get_elem? groups 1)
  ]

  unfoldable pub number_of : Option (Dict Float) → Text → Outcome Float
  number_of (some mapping) s = or_absent (lookup s mapping)
  number_of none s = elim (parse_float (trim_space s)) [
    | none ↦ failed not_numeric
    | some x ↦ found x
  ]

  unfoldable pub from_string : Extractor Float Regexp → Text → Outcome Float
  unfolding group_of number_of
  from_string e s = group_of e.regex s >>= number_of e.mapping

  unfoldable pub to_number : Extractor Float Regexp → Json Float → Outcome Float
  to_number e (number x) = found x
  to_number e (bool true) = found one
  to_number e (bool false) = found zero
  to_number e (string s) = from_string e s
  to_number e _ = failed not_numeric

  unfoldable pub raw_value : Extractor Float Regexp → Text → Outcome (Json Float)
  raw_value e payload = if not e.from_json then found (string payload) else read P payload e.path

  abbrev pub scaled : Option Float → Float → Float
  scaled none x = x
  scaled (some scale) x = times x scale

  unfoldable pub extract : Extractor Float Regexp → Text → Outcome Float
  unfolding raw_value to_number
  extract e payload = do raw ← raw_value e payload; x ← to_number e raw; found (scaled e.scale x)

  -- What package `regexp` documents: a match has the whole text and one text for each group.
  pub record RegexpLaws : Type 0 where
    pub groups :
        (re : Regexp) (s : Text) (found : List Text)
        → find_submatch re s ≡ some found
        → length found ≡ num_subexp re + 1
    pub names : (re : Regexp) → length (P.subexp_names re) ≡ num_subexp re + 1

  -- an expression with one group, or none
  abbrev pub HasGroup : Option Regexp → Type 0
  HasGroup none = Unit
  HasGroup (some re) = num_subexp re ≡ 1

  -- A valid value makes an extractor, whose expression has one group.
  pub new_extractor_total :
      (v : Config.Value Float)
      → IsValue P v
      → (e : Extractor Float Regexp) × (new_extractor v ≡ some e) × HasGroup e.regex
  unfolding new_extractor
  new_extractor_total v h = elim (Bool-cases (v.regex == [])) [
    | inl e ↦ (extractor_of v none, rw e, tt)
    | inr e ↦
        let (re, c, n) = h.pattern (λ q. cc (e, (eq_iff v.regex []).1 q)) in
        (extractor_of v (some re), rw (e, c), n)
  ]
