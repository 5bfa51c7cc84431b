-- ===== src/Command/Flags.antt =====
-- The flags of internal/app/command.go: what package `flag` answers, and what `parse` and the checks of
-- `discover` and `capture` make of it.
use mqtt2prometheus.Base.{
  Text, ℕ, Bool, true, false, ltb, ◌==◌, codes, Option, get_or, List, [], length, get_elem?,
  if◌then◌else◌,
}
use mqtt2prometheus.Outcome.{
  Misuse, malformed_flags, unexpected, depth_below_one, negative_count, negative_window,
  filter_required, usage_error, help, Answer, ok, err, ◌>>◌, Status, status,
}

-- `int` and `time.Duration`; `negsuc n` is -(n + 1).
pub data ℤ : Type 0 where
  pos : ℕ → ℤ
  negsuc : ℕ → ℤ

abbrev pub is_negative : ℤ → Bool
is_negative (pos n) = false
is_negative (negsuc n) = true

-- `*depth < 1`
abbrev pub is_below_one : ℤ → Bool
is_below_one (pos n) = ltb n 1
is_below_one (negsuc n) = true

-- the values of `-for`, `-count` and `-depth`, with the defaults where they are not given
pub record Settings : Type 0 where
  pub window : ℤ
  pub count : ℤ
  pub depth : ℤ

-- What `FlagSet.Parse` answers: `flag.ErrHelp`, another error, or the values and the arguments left.
pub data Parsed : Type 0 where
  asked_help : Parsed
  bad_flags : Text → Parsed
  flags : Settings → List Text → Parsed

abbrev pub refuse_if : {E : Type 0} → Bool → Misuse → Status E
refuse_if true m = err (usage_error m)
refuse_if false m = ok tt

-- `flags.Arg(i)`
abbrev pub arg : ℕ → List Text → Text
arg i rest = get_or (get_elem? rest i) []

module _ {E : Type 0} where
  -- `parse`, with the error of writing the usage of the flags
  unfoldable pub parse : Option E → Text → Parsed → ℕ → Answer E (Settings × List Text)
  parse written name asked_help max = status written >> err help
  parse written name (bad_flags message) max =
      status written >> err (usage_error (malformed_flags message))
  parse written name (flags settings rest) max =
      if ltb max (length rest)
      then err (usage_error (unexpected name (arg max rest)))
      else ok (settings, rest)

  unfoldable pub check_discover : Settings → Status E
  check_discover s = do
    refuse_if (is_below_one s.depth) depth_below_one
    refuse_if (is_negative s.count) (negative_count (codes "discover"))
    refuse_if (is_negative s.window) (negative_window (codes "discover"))

  unfoldable pub check_capture : Settings → Text → Status E
  check_capture s filter = do
    refuse_if (filter == []) filter_required
    refuse_if (is_negative s.count) (negative_count (codes "capture"))
    refuse_if (is_negative s.window) (negative_window (codes "capture"))
