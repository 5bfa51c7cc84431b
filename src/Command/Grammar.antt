-- ===== src/Command/Grammar.antt =====
-- Which command lines are a misuse: a table of the subcommands with what each of them takes.
use mqtt2prometheus.Base.{
  Text, ℕ, Bool, true, false, ◌||◌, ◌==◌, ltb, codes, Option, none, some, List, [], ◌∷◌, length,
}
use mqtt2prometheus.Base.Dict.{Dict, lookup}
use mqtt2prometheus.Command.Flags.{
  Settings, Parsed, asked_help, bad_flags, flags, is_negative, is_below_one, arg,
}

-- what a subcommand refuses of the values of its flags and its arguments
abbrev pub Refusal : Type 0
Refusal = Settings → List Text → Bool

abbrev pub nothing : Refusal
nothing s rest = false

abbrev pub of_discover : Refusal
of_discover s rest = is_below_one s.depth || (is_negative s.count || is_negative s.window)

abbrev pub of_capture : Refusal
of_capture s rest = (arg 0 rest == []) || (is_negative s.count || is_negative s.window)

-- the subcommands, each with the most arguments that it takes and what it refuses of them
abbrev pub grammar : Dict (ℕ × Refusal)
grammar =
    (codes "run", (0, nothing))
    ∷ (codes "verify", (0, nothing))
    ∷ (codes "healthcheck", (0, nothing))
    ∷ (codes "version", (0, nothing))
    ∷ (codes "discover", (1, of_discover))
    ∷ (codes "capture", (1, of_capture))
    ∷ []

abbrev pub misparsed : ℕ → Refusal → Parsed → Bool
misparsed max wrong asked_help = false
misparsed max wrong (bad_flags message) = true
misparsed max wrong (flags s rest) = ltb max (length rest) || wrong s rest

abbrev pub misused : (Text → List Text → Parsed) → Text → List Text → Option (ℕ × Refusal) → Bool
misused parse_flags name args none = true
misused parse_flags name args (some (max, wrong)) = misparsed max wrong (parse_flags name args)

-- no subcommand, an unknown one, or flags and arguments that it does not take
abbrev pub is_misuse : (Text → List Text → Parsed) → List Text → Bool
is_misuse parse_flags [] = true
is_misuse parse_flags (name ∷ args) = misused parse_flags name args (lookup name grammar)
