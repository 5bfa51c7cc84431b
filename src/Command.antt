-- ===== src/Command.antt =====
-- internal/app/command.go and the level of the log in internal/app/app.go: the choice of the
-- subcommand and the texts of flags. The modules below have the flags and what a subcommand does.
pub mod Flags
pub mod Execute
pub mod Blames
pub mod Grammar
pub mod Subcommands
pub mod Misuse
pub mod Verified
use mqtt2prometheus.Base.{Text, ◌||◌, ◌==◌, codes, List, [], ◌∷◌, ◌++◌, join, if◌then◌else◌}

-- A subcommand with the rest of the arguments, or the two messages of `usage`.
pub data Subcommand : Type 0 where
  run : List Text → Subcommand
  verify : List Text → Subcommand
  healthcheck : List Text → Subcommand
  version : List Text → Subcommand
  discover : List Text → Subcommand
  capture : List Text → Subcommand
  none_given : Subcommand
  unknown : Text → Subcommand

unfoldable pub dispatch : List Text → Subcommand
dispatch [] = none_given
dispatch (name ∷ args) =
    if name == codes "run"
    then run args
    else if name == codes "verify"
    then verify args
    else if name == codes "healthcheck"
    then healthcheck args
    else if name == codes "version"
    then version args
    else if name == codes "discover"
    then discover args
    else if name == codes "capture"
    then capture args
    else unknown name

unfoldable pub shown_default : Text → Text
shown_default value =
    if value == [] || value == codes "0" || value == codes "false"
    then []
    else codes " (default " ++ (value ++ codes ")")

-- a flag as `VisitAll` gives it, with the kind and the usage that `UnquoteUsage` tells
pub record Flag : Type 0 where
  pub name : Text
  pub kind : Text
  pub usage : Text
  pub default : Text

abbrev flag_lines : List Flag → List Text
flag_lines [] = []
flag_lines (f ∷ flags) =
    (codes "  -" ++ (f.name ++ (codes " " ++ f.kind)))
    ∷ (codes "    \t" ++ (f.usage ++ shown_default f.default))
    ∷ flag_lines flags

unfoldable pub flag_usage : Text → List Flag → Text
flag_usage name flags =
    join ((codes "Usage of " ++ (name ++ codes ":")) ∷ flag_lines flags) (b'\n' ∷ []) ++ b'\n' ∷ []

pub data Level : Type 0 where
  debug : Level
  info : Level
  warn : Level
  error : Level

unfoldable pub parse_level : Text → Level
parse_level level =
    if level == codes "debug"
    then debug
    else if level == codes "warn"
    then warn
    else if level == codes "error"
    then error
    else info
