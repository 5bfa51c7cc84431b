-- ===== src/Outcome.antt =====
-- The errors that the functions of internal/app return to the user, as values.
use mqtt2prometheus.Base.{Text, Option, none, some, List, [], ◌∷◌}
use mqtt2prometheus.Base.Results.{Result}
pub use mqtt2prometheus.Base.Results.{ok, err, ◌>>=◌}
use mqtt2prometheus.Config.Problems.{Problems}
use mqtt2prometheus.Source.{CompileError, bad_rule, nil_qos}
use mqtt2prometheus.Load.Files.{LoadError, Loaded}

-- the messages of a `UsageError`
pub data Misuse : Type 0 where
  no_subcommand : Misuse
  unknown_subcommand : Text → Misuse
  malformed_flags : Text → Misuse
  unexpected : Text → Text → Misuse
  depth_below_one : Misuse
  negative_count : Text → Misuse
  negative_window : Text → Misuse
  filter_required : Misuse

-- The errors of a command. `failed` holds those that come from outside, more than one where
-- `errors.Join` puts them together; `uncompiled` is
-- an error of `compileSources`, and `nil_pointer` no error but a panic.
pub data Error (E : Type 0) : Type 0 where
  usage_error : Misuse → Error E
  help : Error E
  dir_not_set : Error E
  load_error : LoadError → Error E
  invalid : Problems → Error E
  uncompiled : Error E
  failed : List E → Error E
  nil_pointer : Error E

abbrev pub Answer : Type 0 → Type 0 → Type 0
Answer E A = Result (Error E) A

infixl 5 ◌>>◌
abbrev pub ◌>>◌ : {E B : Type 0} → Answer E (Unit {0}) → Answer E B → Answer E B
first >> second = first >>= λ _. second

abbrev pub Status : Type 0 → Type 0
Status E = Answer E (Unit {0})

-- the error of a call outside, if it has one
abbrev pub status : {E : Type 0} → Option E → Status E
status none = ok tt
status (some e) = err (failed (e ∷ []))

abbrev pub of_load : {E A : Type 0} → Loaded A → Answer E A
of_load (ok a) = ok a
of_load (err e) = err (load_error e)

abbrev pub checked : {E A : Type 0} → Problems → A → Answer E A
checked [] a = ok a
checked (p ∷ ps) a = err (invalid (p ∷ ps))

abbrev pub compiled : {E A : Type 0} → Result CompileError A → Answer E A
compiled (err bad_rule) = err uncompiled
compiled (err nil_qos) = err nil_pointer
compiled (ok a) = ok a
