-- ===== src/Load.antt =====
-- internal/config/load.go: the references to environment variables in the configuration files; the
-- environment and `filepath.Base` are arguments. Load/Files.antt has the reading of the files.
pub mod Env
pub mod Files
pub mod Order
use mqtt2prometheus.Base.{
  Text, ℕ, zero, suc, ◌&&◌, eqb, Option, none, some, List, [], ◌∷◌, ◌++◌, length, is_empty,
  if◌then◌else◌,
}
use mqtt2prometheus.Base.Dict.{Keys, contains, add}
use mqtt2prometheus.Config.Template.{Token, byte, ref, name_at}

-- What `expandEnv` returns: the text, or a `MissingEnvError`.
pub data Expanded : Type 0 where
  expanded : Text → Expanded
  missing_env : List Text → Text → Expanded

-- the reference that begins with the byte `c`
unfoldable pub env_ref : ℕ → Text → Option Text
unfolding name_at
env_ref c [] = none
env_ref c (d ∷ s) = if eqb c b'$' && eqb d b'{' then name_at s else none

-- `envRef` on a text; the number counts the bytes of a reference that are still to be passed over.
unfoldable pub scan_env : ℕ → Text → List Token
unfolding env_ref
scan_env skip [] = []
scan_env (suc skip) (c ∷ s) = scan_env skip s
scan_env zero (c ∷ s) = elim (env_ref c s) [
  | none ↦ byte c ∷ scan_env zero s
  | some name ↦ ref name ∷ scan_env (suc (suc (length name))) s
]

abbrev pub print_ref : Text → Text
print_ref name = b'$' ∷ b'{' ∷ (name ++ b'}' ∷ [])

-- the replaced text and `missing`
unfoldable pub replace_refs : (Text → Option Text) → List Token → Text × List Text
replace_refs env [] = ([], [])
replace_refs env (byte c ∷ ts) = let (out, missing) = replace_refs env ts in (c ∷ out, missing)
replace_refs env (ref name ∷ ts) =
    let (out, missing) = replace_refs env ts in
    elim (env name) [
      | none ↦ (print_ref name ++ out, name ∷ missing)
      | some value ↦ (value ++ out, missing)
    ]

-- the loop of `dedupe`
unfoldable pub dedupe_from : Keys → List Text → List Text → List Text
dedupe_from seen out [] = out
dedupe_from seen out (s ∷ rest) =
    if contains s seen
    then dedupe_from seen out rest
    else dedupe_from (add s seen) (out ++ s ∷ []) rest

unfoldable pub dedupe : List Text → List Text
unfolding dedupe_from
dedupe names = dedupe_from [] [] names

unfoldable pub expand_env : (Text → Text) → (Text → Option Text) → Text → Text → Expanded
unfolding replace_refs dedupe scan_env
expand_env base env raw path =
    let (out, missing) = replace_refs env (scan_env 0 raw) in
    if is_empty missing then expanded out else missing_env (dedupe missing) (base path)
