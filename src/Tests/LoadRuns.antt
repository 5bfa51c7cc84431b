-- ===== src/Tests/LoadRuns.antt =====
-- A file that refers to two variables, of which one is set.
use mqtt2prometheus.Base.{
  ◌⊎◌, false, Text, ◌≡◌, ◌≢◌, refl, ◌&&◌, ◌==◌, Option, none, some, codes, List, [], ◌∷◌, All,
  if◌then◌else◌, arith,
}
use mqtt2prometheus.Base.Dict.{contains, add, Distinct}
use mqtt2prometheus.Config.Template.{Token, byte, ref, is_name_start, is_name_byte, refs_of}
use mqtt2prometheus.Load.{expanded, missing_env, scan_env, dedupe, expand_env}
use mqtt2prometheus.Config.Template.{filled}
use mqtt2prometheus.Load.Env.{
  set_value, is_unset, IsPlace, unscan_env, expand_env-missing, expand_env-unscan_env,
}

abbrev environment : Text → Option Text
environment name = if name == codes "A" then some (codes "${B}") else none

abbrev plain : Text → Text
plain path = path

abbrev text : Text
text = codes "x: ${B} ${A} ${B}"

refused : expand_env plain environment text (codes "f") ≡ missing_env (codes "B" ∷ []) (codes "f")
unfolding expand_env scan_env dedupe is_name_start is_name_byte contains add ◌==◌
refused = refl

expand_env-missing_example :
    ((expand_env plain environment text (codes "f")
        ≡ expanded (filled (set_value environment) (scan_env 0 text)))
      × ((k : Text) → (contains k (refs_of (scan_env 0 text)) && is_unset (environment k)) ≡ false))
    ⊎ ((names : List Text) × (expand_env plain environment text (codes "f")
          ≡ missing_env names (plain (codes "f")))
        × (names ≢ [])
        × Distinct names
        × ((k : Text)
            → contains k names
              ≡ (contains k (refs_of (scan_env 0 text)) && is_unset (environment k))))
expand_env-missing_example = expand_env-missing plain environment text (codes "f")

abbrev places : List Token
places = byte b'x' ∷ ref (codes "A") ∷ []

places-IsPlace : All IsPlace places
unfolding is_name_start
places-IsPlace = (omega arith, ((refl, tt), tt))

places_set : All (λ (n : Text). environment n ≡ some (codes "${B}")) (refs_of places)
unfolding refs_of ◌==◌
places_set = (refl, tt)

expand_env-unscan_env_example :
    expand_env plain environment (codes "x${A}") (codes "f") ≡ expanded (codes "x${B}")
unfolding unscan_env filled
expand_env-unscan_env_example =
    expand_env-unscan_env plain environment (λ n. codes "${B}") places (codes "f") places-IsPlace
      places_set
