-- ===== src/Load/Env.antt =====
-- `expandEnv` and `dedupe` of internal/config/load.go: which names are missing, and what is replaced.
use mqtt2prometheus.Base.{
  Text, ℕ, suc, ◌≡◌, ◌≢◌, refl, ◌∙◌, sym, ap, Bool, true, false, ◌&&◌, ◌||◌, eq_iff, Option, none,
  some, List, [], ◌∷◌, ◌++◌, All, length, is_empty, Bool-cases, Option-cases, inl, inr, ◌⊎◌,
  if◌then◌else◌, arith,
}
use mqtt2prometheus.Base.Dict.{
  Keys, contains, contains-nil, contains-cons, add, contains-add, contains-append, append-Distinct,
  Distinct,
}
use mqtt2prometheus.Config.Template.{Token, byte, ref, IsName, name_at-print, refs_of, filled}
use mqtt2prometheus.Load.{
  Expanded, expanded, missing_env, env_ref, scan_env, replace_refs, dedupe_from, dedupe, expand_env,
}

dedupe_from_lem :
    (seen : Keys) (out names : List Text)
    → ((k : Text) → contains k seen ≡ contains k out)
    → Distinct out
    → Distinct (dedupe_from seen out names)
      × ((k : Text)
          → contains k (dedupe_from seen out names) ≡ (contains k out || contains k names))
unfolding dedupe_from
dedupe_from_lem seen out [] h d = (d, λ k. ground (arith, contains-nil k))
dedupe_from_lem seen out (s ∷ names) h d = elim (Bool-cases (contains s seen)) [
  | inl old ↦
      let (distinct, same) = dedupe_from_lem seen out names h d in
      rw old (distinct, λ k. ground (arith, same k, contains-cons k s names, eq_iff k s, h s, old))
  | inr new ↦
      let (distinct, same) =
        dedupe_from_lem (add s seen) (out ++ s ∷ []) names
          (λ k. ground (arith, h k, contains-add k s seen, contains-append k s out))
          (append-Distinct s out (sym (h s) ∙ new) d) in
      rw new
        (distinct, λ k. ground (arith, same k, contains-cons k s names, contains-append k s out))
]

-- `dedupe` keeps exactly the names that it is given, each once.
pub dedupe_lem :
    (names : List Text)
    → Distinct (dedupe names) × ((k : Text) → contains k (dedupe names) ≡ contains k names)
unfolding dedupe
dedupe_lem names =
    let (distinct, same) = dedupe_from_lem [] [] names (λ k. refl) tt in
    (distinct, λ k. ground (arith, same k, contains-nil k))

abbrev pub is_unset : Option Text → Bool
is_unset none = true
is_unset (some value) = false

missing-replace_refs :
    (env : Text → Option Text) (ts : List Token) (k : Text)
    → contains k (replace_refs env ts).1 ≡ (contains k (refs_of ts) && is_unset (env k))
unfolding replace_refs refs_of
missing-replace_refs env [] k = ground (arith, contains-nil k)
missing-replace_refs env (byte c ∷ ts) k = missing-replace_refs env ts k
missing-replace_refs env (ref name ∷ ts) k = elim (Option-cases (env name)) [
  | inl n ↦ ground (
    arith,
    n,
    missing-replace_refs env ts k,
    contains-cons k name (refs_of ts),
    contains-cons k name (replace_refs env ts).1,
    eq_iff k name,
  )
  | inr (v, n) ↦
      ground
        (arith, n, missing-replace_refs env ts k, contains-cons k name (refs_of ts), eq_iff k name)
]

-- the value of a variable, empty if it is not set
abbrev pub set_value : (Text → Option Text) → Text → Text
set_value env name = elim (env name) [ none ↦ [] | some value ↦ value ]

filled-replace_refs :
    (env : Text → Option Text) (ts : List Token)
    → (replace_refs env ts).1 ≡ []
    → (replace_refs env ts).0 ≡ filled (set_value env) ts
unfolding replace_refs filled
filled-replace_refs env [] h = refl
filled-replace_refs env (byte c ∷ ts) h = ap (λ s. c ∷ s) (filled-replace_refs env ts h)
filled-replace_refs env (ref name ∷ ts) h = elim (Option-cases (env name)) [
  | inl n ↦ absurd (ground (arith, n))
  | inr (v, n) ↦ ground (arith, n, filled-replace_refs env ts (ground (arith, n)))
]

-- A text that refers to no variable that is unset becomes the text with the values in their places. Any
-- other text is refused, with the names of the unset variables that it refers to, each once, and with
-- the base of its path.
pub expand_env-missing :
    (base : Text → Text) (env : Text → Option Text) (raw path : Text)
    → ((expand_env base env raw path ≡ expanded (filled (set_value env) (scan_env 0 raw)))
        × ((k : Text) → (contains k (refs_of (scan_env 0 raw)) && is_unset (env k)) ≡ false))
      ⊎ ((names : List Text) × (expand_env base env raw path ≡ missing_env names (base path))
          × (names ≢ [])
          × Distinct names
          × ((k : Text)
              → contains k names ≡ (contains k (refs_of (scan_env 0 raw)) && is_unset (env k))))
unfolding expand_env
expand_env-missing base env raw path = go (replace_refs env (scan_env 0 raw)).1 refl
  where
    ts : List Token
    ts = scan_env 0 raw

    answer : List Text → Expanded
    answer missing =
        if is_empty missing
        then expanded (replace_refs env (scan_env 0 raw)).0
        else missing_env (dedupe missing) (base path)

    go :
        (missing : List Text)
        → (replace_refs env (scan_env 0 raw)).1 ≡ missing
        → ((answer (replace_refs env (scan_env 0 raw)).1
              ≡ expanded (filled (set_value env) (scan_env 0 raw)))
            × ((k : Text) → (contains k (refs_of (scan_env 0 raw)) && is_unset (env k)) ≡ false))
          ⊎ ((names : List Text) × (answer (replace_refs env (scan_env 0 raw)).1
                ≡ missing_env names (base path))
              × (names ≢ [])
              × Distinct names
              × ((k : Text)
                  → contains k names ≡ (contains k (refs_of (scan_env 0 raw)) && is_unset (env k))))
    go [] e = inl (
      ap answer e ∙ ap expanded (filled-replace_refs env (scan_env 0 raw) e),
      λ k. sym (missing-replace_refs env (scan_env 0 raw) k) ∙ ap (contains k) e ∙ contains-nil k,
    )
    go (m ∷ missing) e =
        let (distinct, kept) = dedupe_lem (m ∷ missing) in
        inr (
          dedupe (m ∷ missing),
          ap answer e,
          λ none_left.
              cc
                (kept m, none_left, contains-nil m, contains-cons m m missing, (eq_iff m m).1 refl),
          distinct,
          λ k. kept k ∙ sym (ap (contains k) e) ∙ missing-replace_refs env (scan_env 0 raw) k,
        )

-- the text that the parts were read from
unfoldable pub unscan_env : List Token → Text
unscan_env [] = []
unscan_env (byte c ∷ ts) = c ∷ unscan_env ts
unscan_env (ref name ∷ ts) = b'$' ∷ b'{' ∷ (name ++ b'}' ∷ unscan_env ts)

-- A part as a file is written: a byte that begins no reference, or a reference to a name.
abbrev pub IsPlace : Token → Type 0
IsPlace (byte c) = c ≢ b'$'
IsPlace (ref name) = IsName name

scan_env_past :
    (w : Text) (b : ℕ) (s : Text) → scan_env (suc (length w)) (w ++ b ∷ s) ≡ scan_env 0 s
unfolding scan_env
scan_env_past [] b s = refl
scan_env_past (c ∷ w) b s = scan_env_past w b s

env_ref-plain : (c : ℕ) (s : Text) → c ≢ b'$' → env_ref c s ≡ none
unfolding env_ref
env_ref-plain c [] h = refl
env_ref-plain c (d ∷ s) h = ground (arith, h)

scan_env-unscan_env : (ts : List Token) → All IsPlace ts → scan_env 0 (unscan_env ts) ≡ ts
unfolding scan_env unscan_env env_ref
scan_env-unscan_env [] h = refl
scan_env-unscan_env (byte c ∷ ts) (hc, hs) =
    ground (arith, env_ref-plain c (unscan_env ts) hc, scan_env-unscan_env ts hs)
scan_env-unscan_env (ref name ∷ ts) (hn, hs) = ground (
  arith,
  name_at-print name (unscan_env ts) hn,
  scan_env_past name b'}' (unscan_env ts),
  scan_env-unscan_env ts hs,
)

replace_refs_set :
    (env : Text → Option Text) (value : Text → Text) (ts : List Token)
    → All (λ (n : Text). env n ≡ some (value n)) (refs_of ts)
    → replace_refs env ts ≡ (filled value ts, [])
unfolding replace_refs refs_of filled
replace_refs_set env value [] h = refl
replace_refs_set env value (byte c ∷ ts) h = rw (replace_refs_set env value ts h)
replace_refs_set env value (ref name ∷ ts) (h, hs) =
    ground (arith, h, replace_refs_set env value ts hs)

-- A text that is written as references between bytes other than `$`, where every variable it refers to
-- is set, becomes the text with the values in their places; a value is not read again, whatever it
-- holds.
pub expand_env-unscan_env :
    (base : Text → Text) (env : Text → Option Text) (value : Text → Text) (ts : List Token)
    (path : Text)
    → All IsPlace ts
    → All (λ (n : Text). env n ≡ some (value n)) (refs_of ts)
    → expand_env base env (unscan_env ts) path ≡ expanded (filled value ts)
unfolding expand_env
expand_env-unscan_env base env value ts path h set =
    rw (scan_env-unscan_env ts h, replace_refs_set env value ts set)
