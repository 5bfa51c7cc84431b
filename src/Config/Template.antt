-- ===== src/Config/Template.antt =====
-- The pattern `\{([A-Za-z_][A-Za-z0-9_]*)\}` of internal/config/labels.go with the two functions that
-- use it. A match is taken at the first place where there is one and the search goes on behind it.
use mqtt2prometheus.Base.{
  Text, ℕ, zero, suc, ◌≡◌, ◌≢◌, refl, ◌∙◌, ap, ap₂, Bool, true, ◌&&◌, ◌||◌, Option, none, some,
  get_or, List, [], ◌∷◌, ◌++◌, length, leb, eqb, Bool-cases, Option-cases, inl, inr, if◌then◌else◌,
  arith, All,
}
use mqtt2prometheus.Base.Dict.{Dict, lookup}

-- [A-Za-z_]
unfoldable pub is_name_start : ℕ → Bool
is_name_start c = leb b'A' c && leb c b'Z' || leb b'a' c && leb c b'z' || eqb c b'_'

-- [A-Za-z0-9_]
unfoldable pub is_name_byte : ℕ → Bool
unfolding is_name_start
is_name_byte c = is_name_start c || leb b'0' c && leb c b'9'

-- the name bytes up to a closing brace
unfoldable pub name_tail : Text → Option Text
unfolding is_name_byte
name_tail [] = none
name_tail (c ∷ s) =
    let rest = name_tail s in
    if eqb c b'}'
    then some []
    else if is_name_byte c
    then elim rest [ none ↦ none | some name ↦ some (c ∷ name) ]
    else none

-- the name of a reference whose opening brace stands right before the text
unfoldable pub name_at : Text → Option Text
unfolding name_tail
name_at [] = none
name_at (c ∷ s) =
    if is_name_start c
    then (elim (name_tail s) [ none ↦ none | some name ↦ some (c ∷ name) ])
    else none

-- the parts of a text: bytes outside of references, and references
pub data Token : Type 0 where
  byte : ℕ → Token
  ref : Text → Token

-- `skip` counts the bytes of a reference that are still to be passed over.
unfoldable pub scan : ℕ → Text → List Token
unfolding name_at
scan skip [] = []
scan (suc skip) (c ∷ s) = scan skip s
scan zero (c ∷ s) = elim (if eqb c b'{' then name_at s else none) [
  | none ↦ byte c ∷ scan zero s
  | some name ↦ ref name ∷ scan (suc (length name)) s
]

unfoldable pub refs_of : List Token → List Text
refs_of [] = []
refs_of (byte c ∷ ts) = refs_of ts
refs_of (ref name ∷ ts) = name ∷ refs_of ts

unfoldable pub template_refs : Text → List Text
unfolding scan refs_of
template_refs s = refs_of (scan 0 s)

unfoldable pub expand : Dict Text → List Token → Text
expand values [] = []
expand values (byte c ∷ ts) = c ∷ expand values ts
expand values (ref name ∷ ts) = get_or (lookup name values) [] ++ expand values ts

unfoldable pub expand_template : Text → Dict Text → Text
unfolding scan expand
expand_template s values = expand values (scan 0 s)

-- The text that the parts were read from.
unfoldable pub unscan : List Token → Text
unscan [] = []
unscan (byte c ∷ ts) = c ∷ unscan ts
unscan (ref name ∷ ts) = b'{' ∷ name ++ (b'}' ∷ unscan ts)

abbrev pub IsName : Text → Type 0
IsName [] = ⊥
IsName (c ∷ s) = (is_name_start c ≡ true) × All (λ (b : ℕ). is_name_byte b ≡ true) s

-- A part as a template is written: a byte that opens no reference, or a reference to a name.
abbrev pub IsPart : Token → Type 0
IsPart (byte c) = c ≢ b'{'
IsPart (ref name) = IsName name

name_tail-reads :
    (s name : Text) → name_tail s ≡ some name → (rest : Text) × (s ≡ name ++ b'}' ∷ rest)
unfolding name_tail
name_tail-reads [] name h = cc
name_tail-reads (c ∷ s) name h = elim (Bool-cases (eqb c b'}')) [
  | inl e ↦ (s, ground arith)
  | inr e ↦ elim (Bool-cases (is_name_byte c)) [
    | inl g ↦ elim (Option-cases (name_tail s)) [
      | inl n ↦ absurd (ground arith)
      | inr (tail, n) ↦ let (rest, q) = name_tail-reads s tail n in (rest, ground arith)
    ]
    | inr g ↦ absurd (ground arith)
  ]
]

name_at-reads : (s name : Text) → name_at s ≡ some name → (rest : Text) × (s ≡ name ++ b'}' ∷ rest)
unfolding name_at
name_at-reads [] name h = cc
name_at-reads (c ∷ s) name h = elim (Bool-cases (is_name_start c)) [
  | inl g ↦ elim (Option-cases (name_tail s)) [
    | inl n ↦ absurd (ground arith)
    | inr (tail, n) ↦ let (rest, q) = name_tail-reads s tail n in (rest, ground arith)
  ]
  | inr g ↦ absurd (ground arith)
]

scan_past : (w : Text) (b : ℕ) (s : Text) → scan (suc (length w)) (w ++ b ∷ s) ≡ scan 0 s
unfolding scan
scan_past [] b s = refl
scan_past (c ∷ w) b s = scan_past w b s

name_tail-print :
    (name rest : Text)
    → All (λ (b : ℕ). is_name_byte b ≡ true) name
    → name_tail (name ++ b'}' ∷ rest) ≡ some name
unfolding name_tail
name_tail-print [] rest h = refl
name_tail-print (c ∷ name) rest (hc, hs) = ground (arith, name_tail-print name rest hs)

pub name_at-print : (name rest : Text) → IsName name → name_at (name ++ b'}' ∷ rest) ≡ some name
unfolding name_at
name_at-print [] rest h = absurd h
name_at-print (c ∷ name) rest (hc, hs) = rw (hc, name_tail-print name rest hs)

-- Parts that are written out as a template are read back as the same parts.
pub scan-unscan : (ts : List Token) → All IsPart ts → scan 0 (unscan ts) ≡ ts
unfolding scan unscan
scan-unscan [] h = refl
scan-unscan (byte c ∷ ts) (hc, hs) = ground (arith, scan-unscan ts hs)
scan-unscan (ref name ∷ ts) (hn, hs) =
    ground
      (arith, name_at-print name (unscan ts) hn, scan_past name b'}' (unscan ts), scan-unscan ts hs)

-- what a text becomes with a value for each reference
unfoldable pub filled : (Text → Text) → List Token → Text
filled value [] = []
filled value (byte c ∷ ts) = c ∷ filled value ts
filled value (ref name ∷ ts) = value name ++ filled value ts

-- the names that a text refers to, from left to right
abbrev pub names_in : List Token → List Text
names_in [] = []
names_in (byte c ∷ ts) = names_in ts
names_in (ref name ∷ ts) = name ∷ names_in ts

-- the value of a name, empty if it has none
abbrev pub value_of : Dict Text → Text → Text
value_of values name = elim (lookup name values) [ none ↦ [] | some value ↦ value ]

refs_of-names_in : (ts : List Token) → refs_of ts ≡ names_in ts
unfolding refs_of
refs_of-names_in [] = refl
refs_of-names_in (byte c ∷ ts) = refs_of-names_in ts
refs_of-names_in (ref name ∷ ts) = ap (λ ns. name ∷ ns) (refs_of-names_in ts)

get_or-value_of : (o : Option Text) → get_or o [] ≡ elim o [ none ↦ [] | some value ↦ value ]
get_or-value_of none = refl
get_or-value_of (some v) = refl

expand-filled :
    (values : Dict Text) (ts : List Token) → expand values ts ≡ filled (value_of values) ts
unfolding expand filled
expand-filled values [] = refl
expand-filled values (byte c ∷ ts) = ap (λ s. c ∷ s) (expand-filled values ts)
expand-filled values (ref name ∷ ts) =
    ap₂ (λ v s. v ++ s) (get_or-value_of (lookup name values)) (expand-filled values ts)

-- A template that is written as references to names between bytes other than `{` refers to just these
-- names, and is expanded by putting the value of each in its place, the empty text where it has none.
pub expand_template-unscan :
    (ts : List Token) (values : Dict Text)
    → All IsPart ts
    → (template_refs (unscan ts) ≡ names_in ts)
      × (expand_template (unscan ts) values ≡ filled (value_of values) ts)
unfolding template_refs expand_template
expand_template-unscan ts values h = (
  ap refs_of (scan-unscan ts h) ∙ refs_of-names_in ts,
  ap (expand values) (scan-unscan ts h) ∙ expand-filled values ts,
)
