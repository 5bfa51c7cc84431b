-- ===== src/Tests/Toy.antt =====
-- A concrete platform. Floats are natural numbers; an expression is a text, which matches the topics
-- that begin with it and captures the rest as `device`; a document is a decimal number, or an object
-- with the number of its second byte at the key `value`.
use mqtt2prometheus.Base.{
  Text, ℕ, ◌+◌, ◌-◌, ◌*◌, ◌&&◌, ltb, leb, eqb, codes, Option, none, some, List, [], ◌∷◌,
  if◌then◌else◌,
}
use mqtt2prometheus.Platform.{Platform, Json, number, object, end, field}

abbrev digits : ℕ → Text → Option ℕ
digits n [] = some n
digits n (c ∷ s) =
    let rest = digits (n * 10 + (c - 48)) s in if leb 48 c && leb c 57 then rest else none

abbrev pub decimal : Text → Option ℕ
decimal [] = none
decimal (c ∷ s) = digits 0 (c ∷ s)

abbrev pub behind : Text → Text → Option Text
behind [] topic = some topic
behind (c ∷ re) [] = none
behind (c ∷ re) (b ∷ topic) = let rest = behind re topic in if eqb c b then rest else none

abbrev submatch : Text → Text → Option (List Text)
submatch re topic = elim (behind re topic) [ none ↦ none | some rest ↦ some (topic ∷ rest ∷ []) ]

abbrev document : Text → Option (Json ℕ)
document [] = none
document (b ∷ []) = elim (decimal (b ∷ [])) [ none ↦ none | some n ↦ some (number n) ]
document (b ∷ c ∷ rest) =
    if eqb b 123
    then some (object (field (codes "value") (number (c - 48)) end))
    else (elim (decimal (b ∷ c ∷ rest)) [ none ↦ none | some n ↦ some (number n) ])

abbrev pub toy : Platform
toy = record {
  Float = ℕ;
  zero = 0;
  one = 1;
  plus = λ a b. a + b;
  times = λ a b. a * b;
  lt = ltb;
  is_zero = λ a. eqb a 0;
  parse_float = decimal;
  format_float = λ n. (48 + n) ∷ [];
  trim_space = λ s. s;
  seconds = λ n. n;
  Regexp = Text;
  compile = λ s. some s;
  find_submatch = submatch;
  subexp_names = λ re. [] ∷ codes "device" ∷ [];
  num_subexp = λ re. 1;
  unmarshal = document;
}
