-- ===== src/Base/Bytes.antt =====
-- Go's strings and byte slices: lists of bytes.
use Prim.Native.Nat.{ℕ}
use Prim.Native.Char.{code}
use Prim.Native.String.{String}
use mathlib.Core.Path.{◌≡◌, refl, ◌∙◌, sym, ap}
use mathlib.Core.Bool.{Bool, true, false, ◌&&◌}
use mathlib.Core.Logic.{◌↔◌, ◌≢◌}
use mathlib.Core.List.{List, [], ◌∷◌, ◌++◌, append_assoc, append-nil}
use native.Mathlib.Omega.{arith}
use mqtt2prometheus.Base.Lists.{All, All-append}
use mqtt2prometheus.Base.Tests.{ltb, eqb, if◌then◌else◌}

abbrev pub Text : Type 0
Text = List ℕ

-- The code points of a literal: its bytes, if it is ASCII. `String` has its own `[]` and `∷`.
abbrev pub codes : String → Text
codes String.[] = []
codes (String.◌∷◌ c s) = code c ∷ codes s

infix 50 ◌==◌
unfoldable pub ◌==◌ : Text → Text → Bool
[] == [] = true
(a ∷ s) == (b ∷ t) = eqb a b && s == t
_ == _ = false

pub eq_iff : (s t : Text) → ((s == t) ≡ true) ↔ (s ≡ t)
unfolding ◌==◌
eq_iff [] [] = (λ _. refl, λ _. refl)
eq_iff [] (b ∷ t) = (λ h. cc, λ h. cc)
eq_iff (a ∷ s) [] = (λ h. cc, λ h. cc)
eq_iff (a ∷ s) (b ∷ t) = ground (arith, eq_iff s t)

pub eq_refl : (s : Text) → (s == s) ≡ true
eq_refl s = (eq_iff s s).1 refl

-- Go's `<` on strings: byte by byte, a proper prefix first.
unfoldable pub less : Text → Text → Bool
less [] [] = false
less [] (b ∷ t) = true
less (a ∷ s) [] = false
less (a ∷ s) (b ∷ t) = let rest = less s t in if eqb a b then rest else ltb a b

pub less_irrefl : (s : Text) → less s s ≡ false
unfolding less
less_irrefl [] = refl
less_irrefl (a ∷ s) = ground (arith, less_irrefl s)

pub less_trans : (s t u : Text) → less s t ≡ true → less t u ≡ true → less s u ≡ true
unfolding less
less_trans [] [] u h k = cc
less_trans [] (b ∷ t) [] h k = cc
less_trans [] (b ∷ t) (c ∷ u) h k = refl
less_trans (a ∷ s) [] u h k = cc
less_trans (a ∷ s) (b ∷ t) [] h k = cc
less_trans (a ∷ s) (b ∷ t) (c ∷ u) h k = ground (arith, less_trans s t u)

-- Two different texts are ordered one way or the other.
pub less_total : (s t : Text) → less s t ≡ false → less t s ≡ false → s ≡ t
unfolding less
less_total [] [] h k = refl
less_total [] (b ∷ t) h k = cc
less_total (a ∷ s) [] h k = cc
less_total (a ∷ s) (b ∷ t) h k = ground (arith, less_total s t)

pub less_asym : (s t : Text) → less s t ≡ true → less t s ≡ false
unfolding less
less_asym [] [] h = refl
less_asym [] (b ∷ t) h = refl
less_asym (a ∷ s) [] h = cc
less_asym (a ∷ s) (b ∷ t) h = ground (arith, less_asym s t)

pub less_negtrans : (s t u : Text) → less u t ≡ false → less t s ≡ false → less u s ≡ false
unfolding less
less_negtrans s t [] h k = none_after s t h k
  where
    none_after : (s t : Text) → less [] t ≡ false → less t s ≡ false → less [] s ≡ false
    none_after [] t h k = refl
    none_after (a ∷ s) [] h k = k
    none_after (a ∷ s) (b ∷ t) h k = cc
less_negtrans [] t (c ∷ u) h k = refl
less_negtrans (a ∷ s) [] (c ∷ u) h k = cc
less_negtrans (a ∷ s) (b ∷ t) (c ∷ u) h k = ground (arith, less_negtrans s t u)

-- `strings.Join`
unfoldable pub join : List Text → Text → Text
join [] sep = []
join (s ∷ []) sep = s
join (s ∷ t ∷ rest) sep = s ++ (sep ++ join (t ∷ rest) sep)

-- the pieces of the text between separators of one byte, the first piece begun with `cur`
split_from : ℕ → Text → Text → List Text
split_from sep cur [] = cur ∷ []
split_from sep cur (c ∷ s) = elim (eqb c sep) [
  | true ↦ cur ∷ split_from sep [] s
  | false ↦ split_from sep (cur ++ c ∷ []) s
]

-- `strings.Split(s, sep)` for a separator of one byte
unfoldable pub split : Text → ℕ → List Text
unfolding split_from
split s sep = split_from sep [] s

-- no byte of the text is the separator
abbrev pub IsPiece : ℕ → Text → Type 0
IsPiece sep = All (λ (c : ℕ). c ≢ sep)

split_from-piece : (sep : ℕ) (cur s : Text) → IsPiece sep s → split_from sep cur s ≡ (cur ++ s) ∷ []
unfolding split_from
split_from-piece sep cur [] h = ap (λ t. t ∷ []) (sym (append-nil cur))
split_from-piece sep cur (c ∷ s) (h, hs) =
    ground (arith, split_from-piece sep (cur ++ c ∷ []) s hs, append_assoc cur (c ∷ []) s)

split_from-append :
    (sep : ℕ) (cur s t : Text)
    → IsPiece sep s
    → split_from sep cur (s ++ sep ∷ t) ≡ (cur ++ s) ∷ split_from sep [] t
unfolding split_from
split_from-append sep cur [] t h = ground (arith, append-nil cur)
split_from-append sep cur (c ∷ s) t (h, hs) =
    ground (arith, split_from-append sep (cur ++ c ∷ []) s t hs, append_assoc cur (c ∷ []) s)

pub split-piece : (sep : ℕ) (s : Text) → IsPiece sep s → split s sep ≡ s ∷ []
unfolding split
split-piece sep s h = split_from-piece sep [] s h

pub split-append :
    (sep : ℕ) (s t : Text) → IsPiece sep s → split (s ++ sep ∷ t) sep ≡ s ∷ split t sep
unfolding split
split-append sep s t h = split_from-append sep [] s t h

-- Splitting undoes joining, where there is a piece.
pub split-join :
    (sep : ℕ) (s : Text) (ss : List Text)
    → All (IsPiece sep) (s ∷ ss)
    → split (join (s ∷ ss) (sep ∷ [])) sep ≡ s ∷ ss
unfolding join
split-join sep s [] (h, hs) = split-piece sep s h
split-join sep s (t ∷ ss) (h, hs) =
    split-append sep s _ h ∙ ap (λ ts. s ∷ ts) (split-join sep t ss hs)

split_from_pieces :
    (sep : ℕ) (cur s : Text) → IsPiece sep cur → All (IsPiece sep) (split_from sep cur s)
unfolding split_from
split_from_pieces sep cur [] h = (h, tt)
split_from_pieces sep cur (c ∷ s) h =
    go (eqb c sep) (λ e. ground (arith, e)) (split_from_pieces sep [] s tt)
      (split_from_pieces sep (cur ++ c ∷ []) s)
  where
    go :
        (b : Bool)
        → (b ≡ false → c ≢ sep)
        → All (IsPiece sep) (split_from sep [] s)
        → (IsPiece sep (cur ++ c ∷ []) → All (IsPiece sep) (split_from sep (cur ++ c ∷ []) s))
        → All
            (IsPiece sep)
            (elim b [ true ↦ cur ∷ split_from sep [] s | false ↦ split_from sep (cur ++ c ∷ []) s ])
    go true k rest longer = (h, rest)
    go false k rest longer = longer (All-append _ cur (c ∷ []) h (k refl, tt))

pub split_pieces : (sep : ℕ) (s : Text) → All (IsPiece sep) (split s sep)
unfolding split
split_pieces sep s = split_from_pieces sep [] s tt
