-- ===== src/Store/Counter.antt =====
-- `observeCounter` of internal/store/store.go against the history of the values that it was given,
-- and the order of what a scrape shows.
use mqtt2prometheus.Base.{
  Text, ◌≡◌, refl, ap₂, true, false, ◌&&◌, List, [], ◌∷◌, foldl, Bool-cases, inl, inr,
  if◌then◌else◌, arith,
}
use mqtt2prometheus.Platform.{Platform}
use mqtt2prometheus.Store.{counter, Series, observe_counter, fresh, sample_of}

module _ (P : Platform) where
  open P use {Float, zero, plus, lt}

  -- the number that `Snapshot` shows
  abbrev pub shown : Series Float → Float
  shown c = (sample_of P c).value

  abbrev pub observe_all : Series Float → List Float → Series Float
  observe_all = foldl (observe_counter P)

  -- The values that stand right before a smaller one: the last readings before a restart.
  abbrev pub before_drops : Float → List Float → List Float
  before_drops last [] = []
  before_drops last (v ∷ vs) =
      let rest = before_drops v vs in if lt v last then last ∷ rest else rest

  abbrev pub final : Float → List Float → Float
  final last [] = last
  final last (v ∷ vs) = final v vs

  abbrev pub sum_from : Float → List Float → Float
  sum_from = foldl plus

  observe_all_seen :
      (c : Series Float) (vs : List Float)
      → c.seen ≡ true
      → ((observe_all c vs).last ≡ final c.last vs)
        × ((observe_all c vs).offset ≡ sum_from c.offset (before_drops c.last vs))
  unfolding observe_counter
  observe_all_seen c [] h = (refl, refl)
  observe_all_seen c (v ∷ vs) h =
      let ih = observe_all_seen (observe_counter P c v) vs in
      elim (Bool-cases (lt v c.last)) [ inl e ↦ ground (arith, ih) | inr e ↦ ground (arith, ih) ]

  -- A new counter that has seen the values v, vs shows the last of them plus the sum, in order, of
  -- every value that was followed by a smaller one.
  pub observe_all_lem :
      (name help : Text) (names values : List Text) (v : Float) (vs : List Float)
      → shown (observe_all (fresh P name counter help names values) (v ∷ vs))
        ≡ plus (final v vs) (sum_from zero (before_drops v vs))
  unfolding observe_counter fresh sample_of
  observe_all_lem name help names values v vs =
      let r = observe_all_seen _ vs refl in ap₂ plus (r.0) (r.1)

  -- What IEEE 754 promises of the floats that a counter can hold, such as those that are at least 0
  -- and no NaN.
  pub record CounterLaws (IsCount : Float → Type 0) : Type 0 where
    pub zero_count : IsCount zero
    pub plus_count : (a b : Float) → IsCount a → IsCount b → IsCount (plus a b)
    pub zero_least : (a : Float) → IsCount a → lt a zero ≡ false
    pub lt_irrefl : (a : Float) → IsCount a → lt a a ≡ false
    pub plus_comm : (a b : Float) → IsCount a → IsCount b → plus a b ≡ plus b a
    pub plus_grows : (a b : Float) → IsCount a → IsCount b → lt (plus b a) a ≡ false
    pub plus_mono :
        (a b c : Float)
        → IsCount a
        → IsCount b
        → IsCount c
        → lt b a ≡ false
        → lt (plus b c) (plus a c) ≡ false

module _ (P : Platform) (IsCount : P.Float → Type 0) where
  open P use {Float, zero, plus, lt}

  -- A series that only counters have written.
  pub record IsCounting (c : Series Float) : Type 0 where
    pub last_count : IsCount c.last
    pub offset_count : IsCount c.offset
    pub unseen : c.seen ≡ false → c.last ≡ zero

  module _ (laws : CounterLaws P IsCount) where
    pub observe_counter-IsCounting :
        (c : Series Float) (v : Float)
        → IsCount v
        → IsCounting c
        → IsCounting (observe_counter P c v)
    unfolding observe_counter
    observe_counter-IsCounting c v hv h = elim (Bool-cases (c.seen && lt v c.last)) [
      | inl e ↦ rw e (record {
        last_count = hv;
        offset_count = laws.plus_count _ _ h.offset_count h.last_count;
        unseen = λ f. cc;
      })
      | inr e ↦ rw e (record { last_count = hv; offset_count = h.offset_count; unseen = λ f. cc })
    ]

    -- What a counter shows never falls, whatever reading comes next, where only counters have written
    -- the series, the reading is a float that a counter can hold, and such floats keep `CounterLaws`.
    pub shown-observe_counter :
        (c : Series Float) (v : Float)
        → IsCounting c
        → IsCount v
        → lt (shown P (observe_counter P c v)) (shown P c) ≡ false
    unfolding observe_counter sample_of
    shown-observe_counter c v h hv = ground (
      arith,
      laws.plus_comm c.last c.offset h.last_count h.offset_count,
      laws.plus_grows (plus c.offset c.last) v (laws.plus_count _ _ h.offset_count h.last_count) hv,
      laws.plus_mono c.last v c.offset h.last_count hv h.offset_count,
      laws.zero_least v hv,
      h.unseen,
    )
