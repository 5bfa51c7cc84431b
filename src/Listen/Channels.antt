-- ===== src/Listen/Channels.antt =====
-- The emitter of internal/app/listen.go: its channels are closed at most once, and never written to
-- after that.
use mqtt2prometheus.Base.{
  Text, ℕ, ◌⊎◌, ◌↔◌, ◌+◌, ◌≤◌, ◌<◌, ◌≡◌, refl, ◌∙◌, sym, ap, true, false, ◌&&◌, ltb, leb, Option,
  none, some, List, [], ◌∷◌, ◌++◌, append_assoc, length, length-append, Bool-cases, inl, inr, arith,
}
use mqtt2prometheus.Listen.{
  Emitter, new_emitter, at_limit, close_full, send, emit, close, first_line, drain, line_buffer,
}

-- what was sent: the printed lines and those in the channel
abbrev pub lines : Emitter → List Text
lines e = e.printed ++ e.out

-- `out` is closed with the emitter, `full` when the limit is reached, and the lines are counted.
pub record IsEmitter (n : ℕ) (e : Emitter) : Type 0 where
  pub limit : e.limit ≡ n
  pub out_closed : e.out_closed ≡ e.closed
  pub full_closed : e.full_closed ≡ at_limit e
  pub count : e.count ≡ length (lines e)
  pub bound : at_limit e ≡ true → e.count ≡ e.limit

pub new_emitter-IsEmitter : (limit : ℕ) → IsEmitter limit (new_emitter limit)
unfolding new_emitter at_limit
new_emitter-IsEmitter limit = record {
  limit = refl;
  out_closed = refl;
  full_closed = ground arith;
  count = refl;
  bound = λ h. ground arith;
}

-- the line is new at the end, or nothing happened
abbrev pub Emitted : Text → Emitter → Emitter → Type 0
Emitted line e after = (lines after ≡ lines e) ⊎ (lines after ≡ lines e ++ line ∷ [])

length-sent :
    (e : Emitter) (line : Text) → length (e.printed ++ (e.out ++ line ∷ [])) ≡ length (lines e) + 1
length-sent e line = omega (
  arith,
  length-append e.printed (e.out ++ line ∷ []),
  length-append e.out (line ∷ []),
  length-append e.printed e.out,
)

send-IsEmitter :
    {limit : ℕ} (e : Emitter) (line : Text)
    → IsEmitter limit e
    → e.closed ≡ false
    → at_limit e ≡ false
    → (after : Emitter) × (send e line ≡ some after) × IsEmitter limit after × Emitted line e after
unfolding send at_limit close_full
send-IsEmitter e line h live below = elim (Bool-cases (ltb (length e.out) line_buffer)) [
  | inr room ↦ (e, ground (arith, h.out_closed), h, inl refl)
  | inl room ↦ elim (Bool-cases (ltb 0 e.limit && leb e.limit (e.count + 1))) [
    | inr more ↦ (
      record e { out = e.out ++ line ∷ []; count = e.count + 1 },
      ground (arith, h.out_closed),
      record {
        limit = h.limit;
        out_closed = h.out_closed;
        full_closed = ground (arith, h.full_closed);
        count = omega (arith, h.count, length-sent e line);
        bound = λ q. ground (arith, q, more);
      },
      inr (sym (append_assoc e.printed e.out (line ∷ []))),
    )
    | inl last ↦ (
      record e { out = e.out ++ line ∷ []; count = e.count + 1; full_closed = true },
      ground (arith, h.out_closed, h.full_closed),
      record {
        limit = h.limit;
        out_closed = h.out_closed;
        full_closed = sym last;
        count = omega (arith, h.count, length-sent e line);
        bound = λ q. ground (arith, q, below);
      },
      inr (sym (append_assoc e.printed e.out (line ∷ []))),
    )
  ]
]

-- `emit` never panics: a well-formed emitter stays well formed, and the line is sent or dropped.
pub emit-IsEmitter :
    {limit : ℕ} (e : Emitter) (line : Text)
    → IsEmitter limit e
    → (after : Emitter) × (emit e line ≡ some after) × IsEmitter limit after × Emitted line e after
unfolding emit
emit-IsEmitter e line h = elim (Bool-cases e.closed) [
  | inl shut ↦ (e, ground arith, h, inl refl)
  | inr live ↦ elim (Bool-cases (at_limit e)) [
    | inl full ↦ (e, ground arith, h, inl refl)
    | inr below ↦
        let (after, sent, kept, line_sent) = send-IsEmitter e line h live below in
        (after, ground (arith, sent), kept, line_sent)
  ]
]

-- `close` never panics, also not when it is called again.
pub close-IsEmitter :
    {limit : ℕ} (e : Emitter)
    → IsEmitter limit e
    → (after : Emitter) × (close e ≡ some after)
      × IsEmitter limit after
      × (after.closed ≡ true)
      × (lines after ≡ lines e)
unfolding close at_limit
close-IsEmitter e h = elim (Bool-cases e.closed) [
  | inl shut ↦ (e, ground arith, h, shut, refl)
  | inr live ↦ (
    record e { closed = true; out_closed = true },
    ground (arith, h.out_closed),
    record {
      limit = h.limit;
      out_closed = refl;
      full_closed = h.full_closed;
      count = h.count;
      bound = h.bound;
    },
    refl,
    refl,
  )
]

lines-drain : (e : Emitter) → lines (drain e) ≡ lines e
unfolding drain
lines-drain e = go e.out refl
  where
    go : (out : List Text) → e.out ≡ out → lines (first_line out e) ≡ lines e
    go [] q = refl
    go (line ∷ rest) q =
        append_assoc e.printed (line ∷ []) rest ∙ ap (λ out. e.printed ++ out) (sym q)

pub drain-IsEmitter :
    {limit : ℕ} (e : Emitter)
    → IsEmitter limit e
    → IsEmitter limit (drain e) × (lines (drain e) ≡ lines e)
unfolding drain at_limit
drain-IsEmitter {limit = limit} e h = (go e.out refl, lines-drain e)
  where
    go : (out : List Text) → e.out ≡ out → IsEmitter limit (first_line out e)
    go [] q = h
    go (line ∷ rest) q = record {
      limit = h.limit;
      out_closed = h.out_closed;
      full_closed = h.full_closed;
      count = omega (
        arith,
        h.count,
        ap length q,
        length-append e.printed e.out,
        length-append (e.printed ++ line ∷ []) rest,
        length-append e.printed (line ∷ []),
      );
      bound = h.bound;
    }

-- what can happen to an emitter, in any order
pub data Action : Type 0 where
  emitted : Text → Action
  closes : Action
  drains : Action

abbrev pub act : Emitter → Action → Option Emitter
act e (emitted line) = emit e line
act e closes = close e
act e drains = some (drain e)

abbrev pub acts : Emitter → List Action → Option Emitter
acts e [] = some e
acts e (a ∷ actions) = elim (act e a) [ none ↦ none | some after ↦ acts after actions ]

abbrev then_acts : List Action → Option Emitter → Option Emitter
then_acts actions none = none
then_acts actions (some next) = acts next actions

acts-IsEmitter :
    {limit : ℕ} (e : Emitter) (actions : List Action)
    → IsEmitter limit e
    → (after : Emitter) × (acts e actions ≡ some after) × IsEmitter limit after
acts-IsEmitter e [] h = (e, refl, h)
acts-IsEmitter e (emitted line ∷ actions) h =
    let (next, made, kept, _) = emit-IsEmitter e line h in
    let (after, rest, well) = acts-IsEmitter next actions kept in
    (after, ap (then_acts actions) made ∙ rest, well)
acts-IsEmitter e (closes ∷ actions) h =
    let (next, made, kept, _, _) = close-IsEmitter e h in
    let (after, rest, well) = acts-IsEmitter next actions kept in
    (after, ap (then_acts actions) made ∙ rest, well)
acts-IsEmitter e (drains ∷ actions) h = acts-IsEmitter (drain e) actions (drain-IsEmitter e h).0

-- With a limit above 0, whatever lines are emitted and however often the emitter is closed, in any
-- order, nothing panics, no more lines are sent than the limit says, and `done` is closed exactly when
-- the limit is reached.
pub acts_lem :
    (limit : ℕ) (actions : List Action)
    → 0 < limit
    → (after : Emitter) × (acts (new_emitter limit) actions ≡ some after)
      × (length (lines after) ≤ limit)
      × ((after.full_closed ≡ true) ↔ (length (lines after) ≡ limit))
unfolding at_limit
acts_lem limit actions h =
    let (after, made, well) =
      acts-IsEmitter (new_emitter limit) actions (new_emitter-IsEmitter limit) in
    (
      after,
      made,
      ground (arith, well.limit, well.count, well.bound),
      ground (arith, well.limit, well.count, well.bound, well.full_closed),
    )
