-- ===== src/Listen/Prefixes.antt =====
-- The prefixes that internal/app/discover.go prints.
use mqtt2prometheus.Base.{
  Text, ℕ, zero, suc, ◌≤◌, ◌<◌, ◌≡◌, refl, ◌∙◌, sym, ap, subst, true, false, leb, Option, none,
  some, List, [], ◌∷◌, All, length, take, split, join, IsPiece, split_pieces, split-join,
  Bool-cases, inl, inr, arith,
}
use mqtt2prometheus.Base.Dict.{
  contains, contains-nil, add, contains-add, contains-append, append-Distinct, Distinct,
}
use mqtt2prometheus.Router.{Message}
use mqtt2prometheus.Listen.{
  Emitter, new_emitter, Discovery, new_discovery, prefix_of, with_out, observe, close, drain,
}
use mqtt2prometheus.Listen.Channels.{
  IsEmitter, Emitted, lines, new_emitter-IsEmitter, emit-IsEmitter, close-IsEmitter,
  drain-IsEmitter,
}

take_all : (d : ℕ) (xs : List Text) → length xs ≤ d → take d xs ≡ xs
take_all zero [] h = refl
take_all zero (x ∷ xs) h = absurd (omega (arith, h))
take_all (suc d) [] h = refl
take_all (suc d) (x ∷ xs) h = ap (λ ys. x ∷ ys) (take_all d xs (omega (arith, h)))

All-take : (sep d : ℕ) (xs : List Text) → All (IsPiece sep) xs → All (IsPiece sep) (take d xs)
All-take sep zero xs h = tt
All-take sep (suc d) [] h = tt
All-take sep (suc d) (x ∷ xs) (h, hs) = (h, All-take sep d xs hs)

split-join-take :
    (d : ℕ) (xs : List Text)
    → All (IsPiece b'/') xs
    → d < length xs
    → split (join (take (suc d) xs) (b'/' ∷ [])) b'/' ≡ take (suc d) xs
split-join-take d [] h k = absurd (omega (arith, k))
split-join-take d (x ∷ xs) (h, hs) k = split-join b'/' x (take d xs) (h, All-take b'/' d xs hs)

-- The prefix of a topic has the first segments of the topic, as many as the depth says, or all.
pub split-prefix_of :
    (topic : Text) (depth : ℕ)
    → split (prefix_of topic (suc depth)) b'/' ≡ take (suc depth) (split topic b'/')
unfolding prefix_of
split-prefix_of topic depth = elim (Bool-cases (leb (length (split topic b'/')) (suc depth))) [
  | inl e ↦ rw e (sym (take_all (suc depth) (split topic b'/') (ground (arith, e))))
  | inr e ↦
      rw e (split-join-take depth (split topic b'/') (split_pieces b'/' topic) (ground (arith, e)))
]

-- Every line is a prefix that is known, and no two lines are the same.
pub record IsDiscovery (n : ℕ) (d : Discovery) : Type 0 where
  pub emitter : IsEmitter n d.out
  pub known : (k : Text) → contains k (lines d.out) ≡ true → contains k d.seen ≡ true
  pub distinct : Distinct (lines d.out)

-- what can happen to a discovery, in any order
pub data Action : Type 0 where
  observed : Message → Action
  closes : Action
  drains : Action

abbrev pub act : Discovery → Action → Option Discovery
act d (observed msg) = observe d msg
act d closes = with_out d (close d.out)
act d drains = some (record d { out = drain d.out })

abbrev pub acts : Discovery → List Action → Option Discovery
acts d [] = some d
acts d (a ∷ actions) = elim (act d a) [ none ↦ none | some after ↦ acts after actions ]

abbrev then_acts : List Action → Option Discovery → Option Discovery
then_acts actions none = none
then_acts actions (some next) = acts next actions

sent-IsDiscovery :
    (n : ℕ) (d : Discovery) (p : Text) (out : Emitter)
    → IsDiscovery n d
    → contains p d.seen ≡ false
    → IsEmitter n out
    → Emitted p d.out out
    → IsDiscovery n (record d { seen = add p d.seen; out = out })
sent-IsDiscovery n d p out h new e (inl same) = record {
  emitter = e;
  known = λ k q.
      ground
        (arith, contains-add k p d.seen, h.known k (subst (λ xs. contains k xs ≡ true) same q));
  distinct = subst Distinct (sym same) h.distinct;
}
sent-IsDiscovery n d p out h new e (inr more) = record {
  emitter = e;
  known = λ k q.
      ground
        (arith, contains-add k p d.seen, h.known k, contains-append k p (lines d.out), q, more);
  distinct =
      subst Distinct (sym more)
        (append-Distinct p (lines d.out) (ground (arith, h.known p, new)) h.distinct);
}

-- a new emitter with the same lines
same-IsDiscovery :
    (n : ℕ) (d : Discovery) (out : Emitter)
    → IsDiscovery n d
    → IsEmitter n out
    → lines out ≡ lines d.out
    → IsDiscovery n (record d { out = out })
same-IsDiscovery n d out h e same = record {
  emitter = e;
  known = λ k q. h.known k (subst (λ xs. contains k xs ≡ true) same q);
  distinct = subst Distinct (sym same) h.distinct;
}

observe-IsDiscovery :
    {n : ℕ} (d : Discovery) (msg : Message)
    → IsDiscovery n d
    → (after : Discovery) × (observe d msg ≡ some after) × IsDiscovery n after
unfolding observe
observe-IsDiscovery {n = n} d msg h =
    let p = prefix_of msg.topic d.depth in
    elim (Bool-cases (contains p d.seen)) [
      | inl old ↦ (d, rw old, h)
      | inr new ↦
          let (out, made, well, sent) = emit-IsEmitter d.out p h.emitter in
          (
            record d { seen = add p d.seen; out = out },
            rw new (ap (with_out (record d { seen = add p d.seen })) made),
            sent-IsDiscovery n d p out h new well sent,
          )
    ]

acts-IsDiscovery :
    {n : ℕ} (d : Discovery) (actions : List Action)
    → IsDiscovery n d
    → (after : Discovery) × (acts d actions ≡ some after) × IsDiscovery n after
acts-IsDiscovery d [] h = (d, refl, h)
acts-IsDiscovery d (observed msg ∷ actions) h =
    let (next, made, kept) = observe-IsDiscovery d msg h in
    let (after, rest, well) = acts-IsDiscovery next actions kept in
    (after, ap (then_acts actions) made ∙ rest, well)
acts-IsDiscovery {n = n} d (closes ∷ actions) h =
    let (out, made, e, _, same) = close-IsEmitter d.out h.emitter in
    let (after, rest, well) =
      acts-IsDiscovery (record d { out = out }) actions (same-IsDiscovery n d out h e same) in
    (after, ap (λ o. then_acts actions (with_out d o)) made ∙ rest, well)
acts-IsDiscovery {n = n} d (drains ∷ actions) h =
    let (e, same) = drain-IsEmitter d.out h.emitter in
    acts-IsDiscovery (record d { out = drain d.out }) actions
      (same-IsDiscovery n d (drain d.out) h e same)

-- Whatever messages are observed and however the lines are read, in any order, `discover` does not
-- panic and sends no prefix twice.
pub acts-Distinct :
    (depth limit : ℕ) (actions : List Action)
    → (after : Discovery) × (acts (new_discovery depth limit) actions ≡ some after)
      × Distinct (lines after.out)
unfolding new_discovery new_emitter
acts-Distinct depth limit actions =
    let (after, made, well) = acts-IsDiscovery (new_discovery depth limit) actions (record {
      emitter = new_emitter-IsEmitter limit;
      known = λ k q. absurd (none_sent limit k q);
      distinct = tt;
    }) in
    (after, made, well.distinct)
  where
    none_sent : (limit : ℕ) (k : Text) → contains k (lines (new_emitter limit)) ≡ true → ⊥
    none_sent limit k q = unfold new_emitter in cc (q, contains-nil k)
