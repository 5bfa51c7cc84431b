-- ===== src/Router/Threads/Settle.antt =====
-- After `Stop` of internal/app/router.go: how much is left to do.
use mqtt2prometheus.Base.{
  Text, ℕ, zero, suc, ◌+◌, ◌<◌, ◌≡◌, refl, ◌∙◌, sym, ap, ap₂, ◌⊎◌, inl, inr, Bool, true, false, not,
  ◌&&◌, ◌==◌, Option, none, some, List, [], ◌∷◌, ◌≤◌, All, length, length-append, is_empty,
  get_elem?, update_at, if◌then◌else◌, arith,
}
use mqtt2prometheus.Base.Dict.{Dict}
use mqtt2prometheus.Platform.{Platform}
use mqtt2prometheus.Store.History.{Write}
use mqtt2prometheus.Rules.Payload.{Outcome, found, absent, failed, panicked}
use mqtt2prometheus.Rules.Label.{resolve_labels}
use mqtt2prometheus.Rules.Rule
use mqtt2prometheus.Rules.Rule.{Rule, Applied, no_match, error, nothing, sample, crashed}
use mqtt2prometheus.Source.{Source}
use mqtt2prometheus.Source.Writes.{
  beat_write, beat_writes, result_writes, label_writes, rules_writes, matches_from, writes,
}
use mqtt2prometheus.Router.{Message}
use mqtt2prometheus.Router.Threads.{
  Worker, Threads, Action, offer, begin, write, end_context, stop, exit, drop_write, exit_worker,
  take_message, begin_worker, step, steps,
}

module _ {F R : Type 0} where
  -- What a goroutine can do is told by its state: take a message that waits, make the write that is
  -- next, or end.
  abbrev pub can_begin : Worker F R → Bool
  can_begin w = is_empty w.todo && not w.exited && not (is_empty w.feed.messages)

  abbrev pub can_write : Worker F R → Bool
  can_write w = not (is_empty w.todo)

  abbrev pub can_exit : Worker F R → Bool
  can_exit w = is_empty w.todo && not w.exited

  abbrev pub at : (Worker F R → Bool) → Option (Worker F R) → Bool
  at can none = false
  at can (some w) = can w

  -- the actions that can be taken once the context is at its end
  unfoldable pub enabled : Threads F R → Action → Bool
  enabled t (offer i msg) = t.dispatching
  enabled t (begin i now) = at can_begin (get_elem? t.workers i)
  enabled t (write i) = at can_write (get_elem? t.workers i)
  enabled t end_context = false
  enabled t stop = false
  enabled t (exit i) = at can_exit (get_elem? t.workers i)

module _ (P : Platform) where
  open P use {Float, Regexp}

  length-beat_writes :
      (name : Text) (a b : Dict Text) (now later : ℕ)
      → length (beat_writes P name a now) ≡ length (beat_writes P name b later)
  length-beat_writes name a b now later = go (name == [])
    where
      go :
          (empty : Bool)
          → length (if not empty then beat_write P name a now ∷ [] else [])
            ≡ length (if not empty then beat_write P name b later ∷ [] else [])
      go true = refl
      go false = refl

  length-result_writes :
      (r : Rule Float Regexp) (now later : ℕ) (result : Applied Float)
      → length (result_writes P r now result) ≡ length (result_writes P r later result)
  length-result_writes r now later no_match = refl
  length-result_writes r now later (error e) = refl
  length-result_writes r now later nothing = refl
  length-result_writes r now later crashed = refl
  length-result_writes r now later (sample m) =
      ap suc (length-beat_writes r.last_updated_metric m.labels m.labels now later)

  length-rules_writes :
      (rules : List (Rule Float Regexp)) (now later : ℕ) (topic payload : Text)
      → length (rules_writes P rules now topic payload)
        ≡ length (rules_writes P rules later topic payload)
  unfolding rules_writes
  length-rules_writes [] now later topic payload = refl
  length-rules_writes (r ∷ rules) now later topic payload =
      length-append (result_writes P r now (Rule.apply P r topic payload)) _
      ∙ ap₂ (λ m n. m + n) (length-result_writes r now later (Rule.apply P r topic payload))
          (length-rules_writes rules now later topic payload)
      ∙ sym (length-append (result_writes P r later (Rule.apply P r topic payload)) _)

  length-label_writes :
      (name : Text) (now later : ℕ) (result : Outcome (Dict Text))
      → length (label_writes P name now result) ≡ length (label_writes P name later result)
  length-label_writes name now later (found labels) =
      length-beat_writes name labels labels now later
  length-label_writes name now later absent = refl
  length-label_writes name now later (failed e) = refl
  length-label_writes name now later panicked = refl

  -- The time of a message is in the values of its writes, and not in their number.
  length-writes :
      (s : Source Float Regexp) (now later : ℕ) (topic payload : Text)
      → length (writes P s now topic payload) ≡ length (writes P s later topic payload)
  unfolding writes
  length-writes s now later topic payload =
      length-append (rules_writes P s.rules now topic payload) _
      ∙ ap₂ (λ m n. m + n) (length-rules_writes s.rules now later topic payload)
          (go (matches_from P false s.rules topic payload && not (s.last_updated_metric == [])))
      ∙ sym (length-append (rules_writes P s.rules later topic payload) _)
    where
      last : Bool → ℕ → List (Write Float)
      last b at =
          if b
          then label_writes P s.last_updated_metric at (resolve_labels P s.labels [] payload)
          else []

      go : (b : Bool) → length (last b now) ≡ length (last b later)
      go true =
          length-label_writes s.last_updated_metric now later (resolve_labels P s.labels [] payload)
      go false = refl

  -- what a waiting message costs: to take it, and its writes
  abbrev pub weights : Source Float Regexp → List Message → ℕ
  weights s [] = 0
  weights s (msg ∷ rest) = suc (length (writes P s 0 msg.topic msg.payload)) + weights s rest

  -- the steps that a worker has left, the last of which is its end
  abbrev pub weight : Worker Float Regexp → ℕ
  weight w = (length w.todo + weights w.feed.source w.feed.messages) + (if w.exited then 0 else 1)

  abbrev pub left_of : List (Worker Float Regexp) → ℕ
  left_of [] = 0
  left_of (w ∷ workers) = weight w + left_of workers

  is_empty-eq-true : {A : Type 0} (xs : List A) → is_empty xs ≡ true → xs ≡ []
  is_empty-eq-true [] h = refl
  is_empty-eq-true (x ∷ xs) h = cc

  take_message_lem :
      (messages : List Message) (now : ℕ) (w : Worker Float Regexp)
      → w.feed.messages ≡ messages
      → w.todo ≡ []
      → is_empty messages ≡ false
      → weight (take_message P messages now w) < weight w
  take_message_lem [] now w e h k = cc
  take_message_lem (msg ∷ rest) now w e h k =
      let same = length-writes w.feed.source now 0 msg.topic msg.payload in
      let costs : weights w.feed.source w.feed.messages
          ≡ suc (length (writes P w.feed.source 0 msg.topic msg.payload))
            + weights w.feed.source rest =
        ap (weights w.feed.source) e in
      omega (arith, same, costs, ap length h)

  begin_worker_lem :
      (now : ℕ) (w : Worker Float Regexp)
      → can_begin w ≡ true
      → weight (begin_worker P now w) < weight w
  unfolding begin_worker
  begin_worker_lem now w h =
      go (is_empty w.todo) (not w.exited) (is_empty w.feed.messages) refl refl h
    where
      go :
          (b c d : Bool)
          → is_empty w.todo ≡ b
          → is_empty w.feed.messages ≡ d
          → b && c && not d ≡ true
          → weight (if b && c then take_message P w.feed.messages now w else w) < weight w
      go true true false e k h =
          take_message_lem w.feed.messages now w refl (is_empty-eq-true w.todo e) k
      go true true true e k h = cc
      go true false d e k h = cc
      go false c d e k h = cc

  exit_worker_lem :
      (w : Worker Float Regexp) → can_exit w ≡ true → weight (exit_worker w) < weight w
  unfolding exit_worker
  exit_worker_lem w h = go (is_empty w.todo) w.exited refl h
    where
      go :
          (b c : Bool)
          → w.exited ≡ c
          → b && not c ≡ true
          → weight (if b then record w { exited = true } else w) < weight w
      go true true e k = cc
      go true false e k = omega (arith, ap {B = ℕ} (λ x. if x then 0 else 1) e)
      go false c e k = cc

  drop_write_lem : (w : Worker Float Regexp) → can_write w ≡ true → weight (drop_write w) < weight w
  drop_write_lem w h = go w.todo refl h
    where
      go :
          (todo : List (Write Float))
          → w.todo ≡ todo
          → not (is_empty todo) ≡ true
          → weight (drop_write w) < weight w
      go [] e k = cc
      go (x ∷ rest) e k = omega (
        arith,
        ap length e,
        ap {B = ℕ}
            (λ (xs : List (Write Float)).
              length {A = Write Float} (elim xs [ [] ↦ [] | x ∷ rest ↦ rest ]))
            e,
      )

  left_of-update_at :
      (i : ℕ) (f : Worker Float Regexp → Worker Float Regexp) (can : Worker Float Regexp → Bool)
      (workers : List (Worker Float Regexp))
      → ((w : Worker Float Regexp) → can w ≡ true → weight (f w) < weight w)
      → at can (get_elem? workers i) ≡ true
      → left_of (update_at i f workers) < left_of workers
  left_of-update_at i f can [] h k = cc
  left_of-update_at zero f can (w ∷ workers) h k = omega (arith, h w k)
  left_of-update_at (suc i) f can (w ∷ workers) h k =
      omega (arith, left_of-update_at i f can workers h k)

  -- An enabled action leaves less to do, and the context stays at its end.
  step_lem :
      (t : Threads Float Regexp) (a : Action)
      → t.dispatching ≡ false
      → t.cancelled ≡ true
      → enabled t a ≡ true
      → (left_of (step P t a).workers < left_of t.workers)
        × ((step P t a).dispatching ≡ false)
        × ((step P t a).cancelled ≡ true)
  unfolding step enabled
  step_lem t (offer i msg) h k e = cc
  step_lem t (begin i now) h k e =
      (left_of-update_at i _ can_begin t.workers (begin_worker_lem now) e, h, k)
  step_lem t (write i) h k e = (left_of-update_at i _ can_write t.workers drop_write_lem e, h, k)
  step_lem t end_context h k e = cc
  step_lem t stop h k e = cc
  step_lem t (exit i) h k e =
      rw k (left_of-update_at i _ can_exit t.workers exit_worker_lem e, h, refl)

  -- a goroutine that has not ended can go on
  busy :
      (t : Threads Float Regexp) (i : ℕ) (w : Worker Float Regexp)
      → get_elem? t.workers i ≡ some w
      → (w.exited ≡ true) ⊎ ((a : Action) × (enabled t a ≡ true))
  unfolding enabled
  busy t i w g = go (is_empty w.todo) w.exited refl refl
    where
      go :
          (b c : Bool)
          → is_empty w.todo ≡ b
          → w.exited ≡ c
          → (c ≡ true) ⊎ ((a : Action) × (enabled t a ≡ true))
      go b true e k = inl refl
      go false false e k = inr (write i, ap (at can_write) g ∙ ap not e)
      go true false e k = inr (exit i, ap (at can_exit) g ∙ ap₂ (λ x y. x && not y) e k)

  -- the workers from the place `i` on
  ended_or_enabled :
      (t : Threads Float Regexp) (i : ℕ) (workers : List (Worker Float Regexp))
      → ((j : ℕ) → get_elem? t.workers (i + j) ≡ get_elem? workers j)
      → All (λ w. w.exited ≡ true) workers ⊎ ((a : Action) × (enabled t a ≡ true))
  ended_or_enabled t i [] h = inl tt
  ended_or_enabled t i (w ∷ workers) h =
      elim (busy t i w (ap (get_elem? t.workers) (omega arith) ∙ h 0)) [
        | inr a ↦ inr a
        | inl e ↦
            elim (ended_or_enabled t (suc i) workers
              (λ j. ap (get_elem? t.workers) (omega arith) ∙ h (suc j))) [
                | inl es ↦ inl (e, es)
                | inr a ↦ inr a
              ]
      ]

  -- Every action of the schedule is enabled when its turn comes.
  abbrev pub EnabledAll : Threads Float Regexp → List Action → Type 0
  EnabledAll t [] = Unit
  EnabledAll t (a ∷ actions) = (enabled t a ≡ true) × EnabledAll (step P t a) actions

  -- After `Stop`, a schedule in which each action can be taken when its turn comes has at most as many
  -- actions as there is left to do at its start: the writes in hand, the messages that wait with all
  -- their writes, and the ends of the goroutines. When it is over, all goroutines have ended, or there
  -- is an action that can be taken.
  pub stop_settles :
      (t : Threads Float Regexp) (actions : List Action)
      → t.dispatching ≡ false
      → t.cancelled ≡ true
      → EnabledAll t actions
      → (length actions ≤ left_of t.workers)
        × (All (λ w. w.exited ≡ true) (steps P t actions).workers
            ⊎ ((a : Action) × (enabled (steps P t actions) a ≡ true)))
  stop_settles t [] h k u =
      (omega arith, ended_or_enabled t 0 t.workers (λ j. ap (get_elem? t.workers) (omega arith)))
  stop_settles t (a ∷ actions) h k (e, u) =
      let (l, d, c) = step_lem t a h k e in
      let (m, v) = stop_settles (step P t a) actions d c u in (omega (arith, l, m), v)
