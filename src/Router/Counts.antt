-- ===== src/Router/Counts.antt =====
-- The counters that `Dispatch` and `handle` of internal/app/router.go count up, over a whole schedule.
use mqtt2prometheus.Base.{
  Text, ℕ, zero, suc, ◌+◌, ◌≡◌, refl, ◌∙◌, sym, ap, ap₂, Option, none, some, List, [], ◌∷◌, ◌++◌,
  append-nil, append_assoc, length, if◌then◌else◌, arith,
}
use mqtt2prometheus.Platform.{Platform}
use mqtt2prometheus.Store.{Store}
use mqtt2prometheus.Rules.Payload.{Failure}
use mqtt2prometheus.Source.{apply, reason_of}
use mqtt2prometheus.Router.{
  Message, Feed, Router, Increment, received, dropped, errors, Action, offer, consume, offer_to,
  offer_feed, offer_at, receive_at, handle, consumed, error_increments, step, run,
}
use mqtt2prometheus.Router.Buffers.{
  takes, put, Handling, handling, of_received, of_received-receive_at, handled, replay,
  samples-step,
}
use mqtt2prometheus.Router.Loop.{received_in, received_in-append}

-- the errors among what is counted
abbrev pub errors_in : List Increment → List Increment
errors_in [] = []
errors_in (received name ∷ incs) = errors_in incs
errors_in (dropped ∷ incs) = errors_in incs
errors_in (errors name reason ∷ incs) = errors name reason ∷ errors_in incs

errors_in-append :
    (incs more : List Increment) → errors_in (incs ++ more) ≡ errors_in incs ++ errors_in more
errors_in-append [] more = refl
errors_in-append (received name ∷ incs) more = errors_in-append incs more
errors_in-append (dropped ∷ incs) more = errors_in-append incs more
errors_in-append (errors name reason ∷ incs) more =
    ap (λ es. errors name reason ∷ es) (errors_in-append incs more)

-- one error for each problem, with the name of the source and the reason
abbrev pub blame : Text → List Failure → List Increment
blame name [] = []
blame name (problem ∷ problems) = errors name (reason_of problem) ∷ blame name problems

-- the places at which an action puts a message
abbrev pub place_of : Action → ℕ
place_of (offer i msg) = i
place_of (consume i now) = i

module _ {F R : Type 0} where
  offer_feed-counts :
      (f : Feed F R) (msg : Message)
      → (errors_in (offer_feed f msg).1 ≡ [])
        × (received_in (offer_feed f msg).1 ≡ length (if takes (some f) msg then msg ∷ [] else []))
  unfolding offer_feed offer_to
  offer_feed-counts f msg = ground arith

  offer_at-counts :
      (feeds : List (Feed F R)) (i : ℕ) (msg : Message)
      → (errors_in (offer_at feeds i msg).1 ≡ [])
        × (received_in (offer_at feeds i msg).1 ≡ length (put i feeds (offer i msg)))
  unfolding offer_at
  offer_at-counts [] i msg = ground arith
  offer_at-counts (f ∷ feeds) zero msg = offer_feed-counts f msg
  offer_at-counts (f ∷ feeds) (suc i) msg =
      let (none_wrong, put_in) = offer_at-counts feeds i msg in (none_wrong, ground (arith, put_in))

module _ (P : Platform) where
  open P use {Float, Regexp}

  -- the errors of the messages that are handled, in their order
  abbrev pub blamed : Store Float → List (Handling Float Regexp) → List Increment
  blamed samples [] = []
  blamed samples (h ∷ log) =
      let t = apply P h.source samples h.now h.message.topic h.message.payload in
      blame h.source.name t.problems ++ blamed t.samples log

  blamed-append :
      (samples : Store Float) (log more : List (Handling Float Regexp))
      → blamed samples (log ++ more) ≡ blamed samples log ++ blamed (replay P samples log) more
  blamed-append samples [] more = refl
  blamed-append samples (h ∷ log) more =
      let t = apply P h.source samples h.now h.message.topic h.message.payload in
      ap (λ es. blame h.source.name t.problems ++ es) (blamed-append t.samples log more)
      ∙ sym (append_assoc (blame h.source.name t.problems) (blamed t.samples log) _)

  error_increments_lem :
      (name : Text) (problems : List Failure)
      → (errors_in (error_increments P name problems) ≡ blame name problems)
        × (received_in (error_increments P name problems) ≡ 0)
  error_increments_lem name [] = (refl, refl)
  error_increments_lem name (problem ∷ problems) =
      let (same, no_more) = error_increments_lem name problems in
      (ap (λ es. errors name (reason_of problem) ∷ es) same, no_more)

  consumed-counts :
      (j now : ℕ) (o : Option (Feed Float Regexp × Message × List (Feed Float Regexp)))
      (r : Router Float Regexp)
      → (errors_in (consumed P o now r).increments
          ≡ errors_in r.increments ++ blamed r.samples (of_received j now o))
        × (received_in (consumed P o now r).increments ≡ received_in r.increments)
  unfolding handle
  consumed-counts j now none r = (sym (append-nil (errors_in r.increments)), refl)
  consumed-counts j now (some (f, msg, feeds)) r =
      let t = apply P f.source r.samples now msg.topic msg.payload in
      let incs = error_increments P f.source.name t.problems in
      let (same, no_more) = error_increments_lem f.source.name t.problems in
      (
        errors_in-append r.increments incs
            ∙ ap (λ es. errors_in r.increments ++ es)
                (same ∙ sym (append-nil (blame f.source.name t.problems))),
        omega (arith, received_in-append r.increments incs, no_more),
      )

  step-counts :
      (r : Router Float Regexp) (a : Action)
      → (errors_in (step P r a).increments
          ≡ errors_in r.increments ++ blamed r.samples (handling r.feeds a))
        × (received_in (step P r a).increments
            ≡ received_in r.increments + length (put (place_of a) r.feeds a))
  unfolding step
  step-counts r (offer i msg) =
      let (none_wrong, put_in) = offer_at-counts r.feeds i msg in
      let incs = (offer_at r.feeds i msg).1 in
      (
        errors_in-append r.increments incs ∙ ap (λ es. errors_in r.increments ++ es) none_wrong,
        omega (arith, received_in-append r.increments incs, put_in),
      )
  step-counts r (consume i now) =
      let (wrong, same) = consumed-counts i now (receive_at r.feeds i) r in
      (
        wrong
            ∙ ap (λ log. errors_in r.increments ++ blamed r.samples log)
                (of_received-receive_at i now r.feeds i),
        omega (arith, same),
      )

  -- how many messages the feeds take in a schedule
  abbrev pub admissions : Router Float Regexp → List Action → ℕ
  admissions r [] = 0
  admissions r (a ∷ actions) = length (put (place_of a) r.feeds a) + admissions (step P r a) actions

  -- Over every schedule, the errors that are counted are those of the messages that are handled, in
  -- their order: one for each problem that the rules of the source have with the message on the store
  -- as it is then, with the name of the source and the reason of the problem. And a message is counted
  -- as received exactly as often as a feed that owns its topic and has room takes one.
  pub increments-run :
      (r : Router Float Regexp) (actions : List Action)
      → (errors_in (run P r actions).increments
          ≡ errors_in r.increments ++ blamed r.samples (handled P r actions))
        × (received_in (run P r actions).increments
            ≡ received_in r.increments + admissions r actions)
  increments-run r [] = (sym (append-nil (errors_in r.increments)), omega arith)
  increments-run r (a ∷ actions) =
      let next = step P r a in
      let (wrong, taken_in) = step-counts r a in
      let (wrong_later, taken_later) = increments-run next actions in
      let log = handling r.feeds a in
      (
        wrong_later
            ∙ ap₂ (λ es s. es ++ blamed s (handled P next actions)) wrong (samples-step P r a)
            ∙ append_assoc (errors_in r.increments) (blamed r.samples log) _
            ∙ ap (λ es. errors_in r.increments ++ es)
                (sym (blamed-append r.samples log (handled P next actions))),
        omega (arith, taken_in, taken_later),
      )
