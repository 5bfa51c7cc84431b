-- ===== src/Router.antt =====
-- internal/app/router.go: a buffer for each source, the dispatch of a message to the buffers, and the
-- goroutine of each source, which handles its messages one after another.
--
-- `Dispatch` and the goroutines run side by side. A schedule lists what happens in its order: one
-- round of the loop of `Dispatch` is `offer`, one round of the loop of `consume` is `consume`, with the
-- time that `now` gives. A `consume` is one step here; `Router.Threads` has each write to the store as
-- a step. Log lines are not modelled, and the calls of `Inc` are kept as a list.
pub mod Buffers
pub mod Counts
pub mod Loop
pub mod Schedule
pub mod Threads
use mqtt2prometheus.Base.{
  Text, ℕ, zero, suc, Bool, true, false, ltb, Option, none, some, List, [], ◌∷◌, ◌++◌, map, length,
  foldl, if◌then◌else◌,
}
use mqtt2prometheus.Platform.{Platform}
use mqtt2prometheus.Store.{Store}
use mqtt2prometheus.Rules.Payload.{Failure}
use mqtt2prometheus.Source.{Source, owns, apply, reason_of}

-- broker.Message
pub record Message : Type 0 where
  pub topic : Text
  pub payload : Text

-- broker.Subscription; a router leaves `SkipRetained` at false
pub record Subscription : Type 0 where
  pub filter : Text
  pub qos : ℕ
  pub skip_retained : Bool

-- the calls of `Inc` on the counters of `exporter.Self`, with their labels
pub data Increment : Type 0 where
  received : Text → Increment
  dropped : Increment
  errors : Text → Text → Increment

pub record Feed (F R : Type 0) : Type 0 where
  pub source : Source F R
  pub messages : List Message

-- `running` tells that `stop` is not nil.
pub record Router (F R : Type 0) : Type 0 where
  pub samples : Store F
  pub increments : List Increment
  pub feeds : List (Feed F R)
  pub running : Bool

abbrev pub source_buffer : ℕ
source_buffer = 1024

-- A message in a schedule is offered to the feed of a place in the list.
pub data Action : Type 0 where
  offer : ℕ → Message → Action
  consume : ℕ → ℕ → Action

module _ {F R : Type 0} where
  unfoldable pub new_router : Store F → Router F R
  new_router samples = record { samples = samples; increments = []; feeds = []; running = false }

  abbrev pub feed_of : Source F R → Feed F R
  feed_of s = record { source = s; messages = [] }

  -- `Start`: the goroutines that it starts are the `consume` actions.
  unfoldable pub start : List (Source F R) → Router F R → Router F R
  start sources r = record r { feeds = map feed_of sources; running = true }

  -- `Stop` forgets the feeds with what is still in them.
  unfoldable pub stop : Router F R → Router F R
  stop r = record r { feeds = []; running = false }

  unfoldable pub subscriptions : Router F R → List Subscription
  subscriptions r =
      map (λ f. record { filter = f.source.subscribe; qos = f.source.qos; skip_retained = false })
        r.feeds

  -- the `select` of `Dispatch`, with the buffer after it and the counter that it counts up
  unfoldable pub offer_to : Feed F R → Message → Feed F R × Increment
  offer_to f msg =
      if ltb (length f.messages) source_buffer
      then (record f { messages = f.messages ++ msg ∷ [] }, received f.source.name)
      else (f, dropped)

  -- one round of the loop of `Dispatch`
  unfoldable pub offer_feed : Feed F R → Message → Feed F R × List Increment
  unfolding offer_to
  offer_feed f msg =
      let (after, inc) = offer_to f msg in
      if owns f.source msg.topic then (after, inc ∷ []) else (f, [])

  -- the whole loop of `Dispatch`
  unfoldable pub dispatch_to : List (Feed F R) → Message → List (Feed F R) × List Increment
  unfolding offer_feed
  dispatch_to [] msg = ([], [])
  dispatch_to (f ∷ feeds) msg =
      let (after, inc) = offer_feed f msg in
      let (rest, incs) = dispatch_to feeds msg in (after ∷ rest, inc ++ incs)

  unfoldable pub dispatch : Message → Router F R → Router F R
  unfolding dispatch_to
  dispatch msg r =
      let (feeds, incs) = dispatch_to r.feeds msg in
      record r { feeds = feeds; increments = r.increments ++ incs }

  -- the round for the feed at a place
  unfoldable pub offer_at : List (Feed F R) → ℕ → Message → List (Feed F R) × List Increment
  unfolding offer_feed
  offer_at [] i msg = ([], [])
  offer_at (f ∷ feeds) zero msg = let (after, inc) = offer_feed f msg in (after ∷ feeds, inc)
  offer_at (f ∷ feeds) (suc i) msg = let (rest, incs) = offer_at feeds i msg in (f ∷ rest, incs)

  abbrev behind :
      Feed F R
      → Option (Feed F R × Message × List (Feed F R))
      → Option (Feed F R × Message × List (Feed F R))
  behind f none = none
  behind f (some (g, msg, feeds)) = some (g, msg, f ∷ feeds)

  abbrev first_of :
      Feed F R → List Message → List (Feed F R) → Option (Feed F R × Message × List (Feed F R))
  first_of f [] feeds = none
  first_of f (msg ∷ rest) feeds = some (f, msg, record f { messages = rest } ∷ feeds)

  -- `<-f.messages` for the feed at a place; `none` where there is no message
  unfoldable pub receive_at : List (Feed F R) → ℕ → Option (Feed F R × Message × List (Feed F R))
  receive_at [] i = none
  receive_at (f ∷ feeds) zero = first_of f f.messages feeds
  receive_at (f ∷ feeds) (suc i) = behind f (receive_at feeds i)

module _ (P : Platform) where
  open P use {Float, Regexp}

  abbrev pub error_increments : Text → List Failure → List Increment
  error_increments name problems = map (λ problem. errors name (reason_of problem)) problems

  unfoldable pub handle :
      Source Float Regexp → ℕ → Message → Router Float Regexp → Router Float Regexp
  handle s now msg r =
      let t = apply P s r.samples now msg.topic msg.payload in
      record r {
        samples = t.samples;
        increments = r.increments ++ error_increments s.name t.problems;
      }

  -- a `consume` that has no message waits
  abbrev pub consumed :
      Option (Feed Float Regexp × Message × List (Feed Float Regexp))
      → ℕ
      → Router Float Regexp
      → Router Float Regexp
  consumed none now r = r
  consumed (some (f, msg, feeds)) now r = handle f.source now msg (record r { feeds = feeds })

  unfoldable pub step : Router Float Regexp → Action → Router Float Regexp
  unfolding offer_at receive_at handle
  step r (offer i msg) =
      let (feeds, incs) = offer_at r.feeds i msg in
      record r { feeds = feeds; increments = r.increments ++ incs }
  step r (consume i now) = consumed (receive_at r.feeds i) now r

  abbrev pub run : Router Float Regexp → List Action → Router Float Regexp
  run = foldl step
