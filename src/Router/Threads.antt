-- ===== src/Router/Threads.antt =====
-- The goroutines of internal/app/router.go with a write to the store as the unit of interleaving. A
-- worker is a feed with the goroutine that consumes it. What the rules make of a message depends on
-- the message alone, so a goroutine works it out in one step, `begin`; each call of `Set` after that is
-- a step of its own, `write`, and a scrape or the steps of other workers can come between any two.
-- The context of the goroutines ends with that of `Run` (`end_context`), while `Dispatch` still finds
-- the feeds, and with `Stop`, which takes the feeds away as well. A goroutine that is not in the middle
-- of a message may then still take one that waits, since `select` chooses between the two, until it
-- sees the end of the context. The calls of `Inc` are in Router.antt alone.
pub mod Stored
pub mod Agree
pub mod Finish
pub mod Settle
use mqtt2prometheus.Base.{
  Text, ℕ, zero, suc, Bool, true, false, not, ◌&&◌, Option, none, some, List, [], ◌∷◌, ◌++◌, map,
  foldl, is_empty, get_elem?, update_at, if◌then◌else◌,
}
use mqtt2prometheus.Platform.{Platform}
use mqtt2prometheus.Store.{Store}
use mqtt2prometheus.Store.History.{Write}
use mqtt2prometheus.Store.History
use mqtt2prometheus.Source.{Source}
use mqtt2prometheus.Source.Writes.{writes}
use mqtt2prometheus.Router.{Message, Feed, feed_of, offer_feed}

-- `todo` holds the writes of the message in hand that are still to be made.
pub record Worker (F R : Type 0) : Type 0 where
  pub feed : Feed F R
  pub todo : List (Write F)
  pub exited : Bool

-- `dispatching` tells that the router has its feeds, and `cancelled` that the goroutines' context is at
-- its end.
pub record Threads (F R : Type 0) : Type 0 where
  pub samples : Store F
  pub workers : List (Worker F R)
  pub dispatching : Bool
  pub cancelled : Bool

-- A worker is named by its place in the list; `begin` has the time that `now` gives.
pub data Action : Type 0 where
  offer : ℕ → Message → Action
  begin : ℕ → ℕ → Action
  write : ℕ → Action
  end_context : Action
  stop : Action
  exit : ℕ → Action

module _ {F R : Type 0} where
  abbrev pub worker_of : Source F R → Worker F R
  worker_of s = record { feed = feed_of s; todo = []; exited = false }

  -- `Start`
  unfoldable pub start_threads : Store F → List (Source F R) → Threads F R
  start_threads samples sources = record {
    samples = samples;
    workers = map worker_of sources;
    dispatching = true;
    cancelled = false;
  }

  -- one round of the loop of `Dispatch`
  unfoldable pub offer_worker : Message → Worker F R → Worker F R
  offer_worker msg w = record w { feed = (offer_feed w.feed msg).0 }

  -- the call of `Set` that is next
  abbrev pub next_write : Option (Worker F R) → Option (Write F)
  next_write none = none
  next_write (some w) = elim w.todo [ [] ↦ none | x ∷ rest ↦ some x ]

  abbrev pub drop_write : Worker F R → Worker F R
  drop_write w = record w { todo = elim w.todo [ [] ↦ [] | x ∷ rest ↦ rest ] }

  -- `return` on the end of the context, between two messages
  unfoldable pub exit_worker : Worker F R → Worker F R
  exit_worker w = if is_empty w.todo then record w { exited = true } else w

module _ (P : Platform) where
  open P use {Float, Regexp}

  abbrev pub take_message : List Message → ℕ → Worker Float Regexp → Worker Float Regexp
  take_message [] now w = w
  take_message (msg ∷ rest) now w = record w {
    feed = record { source = w.feed.source; messages = rest };
    todo = writes P w.feed.source now msg.topic msg.payload;
  }

  -- `<-f.messages`, and the rules on the message
  unfoldable pub begin_worker : ℕ → Worker Float Regexp → Worker Float Regexp
  begin_worker now w =
      if is_empty w.todo && not w.exited then take_message w.feed.messages now w else w

  -- `Set`, where there is a write to make
  abbrev pub set_next : Option (Write Float) → Store Float → Store Float
  set_next none s = s
  set_next (some x) s = History.write P s x

  unfoldable pub step : Threads Float Regexp → Action → Threads Float Regexp
  unfolding offer_worker begin_worker exit_worker
  step t (offer i msg) =
      if t.dispatching then record t { workers = update_at i (offer_worker msg) t.workers } else t
  step t (begin i now) = record t { workers = update_at i (begin_worker now) t.workers }
  step t (write i) = record t {
    samples = set_next (next_write (get_elem? t.workers i)) t.samples;
    workers = update_at i drop_write t.workers;
  }
  step t end_context = record t { cancelled = true }
  step t stop = record t { dispatching = false; cancelled = true }
  step t (exit i) =
      if t.cancelled then record t { workers = update_at i exit_worker t.workers } else t

  abbrev pub steps : Threads Float Regexp → List Action → Threads Float Regexp
  steps = foldl step
