-- ===== src/Router/Threads/Stored.antt =====
-- The store of the goroutines of internal/app/router.go as the outcome of a list of writes.
use mqtt2prometheus.Base.{
  ℕ, ◌≡◌, refl, ◌∙◌, ap, Bool, true, false, not, ◌&&◌, Option, none, some, List, [], ◌∷◌, ◌++◌, map,
  All, All-append, All-update_at, get_elem?, zero, suc, is_empty, update_at, if◌then◌else◌, arith,
  sym,
}
use mqtt2prometheus.Platform.{Platform}
use mqtt2prometheus.Store.{Store}
use mqtt2prometheus.Store.History.{Write, run, run-append}
use mqtt2prometheus.Store.History
use mqtt2prometheus.Source.{Source}
use mqtt2prometheus.Source.Keeping.{SourceKeeps, writes-Keeps}
use mqtt2prometheus.Router.{Message, offer_feed, offer_to}
use mqtt2prometheus.Router.Threads.{
  Worker, Threads, Action, offer, begin, write, end_context, stop, exit, worker_of, start_threads,
  offer_worker, next_write, exit_worker, take_message, begin_worker, set_next, step, steps,
}

module _ (P : Platform) (W : Write P.Float → Type 0) where
  open P use {Float, Regexp}

  -- the source's writes and the writes in hand have the property
  abbrev WorkerKeeps : Worker Float Regexp → Type 0
  WorkerKeeps w = SourceKeeps P W w.feed.source × All W w.todo

  offer_worker-Keeps :
      (msg : Message) (w : Worker Float Regexp) → WorkerKeeps w → WorkerKeeps (offer_worker msg w)
  unfolding offer_worker offer_feed offer_to
  offer_worker-Keeps msg w (h, k) = (rw same h, k)
    where
      same : (offer_feed w.feed msg).0.source ≡ w.feed.source
      same = ground arith

  take_message-Keeps :
      (messages : List Message) (now : ℕ) (w : Worker Float Regexp)
      → WorkerKeeps w
      → WorkerKeeps (take_message P messages now w)
  take_message-Keeps [] now w h = h
  take_message-Keeps (msg ∷ rest) now w (h, k) =
      (h, writes-Keeps P W w.feed.source now msg.topic msg.payload h)

  begin_worker-Keeps :
      (now : ℕ) (w : Worker Float Regexp) → WorkerKeeps w → WorkerKeeps (begin_worker P now w)
  unfolding begin_worker
  begin_worker-Keeps now w h = go (is_empty w.todo && not w.exited)
    where
      go : (b : Bool) → WorkerKeeps (if b then take_message P w.feed.messages now w else w)
      go true = take_message-Keeps w.feed.messages now w h
      go false = h

  drop-Keeps :
      (todo : List (Write Float)) → All W todo → All W (elim todo [ [] ↦ [] | x ∷ rest ↦ rest ])
  drop-Keeps [] h = tt
  drop-Keeps (x ∷ rest) h = h.1

  exit_worker-Keeps : (w : Worker Float Regexp) → WorkerKeeps w → WorkerKeeps (exit_worker w)
  unfolding exit_worker
  exit_worker-Keeps w h = go (is_empty w.todo)
    where
      go : (b : Bool) → WorkerKeeps (if b then record w { exited = true } else w)
      go true = h
      go false = h

  -- a write that is next, if there is one, has the property
  NextKeeps : Option (Write Float) → Type 0
  NextKeeps none = Unit
  NextKeeps (some x) = W x

  head-Keeps :
      (todo : List (Write Float))
      → All W todo
      → NextKeeps (elim todo [ [] ↦ none | x ∷ rest ↦ some x ])
  unfolding NextKeeps
  head-Keeps [] h = tt
  head-Keeps (x ∷ rest) h = h.0

  next_write-Keeps :
      (workers : List (Worker Float Regexp)) (i : ℕ)
      → All WorkerKeeps workers
      → NextKeeps (next_write (get_elem? workers i))
  unfolding NextKeeps
  next_write-Keeps [] i h = tt
  next_write-Keeps (w ∷ workers) zero (h, hs) = head-Keeps w.todo h.1
  next_write-Keeps (w ∷ workers) (suc i) (h, hs) = next_write-Keeps workers i hs

  -- The store is the outcome of writes with the property.
  abbrev pub IsWritten : Store Float → Type 0
  IsWritten s = (ws : List (Write Float)) × (s ≡ run P [] ws) × All W ws

  set_next-IsWritten :
      (o : Option (Write Float)) (s : Store Float)
      → NextKeeps o
      → IsWritten s
      → IsWritten (set_next P o s)
  unfolding NextKeeps
  set_next-IsWritten none s h u = u
  set_next-IsWritten (some x) s h (ws, same, all) = (
    ws ++ x ∷ [],
    ap (λ s. History.write P s x) same ∙ sym (run-append P [] ws (x ∷ [])),
    All-append W ws (x ∷ []) all (h, tt),
  )

  -- the invariant of the threads
  abbrev AllKeep : Threads Float Regexp → Type 0
  AllKeep t = IsWritten t.samples × All WorkerKeeps t.workers

  step-AllKeep : (t : Threads Float Regexp) (a : Action) → AllKeep t → AllKeep (step P t a)
  unfolding step
  step-AllKeep t (offer i msg) (u, h) = go t.dispatching
    where
      go :
          (b : Bool)
          → AllKeep
              (if b then record t { workers = update_at i (offer_worker msg) t.workers } else t)
      go false = (u, h)
      go true = (u, All-update_at WorkerKeeps i _ t.workers (offer_worker-Keeps msg) h)
  step-AllKeep t (begin i now) (u, h) =
      (u, All-update_at WorkerKeeps i _ t.workers (begin_worker-Keeps now) h)
  step-AllKeep t (write i) (u, h) = (
    set_next-IsWritten _ t.samples (next_write-Keeps t.workers i h) u,
    All-update_at WorkerKeeps i _ t.workers (λ w k. (k.0, drop-Keeps w.todo k.1)) h,
  )
  step-AllKeep t end_context h = h
  step-AllKeep t stop h = h
  step-AllKeep t (exit i) (u, h) = go t.cancelled
    where
      go :
          (b : Bool)
          → AllKeep (if b then record t { workers = update_at i exit_worker t.workers } else t)
      go true = (u, All-update_at WorkerKeeps i _ t.workers exit_worker-Keeps h)
      go false = (u, h)

  steps-AllKeep :
      (t : Threads Float Regexp) (actions : List Action) → AllKeep t → AllKeep (steps P t actions)
  steps-AllKeep t [] h = h
  steps-AllKeep t (a ∷ actions) h = steps-AllKeep (step P t a) actions (step-AllKeep t a h)

  worker_of-Keeps :
      (sources : List (Source Float Regexp))
      → All (SourceKeeps P W) sources
      → All WorkerKeeps (map worker_of sources)
  worker_of-Keeps [] h = tt
  worker_of-Keeps (s ∷ sources) (h, hs) = ((h, tt), worker_of-Keeps sources hs)

  pub steps-IsWritten :
      (sources : List (Source Float Regexp)) (actions : List Action)
      → All (SourceKeeps P W) sources
      → IsWritten (steps P (start_threads [] sources) actions).samples
  unfolding start_threads
  steps-IsWritten sources actions h =
      (steps-AllKeep (start_threads [] sources) actions
        (([], refl, tt), worker_of-Keeps sources h)).0
