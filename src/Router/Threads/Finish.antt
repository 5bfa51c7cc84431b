-- ===== src/Router/Threads/Finish.antt =====
-- After `Stop` of internal/app/router.go: the schedule in which the goroutines end.
use mqtt2prometheus.Base.{
  Bool, ℕ, suc, ◌≡◌, refl, ◌∙◌, sym, ap, ap₂, true, some, List, [], ◌∷◌, ◌++◌, append_assoc, map,
  length, length-append, get_elem?, update_at, arith,
}
use mqtt2prometheus.Platform.{Platform}
use mqtt2prometheus.Store.{Store}
use mqtt2prometheus.Store.History
use mqtt2prometheus.Store.History.{Write, run, run-append}
use mqtt2prometheus.Router.Threads.{
  Worker, Threads, Action, write, exit, drop_write, exit_worker, step, steps,
}

get_elem?-middle {ℓ} :
    {A : Type ℓ} (xs : List A) (x : A) (ys : List A) → get_elem? (xs ++ x ∷ ys) (length xs) ≡ some x
get_elem?-middle [] x ys = refl
get_elem?-middle (y ∷ xs) x ys = get_elem?-middle xs x ys

update_at-middle {ℓ} :
    {A : Type ℓ} (f : A → A) (xs : List A) (x : A) (ys : List A)
    → update_at (length xs) f (xs ++ x ∷ ys) ≡ xs ++ f x ∷ ys
update_at-middle f [] x ys = refl
update_at-middle f (y ∷ xs) x ys = ap (λ zs. y ∷ zs) (update_at-middle f xs x ys)

-- one `write` of the worker at `i` for each of the writes
abbrev makes : {F : Type 0} → ℕ → List (Write F) → List Action
makes i [] = []
makes i (x ∷ rest) = write i ∷ makes i rest

-- each worker in turn makes the writes that it has in hand, and then exits
abbrev pub finish : {F R : Type 0} → ℕ → List (Worker F R) → List Action
finish i [] = []
finish i (w ∷ workers) = makes i w.todo ++ exit i ∷ finish (suc i) workers

abbrev pub in_hand : {F R : Type 0} → List (Worker F R) → List (Write F)
in_hand [] = []
in_hand (w ∷ workers) = w.todo ++ in_hand workers

abbrev pub ended : {F R : Type 0} → Worker F R → Worker F R
ended w = record w { todo = []; exited = true }

module _ (P : Platform) where
  open P use {Float, Regexp}

  steps-append :
      (t : Threads Float Regexp) (actions bs : List Action)
      → steps P t (actions ++ bs) ≡ steps P (steps P t actions) bs
  steps-append t [] bs = refl
  steps-append t (a ∷ actions) bs = steps-append (step P t a) actions bs

  -- after `Stop`, with one worker in view
  abbrev stopped :
      Bool
      → Store Float
      → List (Worker Float Regexp)
      → List (Worker Float Regexp)
      → Threads Float Regexp
  stopped d s before workers = record {
    samples = s;
    workers = before ++ workers;
    dispatching = d;
    cancelled = true;
  }

  steps-makes :
      (d : Bool) (s : Store Float) (before after : List (Worker Float Regexp))
      (w : Worker Float Regexp) (todo : List (Write Float))
      → steps P (stopped d s before (record w { todo = todo } ∷ after)) (makes (length before) todo)
        ≡ stopped d (run P s todo) before (record w { todo = [] } ∷ after)
  unfolding step
  steps-makes d s before after w [] = refl
  steps-makes d s before after w (x ∷ rest) =
      ap (λ t. steps P t (makes (length before) rest)) one
      ∙ steps-makes d (History.write P s x) before after w rest
    where
      one :
          step P (stopped d s before (record w { todo = x ∷ rest } ∷ after)) (write (length before))
          ≡ stopped d (History.write P s x) before (record w { todo = rest } ∷ after)
      one = rw (
        get_elem?-middle before (record w { todo = x ∷ rest }) after,
        update_at-middle drop_write before (record w { todo = x ∷ rest }) after,
      )

  step-exit :
      (d : Bool) (s : Store Float) (before after : List (Worker Float Regexp))
      (w : Worker Float Regexp)
      → step P (stopped d s before (record w { todo = [] } ∷ after)) (exit (length before))
        ≡ stopped d s (before ++ ended w ∷ []) after
  unfolding step exit_worker
  step-exit d s before after w =
      ap (λ workers. record { samples = s; workers = workers; dispatching = d; cancelled = true })
        (update_at-middle exit_worker before (record w { todo = [] }) after
          ∙ sym (append_assoc before (ended w ∷ []) after))

  steps-finish :
      (d : Bool) (s : Store Float) (before workers : List (Worker Float Regexp))
      → steps P (stopped d s before workers) (finish (length before) workers)
        ≡ stopped d (run P s (in_hand workers)) before (map ended workers)
  steps-finish d s before [] = refl
  steps-finish d s before (w ∷ workers) =
      let rest = exit (length before) ∷ finish (suc (length before)) workers in
      let longer : length (before ++ ended w ∷ []) ≡ suc (length before) =
        omega (arith, length-append before (ended w ∷ [])) in
      steps-append (stopped d s before (w ∷ workers)) (makes (length before) w.todo) rest
      ∙ ap (λ t. steps P t rest) (steps-makes d s before workers w w.todo)
      ∙ ap (λ t. steps P t (finish (suc (length before)) workers))
          (step-exit d (run P s w.todo) before workers w)
      ∙ ap
          (λ i.
            steps P (stopped d (run P s w.todo) (before ++ ended w ∷ []) workers)
              (finish i workers))
          (sym longer)
      ∙ steps-finish d (run P s w.todo) (before ++ ended w ∷ []) workers
      ∙ ap₂ (λ u ws. record { samples = u; workers = ws; dispatching = d; cancelled = true })
          (sym (run-append P s w.todo (in_hand workers)))
          (append_assoc before (ended w ∷ []) (map ended workers))

  -- After the end of the context or `Stop`, wherever the goroutines stand, the schedule in which each
  -- makes the writes that it has in hand and then sees the end of its context lets all of them end, so
  -- that `Wait` returns; the store has then got every write that was in hand, in the order of each
  -- goroutine.
  pub stop_finishes :
      (t : Threads Float Regexp)
      → t.cancelled ≡ true
      → steps P t (finish 0 t.workers) ≡ record {
        samples = run P t.samples (in_hand t.workers);
        workers = map ended t.workers;
        dispatching = t.dispatching;
        cancelled = true;
      }
  stop_finishes t h =
      ap (λ b. steps P (record t { cancelled = b }) (finish 0 t.workers)) h
      ∙ steps-finish t.dispatching t.samples [] t.workers
