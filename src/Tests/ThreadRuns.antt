-- ===== src/Tests/ThreadRuns.antt =====
-- Two workers' writes and a `Stop`, step by step.
use mqtt2prometheus.Base.{
  Text, ℕ, ◌≡◌, ◌≤◌, All, length, ◌⊎◌, refl, true, false, codes, List, [], ◌∷◌, In, map, inl, inr,
  ◌==◌, less, join,
}
use mqtt2prometheus.Base.Dict.{lookup, insert, contains, add}
use mqtt2prometheus.Base.Sort.{sort, sort_texts}
use mqtt2prometheus.Config.Labels.{label_names, named}
use mqtt2prometheus.Config.Metrics.{joined}
use mqtt2prometheus.Config.Template.{template_refs, expand_template}
use mqtt2prometheus.Store.{snapshot, sample_before, flatten, identity, update, fresh, set}
use mqtt2prometheus.Store.History.{run}
use mqtt2prometheus.Rules.Payload.{walk}
use mqtt2prometheus.Rules.Value.{extract, from_string}
use mqtt2prometheus.Rules.Label.{compile_labels, resolve}
use mqtt2prometheus.Rules.Rule
use mqtt2prometheus.Rules.Rule.{auto_label, auto_from, overlay, capture}
use mqtt2prometheus.Source
use mqtt2prometheus.Source.{topic_prefix, owns, kind_of}
use mqtt2prometheus.Source.Writes.{writes, rules_writes, matches_from, samples-apply}
use mqtt2prometheus.Router.{offer_feed, offer_to}
use mqtt2prometheus.Router.Threads.{
  Threads, Action, offer, begin, write, stop, exit, start_threads, offer_worker, begin_worker,
  exit_worker, step, steps,
}
use mqtt2prometheus.Router.Threads.Agree.{scrapes_agree_always}
use mqtt2prometheus.Router.Threads.Settle.{left_of, enabled, EnabledAll, stop_settles}
use mqtt2prometheus.Router.Threads.Finish.{finish, in_hand, ended, stop_finishes}
use mqtt2prometheus.Tests.Toy.{toy}
use mqtt2prometheus.Tests.ConfigRuns.{config_a, no_problems}
use mqtt2prometheus.Tests.SourceRuns.{compiled, made, of_x, of_y, source_a-HasMaps}
use mqtt2prometheus.Tests.RouterRuns.{message_x, message_y}

samples-apply_example :
    (Source.apply toy compiled [] 9 (codes "a/x1") (codes "5")).samples
    ≡ run toy [] (writes toy compiled 9 (codes "a/x1") (codes "5"))
samples-apply_example = samples-apply toy compiled [] 9 (codes "a/x1") (codes "5")

-- Each message makes two writes, that of the metric and that of the heartbeat.
abbrev pub actions : List Action
actions =
    offer 0 message_x
    ∷ offer 0 message_y
    ∷ begin 0 9
    ∷ write 0
    ∷ write 0
    ∷ begin 0 9
    ∷ write 0
    ∷ stop
    ∷ []

abbrev started : Threads ℕ Text
started = start_threads [] (compiled ∷ [])

both_shown :
    In of_x (snapshot toy (steps toy started actions).samples)
    × In of_y (snapshot toy (steps toy started actions).samples)
unfolding start_threads step offer_worker begin_worker exit_worker writes rules_writes matches_from
    offer_feed offer_to owns snapshot compiled topic_prefix Rule.apply resolve sample_before flatten
    identity update fresh set sort sort_texts lookup insert kind_of label_names named walk extract
    from_string compile_labels auto_label auto_from overlay capture contains template_refs add
    expand_template ◌==◌ less join
both_shown = (inl refl, inr (inl refl))

scrapes_agree_always_example :
    (joined of_x.key.label_names ≡ joined of_y.key.label_names)
    × (of_x.help ≡ of_y.help)
    × (of_x.kind ≡ of_y.kind)
scrapes_agree_always_example =
    scrapes_agree_always toy config_a (compiled ∷ []) actions of_x of_y no_problems
      (source_a-HasMaps, tt) made both_shown.0 both_shown.1 refl

-- the heartbeat of the second message is still in hand
abbrev stopped : Threads ℕ Text
stopped = steps toy started actions

stopped-cancelled : stopped.cancelled ≡ true
unfolding step
stopped-cancelled = refl

stop_finishes_example : steps toy stopped (finish 0 stopped.workers) ≡ record {
  samples = run toy stopped.samples (in_hand stopped.workers);
  workers = map ended stopped.workers;
  dispatching = stopped.dispatching;
  cancelled = true;
}
stop_finishes_example = stop_finishes toy stopped stopped-cancelled

stopped-dispatching : stopped.dispatching ≡ false
unfolding step
stopped-dispatching = refl

-- the write in hand is made, and the goroutine ends
abbrev last_two : List Action
last_two = write 0 ∷ exit 0 ∷ []

last_two-EnabledAll : EnabledAll toy stopped last_two
unfolding enabled start_threads step offer_worker begin_worker exit_worker writes rules_writes
    matches_from offer_feed offer_to owns snapshot compiled topic_prefix Rule.apply resolve
    sample_before flatten identity update fresh set sort sort_texts lookup insert kind_of
    label_names named walk extract from_string compile_labels auto_label auto_from overlay capture
    contains template_refs add expand_template ◌==◌ less join
last_two-EnabledAll = (refl, (refl, tt))

stop_settles_example :
    (length last_two ≤ left_of toy stopped.workers)
    × (All (λ w. w.exited ≡ true) (steps toy stopped last_two).workers
        ⊎ ((a : Action) × (enabled (steps toy stopped last_two) a ≡ true)))
stop_settles_example =
    stop_settles toy stopped last_two stopped-dispatching stopped-cancelled last_two-EnabledAll
