-- ===== src/Tests/RouterRuns.antt =====
-- A router with one source, and the schedule of two messages.
use mqtt2prometheus.Base.{Text, ℕ, ◌+◌, ◌≡◌, refl, codes, List, [], ◌∷◌, ◌++◌, length}
use mqtt2prometheus.Source.{topic_prefix, owns}
use mqtt2prometheus.Router.{
  Message, Router, Action, offer, consume, new_router, start, offer_feed, offer_to, dispatch_to,
  offer_at, receive_at, handle, step, run,
}
use mqtt2prometheus.Router.Buffers.{buffer, admitted, handled, messages_at, replay, buffer-run}
use mqtt2prometheus.Router.Counts.{errors_in, blamed, admissions, increments-run}
use mqtt2prometheus.Router.Loop.{
  owners, buffered, received_in, dropped_in, full_owners, dispatch_to_lem,
}
use mqtt2prometheus.Router.Schedule.{started}
use mqtt2prometheus.Tests.Toy.{toy}
use mqtt2prometheus.Tests.SourceRuns.{compiled}

abbrev pub message_x : Message
message_x = record { topic = codes "a/x1"; payload = codes "5" }

abbrev pub message_y : Message
message_y = record { topic = codes "a/y2"; payload = codes "7" }

abbrev schedule : List Action
schedule =
    offer 0 message_x ∷ offer 0 message_y ∷ consume 0 9 ∷ consume 0 9 ∷ offer 0 message_x ∷ []

abbrev router_a : Router ℕ Text
router_a = started toy (compiled ∷ [])

buffer-run_example :
    ((run toy router_a schedule).samples
      ≡ replay toy router_a.samples (handled toy router_a schedule))
    × ((i : ℕ)
        → buffer i router_a.feeds ++ admitted toy i router_a schedule
          ≡ messages_at i (handled toy router_a schedule)
            ++ buffer i (run toy router_a schedule).feeds)
buffer-run_example = buffer-run toy router_a schedule

three_admitted : admitted toy 0 router_a schedule ≡ message_x ∷ message_y ∷ message_x ∷ []
unfolding start new_router step compiled topic_prefix owns offer_at offer_feed offer_to receive_at
    handle
three_admitted = refl

dispatch_to_lem_example :
    (length (dispatch_to router_a.feeds message_x).1 ≡ owners router_a.feeds message_x)
    × (received_in (dispatch_to router_a.feeds message_x).1
          + dropped_in (dispatch_to router_a.feeds message_x).1
        ≡ owners router_a.feeds message_x)
    × (dropped_in (dispatch_to router_a.feeds message_x).1 ≡ full_owners router_a.feeds message_x)
    × (buffered (dispatch_to router_a.feeds message_x).0
        ≡ buffered router_a.feeds + received_in (dispatch_to router_a.feeds message_x).1)
dispatch_to_lem_example = dispatch_to_lem router_a.feeds message_x

increments-run_example :
    (errors_in (run toy router_a schedule).increments
      ≡ errors_in router_a.increments
        ++ blamed toy router_a.samples (handled toy router_a schedule))
    × (received_in (run toy router_a schedule).increments
        ≡ received_in router_a.increments + admissions toy router_a schedule)
increments-run_example = increments-run toy router_a schedule
