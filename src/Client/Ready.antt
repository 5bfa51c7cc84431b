-- ===== src/Client/Ready.antt =====
-- The readiness and the reconnects of internal/app/app.go against the events of the client.
use mqtt2prometheus.Base.{
  ℕ, suc, ◌+◌, ◌-◌, ◌≡◌, refl, Bool, true, false, ◌&&◌, ◌||◌, List, [], ◌∷◌, arith,
}
use mqtt2prometheus.Client.{
  Client, new_client, Event, connection_up, connect_error, client_error, message, shut, on_event,
  on_events, on_connection_up, on_connect_error, on_client_error, on_message, shut_down, ready,
}

-- the last event that is no message is a connection, or there is none and the default holds
abbrev pub last_up : Bool → List Event → Bool
last_up up [] = up
last_up up (connection_up ∷ events) = last_up true events
last_up up (message ∷ events) = last_up up events
last_up up (connect_error ∷ events) = last_up false events
last_up up (client_error ∷ events) = last_up false events
last_up up (shut ∷ events) = last_up false events

abbrev pub any_message : List Event → Bool
any_message [] = false
any_message (message ∷ events) = true
any_message (_ ∷ events) = any_message events

abbrev pub ups : List Event → ℕ
ups [] = 0
ups (connection_up ∷ events) = suc (ups events)
ups (_ ∷ events) = ups events

record Follows (c : Client) (events : List Event) : Type 0 where
  connected : (on_events c events).connected ≡ last_up c.connected events
  seen : (on_events c events).seen ≡ (c.seen || any_message events)
  connections : (on_events c events).connections ≡ c.connections + ups events

follows : (c : Client) (events : List Event) → Follows c events
unfolding on_event on_connection_up on_connect_error on_client_error on_message shut_down
follows c [] = record { connected = refl; seen = ground arith; connections = omega arith }
follows c (connection_up ∷ events) =
    let rest = follows (on_event c connection_up) events in
    record {
      connected = ground (arith, rest.connected);
      seen = ground (arith, rest.seen);
      connections = ground (arith, rest.connections);
    }
follows c (connect_error ∷ events) =
    let rest = follows (on_event c connect_error) events in
    record { connected = rest.connected; seen = rest.seen; connections = rest.connections }
follows c (client_error ∷ events) =
    let rest = follows (on_event c client_error) events in
    record { connected = rest.connected; seen = rest.seen; connections = rest.connections }
follows c (message ∷ events) =
    let rest = follows (on_event c message) events in
    record {
      connected = rest.connected;
      seen = ground (arith, rest.seen);
      connections = rest.connections;
    }
follows c (shut ∷ events) =
    let rest = follows (on_event c shut) events in
    record { connected = rest.connected; seen = rest.seen; connections = rest.connections }

reconnects-on_events :
    (c : Client) (events : List Event)
    → c.reconnects ≡ c.connections - 1
    → (on_events c events).reconnects ≡ (on_events c events).connections - 1
unfolding on_event on_connection_up on_connect_error on_client_error on_message shut_down
reconnects-on_events c [] h = h
reconnects-on_events c (connection_up ∷ events) h =
    reconnects-on_events (on_event c connection_up) events (ground (arith, h))
reconnects-on_events c (connect_error ∷ events) h =
    reconnects-on_events (on_event c connect_error) events h
reconnects-on_events c (client_error ∷ events) h =
    reconnects-on_events (on_event c client_error) events h
reconnects-on_events c (message ∷ events) h = reconnects-on_events (on_event c message) events h
reconnects-on_events c (shut ∷ events) h = reconnects-on_events (on_event c shut) events h

-- After any events of the client, the program is ready exactly if the last of them that is no message
-- was a connection and one was a message; and each connection but the first counts as a reconnect.
pub ready-on_events :
    (events : List Event)
    → (ready (on_events new_client events) ≡ (last_up false events && any_message events))
      × ((on_events new_client events).reconnects ≡ ups events - 1)
unfolding ready
ready-on_events events =
    let all = follows new_client events in
    (
      ground (arith, all.connected, all.seen),
      ground (arith, all.connections, reconnects-on_events new_client events refl),
    )
