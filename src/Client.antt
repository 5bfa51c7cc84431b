-- ===== src/Client.antt =====
-- internal/broker/paho.go and the observer of internal/app/app.go: what the callbacks of the MQTT
-- client do, and when the program is ready. The client itself is not modelled; its callbacks are the
-- events below, in the order in which they come. Log lines of `reportSubscriptions` are a list.
pub mod Ready
use mqtt2prometheus.Base.{
  Text, ℕ, suc, Bool, true, false, ◌&&◌, ltb, List, [], ◌∷◌, map, foldl, if◌then◌else◌,
}
use mqtt2prometheus.Router.{Subscription}

-- `connections` of the client, `connected` and `seen` of the application, and its count of reconnects
pub record Client : Type 0 where
  pub connections : ℕ
  pub connected : Bool
  pub seen : Bool
  pub reconnects : ℕ

abbrev pub new_client : Client
new_client = record { connections = 0; connected = false; seen = false; reconnects = 0 }

-- `App.Connected` and `App.Reconnected`
abbrev pub connected : Bool → Client → Client
connected up c = record c { connected = up }

abbrev pub reconnected : Client → Client
reconnected c = record c { reconnects = suc c.reconnects }

-- the part of `onConnectionUp` before the subscription
unfoldable pub on_connection_up : Client → Client
on_connection_up c =
    let up : Client = record c { connected = true; connections = suc c.connections } in
    if ltb 1 up.connections then reconnected up else up

unfoldable pub on_connect_error : Client → Client
on_connect_error c = connected false c

unfoldable pub on_client_error : Client → Client
on_client_error c = connected false c

-- the end of `Paho.Run`
unfoldable pub shut_down : Client → Client
shut_down c = connected false c

-- `App.dispatch`, without the call of the router
unfoldable pub on_message : Client → Client
on_message c = record c { seen = true }

unfoldable pub ready : Client → Bool
ready c = c.connected && c.seen

-- the callbacks, and the end of `Run`
pub data Event : Type 0 where
  connection_up : Event
  connect_error : Event
  client_error : Event
  message : Event
  shut : Event

unfoldable pub on_event : Client → Event → Client
unfolding on_connection_up on_connect_error on_client_error on_message shut_down
on_event c connection_up = on_connection_up c
on_event c connect_error = on_connect_error c
on_event c client_error = on_client_error c
on_event c message = on_message c
on_event c shut = shut_down c

abbrev pub on_events : Client → List Event → Client
on_events = foldl on_event

-- paho.SubscribeOptions, in the fields that are set
pub record SubscribeOptions : Type 0 where
  pub topic : Text
  pub qos : ℕ
  pub retain_handling : ℕ

unfoldable pub retain_handling : Bool → ℕ
retain_handling skip = if skip then 2 else 0

unfoldable pub subscribe_options : List Subscription → List SubscribeOptions
unfolding retain_handling
subscribe_options subs =
    map
      (λ sub. record {
        topic = sub.filter;
        qos = sub.qos;
        retain_handling = retain_handling sub.skip_retained;
      })
      subs

-- the two log lines for a subscription, with its filter and the reason of the broker
pub data Report : Type 0 where
  refused : Text → ℕ → Report
  subscribed : Text → ℕ → Report

-- The index into `subs` and the bound of the loop walk down both lists.
unfoldable pub report_subscriptions : List Subscription → List ℕ → List Report
report_subscriptions subs [] = []
report_subscriptions [] (reason ∷ reasons) = []
report_subscriptions (sub ∷ subs) (reason ∷ reasons) =
    let rest = report_subscriptions subs reasons in
    (if ltb 2 reason then refused sub.filter reason else subscribed sub.filter reason) ∷ rest
