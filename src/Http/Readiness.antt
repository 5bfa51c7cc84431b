-- ===== src/Http/Readiness.antt =====
-- What `/readyz` of internal/app/http.go answers after any events of the MQTT client.
use mqtt2prometheus.Base.{◌-◌, ◌≡◌, refl, false, ◌&&◌, List, if◌then◌else◌, arith}
use mqtt2prometheus.Client.{new_client, Event, on_events}
use mqtt2prometheus.Client.Ready.{last_up, any_message, ups, ready-on_events}
use mqtt2prometheus.Http.{Response, healthz, readyz, write_plain, respond}

-- After any events of the client, `/readyz` answers 200 exactly if the last of them that is no message
-- was a connection and one of them was a message, and 503 otherwise; `/healthz` always answers 200; and
-- each connection but the first has counted as a reconnect.
pub respond-on_events :
    (scrape : Response) (events : List Event)
    → ((respond scrape (on_events new_client events) readyz).status
        ≡ (if last_up false events && any_message events then 200 else 503))
      × ((respond scrape (on_events new_client events) healthz).status ≡ 200)
      × ((on_events new_client events).reconnects ≡ ups events - 1)
unfolding respond write_plain
respond-on_events scrape events =
    let (is_ready, reconnects) = ready-on_events events in
    (ground (arith, is_ready), refl, reconnects)
