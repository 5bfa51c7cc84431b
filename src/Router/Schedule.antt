-- ===== src/Router/Schedule.antt =====
-- What a schedule of the router of internal/app/router.go leaves in the store, and what a scrape shows.
use mqtt2prometheus.Base.{
  ℕ, zero, suc, ◌≡◌, refl, ◌∙◌, Option, none, some, List, [], ◌∷◌, ◌++◌, map, All, In, inl, inr,
  subst, arith,
}
use mqtt2prometheus.Base.Results.{ok}
use mqtt2prometheus.Platform.{Platform}
use mqtt2prometheus.Config.{Config}
use mqtt2prometheus.Config.Metrics.{joined}
use mqtt2prometheus.Config.Validate.{validate}
use mqtt2prometheus.Store.{Sample, snapshot}
use mqtt2prometheus.Source.{Source, compile_sources}
use mqtt2prometheus.Source.Compiled.{HasMaps}
use mqtt2prometheus.Source.Families.{Event, HandledBy, handle_all, families_agree}
use mqtt2prometheus.Router.{
  Message, Feed, Router, Action, offer, consume, new_router, start, feed_of, offer_to, offer_feed,
  offer_at, first_of, behind, receive_at, handle, consumed, step, run,
}

module _ {F R : Type 0} where
  -- every feed is the feed of one of the sources
  abbrev FedBy : List (Source F R) → List (Feed F R) → Type 0
  FedBy sources = All (λ f. In f.source sources)

  source-offer_feed : (f : Feed F R) (msg : Message) → (offer_feed f msg).0.source ≡ f.source
  unfolding offer_feed offer_to
  source-offer_feed f msg = ground arith

  offer_at-FedBy :
      (sources : List (Source F R)) (feeds : List (Feed F R)) (i : ℕ) (msg : Message)
      → FedBy sources feeds
      → FedBy sources (offer_at feeds i msg).0
  unfolding offer_at
  offer_at-FedBy sources [] i msg h = h
  offer_at-FedBy sources (f ∷ feeds) zero msg (h, hs) = (rw (source-offer_feed f msg) h, hs)
  offer_at-FedBy sources (f ∷ feeds) (suc i) msg (h, hs) =
      (h, offer_at-FedBy sources feeds i msg hs)

  -- the feed that a message is received from, and the feeds after it
  abbrev Received : List (Source F R) → Option (Feed F R × Message × List (Feed F R)) → Type 0
  Received sources none = Unit
  Received sources (some (f, msg, feeds)) = In f.source sources × FedBy sources feeds

  first-Received :
      (sources : List (Source F R)) (f : Feed F R) (messages : List Message)
      (feeds : List (Feed F R))
      → FedBy sources (f ∷ feeds)
      → Received sources (first_of f messages feeds)
  first-Received sources f [] feeds h = tt
  first-Received sources f (msg ∷ rest) feeds (h, hs) = (h, (h, hs))

  behind-Received :
      (sources : List (Source F R)) (f : Feed F R)
      (o : Option (Feed F R × Message × List (Feed F R)))
      → In f.source sources
      → Received sources o
      → Received sources (behind f o)
  behind-Received sources f none h k = tt
  behind-Received sources f (some (g, msg, feeds)) h (k, ks) = (k, (h, ks))

  receive_at-Received :
      (sources : List (Source F R)) (feeds : List (Feed F R)) (i : ℕ)
      → FedBy sources feeds
      → Received sources (receive_at feeds i)
  unfolding receive_at
  receive_at-Received sources [] i h = tt
  receive_at-Received sources (f ∷ feeds) zero h = first-Received sources f f.messages feeds h
  receive_at-Received sources (f ∷ feeds) (suc i) (h, hs) =
      behind-Received sources f _ h (receive_at-Received sources feeds i hs)

  map-FedBy :
      (sources others : List (Source F R))
      → All (λ s. In s sources) others
      → FedBy sources (map feed_of others)
  map-FedBy sources [] h = tt
  map-FedBy sources (s ∷ others) (h, hs) = (h, map-FedBy sources others hs)

  All-later :
      (s : Source F R) (sources others : List (Source F R))
      → All (λ t. In t sources) others
      → All (λ t. In t (s ∷ sources)) others
  All-later s sources [] h = tt
  All-later s sources (t ∷ others) (h, hs) = (inr h, All-later s sources others hs)

  All-In : (sources : List (Source F R)) → All (λ s. In s sources) sources
  All-In [] = tt
  All-In (s ∷ sources) = (inl refl, All-later s sources sources (All-In sources))

module _ (P : Platform) where
  open P use {Float, Regexp}

  abbrev event_of :
      Option (Feed Float Regexp × Message × List (Feed Float Regexp))
      → ℕ
      → List (Event Float Regexp)
  event_of none now = []
  event_of (some (f, msg, feeds)) now =
      record { source = f.source; now = now; topic = msg.topic; payload = msg.payload } ∷ []

  -- the message that an action handles, if it does
  abbrev event_at : Router Float Regexp → Action → List (Event Float Regexp)
  event_at r (offer i msg) = []
  event_at r (consume i now) = event_of (receive_at r.feeds i) now

  abbrev pub events : Router Float Regexp → List Action → List (Event Float Regexp)
  events r [] = []
  events r (a ∷ actions) = event_at r a ++ events (step P r a) actions

  samples-consumed :
      (o : Option (Feed Float Regexp × Message × List (Feed Float Regexp))) (now : ℕ)
      (r : Router Float Regexp) (more : List (Event Float Regexp))
      → handle_all P (consumed P o now r).samples more
        ≡ handle_all P r.samples (event_of o now ++ more)
  unfolding handle handle_all
  samples-consumed none now r more = refl
  samples-consumed (some (f, msg, feeds)) now r more = refl

  -- The store after a schedule is the store after the messages that were handled, in their order.
  pub samples-run :
      (r : Router Float Regexp) (actions : List Action)
      → (run P r actions).samples ≡ handle_all P r.samples (events r actions)
  unfolding step handle_all
  samples-run r [] = refl
  samples-run r (offer i msg ∷ actions) = samples-run (step P r (offer i msg)) actions
  samples-run r (consume i now ∷ actions) =
      samples-run (step P r (consume i now)) actions
      ∙ samples-consumed (receive_at r.feeds i) now r (events (step P r (consume i now)) actions)

  consumed-FedBy :
      (sources : List (Source Float Regexp))
      (o : Option (Feed Float Regexp × Message × List (Feed Float Regexp))) (now : ℕ)
      (r : Router Float Regexp)
      → FedBy sources r.feeds
      → Received sources o
      → FedBy sources (consumed P o now r).feeds × HandledBy sources (event_of o now)
  unfolding handle
  consumed-FedBy sources none now r h k = (h, tt)
  consumed-FedBy sources (some (f, msg, feeds)) now r h (k, ks) = (ks, (k, tt))

  step-FedBy :
      (sources : List (Source Float Regexp)) (r : Router Float Regexp) (a : Action)
      → FedBy sources r.feeds
      → FedBy sources (step P r a).feeds × HandledBy sources (event_at r a)
  unfolding step
  step-FedBy sources r (offer i msg) h = (offer_at-FedBy sources r.feeds i msg h, tt)
  step-FedBy sources r (consume i now) h =
      consumed-FedBy sources (receive_at r.feeds i) now r h
        (receive_at-Received sources r.feeds i h)

  HandledBy-append :
      (sources : List (Source Float Regexp)) (es fs : List (Event Float Regexp))
      → HandledBy sources es
      → HandledBy sources fs
      → HandledBy sources (es ++ fs)
  HandledBy-append sources [] fs h k = k
  HandledBy-append sources (e ∷ es) fs (h, hs) k = (h, HandledBy-append sources es fs hs k)

  events-HandledBy :
      (sources : List (Source Float Regexp)) (r : Router Float Regexp) (actions : List Action)
      → FedBy sources r.feeds
      → HandledBy sources (events r actions)
  events-HandledBy sources r [] h = tt
  events-HandledBy sources r (a ∷ actions) h =
      let (fed, one) = step-FedBy sources r a h in
      HandledBy-append sources _ _ one (events-HandledBy sources (step P r a) actions fed)

  -- the router that `Run` starts with an empty store
  abbrev pub started : List (Source Float Regexp) → Router Float Regexp
  started sources = start sources (new_router [])

  -- If `Validate` finds no problem in a configuration, then after any schedule of dispatches and of
  -- the goroutines of its sources, from the start of the router on, two samples of a scrape that share
  -- a metric name agree on help text, kind and label names, these joined by spaces. The maps of the
  -- configuration have each key once, and the metric name of no source's heartbeat holds the byte 0.
  pub scrapes_agree :
      (c : Config Float) (sources : List (Source Float Regexp)) (actions : List Action)
      (a b : Sample Float)
      → validate P c ≡ []
      → All HasMaps c.source_list
      → compile_sources P c ≡ ok sources
      → In a (snapshot P (run P (started sources) actions).samples)
      → In b (snapshot P (run P (started sources) actions).samples)
      → a.key.name ≡ b.key.name
      → (joined a.key.label_names ≡ joined b.key.label_names)
        × (a.help ≡ b.help)
        × (a.kind ≡ b.kind)
  unfolding start new_router
  scrapes_agree c sources actions a b h maps made in_a in_b =
      let same = samples-run (started sources) actions in
      families_agree P c sources (events (started sources) actions) a b h maps made
        (events-HandledBy sources (started sources) actions
          (map-FedBy sources sources (All-In sources)))
        (subst (λ s. In a (snapshot P s)) same in_a) (subst (λ s. In b (snapshot P s)) same in_b)
