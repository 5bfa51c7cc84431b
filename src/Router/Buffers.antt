-- ===== src/Router/Buffers.antt =====
-- The buffers of the router of internal/app/router.go: what goes in comes out, once and in order, and
-- is handled.
use mqtt2prometheus.Base.{
  ℕ, zero, suc, ◌≡◌, refl, ◌∙◌, sym, ap, ap₂, Bool, false, ◌&&◌, eqb, ltb, Option, none, some, List,
  [], ◌∷◌, ◌++◌, append-nil, append_assoc, length, get_elem?, if◌then◌else◌, arith,
}
use mqtt2prometheus.Platform.{Platform}
use mqtt2prometheus.Store.{Store}
use mqtt2prometheus.Source.{Source, owns, apply}
use mqtt2prometheus.Router.{
  Message, Feed, Router, Action, offer, consume, offer_to, offer_feed, offer_at, first_of, behind,
  receive_at, handle, consumed, step, run,
}

abbrev pub head_of : List Message → List Message
head_of [] = []
head_of (msg ∷ rest) = msg ∷ []

module _ {F R : Type 0} where
  -- what is in the buffer at a place
  abbrev pub waiting : Option (Feed F R) → List Message
  waiting none = []
  waiting (some f) = f.messages

  abbrev pub buffer : ℕ → List (Feed F R) → List Message
  buffer i feeds = waiting (get_elem? feeds i)

  -- a feed takes a message of its source while its buffer has room
  abbrev pub takes : Option (Feed F R) → Message → Bool
  takes none msg = false
  takes (some f) msg = owns f.source msg.topic && ltb (length f.messages) 1024

  -- what an action puts in the buffer at `i`, and what it takes out
  abbrev pub put : ℕ → List (Feed F R) → Action → List Message
  put i feeds (offer j msg) = if eqb i j && takes (get_elem? feeds i) msg then msg ∷ [] else []
  put i feeds (consume j now) = []

  abbrev pub taken : ℕ → List (Feed F R) → Action → List Message
  taken i feeds (offer j msg) = []
  taken i feeds (consume j now) = if eqb i j then head_of (buffer j feeds) else []

  messages-offer_feed :
      (f : Feed F R) (msg : Message)
      → (offer_feed f msg).0.messages ≡ f.messages ++ (if takes (some f) msg then msg ∷ [] else [])
  unfolding offer_feed offer_to
  messages-offer_feed f msg = ground (arith, append-nil f.messages)

  buffer-offer_at :
      (i j : ℕ) (feeds : List (Feed F R)) (msg : Message)
      → buffer i (offer_at feeds j msg).0 ≡ buffer i feeds ++ put i feeds (offer j msg)
  unfolding offer_at
  buffer-offer_at i j [] msg = ground arith
  buffer-offer_at zero zero (f ∷ feeds) msg = messages-offer_feed f msg
  buffer-offer_at zero (suc j) (f ∷ feeds) msg = ground (arith, append-nil f.messages)
  buffer-offer_at (suc i) zero (f ∷ feeds) msg = ground (arith, append-nil (buffer i feeds))
  buffer-offer_at (suc i) (suc j) (f ∷ feeds) msg = ground (arith, buffer-offer_at i j feeds msg)

  -- the feeds after a `<-f.messages`, unchanged where it waits
  abbrev pub left :
      Option (Feed F R × Message × List (Feed F R)) → List (Feed F R) → List (Feed F R)
  left none feeds = feeds
  left (some (f, msg, rest)) feeds = rest

  left-behind :
      (f : Feed F R) (o : Option (Feed F R × Message × List (Feed F R))) (feeds : List (Feed F R))
      → left (behind f o) (f ∷ feeds) ≡ f ∷ left o feeds
  left-behind f none feeds = refl
  left-behind f (some (g, msg, rest)) feeds = refl

  first-waiting :
      (f : Feed F R) (messages : List Message) (feeds : List (Feed F R))
      → f.messages ≡ messages
      → f.messages ≡ head_of messages ++ buffer 0 (left (first_of f messages feeds) (f ∷ feeds))
  first-waiting f [] feeds e = refl
  first-waiting f (msg ∷ rest) feeds e = e

  first-others :
      (i : ℕ) (f : Feed F R) (messages : List Message) (feeds : List (Feed F R))
      → buffer (suc i) (left (first_of f messages feeds) (f ∷ feeds)) ≡ buffer i feeds
  first-others i f [] feeds = refl
  first-others i f (msg ∷ rest) feeds = refl

  buffer-receive_at :
      (i j now : ℕ) (feeds : List (Feed F R))
      → buffer i feeds ≡ taken i feeds (consume j now) ++ buffer i (left (receive_at feeds j) feeds)
  unfolding receive_at
  buffer-receive_at i j now [] = ground arith
  buffer-receive_at zero zero now (f ∷ feeds) = first-waiting f f.messages feeds refl
  buffer-receive_at (suc i) zero now (f ∷ feeds) = ground (arith, first-others i f f.messages feeds)
  buffer-receive_at zero (suc j) now (f ∷ feeds) =
      rw (left-behind f (receive_at feeds j) feeds) (ground arith)
  buffer-receive_at (suc i) (suc j) now (f ∷ feeds) =
      rw (left-behind f (receive_at feeds j) feeds)
        (ground (arith, buffer-receive_at i j now feeds))

-- A message that is handled: by the feed at a place, for its source, and when.
pub record Handling (F R : Type 0) : Type 0 where
  pub place : ℕ
  pub source : Source F R
  pub now : ℕ
  pub message : Message

module _ {F R : Type 0} where
  -- the messages that are handled at a place
  abbrev pub messages_at : ℕ → List (Handling F R) → List Message
  messages_at i [] = []
  messages_at i (h ∷ log) =
      let rest = messages_at i log in if eqb i h.place then h.message ∷ rest else rest

  abbrev pub for_feed : ℕ → ℕ → Source F R → List Message → List (Handling F R)
  for_feed j now s [] = []
  for_feed j now s (msg ∷ rest) = record { place = j; source = s; now = now; message = msg } ∷ []

  -- the first message of a buffer
  abbrev pub next_of : ℕ → ℕ → Option (Feed F R) → List (Handling F R)
  next_of j now none = []
  next_of j now (some f) = for_feed j now f.source f.messages

  -- what an action handles: the first message in the buffer at its place, if there is one
  abbrev pub handling : List (Feed F R) → Action → List (Handling F R)
  handling feeds (offer j msg) = []
  handling feeds (consume j now) = next_of j now (get_elem? feeds j)

  messages_at-append :
      (i : ℕ) (log more : List (Handling F R))
      → messages_at i (log ++ more) ≡ messages_at i log ++ messages_at i more
  messages_at-append i [] more = refl
  messages_at-append i (h ∷ log) more = ground (arith, messages_at-append i log more)

  messages_at-for_feed :
      (i j now : ℕ) (s : Source F R) (messages : List Message)
      → (if eqb i j then head_of messages else []) ≡ messages_at i (for_feed j now s messages)
  messages_at-for_feed i j now s [] = ground arith
  messages_at-for_feed i j now s (msg ∷ rest) = refl

  messages_at-handling :
      (i : ℕ) (feeds : List (Feed F R)) (a : Action)
      → taken i feeds a ≡ messages_at i (handling feeds a)
  messages_at-handling i feeds (offer j msg) = refl
  messages_at-handling i feeds (consume j now) = go (get_elem? feeds j)
    where
      go :
          (o : Option (Feed F R))
          → (if eqb i j then head_of (waiting o) else []) ≡ messages_at i (next_of j now o)
      go none = ground arith
      go (some f) = messages_at-for_feed i j now f.source f.messages

  -- the same for what `<-f.messages` gives
  abbrev pub of_received :
      ℕ → ℕ → Option (Feed F R × Message × List (Feed F R)) → List (Handling F R)
  of_received j now none = []
  of_received j now (some (f, msg, feeds)) =
      record { place = j; source = f.source; now = now; message = msg } ∷ []

  of_received-first :
      (j now : ℕ) (f : Feed F R) (messages : List Message) (feeds : List (Feed F R))
      → of_received j now (first_of f messages feeds) ≡ for_feed j now f.source messages
  of_received-first j now f [] feeds = refl
  of_received-first j now f (msg ∷ rest) feeds = refl

  of_received-behind :
      (j now : ℕ) (f : Feed F R) (o : Option (Feed F R × Message × List (Feed F R)))
      → of_received j now (behind f o) ≡ of_received j now o
  of_received-behind j now f none = refl
  of_received-behind j now f (some (g, msg, feeds)) = refl

  pub of_received-receive_at :
      (j now : ℕ) (feeds : List (Feed F R)) (i : ℕ)
      → of_received j now (receive_at feeds i) ≡ next_of j now (get_elem? feeds i)
  unfolding receive_at
  of_received-receive_at j now [] i = refl
  of_received-receive_at j now (f ∷ feeds) zero = of_received-first j now f f.messages feeds
  of_received-receive_at j now (f ∷ feeds) (suc i) =
      of_received-behind j now f (receive_at feeds i) ∙ of_received-receive_at j now feeds i

module _ (P : Platform) where
  open P use {Float, Regexp}

  feeds-consumed :
      (o : Option (Feed Float Regexp × Message × List (Feed Float Regexp))) (now : ℕ)
      (r : Router Float Regexp)
      → (consumed P o now r).feeds ≡ left o r.feeds
  unfolding handle
  feeds-consumed none now r = refl
  feeds-consumed (some (f, msg, feeds)) now r = refl

  buffer-step :
      (i : ℕ) (r : Router Float Regexp) (a : Action)
      → buffer i r.feeds ++ put i r.feeds a ≡ taken i r.feeds a ++ buffer i (step P r a).feeds
  unfolding step
  buffer-step i r (offer j msg) = sym (buffer-offer_at i j r.feeds msg)
  buffer-step i r (consume j now) =
      append-nil (buffer i r.feeds)
      ∙ buffer-receive_at i j now r.feeds
      ∙ rw (feeds-consumed (receive_at r.feeds j) now r)

  -- the messages that the feed at `i` takes in a schedule
  abbrev pub admitted : ℕ → Router Float Regexp → List Action → List Message
  admitted i r [] = []
  admitted i r (a ∷ actions) = put i r.feeds a ++ admitted i (step P r a) actions

  -- the messages that are handled in a schedule
  abbrev pub handled : Router Float Regexp → List Action → List (Handling Float Regexp)
  handled r [] = []
  handled r (a ∷ actions) = handling r.feeds a ++ handled (step P r a) actions

  -- the rules of its source on each message in turn
  abbrev pub replay : Store Float → List (Handling Float Regexp) → Store Float
  replay samples [] = samples
  replay samples (h ∷ log) =
      replay (apply P h.source samples h.now h.message.topic h.message.payload).samples log

  replay-append :
      (samples : Store Float) (log more : List (Handling Float Regexp))
      → replay samples (log ++ more) ≡ replay (replay samples log) more
  replay-append samples [] more = refl
  replay-append samples (h ∷ log) more =
      replay-append (apply P h.source samples h.now h.message.topic h.message.payload).samples log
        more

  samples-consumed :
      (j : ℕ) (o : Option (Feed Float Regexp × Message × List (Feed Float Regexp))) (now : ℕ)
      (r : Router Float Regexp)
      → (consumed P o now r).samples ≡ replay r.samples (of_received j now o)
  unfolding handle
  samples-consumed j none now r = refl
  samples-consumed j (some (f, msg, feeds)) now r = refl

  pub samples-step :
      (r : Router Float Regexp) (a : Action)
      → (step P r a).samples ≡ replay r.samples (handling r.feeds a)
  unfolding step
  samples-step r (offer j msg) = refl
  samples-step r (consume j now) =
      samples-consumed j (receive_at r.feeds j) now r
      ∙ ap (replay r.samples) (of_received-receive_at j now r.feeds j)

  samples-handled :
      (r : Router Float Regexp) (actions : List Action)
      → (run P r actions).samples ≡ replay r.samples (handled r actions)
  samples-handled r [] = refl
  samples-handled r (a ∷ actions) =
      samples-handled (step P r a) actions
      ∙ ap (λ s. replay s (handled (step P r a) actions)) (samples-step r a)
      ∙ sym (replay-append r.samples (handling r.feeds a) (handled (step P r a) actions))

  messages-handled :
      (i : ℕ) (r : Router Float Regexp) (actions : List Action)
      → buffer i r.feeds ++ admitted i r actions
        ≡ messages_at i (handled r actions) ++ buffer i (run P r actions).feeds
  messages-handled i r [] = append-nil (buffer i r.feeds)
  messages-handled i r (a ∷ actions) =
      let next = step P r a in
      sym (append_assoc (buffer i r.feeds) (put i r.feeds a) (admitted i next actions))
      ∙ ap (λ m. m ++ admitted i next actions) (buffer-step i r a)
      ∙ append_assoc (taken i r.feeds a) (buffer i next.feeds) (admitted i next actions)
      ∙ ap₂ (λ t m. t ++ m) (messages_at-handling i r.feeds a) (messages-handled i next actions)
      ∙ sym (
          append_assoc (messages_at i (handling r.feeds a)) (messages_at i (handled next actions))
            _)
      ∙ ap (λ m. m ++ buffer i (run P next actions).feeds)
          (sym (messages_at-append i (handling r.feeds a) (handled next actions)))

  -- For every schedule there is one list of the messages that are handled, with the feed, the source
  -- and the time of each: at each `consume` the first message in the buffer of its feed. The store
  -- after the schedule is the one before it after the rules of the sources on the messages of the list,
  -- in this order. For every feed, the messages that were in its buffer and those it took are, in this
  -- order, the messages that the list has for it and those still in the buffer: none is lost, doubled
  -- or overtaken.
  pub buffer-run :
      (r : Router Float Regexp) (actions : List Action)
      → ((run P r actions).samples ≡ replay r.samples (handled r actions))
        × ((i : ℕ)
            → buffer i r.feeds ++ admitted i r actions
              ≡ messages_at i (handled r actions) ++ buffer i (run P r actions).feeds)
  buffer-run r actions = (samples-handled r actions, λ i. messages-handled i r actions)
