-- ===== src/Router/Loop.antt =====
-- The loop of `Dispatch` in internal/app/router.go: its rounds one by one, and what it counts.
use mqtt2prometheus.Base.{
  ℕ, zero, suc, ◌+◌, ◌≡◌, refl, ◌∙◌, sym, ap, List, [], ◌∷◌, ◌++◌, append-nil, append_assoc, length,
  length-append, if◌then◌else◌, ◌&&◌, leb, arith,
}
use mqtt2prometheus.Platform.{Platform}
use mqtt2prometheus.Source.{owns}
use mqtt2prometheus.Router.{
  Message, Increment, received, dropped, errors, Feed, Router, Action, offer, offer_to, offer_feed,
  dispatch_to, dispatch, offer_at, step, run,
}

-- `n` rounds of the loop from the feed at `i` on
abbrev pub offers : Message → ℕ → ℕ → List Action
offers msg i zero = []
offers msg i (suc n) = offer i msg ∷ offers msg (suc i) n

module _ {F R : Type 0} where
  rounds : Message → ℕ → ℕ → List (Feed F R) → List (Feed F R) × List Increment
  rounds msg i zero feeds = (feeds, [])
  rounds msg i (suc n) feeds =
      let (next, inc) = offer_at feeds i msg in
      let (rest, incs) = rounds msg (suc i) n next in (rest, inc ++ incs)

  rounds-suc :
      (msg : Message) (i n : ℕ) (f : Feed F R) (feeds : List (Feed F R))
      → rounds msg (suc i) n (f ∷ feeds) ≡ (f ∷ (rounds msg i n feeds).0, (rounds msg i n feeds).1)
  unfolding rounds offer_at
  rounds-suc msg i zero f feeds = refl
  rounds-suc msg i (suc n) f feeds =
      let (next, inc) = offer_at feeds i msg in
      ap (λ (p : List (Feed F R) × List Increment). (p.0, inc ++ p.1))
        (rounds-suc msg (suc i) n f next)

  rounds_lem :
      (msg : Message) (feeds : List (Feed F R))
      → rounds msg 0 (length feeds) feeds ≡ dispatch_to feeds msg
  unfolding rounds offer_at dispatch_to
  rounds_lem msg [] = refl
  rounds_lem msg (f ∷ feeds) =
      let (after, inc) = offer_feed f msg in
      ap (λ (p : List (Feed F R) × List Increment). (p.0, inc ++ p.1))
        (rounds-suc msg 0 (length feeds) after feeds
          ∙ ap (λ (p : List (Feed F R) × List Increment). (after ∷ p.0, p.1))
              (rounds_lem msg feeds))

  -- the feeds that own the topic of a message
  abbrev pub owners : List (Feed F R) → Message → ℕ
  owners [] msg = 0
  owners (f ∷ feeds) msg =
      let rest = owners feeds msg in if owns f.source msg.topic then suc rest else rest

  abbrev pub buffered : List (Feed F R) → ℕ
  buffered [] = 0
  buffered (f ∷ feeds) = length f.messages + buffered feeds

abbrev pub received_in : List Increment → ℕ
received_in [] = 0
received_in (received name ∷ incs) = suc (received_in incs)
received_in (dropped ∷ incs) = received_in incs
received_in (errors name reason ∷ incs) = received_in incs

pub received_in-append :
    (incs more : List Increment) → received_in (incs ++ more) ≡ received_in incs + received_in more
received_in-append [] more = omega arith
received_in-append (received name ∷ incs) more = omega (arith, received_in-append incs more)
received_in-append (dropped ∷ incs) more = received_in-append incs more
received_in-append (errors name reason ∷ incs) more = received_in-append incs more

abbrev pub dropped_in : List Increment → ℕ
dropped_in [] = 0
dropped_in (received name ∷ incs) = dropped_in incs
dropped_in (dropped ∷ incs) = suc (dropped_in incs)
dropped_in (errors name reason ∷ incs) = dropped_in incs

dropped_in-append :
    (incs more : List Increment) → dropped_in (incs ++ more) ≡ dropped_in incs + dropped_in more
dropped_in-append [] more = omega arith
dropped_in-append (received name ∷ incs) more = dropped_in-append incs more
dropped_in-append (dropped ∷ incs) more = omega (arith, dropped_in-append incs more)
dropped_in-append (errors name reason ∷ incs) more = dropped_in-append incs more

module _ {F R : Type 0} where
  -- the feeds that own the topic and have a full buffer
  abbrev pub full_owners : List (Feed F R) → Message → ℕ
  full_owners [] msg = 0
  full_owners (f ∷ feeds) msg =
      let rest = full_owners feeds msg in
      if owns f.source msg.topic && leb 1024 (length f.messages) then suc rest else rest

  offer_feed_lem :
      (f : Feed F R) (msg : Message)
      → (length (offer_feed f msg).1 ≡ (if owns f.source msg.topic then 1 else 0))
        × (received_in (offer_feed f msg).1 + dropped_in (offer_feed f msg).1
            ≡ (if owns f.source msg.topic then 1 else 0))
        × (dropped_in (offer_feed f msg).1
            ≡ (if owns f.source msg.topic && leb 1024 (length f.messages) then 1 else 0))
        × (length (offer_feed f msg).0.messages
            ≡ length f.messages + received_in (offer_feed f msg).1)
  unfolding offer_feed offer_to
  offer_feed_lem f msg = ground (arith, length-append f.messages (msg ∷ []))

  -- A dispatched message is counted once for each feed that owns its topic, and nothing else is
  -- counted: as dropped for each of them whose buffer is full, and as received for the others. It is
  -- put in a buffer exactly as often as it is counted as received.
  pub dispatch_to_lem :
      (feeds : List (Feed F R)) (msg : Message)
      → (length (dispatch_to feeds msg).1 ≡ owners feeds msg)
        × (received_in (dispatch_to feeds msg).1 + dropped_in (dispatch_to feeds msg).1
            ≡ owners feeds msg)
        × (dropped_in (dispatch_to feeds msg).1 ≡ full_owners feeds msg)
        × (buffered (dispatch_to feeds msg).0
            ≡ buffered feeds + received_in (dispatch_to feeds msg).1)
  unfolding dispatch_to
  dispatch_to_lem [] msg = (refl, omega arith, refl, omega arith)
  dispatch_to_lem (f ∷ feeds) msg =
      let (one, one_each, one_full, one_put) = offer_feed_lem f msg in
      let (all_in, each, full, put) = dispatch_to_lem feeds msg in
      let inc = (offer_feed f msg).1 in
      let incs = (dispatch_to feeds msg).1 in
      let r = received_in-append inc incs in
      let d = dropped_in-append inc incs in
      (
        ground (arith, one, all_in, length-append inc incs),
        ground (arith, one_each, each, r, d),
        ground (arith, one_full, full, d),
        ground (arith, one_put, put, r),
      )

module _ (P : Platform) where
  open P use {Float, Regexp}

  run-offers :
      (msg : Message) (i n : ℕ) (r : Router Float Regexp)
      → run P r (offers msg i n) ≡ record r {
        feeds = (rounds msg i n r.feeds).0;
        increments = r.increments ++ (rounds msg i n r.feeds).1;
      }
  unfolding rounds step
  run-offers msg i zero r =
      ap (λ incs. record r { increments = incs }) (sym (append-nil r.increments))
  run-offers msg i (suc n) r =
      let (next, inc) = offer_at r.feeds i msg in
      run-offers msg (suc i) n (step P r (offer i msg))
      ∙ ap (λ incs. record r { feeds = (rounds msg (suc i) n next).0; increments = incs })
          (append_assoc r.increments inc (rounds msg (suc i) n next).1)

  -- A call of `Dispatch` that nothing interrupts is the schedule of its rounds.
  pub run-dispatch :
      (msg : Message) (r : Router Float Regexp)
      → run P r (offers msg 0 (length r.feeds)) ≡ dispatch msg r
  unfolding dispatch
  run-dispatch msg r =
      run-offers msg 0 (length r.feeds) r
      ∙ ap
          (λ (p : List (Feed Float Regexp) × List Increment). record r {
            feeds = p.0;
            increments = r.increments ++ p.1;
          })
          (rounds_lem msg r.feeds)
