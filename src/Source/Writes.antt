-- ===== src/Source/Writes.antt =====
-- `apply` of internal/app/source.go as the list of the writes that it makes for a message.
use mqtt2prometheus.Base.{
  Text, ℕ, ◌≡◌, refl, ◌∙◌, sym, ap, Bool, true, false, not, ◌&&◌, ◌==◌, List, [], ◌∷◌, ◌++◌,
  if◌then◌else◌, arith,
}
use mqtt2prometheus.Base.Dict.{Dict}
use mqtt2prometheus.Platform.{Platform}
use mqtt2prometheus.Config.{heartbeat_help}
use mqtt2prometheus.Store.{Store, gauge}
use mqtt2prometheus.Store.History.{Write, write, run, run-append}
use mqtt2prometheus.Rules.Payload.{Outcome, found, absent, failed, panicked}
use mqtt2prometheus.Rules.Label.{resolve_labels}
use mqtt2prometheus.Rules.Rule
use mqtt2prometheus.Rules.Rule.{Rule, Match, Applied, no_match, error, nothing, sample, crashed}
use mqtt2prometheus.Source.{
  Source, Progress, kind_of, beat, record_sample, take_result, apply_rules, take_labels, apply,
}

-- the rules have a hit
abbrev hits : {F : Type 0} → Applied F → Bool
hits no_match = false
hits (error e) = true
hits nothing = true
hits (sample m) = true
hits crashed = false

module _ (P : Platform) where
  open P use {Float, Regexp, seconds}

  abbrev pub beat_write : Text → Dict Text → ℕ → Write Float
  beat_write name labels now = record {
    name = name;
    kind = gauge;
    help = heartbeat_help;
    labels = labels;
    value = seconds now;
  }

  abbrev pub beat_writes : Text → Dict Text → ℕ → List (Write Float)
  beat_writes name labels now = if not (name == []) then beat_write name labels now ∷ [] else []

  abbrev pub sample_write : Rule Float Regexp → Match Float → Write Float
  sample_write r m = record {
    name = r.metric_name;
    kind = kind_of r;
    help = r.help;
    labels = m.labels;
    value = m.value;
  }

  abbrev pub result_writes : Rule Float Regexp → ℕ → Applied Float → List (Write Float)
  result_writes r now (sample m) = sample_write r m ∷ beat_writes r.last_updated_metric m.labels now
  result_writes r now no_match = []
  result_writes r now (error e) = []
  result_writes r now nothing = []
  result_writes r now crashed = []

  abbrev pub label_writes : Text → ℕ → Outcome (Dict Text) → List (Write Float)
  label_writes name now (found labels) = beat_writes name labels now
  label_writes name now absent = []
  label_writes name now (failed e) = []
  label_writes name now panicked = []

  unfoldable pub rules_writes : List (Rule Float Regexp) → ℕ → Text → Text → List (Write Float)
  rules_writes [] now topic payload = []
  rules_writes (r ∷ rules) now topic payload =
      result_writes r now (Rule.apply P r topic payload) ++ rules_writes rules now topic payload

  -- one of the rules has a hit, or had one before
  unfoldable pub matches_from : Bool → List (Rule Float Regexp) → Text → Text → Bool
  matches_from before [] topic payload = before
  matches_from before (r ∷ rules) topic payload =
      matches_from (if hits (Rule.apply P r topic payload) then true else before) rules topic
        payload

  -- The calls of `Set` that `apply` makes for a message, in their order.
  unfoldable pub writes : Source Float Regexp → ℕ → Text → Text → List (Write Float)
  unfolding rules_writes matches_from
  writes s now topic payload =
      rules_writes s.rules now topic payload
      ++ (if matches_from false s.rules topic payload && not (s.last_updated_metric == [])
          then label_writes s.last_updated_metric now (resolve_labels P s.labels [] payload)
          else [])

  beat-run :
      (name : Text) (labels : Dict Text) (now : ℕ) (s : Store Float)
      → beat P name labels now s ≡ run P s (beat_writes name labels now)
  unfolding beat
  beat-run name labels now s = ground arith

  -- the store after a result, and its hit
  record Taken (r : Rule Float Regexp) (now : ℕ) (result : Applied Float) (t after : Progress Float)
      : Type 0 where
    samples : after.samples ≡ run P t.samples (result_writes r now result)
    matched : after.matched ≡ (if hits result then true else t.matched)

  take_result-Taken :
      (r : Rule Float Regexp) (now : ℕ) (result : Applied Float) (t : Progress Float)
      → Taken r now result t (take_result P r now result t)
  unfolding take_result
  take_result-Taken r now no_match t = record { samples = refl; matched = refl }
  take_result-Taken r now (error e) t = record { samples = refl; matched = refl }
  take_result-Taken r now nothing t = record { samples = refl; matched = refl }
  take_result-Taken r now crashed t = record { samples = refl; matched = refl }
  take_result-Taken r now (sample m) t = record {
    samples =
        unfold record_sample in
        beat-run r.last_updated_metric m.labels now (write P t.samples (sample_write r m));
    matched = refl;
  }

  apply_rules-run :
      (rules : List (Rule Float Regexp)) (now : ℕ) (topic payload : Text) (t : Progress Float)
      → ((apply_rules P rules now topic payload t).samples
          ≡ run P t.samples (rules_writes rules now topic payload))
        × ((apply_rules P rules now topic payload t).matched
            ≡ matches_from t.matched rules topic payload)
  unfolding apply_rules rules_writes matches_from
  apply_rules-run [] now topic payload t = (refl, refl)
  apply_rules-run (r ∷ rules) now topic payload t =
      let result = Rule.apply P r topic payload in
      let one = take_result-Taken r now result t in
      let (samples, matched) =
        apply_rules-run rules now topic payload (take_result P r now result t) in
      (
        samples
            ∙ ap (λ s. run P s (rules_writes rules now topic payload)) one.samples
            ∙ sym (run-append P t.samples (result_writes r now result) _),
        matched ∙ ap (λ b. matches_from b rules topic payload) one.matched,
      )

  take_labels-run :
      (name : Text) (now : ℕ) (result : Outcome (Dict Text)) (t : Progress Float)
      → (take_labels P name now result t).samples ≡ run P t.samples (label_writes name now result)
  unfolding take_labels
  take_labels-run name now (found labels) t = beat-run name labels now t.samples
  take_labels-run name now absent t = refl
  take_labels-run name now (failed e) t = refl
  take_labels-run name now panicked t = refl

  -- Handling a message is making its writes one by one, and these do not depend on the store: neither
  -- on what it held before the message nor on what others write to it in between.
  pub samples-apply :
      (s : Source Float Regexp) (samples : Store Float) (now : ℕ) (topic payload : Text)
      → (apply P s samples now topic payload).samples ≡ run P samples (writes s now topic payload)
  unfolding apply writes
  samples-apply s samples now topic payload =
      let start : Progress Float = record {
        samples = samples;
        problems = [];
        matched = false;
        crashed = false;
      } in
      let (looped, matched) = apply_rules-run s.rules now topic payload start in
      let t = apply_rules P s.rules now topic payload start in
      go t (t.matched && not (s.last_updated_metric == []))
      ∙ ap (λ (u : Store Float). run P u (last (t.matched && not (s.last_updated_metric == []))))
          looped
      ∙ ap
          (λ b.
            run P (run P samples (rules_writes s.rules now topic payload))
              (last (b && not (s.last_updated_metric == []))))
          matched
      ∙ sym (run-append P samples (rules_writes s.rules now topic payload) _)
    where
      last : Bool → List (Write Float)
      last b =
          if b
          then label_writes s.last_updated_metric now (resolve_labels P s.labels [] payload)
          else []

      go :
          (t : Progress Float) (b : Bool)
          → (if b
              then take_labels P s.last_updated_metric now (resolve_labels P s.labels [] payload) t
              else t).samples
            ≡ run P t.samples (last b)
      go t true = take_labels-run s.last_updated_metric now (resolve_labels P s.labels [] payload) t
      go t false = refl
