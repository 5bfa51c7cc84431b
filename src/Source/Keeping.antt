-- ===== src/Source/Keeping.antt =====
-- What holds of every write of a source, whatever the message: a property of writes that the rules'
-- and the source's own names give.
use mqtt2prometheus.Base.{
  Text, ℕ, less, ◌≡◌, ◌≢◌, refl, Bool, true, false, not, ◌&&◌, ◌==◌, eq_iff, List, [], ◌∷◌, All,
  All-append, if◌then◌else◌,
}
use mqtt2prometheus.Base.Dict.{Dict, Distinct}
use mqtt2prometheus.Base.Sort.{IsOrdered}
use mqtt2prometheus.Platform.{Platform}
use mqtt2prometheus.Store.{flatten}
use mqtt2prometheus.Store.History.{Write}
use mqtt2prometheus.Rules.Payload.{Outcome, found, absent, failed, panicked}
use mqtt2prometheus.Rules.Label.{resolve_labels}
use mqtt2prometheus.Rules.Names.{apply_names, resolve_labels_names}
use mqtt2prometheus.Rules.Rule
use mqtt2prometheus.Rules.Rule.{Rule, Match, Applied, no_match, error, nothing, sample, crashed}
use mqtt2prometheus.Source.{Source}
use mqtt2prometheus.Source.Writes.{
  beat_write, beat_writes, sample_write, result_writes, label_writes, rules_writes, matches_from,
  writes,
}

module _ (P : Platform) (W : Write P.Float → Type 0) where
  open P use {Float, Regexp}

  -- the heartbeats under a name with these label names have the property
  abbrev pub BeatKeeps : Text → List Text → Type 0
  BeatKeeps name names =
      (labels : Dict Text) (now : ℕ) → (flatten labels).0 ≡ names → W (beat_write P name labels now)

  pub record RuleKeeps (r : Rule Float Regexp) : Type 0 where
    pub ordered : IsOrdered less r.auto_labels
    pub distinct : Distinct r.auto_labels
    pub metric : (d : Match Float) → (flatten d.labels).0 ≡ r.auto_labels → W (sample_write P r d)
    pub heartbeat : r.last_updated_metric ≢ [] → BeatKeeps r.last_updated_metric r.auto_labels

  pub record SourceKeeps (s : Source Float Regexp) : Type 0 where
    pub rules : All RuleKeeps s.rules
    pub ordered : IsOrdered less s.labels.names
    pub distinct : Distinct s.labels.names
    pub heartbeat : s.last_updated_metric ≢ [] → BeatKeeps s.last_updated_metric s.labels.names

  beat_writes-Keeps :
      (name : Text) (labels : Dict Text) (now : ℕ) (names : List Text)
      → (name ≢ [] → BeatKeeps name names)
      → (flatten labels).0 ≡ names
      → All W (beat_writes P name labels now)
  beat_writes-Keeps name labels now names f n = go (name == []) refl
    where
      go :
          (b : Bool)
          → (name == []) ≡ b
          → All W (if not b then beat_write P name labels now ∷ [] else [])
      go true e = tt
      go false e = (f (λ q. cc (e, (eq_iff name []).1 q)) labels now n, tt)

  result_writes-Keeps :
      (r : Rule Float Regexp) (now : ℕ) (topic payload : Text) (result : Applied Float)
      → RuleKeeps r
      → Rule.apply P r topic payload ≡ result
      → All W (result_writes P r now result)
  result_writes-Keeps r now topic payload no_match f e = tt
  result_writes-Keeps r now topic payload (error q) f e = tt
  result_writes-Keeps r now topic payload nothing f e = tt
  result_writes-Keeps r now topic payload crashed f e = tt
  result_writes-Keeps r now topic payload (sample d) f e =
      let names = apply_names P r topic payload d f.ordered f.distinct e in
      (
        f.metric d names,
        beat_writes-Keeps r.last_updated_metric d.labels now r.auto_labels f.heartbeat names,
      )

  rules_writes-Keeps :
      (rules : List (Rule Float Regexp)) (now : ℕ) (topic payload : Text)
      → All RuleKeeps rules
      → All W (rules_writes P rules now topic payload)
  unfolding rules_writes
  rules_writes-Keeps [] now topic payload f = tt
  rules_writes-Keeps (r ∷ rules) now topic payload (f, fs) =
      All-append W _ _ (result_writes-Keeps r now topic payload _ f refl)
        (rules_writes-Keeps rules now topic payload fs)

  label_writes-Keeps :
      (s : Source Float Regexp) (now : ℕ) (payload : Text) (result : Outcome (Dict Text))
      → SourceKeeps s
      → resolve_labels P s.labels [] payload ≡ result
      → All W (label_writes P s.last_updated_metric now result)
  label_writes-Keeps s now payload absent f e = tt
  label_writes-Keeps s now payload (failed q) f e = tt
  label_writes-Keeps s now payload panicked f e = tt
  label_writes-Keeps s now payload (found labels) f e =
      beat_writes-Keeps s.last_updated_metric labels now s.labels.names f.heartbeat
        (resolve_labels_names P s.labels [] payload labels f.ordered f.distinct e)

  -- Whatever the message, each of its writes has the property.
  pub writes-Keeps :
      (s : Source Float Regexp) (now : ℕ) (topic payload : Text)
      → SourceKeeps s
      → All W (writes P s now topic payload)
  unfolding writes
  writes-Keeps s now topic payload f =
      All-append W _ _ (rules_writes-Keeps s.rules now topic payload f.rules)
        (go (matches_from P false s.rules topic payload && not (s.last_updated_metric == [])))
    where
      go :
          (b : Bool)
          → All W (
              if b
              then label_writes P s.last_updated_metric now (resolve_labels P s.labels [] payload)
              else [])
      go true = label_writes-Keeps s now payload _ f refl
      go false = tt
