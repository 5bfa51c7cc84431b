-- ===== src/Source/Conforms.antt =====
-- `apply` of internal/app/source.go keeps a store uniform, if the source's metrics have shapes.
use mqtt2prometheus.Base.{
  Text, ℕ, less, ◌≡◌, ◌≢◌, refl, Bool, true, false, not, ◌&&◌, ◌==◌, eq_iff, List, [], ◌∷◌, All,
  if◌then◌else◌, some,
}
use mqtt2prometheus.Base.Dict.{Dict, lookup, Distinct}
use mqtt2prometheus.Base.Sort.{IsOrdered}
use mqtt2prometheus.Platform.{Platform}
use mqtt2prometheus.Config.{heartbeat_help}
use mqtt2prometheus.Config.Metrics.{Shape}
use mqtt2prometheus.Store.{Store, Kind, gauge, flatten, set}
use mqtt2prometheus.Store.Identity.{LacksZero}
use mqtt2prometheus.Store.History.{Write}
use mqtt2prometheus.Store.Uniform.{shape_of, IsUniform, write-IsUniform}
use mqtt2prometheus.Rules.Payload.{Outcome, found, absent, failed, panicked}
use mqtt2prometheus.Rules.Label.{resolve_labels}
use mqtt2prometheus.Rules.Names.{apply_names, resolve_labels_names}
use mqtt2prometheus.Rules.Rule
use mqtt2prometheus.Rules.Rule.{Rule, Match, Applied, no_match, error, nothing, sample, crashed}
use mqtt2prometheus.Source.{
  Source, Progress, kind_of, beat, record_sample, take_result, apply_rules, take_labels, apply,
}

-- The map has the shape of a heartbeat with these label names.
pub record BeatFits (m : Dict Shape) (name : Text) (names : List Text) : Type 0 where
  pub named : LacksZero name
  pub shape : lookup name m ≡ some (shape_of names heartbeat_help gauge)

pub record RuleFits {F R : Type 0} (m : Dict Shape) (r : Rule F R) : Type 0 where
  pub ordered : IsOrdered less r.auto_labels
  pub distinct : Distinct r.auto_labels
  pub named : LacksZero r.metric_name
  pub shape : lookup r.metric_name m ≡ some (shape_of r.auto_labels r.help (kind_of r))
  pub heartbeat : r.last_updated_metric ≢ [] → BeatFits m r.last_updated_metric r.auto_labels

pub record SourceFits {F R : Type 0} (m : Dict Shape) (s : Source F R) : Type 0 where
  pub rules : All (RuleFits m) s.rules
  pub ordered : IsOrdered less s.labels.names
  pub distinct : Distinct s.labels.names
  pub heartbeat : s.last_updated_metric ≢ [] → BeatFits m s.last_updated_metric s.labels.names

module _ (P : Platform) (m : Dict Shape) where
  open P use {Float, Regexp, seconds}

  set-IsUniform :
      (s : Store Float) (name : Text) (kind : Kind) (help : Text) (labels : Dict Text)
      (value : Float) (names : List Text)
      → LacksZero name
      → lookup name m ≡ some (shape_of names help kind)
      → (flatten labels).0 ≡ names
      → IsUniform P m s
      → IsUniform P m (set P s name kind help labels value)
  set-IsUniform s name kind help labels value names z e n h =
      let w : Write Float = record {
        name = name;
        kind = kind;
        help = help;
        labels = labels;
        value = value;
      } in
      write-IsUniform P m s w (record { named = z; shape = rw n e }) h

  beat-IsUniform :
      (name : Text) (labels : Dict Text) (now : ℕ) (s : Store Float) (names : List Text)
      → (name ≢ [] → BeatFits m name names)
      → (flatten labels).0 ≡ names
      → IsUniform P m s
      → IsUniform P m (beat P name labels now s)
  unfolding beat
  beat-IsUniform name labels now s names f n h = go (name == []) refl
    where
      go :
          (b : Bool)
          → (name == []) ≡ b
          → IsUniform P m
              (if not b then set P s name gauge heartbeat_help labels (seconds now) else s)
      go true e = h
      go false e =
          let fits = f (λ q. cc (e, (eq_iff name []).1 q)) in
          set-IsUniform s name gauge heartbeat_help labels (seconds now) names fits.named fits.shape
            n h

  take_result-IsUniform :
      (r : Rule Float Regexp) (now : ℕ) (topic payload : Text) (result : Applied Float)
      (t : Progress Float)
      → RuleFits m r
      → Rule.apply P r topic payload ≡ result
      → IsUniform P m t.samples
      → IsUniform P m (take_result P r now result t).samples
  unfolding take_result
  take_result-IsUniform r now topic payload no_match t f e h = h
  take_result-IsUniform r now topic payload (error q) t f e h = h
  take_result-IsUniform r now topic payload nothing t f e h = h
  take_result-IsUniform r now topic payload crashed t f e h = h
  take_result-IsUniform r now topic payload (sample d) t f e h =
      let names = apply_names P r topic payload d f.ordered f.distinct e in
      unfold record_sample in
      beat-IsUniform r.last_updated_metric d.labels now _ r.auto_labels f.heartbeat names (
        set-IsUniform t.samples r.metric_name (kind_of r) r.help d.labels d.value r.auto_labels
          f.named f.shape names h)

  apply_rules-IsUniform :
      (rules : List (Rule Float Regexp)) (now : ℕ) (topic payload : Text) (t : Progress Float)
      → All (RuleFits m) rules
      → IsUniform P m t.samples
      → IsUniform P m (apply_rules P rules now topic payload t).samples
  unfolding apply_rules
  apply_rules-IsUniform [] now topic payload t f h = h
  apply_rules-IsUniform (r ∷ rules) now topic payload t (f, fs) h =
      apply_rules-IsUniform rules now topic payload _ fs
        (take_result-IsUniform r now topic payload _ t f refl h)

  take_labels-IsUniform :
      (s : Source Float Regexp) (now : ℕ) (payload : Text) (result : Outcome (Dict Text))
      (t : Progress Float)
      → SourceFits m s
      → resolve_labels P s.labels [] payload ≡ result
      → IsUniform P m t.samples
      → IsUniform P m (take_labels P s.last_updated_metric now result t).samples
  unfolding take_labels
  take_labels-IsUniform s now payload absent t f e h = h
  take_labels-IsUniform s now payload (failed q) t f e h = h
  take_labels-IsUniform s now payload panicked t f e h = h
  take_labels-IsUniform s now payload (found labels) t f e h =
      beat-IsUniform s.last_updated_metric labels now t.samples s.labels.names f.heartbeat
        (resolve_labels_names P s.labels [] payload labels f.ordered f.distinct e) h

  -- Whatever the message, a source whose metrics have the shapes of a map leaves a store uniform in
  -- which every series has the shape that the map gives its metric.
  pub apply-IsUniform :
      (s : Source Float Regexp) (samples : Store Float) (now : ℕ) (topic payload : Text)
      → SourceFits m s
      → IsUniform P m samples
      → IsUniform P m (apply P s samples now topic payload).samples
  unfolding apply
  apply-IsUniform s samples now topic payload f h =
      let start : Progress Float = record {
        samples = samples;
        problems = [];
        matched = false;
        crashed = false;
      } in
      let t = apply_rules P s.rules now topic payload start in
      let looped = apply_rules-IsUniform s.rules now topic payload start f.rules h in
      go t looped (t.matched && not (s.last_updated_metric == []))
    where
      go :
          (t : Progress Float)
          → IsUniform P m t.samples
          → (b : Bool)
          → IsUniform P m
              (if b
                then take_labels P s.last_updated_metric now
                    (resolve_labels P s.labels [] payload)
                    t
                else t).samples
      go t q true = take_labels-IsUniform s now payload _ t f refl q
      go t q false = q
