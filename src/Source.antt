-- ===== src/Source.antt =====
-- internal/app/source.go: the sources that a configuration is compiled to, and what one message does
-- to the store. The time of the message is an argument; log lines are not modelled.
pub mod Topic
pub mod Conforms
pub mod Writes
pub mod Keeping
pub mod Fitting
pub mod Compiled
pub mod Families
use mqtt2prometheus.Base.{
  ◌≡◌, ap, Text, ℕ, Bool, true, false, not, ◌&&◌, ◌||◌, ◌==◌, eqb, codes, Option, none, some,
  get_or, List, [], ◌∷◌, ◌++◌, if◌then◌else◌,
}
use mqtt2prometheus.Base.Dict.{Dict}
use mqtt2prometheus.Base.Results.{Result, ok, err, ok-injective}
use mqtt2prometheus.Platform.{Platform}
use mqtt2prometheus.Config
use mqtt2prometheus.Config.{Config, effective_qos, effective_broker, heartbeat_help}
use mqtt2prometheus.Store.{Store, Kind, gauge, counter, set}
use mqtt2prometheus.Rules.Payload.{
  Failure, not_numeric, regex_no_match, bad_json, not_a_label, label, Outcome, found, absent,
  failed, panicked,
}
use mqtt2prometheus.Rules.Label.{Labels, compile_labels, resolve_labels}
use mqtt2prometheus.Rules.Rule.{
  Rule, Match, Applied, no_match, error, nothing, sample, crashed, compile_rule,
}
use mqtt2prometheus.Rules.Rule

pub record Source (F R : Type 0) : Type 0 where
  pub name : Text
  pub subscribe : Text
  pub qos : ℕ
  pub broker_url : Text
  pub last_updated_metric : Text
  pub labels : Labels
  pub rules : List (Rule F R)
  pub prefix : Text

-- The bytes before the first `+` or `#`; both are ASCII, so the loop over runes finds the same place.
unfoldable pub topic_prefix : Text → Text
topic_prefix [] = []
topic_prefix (c ∷ filter) =
    let rest = topic_prefix filter in if eqb c b'+' || eqb c b'#' then [] else c ∷ rest

unfoldable pub starts_with : Text → Text → Bool
starts_with s [] = true
starts_with [] (c ∷ prefix) = false
starts_with (b ∷ s) (c ∷ prefix) = eqb b c && starts_with s prefix

unfoldable pub owns : {F R : Type 0} → Source F R → Text → Bool
unfolding starts_with
owns s topic = starts_with topic s.prefix

unfoldable pub kind_of : {F R : Type 0} → Rule F R → Kind
kind_of r = if r.counter then counter else gauge

-- the names that `metricNames` collects for the rules
unfoldable pub rule_metric_names : {F R : Type 0} → List (Rule F R) → List Text
rule_metric_names [] = []
rule_metric_names (r ∷ rules) =
    let rest = rule_metric_names rules in
    r.metric_name
    ∷ (if not (r.last_updated_metric == []) then r.last_updated_metric ∷ rest else rest)

unfoldable pub metric_names : {F R : Type 0} → Source F R → List Text
unfolding rule_metric_names
metric_names s =
    rule_metric_names s.rules
    ++ (if not (s.last_updated_metric == []) then s.last_updated_metric ∷ [] else [])

-- `errors.Is` looks through the wrapping by a label.
unfoldable pub reason_of : Failure → Text
reason_of bad_json = codes "json"
reason_of regex_no_match = codes "regex"
reason_of not_numeric = codes "not_numeric"
reason_of not_a_label = codes "other"
reason_of (label name e) = reason_of e

-- The variables of `apply`; `crashed` tells that an index was out of range on the way.
pub record Progress (F : Type 0) : Type 0 where
  pub samples : Store F
  pub problems : List Failure
  pub matched : Bool
  pub crashed : Bool

-- How `compileSources` fails: with the error of a rule, or in the panic of a nil `qos`.
pub data CompileError : Type 0 where
  bad_rule : CompileError
  nil_qos : CompileError

abbrev pub of_rules : {A : Type 0} → Option A → Result CompileError A
of_rules none = err bad_rule
of_rules (some a) = ok a

pub of_rules-eq-ok : {A : Type 0} (o : Option A) (a : A) → of_rules o ≡ ok a → o ≡ some a
of_rules-eq-ok none a h = cc
of_rules-eq-ok (some b) a h = ap some (ok-injective b a h)

module _ (P : Platform) where
  open P use {Float, Regexp, seconds}

  unfoldable pub compile_rules :
      Config.Source Float → List (Config.Rule Float) → Option (List (Rule Float Regexp))
  compile_rules declared [] = some []
  compile_rules declared (r ∷ rules) = elim (compile_rule P declared r) [
    | none ↦ none
    | some compiled ↦ elim (compile_rules declared rules) [
      | none ↦ none
      | some rest ↦ some (compiled ∷ rest)
    ]
  ]

  abbrev pub source_of :
      Config.Source Float → ℕ → Text → List (Rule Float Regexp) → Source Float Regexp
  source_of declared qos broker rules = record {
    name = declared.name;
    subscribe = declared.subscribe;
    qos = effective_qos declared qos;
    broker_url = effective_broker declared broker;
    last_updated_metric = declared.last_updated_metric;
    labels = compile_labels declared.labels;
    rules = rules;
    prefix = topic_prefix declared.subscribe;
  }

  -- the loop of `compileSources`, with `*cfg.MQTT.QoS` and `cfg.MQTT.Broker`
  unfoldable pub compile_list :
      ℕ → Text → List (Config.Source Float) → Option (List (Source Float Regexp))
  unfolding compile_rules
  compile_list qos broker [] = some []
  compile_list qos broker (declared ∷ sources) = elim (compile_rules declared declared.rules) [
    | none ↦ none
    | some rules ↦ elim (compile_list qos broker sources) [
      | none ↦ none
      | some rest ↦ some (source_of declared qos broker rules ∷ rest)
    ]
  ]

  -- `*cfg.MQTT.QoS` is read for each source, before its rules are compiled.
  abbrev pub compile_with :
      Option ℕ
      → Text
      → List (Config.Source Float)
      → Result CompileError (List (Source Float Regexp))
  compile_with none broker [] = ok []
  compile_with none broker (s ∷ sources) = err nil_qos
  compile_with (some qos) broker sources = of_rules (compile_list qos broker sources)

  unfoldable pub compile_sources : Config Float → Result CompileError (List (Source Float Regexp))
  unfolding compile_list
  compile_sources cfg = compile_with cfg.mqtt.qos cfg.mqtt.broker cfg.source_list

  -- the write of a `last_updated_metric`, where there is one
  unfoldable pub beat : Text → Dict Text → ℕ → Store Float → Store Float
  beat name labels now samples =
      if not (name == [])
      then set P samples name gauge heartbeat_help labels (seconds now)
      else samples

  -- the writes for a sample of a rule
  unfoldable pub record_sample : Rule Float Regexp → Match Float → ℕ → Store Float → Store Float
  unfolding beat kind_of
  record_sample r result now samples =
      beat r.last_updated_metric result.labels now
        (set P samples r.metric_name (kind_of r) r.help result.labels result.value)

  -- one round of the loop over the rules, on what `Apply` returned
  unfoldable pub take_result :
      Rule Float Regexp → ℕ → Applied Float → Progress Float → Progress Float
  unfolding record_sample
  take_result r now no_match t = t
  take_result r now (error e) t = record t { problems = t.problems ++ e ∷ []; matched = true }
  take_result r now nothing t = record t { matched = true }
  take_result r now (sample m) t = record t {
    samples = record_sample r m now t.samples;
    matched = true;
  }
  take_result r now crashed t = record t { crashed = true }

  unfoldable pub apply_rules :
      List (Rule Float Regexp) → ℕ → Text → Text → Progress Float → Progress Float
  unfolding take_result
  apply_rules [] now topic payload t = t
  apply_rules (r ∷ rules) now topic payload t =
      apply_rules rules now topic payload (take_result r now (Rule.apply P r topic payload) t)

  -- the `switch` on what `Resolve` returned
  unfoldable pub take_labels : Text → ℕ → Outcome (Dict Text) → Progress Float → Progress Float
  unfolding beat
  take_labels name now (found labels) t = record t { samples = beat name labels now t.samples }
  take_labels name now absent t = t
  take_labels name now (failed e) t = record t { problems = t.problems ++ e ∷ [] }
  take_labels name now panicked t = record t { crashed = true }

  unfoldable pub apply : Source Float Regexp → Store Float → ℕ → Text → Text → Progress Float
  unfolding apply_rules take_labels
  apply s samples now topic payload =
      let t =
        apply_rules s.rules now topic payload
          (record { samples = samples; problems = []; matched = false; crashed = false }) in
      if t.matched && not (s.last_updated_metric == [])
      then take_labels s.last_updated_metric now (resolve_labels P s.labels [] payload) t
      else t
