-- ===== src/Exporter.antt =====
-- internal/exporter/collector.go and internal/exporter/self.go: what a scrape sends for the samples of
-- the store, and the metrics of the program itself with their registration. The Prometheus client
-- library is a parameter.
pub mod Sends
pub mod Register
pub mod Names
pub mod Serves
use mqtt2prometheus.Base.{Text, Bool, codes, Option, none, some, List, [], ◌∷◌, map, if◌then◌else◌}
use mqtt2prometheus.Platform.{Platform}
use mqtt2prometheus.Store.{Kind, gauge, counter, Sample, Store, snapshot}
use mqtt2prometheus.Outcome.{failed, Answer, ok, err, ◌>>=◌}

pub data ValueType : Type 0 where
  counter_value : ValueType
  gauge_value : ValueType

unfoldable pub value_type : Kind → ValueType
value_type counter = counter_value
value_type gauge = gauge_value

-- `prometheus.NewDesc` and `prometheus.NewConstMetric`, which may refuse
pub record ClientLibrary (F : Type 0) : Type 1 where
  pub Desc : Type 0
  pub Metric : Type 0
  pub new_desc : Text → Text → List Text → Desc
  pub new_const_metric : Desc → ValueType → F → List Text → Option Metric

-- what `Collect` sends
pub data Sent (D M : Type 0) : Type 0 where
  metric : M → Sent D M
  invalid_metric : D → Sent D M

abbrev pub sent : {D M : Type 0} → D → Option M → Sent D M
sent desc none = invalid_metric desc
sent desc (some m) = metric m

module _ (P : Platform) (L : ClientLibrary P.Float) where
  open P use {Float}
  open L use {Desc, Metric, new_desc, new_const_metric}

  unfoldable pub send_sample : Sample Float → Sent Desc Metric
  unfolding value_type
  send_sample s =
      let desc = new_desc s.key.name s.help s.key.label_names in
      sent desc (new_const_metric desc (value_type s.kind) s.value s.key.label_values)

  unfoldable pub collect : Store Float → List (Sent Desc Metric)
  unfolding send_sample
  collect store = map send_sample (snapshot P store)

-- the constructors of the library that `NewSelf` calls
pub data OwnType : Type 0 where
  gauge_vec : OwnType
  own_gauge : OwnType
  own_counter : OwnType
  counter_vec : OwnType
  gauge_func : OwnType

pub record OwnMetric : Type 0 where
  pub type : OwnType
  pub name : Text
  pub help : Text
  pub labels : List Text

-- the `registerTargets` of `NewSelf`
unfoldable pub own_metrics : List OwnMetric
own_metrics =
    record {
      type = gauge_vec;
      name = codes "mqtt2prom_build_info";
      help = codes "Build information, always 1";
      labels = codes "version" ∷ codes "commit" ∷ codes "go_version" ∷ [];
    }
    ∷ record {
      type = own_gauge;
      name = codes "mqtt2prom_mqtt_connected";
      help = codes "1 when the MQTT connection is up";
      labels = [];
    }
    ∷ record {
      type = own_counter;
      name = codes "mqtt2prom_mqtt_reconnects_total";
      help = codes "Number of times the MQTT connection was re-established";
      labels = [];
    }
    ∷ record {
      type = counter_vec;
      name = codes "mqtt2prom_messages_received_total";
      help = codes "MQTT messages handed to a source";
      labels = codes "source" ∷ [];
    }
    ∷ record {
      type = own_counter;
      name = codes "mqtt2prom_messages_dropped_total";
      help = codes "Messages dropped because a source buffer was full";
      labels = [];
    }
    ∷ record {
      type = counter_vec;
      name = codes "mqtt2prom_message_errors_total";
      help = codes "Messages a rule matched but could not turn into a value";
      labels = codes "source" ∷ codes "reason" ∷ [];
    }
    ∷ record {
      type = gauge_func;
      name = codes "mqtt2prom_series";
      help = codes "Series currently held in the sample store";
      labels = [];
    }
    ∷ []

-- what is registered: a metric of `Self`, or the collector of the samples
pub data Target : Type 0 where
  own : OwnMetric → Target
  samples : Target

-- what the `Register` of a registry answers: the registry after it, or an error
pub data Registered (E R : Type 0) : Type 0 where
  added : R → Registered E R
  refused : E → Registered E R

abbrev pub of_registered : {E R : Type 0} → Registered E R → Answer E R
of_registered (added reg) = ok reg
of_registered (refused e) = err (failed (e ∷ []))

-- `Register`
unfoldable pub register_all :
    {E R : Type 0} → (R → Target → Registered E R) → R → List Target → Answer E R
register_all register reg [] = ok reg
register_all register reg (t ∷ targets) = do
  reg ← of_registered (register reg t)
  register_all register reg targets

-- the values that `Self` sets
pub record Gauges (F : Type 0) : Type 0 where
  pub build_info : Option (List Text × F)
  pub connected : F

module _ (P : Platform) where
  open P use {Float, zero, one}

  unfoldable pub set_build_info : Text → Text → Text → Gauges Float → Gauges Float
  set_build_info version commit go_version g = record g {
    build_info = some (version ∷ commit ∷ go_version ∷ [], one);
  }

  unfoldable pub set_connected : Bool → Gauges Float → Gauges Float
  set_connected up g = if up then record g { connected = one } else record g { connected = zero }
