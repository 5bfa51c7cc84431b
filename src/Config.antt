-- ===== src/Config.antt =====
-- internal/config/config.go: what the configuration files hold. A pointer that may be nil, and a map
-- that may be absent, is an `Option`.
pub mod Template
pub mod Labels
pub mod Problems
pub mod Fields
pub mod Metrics
pub mod Validate
use mqtt2prometheus.Base.{Text, ℕ, Bool, not, ◌==◌, Option, get_or, List, [], codes, if◌then◌else◌}
use mqtt2prometheus.Base.Dict.{Dict}

pub record Mqtt : Type 0 where
  pub broker : Text
  pub client_id : Text
  pub username : Text
  pub password : Text
  pub qos : Option ℕ
  pub clean_session : Option Bool

pub record Label : Type 0 where
  pub from : Text
  pub value : Text
  pub path : Text
  pub mapping : Option (Dict Text)

pub record Value (F : Type 0) : Type 0 where
  pub from : Text
  pub path : Text
  pub regex : Text
  pub scale : Option F
  pub mapping : Option (Dict F)

pub record Rule (F : Type 0) : Type 0 where
  pub match : Text
  pub metric_name : Text
  pub type : Text
  pub help : Text
  pub value : Value F
  pub last_updated_metric : Text
  pub labels : Dict Label

pub record Source (F : Type 0) : Type 0 where
  pub name : Text
  pub broker : Text
  pub subscribe : Text
  pub qos : Option ℕ
  pub last_updated_metric : Text
  pub labels : Dict Label
  pub rules : List (Rule F)
  pub path : Text

-- `server.listen` and `log.level` stand for the records that hold nothing else.
pub record Config (F : Type 0) : Type 0 where
  pub mqtt : Mqtt
  pub listen : Text
  pub log_level : Text
  pub sources : Text
  pub source_list : List (Source F)

abbrev pub heartbeat_help : Text
heartbeat_help = codes "Unix time of the last message this rule matched"

abbrev pub type_gauge : Text
type_gauge = codes "gauge"

abbrev pub type_counter : Text
type_counter = codes "counter"

abbrev pub from_json : Text
from_json = codes "json"

abbrev pub from_raw : Text
from_raw = codes "raw"

abbrev pub from_static : Text
from_static = codes "static"

unfoldable pub effective_qos : {F : Type 0} → Source F → ℕ → ℕ
effective_qos s global = get_or s.qos global

unfoldable pub effective_broker : {F : Type 0} → Source F → Text → Text
effective_broker s global = if not (s.broker == []) then s.broker else global
