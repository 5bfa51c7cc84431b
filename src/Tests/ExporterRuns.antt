-- ===== src/Tests/ExporterRuns.antt =====
-- A client library that keeps what it is given, and a registry that keeps names.
use mqtt2prometheus.Base.{
  Text, ℕ, refl, Bool, true, false, not, all, codes, Option, none, some, List, [], ◌∷◌, All, ◌==◌,
}
use mqtt2prometheus.Base.Dict.{contains}
use mqtt2prometheus.Config.Labels.{named}
use mqtt2prometheus.Store.{snapshot}
use mqtt2prometheus.Source.{starts_with}
use mqtt2prometheus.Router.Threads.{start_threads, steps}
use mqtt2prometheus.Exporter.{
  ClientLibrary, collect, own_metrics, Target, own, samples, Registered, added, refused,
}
use mqtt2prometheus.Exporter.Sends.{Reading, kind_of_type, IsLibrary, SendsAll}
use mqtt2prometheus.Exporter.Register.{IsRegistry, IsNew}
use mqtt2prometheus.Exporter.Names.{IsFreeRule, IsFreeSource}
use mqtt2prometheus.Exporter.Serves.{scrapes_valid}
use mqtt2prometheus.Tests.Toy.{toy}
use mqtt2prometheus.Tests.ConfigRuns.{source_a, raw_rule, config_a, no_problems}
use mqtt2prometheus.Tests.SourceRuns.{compiled, made}
use mqtt2prometheus.Tests.ThreadRuns.{actions}

-- A text that is one question mark stands for one that is not valid UTF-8.
abbrev made_if : {A : Type 0} → Bool → A → Option A
made_if false x = none
made_if true x = some x

abbrev library : ClientLibrary ℕ
library = record {
  Desc = Text × Text × List Text;
  Metric = Reading ℕ;
  new_desc = λ name help names. (name, help, names);
  new_const_metric = λ desc type value values.
      made_if (all values (λ v. not (v == codes "?"))) (record {
        name = desc.0;
        help = desc.1;
        kind = kind_of_type type;
        value = value;
        labels = (desc.2, values);
      });
}

library-IsLibrary : IsLibrary library
library-IsLibrary = record {
  reads = λ m. m;
  valid_string = λ v. not (v == codes "?");
  accepts = λ name help names values type value h k e. (
    record {
      name = name;
      help = help;
      kind = kind_of_type type;
      value = value;
      labels = (names, values);
    },
    rw e refl,
    refl,
  );
  refuses = λ name help names values type value h k e. rw e refl;
}

raw_rule-IsFreeRule : (match : Text) → IsFreeRule toy (raw_rule match)
unfolding named starts_with ◌==◌
raw_rule-IsFreeRule match = record { labels = (refl, tt); captures = λ re e. (refl, tt) }

source_a-IsFreeSource : IsFreeSource toy source_a
source_a-IsFreeSource = record {
  nodup = tt;
  labels = tt;
  rules = (raw_rule-IsFreeRule (codes "a/x"), (raw_rule-IsFreeRule (codes "a/y"), tt));
  heartbeat = λ given. absurd (given refl);
}

scrapes_valid_example :
    SendsAll toy library library-IsLibrary
      (snapshot toy (steps toy (start_threads [] (compiled ∷ [])) actions).samples)
      (collect toy library (steps toy (start_threads [] (compiled ∷ [])) actions).samples)
scrapes_valid_example =
    scrapes_valid toy library library-IsLibrary config_a (compiled ∷ []) actions no_problems
      (source_a-IsFreeSource, tt) made

abbrev add_name : Bool → List Text → Text → Registered Text (List Text)
add_name true reg name = refused name
add_name false reg name = added (name ∷ reg)

abbrev pub register_name : List Text → Target → Registered Text (List Text)
register_name reg (own m) = add_name (contains m.name reg) reg m.name
register_name reg samples = added reg

unfoldable pub register_name-IsRegistry : IsRegistry register_name
register_name-IsRegistry = record {
  names = λ reg. reg;
  accepts = λ reg m h k d e. (m.name ∷ reg, rw e refl, refl);
  unchecked = λ reg. (reg, refl, refl);
}

pub own_metrics-IsNew : All (IsNew []) own_metrics
unfolding own_metrics contains
own_metrics-IsNew = (refl, (refl, (refl, (refl, (refl, (refl, (refl, tt)))))))
