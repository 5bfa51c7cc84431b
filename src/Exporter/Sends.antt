-- ===== src/Exporter/Sends.antt =====
-- `Collect` of internal/exporter/collector.go against what the client library promises.
use mqtt2prometheus.Base.{
  Text, ◌≡◌, refl, Bool, all, sym, subst, ap, ◌∙◌, true, false, ◌==◌, codes, Option, none, some,
  some-injective, List, [], ◌∷◌, map, length, All, All-In, Bool-cases, inl, inr,
}
use mqtt2prometheus.Base.Dict.{lookup, lookup-nil, NodupKeys, insert-NodupKeys, Distinct}
use mqtt2prometheus.Platform.{Platform}
use mqtt2prometheus.Config.Problems.{is_metric_name, is_label_name}
use mqtt2prometheus.Store.{
  Kind, gauge, counter, Sample, Series, Store, flatten, set, fresh, sample_of, snapshot,
}
use mqtt2prometheus.Store.Identity.{length-flatten}
use mqtt2prometheus.Store.History.{Write, write, run, written, id_of, lookup-set}
use mqtt2prometheus.Store.Uniform.{snapshot-Shows, update_lem}
use mqtt2prometheus.Source.{starts_with}
use mqtt2prometheus.Exporter.{
  ValueType, counter_value, gauge_value, value_type, ClientLibrary, Sent, metric, invalid_metric,
  sent, send_sample, collect,
}

-- the names that the client library wants: a label name does not begin with `__`, which is reserved
pub record AreNames (name : Text) (names : List Text) : Type 0 where
  pub metric : is_metric_name name ≡ true
  pub labels : All (λ n. (is_label_name n ≡ true) × (starts_with n (codes "__") ≡ false)) names
  pub distinct : Distinct names

-- what a scrape reads of a metric
pub record Reading (F : Type 0) : Type 0 where
  pub name : Text
  pub help : Text
  pub kind : Kind
  pub value : F
  pub labels : List Text × List Text

abbrev pub kind_of_type : ValueType → Kind
kind_of_type counter_value = counter
kind_of_type gauge_value = gauge

kind_of_type-value_type : (k : Kind) → kind_of_type (value_type k) ≡ k
unfolding value_type
kind_of_type-value_type gauge = refl
kind_of_type-value_type counter = refl

-- What `NewConstMetric` promises: with names as above and a value for each label it makes a metric,
-- which holds what it was given, if all values are valid UTF-8, as `utf8.ValidString` tells, and an
-- error otherwise.
pub record IsLibrary {F : Type 0} (L : ClientLibrary F) : Type 0 where
  pub reads : L.Metric → Reading F
  pub valid_string : Text → Bool
  pub accepts :
      (name help : Text) (names values : List Text) (type : ValueType) (value : F)
      → AreNames name names
      → length names ≡ length values
      → all values valid_string ≡ true
      → (m : L.Metric) × (L.new_const_metric (L.new_desc name help names) type value values
          ≡ some m)
        × (reads m ≡ record {
          name = name;
          help = help;
          kind = kind_of_type type;
          value = value;
          labels = (names, values);
        })
  pub refuses :
      (name help : Text) (names values : List Text) (type : ValueType) (value : F)
      → AreNames name names
      → length names ≡ length values
      → all values valid_string ≡ false
      → L.new_const_metric (L.new_desc name help names) type value values ≡ none

abbrev pub reading : {F : Type 0} → Sample F → Reading F
reading a = record {
  name = a.key.name;
  help = a.help;
  kind = a.kind;
  value = a.value;
  labels = (a.key.label_names, a.key.label_values);
}

abbrev Sendable : {F : Type 0} → Series F → Type 0
Sendable c = AreNames c.name c.names × (length c.names ≡ length c.values)

module _ (P : Platform) where
  open P use {Float}

  abbrev pub WriteNames : Write Float → Type 0
  WriteNames w = AreNames w.name (flatten w.labels).0

  record AllSendable (s : Store Float) : Type 0 where
    nodup : NodupKeys s
    at : (k : Text) (c : Series Float) → lookup k s ≡ some c → Sendable c

  written-Sendable :
      (w : Write Float) (o : Option (Series Float))
      → WriteNames w
      → ((c : Series Float) → o ≡ some c → Sendable c)
      → Sendable (written P o w)
  written-Sendable w none f h =
      let c = fresh P w.name w.kind w.help (flatten w.labels).0 (flatten w.labels).1 in
      let u = update_lem P w.kind w.help w.value c in
      unfold fresh in rw (u.name, u.names, u.values) (f, length-flatten w.labels)
  written-Sendable w (some c) f h =
      let u = update_lem P w.kind w.help w.value c in rw (u.name, u.names, u.values) (h c refl)

  write-AllSendable :
      (s : Store Float) (w : Write Float) → WriteNames w → AllSendable s → AllSendable (write P s w)
  write-AllSendable s w f h = record {
    nodup = unfold set in insert-NodupKeys _ _ s h.nodup;
    at = λ k c e. elim (Bool-cases (k == id_of w.name w.labels)) [
      | inl same ↦
          subst Sendable {x = written P (lookup k s) w} {y = c}
            (some-injective _ _ (cc (lookup-set P s w k, same, e)))
            (written-Sendable w (lookup k s) f (h.at k))
      | inr other ↦ h.at k c (cc (lookup-set P s w k, other))
    ];
  }

  run-AllSendable :
      (s : Store Float) (ws : List (Write Float))
      → All WriteNames ws
      → AllSendable s
      → AllSendable (run P s ws)
  run-AllSendable s [] f h = h
  run-AllSendable s (w ∷ ws) (f, fs) h =
      run-AllSendable (write P s w) ws fs (write-AllSendable s w f h)

  abbrev pub SampleNames : Sample Float → Type 0
  SampleNames a =
      AreNames a.key.name a.key.label_names × (length a.key.label_names ≡ length a.key.label_values)

  -- the samples of a store that such writes have built
  pub snapshot-SampleNames :
      (ws : List (Write Float)) → All WriteNames ws → All SampleNames (snapshot P (run P [] ws))
  snapshot-SampleNames ws f =
      let h =
        run-AllSendable [] ws f
          (record { nodup = tt; at = λ k c e. absurd (cc (lookup-nil {V = Series Float} k, e)) }) in
      All-In SampleNames _ (λ a in_snapshot.
        let shows = snapshot-Shows P a _ h.nodup in_snapshot in
        subst SampleNames (sym shows.shown)
          (unfold sample_of in h.at shows.key shows.series shows.stored))

  module _ (L : ClientLibrary Float) (law : IsLibrary L) where
    -- what is sent for a sample whose label values are valid, or not
    abbrev pub SendsIf : Bool → Sample Float → Sent L.Desc L.Metric → Type 0
    SendsIf true a x = (m : L.Metric) × (x ≡ metric m) × (law.reads m ≡ reading a)
    SendsIf false a x = x ≡ invalid_metric (L.new_desc a.key.name a.help a.key.label_names)

    abbrev pub Sends : Sample Float → Sent L.Desc L.Metric → Type 0
    Sends a x = SendsIf (all a.key.label_values law.valid_string) a x

    -- one for each sample, in order
    abbrev pub SendsAll : List (Sample Float) → List (Sent L.Desc L.Metric) → Type 0
    SendsAll [] [] = Unit
    SendsAll [] (x ∷ xs) = ⊥
    SendsAll (a ∷ samples) [] = ⊥
    SendsAll (a ∷ samples) (x ∷ xs) = Sends a x × SendsAll samples xs

    send_sample-Sends : (a : Sample Float) → SampleNames a → Sends a (send_sample P L a)
    unfolding send_sample
    send_sample-Sends a (names, paired) = go (all a.key.label_values law.valid_string) refl
      where
        desc : L.Desc
        desc = L.new_desc a.key.name a.help a.key.label_names

        go :
            (b : Bool)
            → all a.key.label_values law.valid_string ≡ b
            → SendsIf b a (
                sent (L.new_desc a.key.name a.help a.key.label_names) (
                  L.new_const_metric
                    (L.new_desc a.key.name a.help a.key.label_names)
                    (value_type a.kind)
                    a.value
                    a.key.label_values))
        go true e =
            let (m, made, holds) =
              law.accepts a.key.name a.help a.key.label_names a.key.label_values (value_type a.kind)
                a.value names paired e in
            (
              m,
              ap (sent (L.new_desc a.key.name a.help a.key.label_names)) made,
              holds
                  ∙ ap
                      (λ k. record {
                        name = a.key.name;
                        help = a.help;
                        kind = k;
                        value = a.value;
                        labels = (a.key.label_names, a.key.label_values);
                      })
                      (kind_of_type-value_type a.kind),
            )
        go false e = ap (sent (L.new_desc a.key.name a.help a.key.label_names)) (
            law.refuses a.key.name a.help a.key.label_names a.key.label_values (value_type a.kind)
              a.value names paired e)

    send_all :
        (samples : List (Sample Float))
        → All SampleNames samples
        → SendsAll samples (map (send_sample P L) samples)
    send_all [] h = tt
    send_all (a ∷ samples) (h, hs) = (send_sample-Sends a h, send_all samples hs)

    -- If every write to a store that was empty had a name and sorted label names that the client
    -- library wants, a scrape answers the samples of the snapshot one by one.
    pub collect_lem :
        (ws : List (Write Float))
        → All WriteNames ws
        → SendsAll (snapshot P (run P [] ws)) (collect P L (run P [] ws))
    unfolding collect
    collect_lem ws f = send_all (snapshot P (run P [] ws)) (snapshot-SampleNames ws f)
