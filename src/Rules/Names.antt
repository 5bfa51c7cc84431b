-- ===== src/Rules/Names.antt =====
-- The label names of a sample are the label names of its rule.
use mqtt2prometheus.Base.{
  Text, ◌≡◌, ◌∙◌, subst, ◌||◌, less, Option, none, some, get_or, List, [], ◌∷◌, arith,
}
use mqtt2prometheus.Base.Dict.{
  Dict, keys, lookup, insert, contains-keys-insert, NodupKeys, insert-NodupKeys, keys-Distinct,
  contains, contains-nil, contains-cons, Distinct,
}
use mqtt2prometheus.Base.Sort.{
  IsOrdered, contains-sort_texts, sort_texts-IsOrdered, sort_texts-Distinct, IsOrdered-unique,
}
use mqtt2prometheus.Platform.{Platform}
use mqtt2prometheus.Store.{flatten}
use mqtt2prometheus.Rules.Payload.{found, >>=-eq-found, found-injective}
use mqtt2prometheus.Rules.Label.{
  Labels, LabelExtractor, in_label, resolve, resolve_from, resolve_labels, zero_extractor,
}
use mqtt2prometheus.Rules.Rule.{
  Rule, Match, sample, capture, auto_label, auto_from, sample_from, apply_captured, apply_groups,
  apply,
}
use mqtt2prometheus.Rules.Value.{extract}

-- `labels` has exactly the keys `names`, once each.
pub record HasNames (names : List Text) (resolved labels : Dict Text) : Type 0 where
  pub nodup : NodupKeys labels
  pub same :
      (k : Text) → contains k (keys labels) ≡ (contains k names || contains k (keys resolved))

HasNames-insert :
    (name : Text) (names : List Text) (v : Text) (resolved labels : Dict Text)
    → HasNames names (insert name v resolved) labels
    → HasNames (name ∷ names) resolved labels
HasNames-insert name names v resolved labels h = record {
  nodup = h.nodup;
  same = λ k.
      ground (arith, h.same k, contains-keys-insert k name v resolved, contains-cons k name names);
}

module _ (P : Platform) where
  open P use {Float, Regexp}

  pub auto_from-HasNames :
      (l : Labels) (names : List Text) (captured : Dict Text) (payload : Text)
      (resolved labels : Dict Text)
      → NodupKeys resolved
      → auto_from P l names captured payload resolved ≡ found labels
      → HasNames names resolved labels
  unfolding auto_from
  auto_from-HasNames l [] captured payload resolved labels n h =
      let e : resolved ≡ labels = found-injective h in
      subst (HasNames [] resolved) e (record { nodup = n; same = λ k. rw contains-nil })
  auto_from-HasNames l (name ∷ names) captured payload resolved labels n h =
      let (v, _, rest) = >>=-eq-found (auto_label P l name captured payload) _ h in
      HasNames-insert name names v resolved labels (
        auto_from-HasNames l names captured payload (insert name v resolved) labels
          (insert-NodupKeys name v resolved n) rest)

  resolve_from-HasNames :
      (es : Dict LabelExtractor) (names : List Text) (captured : Dict Text) (payload : Text)
      (resolved labels : Dict Text)
      → NodupKeys resolved
      → resolve_from P es names captured payload resolved ≡ found labels
      → HasNames names resolved labels
  unfolding resolve_from
  resolve_from-HasNames es [] captured payload resolved labels n h =
      let e : resolved ≡ labels = found-injective h in
      subst (HasNames [] resolved) e (record { nodup = n; same = λ k. rw contains-nil })
  resolve_from-HasNames es (name ∷ names) captured payload resolved labels n h =
      let (v, _, rest) =
        >>=-eq-found
          (in_label name (resolve P (get_or (lookup name es) zero_extractor) captured payload)) _
          h in
      HasNames-insert name names v resolved labels (
        resolve_from-HasNames es names captured payload (insert name v resolved) labels
          (insert-NodupKeys name v resolved n) rest)

-- A map with exactly the names of a sorted list without duplicates is flattened to that list.
pub flatten-HasNames :
    (names : List Text) (labels : Dict Text)
    → IsOrdered less names
    → Distinct names
    → HasNames names [] labels
    → (flatten labels).0 ≡ names
unfolding flatten
flatten-HasNames names labels o d h =
    IsOrdered-unique _ _ (sort_texts-IsOrdered _) o
      (sort_texts-Distinct _ (keys-Distinct labels h.nodup)) d
      (λ k. contains-sort_texts k (keys labels) ∙ h.same k ∙ ground (arith, contains-nil k))

module _ (P : Platform) where
  open P use {Float, Regexp}

  captured-sample :
      (r : Rule Float Regexp) (o : Option (Dict Text)) (payload : Text) (m : Match Float)
      → apply_captured P r o payload ≡ sample m
      → (captured : Dict Text) × (sample_from P r captured payload ≡ found m)
  unfolding apply_captured
  captured-sample r none payload m h = cc
  captured-sample r (some captured) payload m h = (captured, ground arith)

  groups-sample :
      (r : Rule Float Regexp) (o : Option (List Text)) (payload : Text) (m : Match Float)
      → apply_groups P r o payload ≡ sample m
      → (captured : Dict Text) × (sample_from P r captured payload ≡ found m)
  unfolding apply_groups
  groups-sample r none payload m h = cc
  groups-sample r (some groups) payload m h =
      captured-sample r (capture (P.subexp_names r.match) groups []) payload m h

  labels-sample :
      (r : Rule Float Regexp) (captured : Dict Text) (payload : Text) (m : Match Float)
      → sample_from P r captured payload ≡ found m
      → auto_from P r.labels r.auto_labels captured payload [] ≡ found m.labels
  unfolding sample_from
  labels-sample r captured payload m h =
      let (v, _, rest) = >>=-eq-found (extract P r.value payload) _ h in
      let (ls, e, last) =
        >>=-eq-found (auto_from P r.labels r.auto_labels captured payload []) _ rest in
      e ∙ ground (arith, found-injective last)

  -- Where the label names of a rule are in order and distinct, every sample of the rule has exactly
  -- these label names.
  pub apply_names :
      (r : Rule Float Regexp) (topic payload : Text) (m : Match Float)
      → IsOrdered less r.auto_labels
      → Distinct r.auto_labels
      → apply P r topic payload ≡ sample m
      → (flatten m.labels).0 ≡ r.auto_labels
  unfolding apply
  apply_names r topic payload m o d h =
      let (captured, e) = groups-sample r (P.find_submatch r.match topic) payload m h in
      flatten-HasNames r.auto_labels m.labels o d (
        auto_from-HasNames P r.labels r.auto_labels captured payload [] m.labels tt
          (labels-sample r captured payload m e))

  -- Resolved source labels have the names of the source's labels.
  pub resolve_labels_names :
      (l : Labels) (captured : Dict Text) (payload : Text) (labels : Dict Text)
      → IsOrdered less l.names
      → Distinct l.names
      → resolve_labels P l captured payload ≡ found labels
      → (flatten labels).0 ≡ l.names
  unfolding resolve_labels
  resolve_labels_names l captured payload labels o d h =
      flatten-HasNames l.names labels o d
        (resolve_from-HasNames P l.extractors l.names captured payload [] labels tt h)
