-- ===== src/Config/Validate/Sound.antt =====
-- `Validate` as a whole: a configuration without problems is valid.
use mqtt2prometheus.Base.{
  Text, ◌≡◌, ◌≢◌, refl, false, eq_iff, eq_refl, Option, none, some, List, [], ◌∷◌, All, arith,
}
use mqtt2prometheus.Base.Dict.{
  Dict, lookup, lookup-insert, contains, contains-cons, contains-nil, Distinct,
}
use mqtt2prometheus.Platform.{Platform}
use mqtt2prometheus.Config.{Config, Source}
use mqtt2prometheus.Config.Problems.{append-ne-nil}
use mqtt2prometheus.Config.Fields.Process.{IsProcess, validate_process-eq-nil}
use mqtt2prometheus.Config.Metrics.{Shape, Seen}
use mqtt2prometheus.Config.Metrics.Laws.{
  Adds, Adds-refl, Adds-trans, IsSourceRecorded, IsSourceRecorded-keeps,
  validate_metric_consistency-Adds,
}
use mqtt2prometheus.Config.Validate.{
  Progress, found_name, validate_source, check_name, check_source, check_sources, validate,
}
use mqtt2prometheus.Config.Validate.Spec.{IsSource, validate_source_lem}

module _ (P : Platform) where
  open P use {Float}

  -- the name of the source is new and is now known
  record Names (t : Progress) (name : Text) (after : Progress) : Type 0 where
    fresh : lookup name t.seen_source ≡ none
    start : t.problems ≡ []
    shapes : after.shapes ≡ t.shapes
    known : lookup name after.seen_source ≢ none
    keeps : (k : Text) → lookup k after.seen_source ≡ none → lookup k t.seen_source ≡ none

  found_name_lem :
      (s : Source Float) (t : Progress) (o : Option Text)
      → s.name ≢ []
      → lookup s.name t.seen_source ≡ o
      → (found_name P o s t).problems ≡ []
      → Names t s.name (found_name P o s t)
  unfolding found_name
  found_name_lem s t (some first) n e h = absurd (append-ne-nil _ _ h)
  found_name_lem s t none n e h =
      let keys = λ (k : Text). lookup-insert k s.name s.path t.seen_source in
      record {
        fresh = e;
        start = ground (arith, eq_iff s.name []);
        shapes = ground (arith, eq_iff s.name []);
        known = ground (arith, eq_iff s.name [], keys s.name, eq_refl s.name);
        keeps = λ k q. ground (arith, eq_iff s.name [], keys k);
      }

  check_name_lem :
      (s : Source Float) (t : Progress)
      → s.name ≢ []
      → (check_name P s t).problems ≡ []
      → Names t s.name (check_name P s t)
  unfolding check_name
  check_name_lem s t n h = found_name_lem s t (lookup s.name t.seen_source) n refl h

  problems-found_name :
      (s : Source Float) (t : Progress) (o : Option Text)
      → (found_name P o s t).problems ≡ []
      → t.problems ≡ []
  unfolding found_name
  problems-found_name s t (some first) h = absurd (append-ne-nil _ _ h)
  problems-found_name s t none h = ground arith

  problems-check_name :
      (s : Source Float) (t : Progress) → (check_name P s t).problems ≡ [] → t.problems ≡ []
  unfolding check_name
  problems-check_name s t = problems-found_name s t (lookup s.name t.seen_source)

  abbrev seen_of : Progress → Seen
  seen_of t = (t.problems, t.shapes)

  -- what one round of the loop has checked, if there is no problem after it
  record Checked (s : Source Float) (t : Progress) (after : Progress) : Type 0 where
    valid : IsSource P s
    adds : Adds (seen_of t) (seen_of after)
    recorded : IsSourceRecorded P after.shapes s
    fresh : lookup s.name t.seen_source ≡ none
    known : lookup s.name after.seen_source ≢ none
    keeps : (k : Text) → lookup k after.seen_source ≡ none → lookup k t.seen_source ≡ none

  check_source_lem :
      (s : Source Float) (t : Progress)
      → (check_source P s t).problems ≡ []
      → Checked s t (check_source P s t)
  unfolding check_source
  check_source_lem s t h =
      let t₀ : Progress = record t { problems = validate_source P s t.problems } in
      let t₁ = check_name P s t₀ in
      let (adds, recorded) = validate_metric_consistency-Adds P s (seen_of t₁) h in
      let (start, valid) =
        validate_source_lem P s t.problems (problems-check_name s t₀ adds.start) in
      let names = check_name_lem s t₀ valid.name adds.start in
      record {
        valid = valid;
        adds = record { start = start; keeps = λ k m e. adds.keeps k m (rw names.shapes e) };
        recorded = recorded;
        fresh = names.fresh;
        known = names.known;
        keeps = names.keeps;
      }

  -- Every source is valid, and has its metrics in the map with the shapes that it declares.
  abbrev pub Accepted : Dict Shape → Source Float → Type 0
  Accepted shapes s = IsSource P s × IsSourceRecorded P shapes s

  abbrev pub names_of : List (Source Float) → List Text
  names_of [] = []
  names_of (s ∷ sources) = s.name ∷ names_of sources

  record AllChecked (sources : List (Source Float)) (t : Progress) (after : Progress) : Type 0 where
    adds : Adds (seen_of t) (seen_of after)
    accepted : All (Accepted after.shapes) sources
    distinct : Distinct (names_of sources)
    fresh : (k : Text) → lookup k t.seen_source ≢ none → contains k (names_of sources) ≡ false

  check_sources_lem :
      (sources : List (Source Float)) (t : Progress)
      → (check_sources P sources t).problems ≡ []
      → AllChecked sources t (check_sources P sources t)
  unfolding check_sources
  check_sources_lem [] t h = record {
    adds = Adds-refl _ h;
    accepted = tt;
    distinct = tt;
    fresh = λ k n. contains-nil k;
  }
  check_sources_lem (s ∷ sources) t h =
      let t₁ = check_source P s t in
      let all = check_sources_lem sources t₁ h in
      let one = check_source_lem s t all.adds.start in
      record {
        adds = Adds-trans _ _ _ one.adds all.adds;
        accepted = (
          (one.valid, IsSourceRecorded-keeps P (seen_of t₁) _ s all.adds one.recorded),
          all.accepted,
        );
        distinct = (all.fresh s.name one.known, all.distinct);
        fresh = λ k n. ground (
          arith,
          contains-cons k s.name (names_of sources),
          eq_iff k s.name,
          one.fresh,
          all.fresh k (λ e. n (one.keeps k e)),
        );
      }

  -- What a valid configuration is: the process section is complete, the sources have names of their
  -- own and are valid, and one map gives each metric name its only shape.
  pub record IsConfig (c : Config Float) : Type 0 where
    pub process : IsProcess c
    pub distinct : Distinct (names_of c.source_list)
    pub shapes : Dict Shape
    pub accepted : All (Accepted shapes) c.source_list

  -- A configuration in which `Validate` finds no problem is valid: its process section is complete, its
  -- sources are valid and have names of their own, and one map gives every metric its shape.
  pub validate_sound : (c : Config Float) → validate P c ≡ [] → IsConfig c
  unfolding validate
  validate_sound c h =
      let all = check_sources_lem c.source_list _ h in
      record {
        process = ((validate_process-eq-nil c []).0 all.adds.start).1;
        distinct = all.distinct;
        shapes = _;
        accepted = all.accepted;
      }
