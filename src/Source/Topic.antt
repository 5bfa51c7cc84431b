-- ===== src/Source/Topic.antt =====
-- `topicPrefix` and `owns` of internal/app/source.go against the topic filters of MQTT.
use mqtt2prometheus.Base.{Text, ℕ, ◌≡◌, ◌≢◌, refl, true, false, [], ◌∷◌, ◌++◌, All, arith}
use mqtt2prometheus.Source.{Source, topic_prefix, starts_with, owns}

-- A filter against a topic, level by level, as the MQTT standard has it: `+` stands for the rest of
-- a level and `#` for the rest of the topic. The special case of the standard, by which `a/#` also
-- matches `a`, is `parent`. Topics that begin with `$`, which the standard keeps from a leading
-- wildcard, are not singled out.
pub data Matches : Text → Text → Type 0 where
  done : Matches [] []
  rest : (topic : Text) → Matches (b'#' ∷ []) topic
  level :
      {filter topic : Text} (part : Text)
      → All (λ (c : ℕ). c ≢ b'/') part
      → Matches filter topic
      → Matches (b'+' ∷ filter) (part ++ topic)
  same : {filter topic : Text} (c : ℕ) → Matches filter topic → Matches (c ∷ filter) (c ∷ topic)
  parent : Matches (b'/' ∷ b'#' ∷ []) []

-- the matches that do not use the special case
abbrev pub IsPlain : {filter topic : Text} → Matches filter topic → Type 0
IsPlain done = Unit
IsPlain (rest topic) = Unit
IsPlain (level part h m) = IsPlain m
IsPlain (same c m) = IsPlain m
IsPlain parent = ⊥

-- A topic that the filter matches begins with the filter's prefix, if the parent case is not used.
pub starts_with-topic_prefix :
    {filter topic : Text} (m : Matches filter topic)
    → IsPlain m
    → starts_with topic (topic_prefix filter) ≡ true
unfolding starts_with topic_prefix
starts_with-topic_prefix done h = refl
starts_with-topic_prefix (rest topic) h = ground arith
starts_with-topic_prefix (level part g m) h = ground arith
starts_with-topic_prefix (same c m) h = ground (arith, starts_with-topic_prefix m h)
starts_with-topic_prefix parent h = absurd h

-- A source whose prefix is that of a topic filter owns every topic that the filter matches, if the
-- match does not use the parent case.
pub owns-Matches :
    {F R : Type 0} (s : Source F R) {filter topic : Text} (m : Matches filter topic)
    → s.prefix ≡ topic_prefix filter
    → IsPlain m
    → owns s topic ≡ true
unfolding owns
owns-Matches s {topic = topic} m e h = rw e (starts_with-topic_prefix m h)

abbrev pub NoWildcard : Text → Type 0
NoWildcard = All (λ (c : ℕ). (c ≢ b'+') × (c ≢ b'#'))

Matches-parent : (name : Text) → Matches (name ++ b'/' ∷ b'#' ∷ []) name
Matches-parent [] = parent
Matches-parent (c ∷ name) = same c (Matches-parent name)

not-starts_with-parent :
    (name : Text)
    → NoWildcard name
    → starts_with name (topic_prefix (name ++ b'/' ∷ b'#' ∷ [])) ≡ false
unfolding starts_with topic_prefix
not-starts_with-parent [] h = refl
not-starts_with-parent (c ∷ name) ((p, q), h) = ground (arith, not-starts_with-parent name h)

-- The parent case is lost: for a name without wildcards the filter `name/#` matches the topic `name`,
-- and a source with the prefix of this filter does not own the topic.
pub parent_not_owned :
    {F R : Type 0} (s : Source F R) (name : Text)
    → s.prefix ≡ topic_prefix (name ++ b'/' ∷ b'#' ∷ [])
    → NoWildcard name
    → Matches (name ++ b'/' ∷ b'#' ∷ []) name × (owns s name ≡ false)
unfolding owns
parent_not_owned s name e h = (Matches-parent name, rw e (not-starts_with-parent name h))
