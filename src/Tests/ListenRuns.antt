-- ===== src/Tests/ListenRuns.antt =====
-- An emitter with a limit of one line, and a discovery of three messages.
use mqtt2prometheus.Base.{
  Text, ◌≤◌, ◌≡◌, ◌↔◌, refl, true, codes, some, List, [], ◌∷◌, All, length, split, arith, join,
}
use mqtt2prometheus.Base.Dict.{Distinct}
use mqtt2prometheus.Listen.{
  Emitter, new_emitter, Discovery, new_discovery, prefix_of, escape_payload, capture_line,
}
use mqtt2prometheus.Listen.Channels.{lines, acts_lem}
use mqtt2prometheus.Listen.Channels as Channels
use mqtt2prometheus.Listen.Prefixes.{split-prefix_of, acts-Distinct}
use mqtt2prometheus.Listen.Prefixes as Prefixes
use mqtt2prometheus.Listen.Escapes.{IsInline, capture_line_lem}

abbrev emits : List Channels.Action
emits =
    Channels.emitted (codes "a")
    ∷ Channels.emitted (codes "b")
    ∷ Channels.drains
    ∷ Channels.closes
    ∷ Channels.closes
    ∷ []

acts_lem_example :
    (after : Emitter) × (Channels.acts (new_emitter 1) emits ≡ some after)
    × (length (lines after) ≤ 1)
    × ((after.full_closed ≡ true) ↔ (length (lines after) ≡ 1))
acts_lem_example = acts_lem 1 emits (omega arith)

abbrev topic_b : Text
topic_b = codes "a/b/c"

abbrev observes : List Prefixes.Action
observes =
    Prefixes.observed (record { topic = topic_b; payload = [] })
    ∷ Prefixes.drains
    ∷ Prefixes.observed (record { topic = codes "a/d"; payload = [] })
    ∷ Prefixes.closes
    ∷ []

acts-Distinct_example :
    (after : Discovery) × (Prefixes.acts (new_discovery 1 0) observes ≡ some after)
    × Distinct (lines after.out)
acts-Distinct_example = acts-Distinct 1 0 observes

capture_line_lem_example :
    All IsInline (escape_payload (codes "x\ty"))
    × (split (capture_line (codes "a") (codes "x\ty")) b'\t'
        ≡ codes "a" ∷ escape_payload (codes "x\ty") ∷ [])
capture_line_lem_example =
    capture_line_lem (codes "a") (codes "x\ty") ((omega arith, omega arith, omega arith), tt)

tab : capture_line (codes "a") (codes "x\ty") ≡ codes "a\tx\\ty"
unfolding capture_line
tab = refl

first_segment : prefix_of topic_b 1 ≡ codes "a"
unfolding prefix_of split join
first_segment = refl
