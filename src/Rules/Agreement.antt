-- ===== src/Rules/Agreement.antt =====
-- The label names that `Validate` compares are those that the compiled rule uses.
use mqtt2prometheus.Base.{
  Text, ◌≡◌, refl, ◌∙◌, ap, Bool, true, false, ◌||◌, eq_iff, Option, none, some, List, [], ◌∷◌, All,
  arith,
}
use mqtt2prometheus.Base.Dict.{
  Dict, keys, lookup, lookup-cons, lookup-insert, insert, NodupKeys, contains, contains-keys,
  contains-keys-insert, contains-nil, contains-cons,
}
use mqtt2prometheus.Platform.{Platform}
use mqtt2prometheus.Config.{Label}
use mqtt2prometheus.Config
use mqtt2prometheus.Config.Template.{template_refs}
use mqtt2prometheus.Config.Labels.{label_names, named, refers, label_names_unique}
use mqtt2prometheus.Config.Fields.{label_at}
use mqtt2prometheus.Config.Fields.Labels.{IsLabels}
use mqtt2prometheus.Config.Metrics.{joined, rule_labels}
use mqtt2prometheus.Rules.Rule.{overlay, declared}

pub contains-keys-overlay :
    (k : Text) (labels base : Dict Label)
    → contains k (keys (overlay labels base)) ≡ (contains k (keys labels) || contains k (keys base))
unfolding overlay
contains-keys-overlay k [] base = rw contains-nil
contains-keys-overlay k ((n, l) ∷ labels) base = ground (
  arith,
  contains-keys-overlay k labels (insert n l base),
  contains-keys-insert k n l base,
  contains-cons k n (keys labels),
)

-- the template of the entry `n` refers to `k`
abbrev refers_at : Text → Option Label → Bool
refers_at k none = false
refers_at k (some l) = contains k (template_refs l.value)

-- Where the entry that is written over does not refer to `k`, the new entry adds its own references.
refers-insert :
    (k n : Text) (l : Label) (d : Dict Label)
    → refers_at k (lookup n d) ≡ false
    → refers k (insert n l d) ≡ (contains k (template_refs l.value) || refers k d)
unfolding insert lookup
refers-insert k n l [] h = refl
refers-insert k n l ((j, m) ∷ d) h = ground (arith, refers-insert k n l d)

refers-overlay :
    (k : Text) (labels base : Dict Label)
    → NodupKeys labels
    → ((n : Text) → contains n (keys labels) ≡ true → refers_at k (lookup n base) ≡ false)
    → refers k (overlay labels base) ≡ (refers k labels || refers k base)
unfolding overlay
refers-overlay k [] base u h = refl
refers-overlay k ((n, l) ∷ labels) base (fresh, u) h =
    refers-overlay k labels (insert n l base) u (λ j m. ground (
      arith,
      lookup-insert j n l base,
      eq_iff j n,
      contains-keys n labels,
      h j,
      contains-cons j n (keys labels),
    ))
    ∙ ground (arith, refers-insert k n l base, h n, contains-cons n n (keys labels), eq_iff n n)

-- A map without references to `k` has none at any key.
refers_at-lookup :
    (k n : Text) (d : Dict Label) → refers k d ≡ false → refers_at k (lookup n d) ≡ false
unfolding lookup
refers_at-lookup k n [] h = refl
refers_at-lookup k n ((j, m) ∷ d) h = ground (arith, refers_at-lookup k n d)

no_capture :
    (k : Text) (refs : List Text)
    → All (λ (r : Text). contains r [] ≡ true) refs
    → contains k refs ≡ false
no_capture k [] h = contains-nil k
no_capture k (r ∷ refs) (h, hs) = absurd (cc (contains-nil r))

-- The labels of a source have no captures, so that their templates refer to nothing.
refers-source :
    (k : Text) (labels : Dict Label)
    → NodupKeys labels
    → ((n : Text)
        → contains n (keys labels) ≡ true
        → contains k (template_refs (label_at n labels).value) ≡ false)
    → refers k labels ≡ false
refers-source k [] u h = refl
refers-source k ((n, l) ∷ labels) (fresh, u) h =
    let head : contains k (template_refs l.value) ≡ false =
      ground (arith, h n, lookup-cons n n l labels, contains-cons n n (keys labels), eq_iff n n) in
    let tail = refers-source k labels u (λ j m. ground (
      arith,
      h j,
      lookup-cons j n l labels,
      contains-cons j n (keys labels),
      contains-keys n labels,
      eq_iff j n,
    )) in
    rw (head, tail)

module _ (P : Platform) where
  open P use {Float, Regexp, subexp_names}

  -- For a source whose labels are valid, where each label is declared once, the label names that
  -- `Validate` compares for a rule are the ones that the compiled rule emits, although the one looks at
  -- both maps and the other at the map with the rule's labels written over the source's.
  pub rule_labels_lem :
      (re : Regexp) (r : Config.Rule Float) (s : Config.Source Float)
      → NodupKeys r.labels
      → NodupKeys s.labels
      → IsLabels [] s.labels
      → rule_labels P re r s ≡ joined (label_names (named (subexp_names re)) (declared P s r ∷ []))
  rule_labels_lem re r s ur us h = ap joined (
      label_names_unique (named (subexp_names re)) (r.labels ∷ s.labels ∷ []) (declared P s r ∷ [])
        (λ k. ground (
          arith,
          contains-keys-overlay k r.labels (overlay s.labels []),
          contains-keys-overlay k s.labels [],
          contains-nil k,
        ))
        (λ k _. ground (
          arith,
          base k,
          source k,
          refers-overlay k r.labels (overlay s.labels []) ur
              (λ n m. refers_at-lookup k n (overlay s.labels []) (base k)),
        )))
    where
      source : (k : Text) → refers k s.labels ≡ false
      source k = refers-source k s.labels us (λ n m. no_capture k _ (h n m).3)

      base : (k : Text) → refers k (overlay s.labels []) ≡ false
      base k = refers-overlay k s.labels [] us (λ n m. refers_at-lookup k n [] refl) ∙ rw source
