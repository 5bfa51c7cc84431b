-- ===== src/Listen/Escapes.antt =====
-- The lines of internal/app/capture.go.
use mqtt2prometheus.Base.{
  Text, ℕ, ◌≡◌, ◌≢◌, ◌∙◌, ap, [], ◌∷◌, All, split, IsPiece, split-append, split-piece, arith,
}
use mqtt2prometheus.Listen.{escape_payload, capture_line}

-- a byte that breaks neither a line nor its columns
abbrev pub IsInline : ℕ → Type 0
IsInline c = (c ≢ b'\n') × (c ≢ b'\r') × (c ≢ b'\t')

escape_payload-IsInline : (payload : Text) → All IsInline (escape_payload payload)
unfolding escape_payload
escape_payload-IsInline [] = tt
escape_payload-IsInline (c ∷ payload) = ground (arith, escape_payload-IsInline payload)

no_tab : (s : Text) → All IsInline s → IsPiece b'\t' s
no_tab [] h = tt
no_tab (c ∷ s) ((_, _, h), hs) = (h, no_tab s hs)

-- Whatever the payload, a captured line has no line break, and two columns, the topic and the escaped
-- payload, if the topic has no line break and no tab.
pub capture_line_lem :
    (topic payload : Text)
    → All IsInline topic
    → All IsInline (escape_payload payload)
      × (split (capture_line topic payload) b'\t' ≡ topic ∷ escape_payload payload ∷ [])
unfolding capture_line
capture_line_lem topic payload h =
    let inline = escape_payload-IsInline payload in
    (
      inline,
      split-append b'\t' topic (escape_payload payload) (no_tab topic h)
          ∙ ap (λ rest. topic ∷ rest)
              (split-piece b'\t' (escape_payload payload) (no_tab _ inline)),
    )
