-- ===== src/Report/Redact.antt =====
-- `redactURL` of internal/app/verify.go hides what stands before the last `@` of a URL.
use mqtt2prometheus.Base.{
  Text, ◌≡◌, refl, ◌∙◌, sym, ap, append_assoc, none, some, [], ◌∷◌, ◌++◌, IsPiece, codes, arith,
}
use mqtt2prometheus.Source.{starts_with}
use mqtt2prometheus.Report.{from_last_at, up_to_scheme, redact_url}

from_last_at-none : (host : Text) → IsPiece b'@' host → from_last_at host ≡ none
unfolding from_last_at
from_last_at-none [] h = refl
from_last_at-none (c ∷ host) (h, hs) = ground (arith, h, from_last_at-none host hs)

from_last_at_lem :
    (s host : Text) → IsPiece b'@' host → from_last_at (s ++ b'@' ∷ host) ≡ some (b'@' ∷ host)
unfolding from_last_at
from_last_at_lem [] host h = ground (arith, from_last_at-none host h)
from_last_at_lem (c ∷ s) host h = ground (arith, from_last_at_lem s host h)

up_to_scheme_lem :
    (scheme s : Text)
    → IsPiece b':' scheme
    → up_to_scheme (scheme ++ (codes "://" ++ s)) ≡ some (scheme ++ codes "://")
unfolding up_to_scheme starts_with
up_to_scheme_lem [] s h = refl
up_to_scheme_lem (c ∷ scheme) s (h, hs) = ground (arith, h, up_to_scheme_lem scheme s hs)

-- Of a URL whose scheme has no `:` and whose host has no `@`, the scheme and the host are shown, and
-- the credentials between them are not, whatever they hold.
pub redact_url_lem :
    (scheme credentials host : Text)
    → IsPiece b':' scheme
    → IsPiece b'@' host
    → redact_url (scheme ++ (codes "://" ++ (credentials ++ b'@' ∷ host)))
      ≡ (scheme ++ codes "://") ++ (codes "(redacted)" ++ b'@' ∷ host)
unfolding redact_url
redact_url_lem scheme credentials host h k =
    ground (arith, up_to_scheme_lem scheme (credentials ++ b'@' ∷ host) h, last)
  where
    last :
        from_last_at (scheme ++ (codes "://" ++ (credentials ++ b'@' ∷ host))) ≡ some (b'@' ∷ host)
    last =
        ap from_last_at (sym (append_assoc scheme (codes "://" ++ credentials) (b'@' ∷ host)))
        ∙ from_last_at_lem (scheme ++ (codes "://" ++ credentials)) host k
