-- ===== src/Tests/ClientRuns.antt =====
-- A client that connects twice, and a URL with credentials.
use mqtt2prometheus.Base.{◌≡◌, codes, List, [], ◌∷◌, arith}
use mqtt2prometheus.Client.{Event, connection_up, client_error, message}
use mqtt2prometheus.Report.{redact_url}
use mqtt2prometheus.Report.Redact.{redact_url_lem}

abbrev pub twice : List Event
twice = connection_up ∷ message ∷ client_error ∷ connection_up ∷ []

redact_url_lem_example : redact_url (codes "tcp://u:p@h") ≡ codes "tcp://(redacted)@h"
redact_url_lem_example =
    redact_url_lem (codes "tcp") (codes "u:p") (codes "h")
      (omega arith, (omega arith, (omega arith, tt))) (omega arith, tt)
