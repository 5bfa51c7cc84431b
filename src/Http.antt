-- ===== src/Http.antt =====
-- internal/app/http.go and internal/app/healthcheck.go: what the server answers on its three paths,
-- and the probe of `healthcheck`. Splitting and joining addresses, and the request, are parameters.
pub mod Readiness
use mqtt2prometheus.Base.{
  Text, ℕ, eqb, ◌==◌, codes, Option, none, some, [], ◌∷◌, ◌++◌, if◌then◌else◌,
}
use mqtt2prometheus.Client.{Client, ready}
use mqtt2prometheus.Load.Files.{Files, load}
use mqtt2prometheus.Outcome.{failed, ok, err, ◌>>=◌, Status, of_load}

pub record Response : Type 0 where
  pub status : ℕ
  pub content_type : Text
  pub body : Text

-- the patterns of the mux with the method GET
pub data Route : Type 0 where
  metrics : Route
  healthz : Route
  readyz : Route

unfoldable pub write_plain : ℕ → Text → Response
write_plain status body = record {
  status = status;
  content_type = codes "text/plain; charset=utf-8";
  body = body ++ b'\n' ∷ [];
}

-- `newServer`, with the answer of `promhttp` to a scrape
unfoldable pub respond : Response → Client → Route → Response
unfolding write_plain
respond scrape client metrics = scrape
respond scrape client healthz = write_plain 200 (codes "ok")
respond scrape client readyz =
    if ready client then write_plain 200 (codes "ready") else write_plain 503 (codes "not ready")

-- `net.SplitHostPort`, `net.JoinHostPort`, and a GET request with its status, or its error
pub data Probed (E : Type 0) : Type 0 where
  answered : ℕ → Text → Probed E
  unreachable : E → Probed E

pub record Net (E : Type 0) : Type 0 where
  pub split_host_port : Text → Option (Text × Text)
  pub join_host_port : Text → Text → Text
  pub get : Text → Probed E
  -- the error of a status that is not 200
  pub bad_status : Text → E

module _ {E : Type 0} (net : Net E) where
  open net use {split_host_port, join_host_port}

  unfoldable pub health_url : Text → Text
  health_url listen = elim (split_host_port listen) [
    | none ↦
        codes "http://" ++ (join_host_port (codes "127.0.0.1") (codes "9000") ++ codes "/healthz")
    | some (host, port) ↦
        let host = if host == [] then codes "127.0.0.1" else host in
        codes "http://" ++ (join_host_port host port ++ codes "/healthz")
  ]

  unfoldable pub probed : Probed E → Status E
  probed (unreachable e) = err (failed (e ∷ []))
  probed (answered code status) =
      if eqb code 200 then ok tt else err (failed (net.bad_status status ∷ []))

  unfoldable pub healthcheck : {F : Type 0} → Files F → Text → Status E
  unfolding health_url probed
  healthcheck files dir = do
    cfg ← of_load (load files dir)
    probed (net.get (health_url cfg.listen))
