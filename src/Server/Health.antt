-- ===== src/Server/Health.antt =====
-- server.go: the health check. Pinging the database is a call of the driver.
use xensus.Base.{codes, [], ◌∷◌, ◌++◌}
use xensus.Store.Session.{Session, Result, ok, err, or_driver_failure, pure}
use xensus.Api.Response.{Response, Handler, plain}

abbrev pub health_of : Result (Unit {0}) × Session → Response × Session
health_of (ok _, s) = (plain 200 (codes "ok" ++ (10 ∷ [])), s)
health_of (err e, s) = (plain 503 (codes "unhealthy"), s)

-- `healthHandler`
unfoldable pub health : Handler
health s = health_of (or_driver_failure (pure tt) s)
