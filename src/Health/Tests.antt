-- ===== src/Health/Tests.antt =====
-- Readiness at two routes, of which one cannot be reached.
use gateway_core.Base.{ℕ, Bool, false, List, [], ◌∷◌, Option, none, some}
use gateway_core.Base.Int.{pos}
use gateway_core.Base.Bytes.{Bytes, bytes, same_bytes}
use gateway_core.Http.{Url}
use gateway_core.Config.Types.{RouteConfig}
use gateway_core.Health.{Cached}

abbrev route : Bytes → RouteConfig ℕ
route p = record {
  path_prefix = p;
  backend = p;
  strip_prefix = false;
  methods = [];
  auth_required = false;
  timeout_ms = pos 0;
  retry_attempts = pos 0;
  headers = [];
  rate_override = none;
  connection_pool = none;
  fallback_status = pos 0;
  fallback_body = [];
  log_level = [];
}

abbrev parse : Bytes → Option Url
parse b = some (record { scheme = bytes "http"; host = b; path = [] })

abbrev dial : Bytes → Bool
dial h = same_bytes h (bytes "/a:80")

abbrev routes : List (RouteConfig ℕ)
routes = route (bytes "/a") ∷ route (bytes "/b") ∷ []

-- An answer that is exactly five seconds old.
abbrev kept : Cached
kept = record { body = bytes "old"; status = 200; at = 0 }
