-- ===== src/Config/Validate.antt =====
-- `validate` of internal/config/config.go: the first fault, or none. Addresses of networks and URLs
-- are parsed by packages net and net/url, which are parameters.
pub mod Sections
pub mod Routes
pub mod Valid
use gateway_core.Base.{
  ℕ, suc, Bool, true, false, not, ◌||◌, ◌&&◌, List, [], ◌∷◌, ◌++◌, Option, none, some,
  if◌then◌else◌,
}
use gateway_core.Base.Int.{ℤ, pos, ltb_ℤ, leb_ℤ, same_ℤ}
use gateway_core.Base.Float.{Float}
use gateway_core.Base.Bytes.{Bytes, bytes, same_bytes, has_prefix}
use gateway_core.Http.{Url}
use gateway_core.Config.Types.{
  ServerConfig, TlsConfig, LoggingConfig, AdminConfig, RateLimitConfig, AuthConfig,
  CircuitBreakerConfig, ConnectionPoolConfig, RouteConfig, Config,
}

pub data RouteFault : Type 0 where
  no_prefix prefix_without_slash no_backend invalid_url not_http no_host duplicate_prefix :
      RouteFault
  unknown_log_level bad_fallback_status : RouteFault
  bad_idle_conns bad_idle_per_host bad_idle_timeout : RouteFault

pub data Fault : Type 0 where
  bad_port bad_body_limit bad_rate bad_burst bad_idle_ttl bad_cleanup_interval : Fault
  no_secret no_issuer no_audience : Fault
  bad_window bad_threshold bad_reset_timeout bad_half_open_max bad_slow_threshold : Fault
  bad_max_concurrent bad_min_threshold bad_latency_ceiling bad_global_timeout : Fault
  no_cert_file no_key_file bad_tls_version bad_log_size bad_body_log : Fault
  no_allowlist no_routes : Fault
  bad_network : ℕ → Fault
  at_route : ℕ → RouteFault → Fault

-- A check is a condition and the fault that it reports.
unfoldable pub first_fault {ℓ} : {E : Type ℓ} → List (Bool × E) → Option E
first_fault [] = none
first_fault ((c, e) ∷ cs) = if c then some e else first_fault cs

-- The first fault, or what the next part reports.
unfoldable pub or_else {ℓ} : {E : Type ℓ} → Option E → Option E → Option E
or_else none next = next
or_else (some e) next = some e

abbrev negative : ℤ → Bool
negative n = ltb_ℤ n (pos 0)

abbrev blank : Bytes → Bool
blank s = same_bytes s []

abbrev pub server_checks : ServerConfig → List (Bool × Fault)
server_checks s =
    (ltb_ℤ s.port (pos 1) || ltb_ℤ (pos 65535) s.port, bad_port)
    ∷ (negative s.max_body_bytes, bad_body_limit)
    ∷ []

abbrev pub timeout_checks : ServerConfig → List (Bool × Fault)
timeout_checks s = (negative s.global_timeout_ms, bad_global_timeout) ∷ []

abbrev pub auth_checks : AuthConfig → List (Bool × Fault)
auth_checks a =
    (a.enabled && blank a.jwt_secret, no_secret)
    ∷ (a.enabled && blank a.issuer, no_issuer)
    ∷ (a.enabled && blank a.audience, no_audience)
    ∷ []

abbrev pub tls_checks : TlsConfig → List (Bool × Fault)
tls_checks t =
    (t.enabled && blank t.cert_file, no_cert_file)
    ∷ (t.enabled && blank t.key_file, no_key_file)
    ∷ (
      t.enabled
          && (not (same_bytes t.min_version (bytes "1.2"))
              && not (same_bytes t.min_version (bytes "1.3"))),
      bad_tls_version,
    )
    ∷ []

abbrev pub logging_checks : LoggingConfig → List (Bool × Fault)
logging_checks l =
    (
      not (same_bytes l.output (bytes "stdout"))
          && (not (same_bytes l.output (bytes "stderr")) && ltb_ℤ l.max_size_mb (pos 1)),
      bad_log_size,
    )
    ∷ (l.body_logging && ltb_ℤ l.max_body_log_bytes (pos 1), bad_body_log)
    ∷ []

-- `ValidLogLevels`.
abbrev pub valid_log_level : Bytes → Bool
valid_log_level s =
    same_bytes s []
    || (same_bytes s (bytes "debug")
        || (same_bytes s (bytes "info")
            || (same_bytes s (bytes "warn")
                || (same_bytes s (bytes "error") || same_bytes s (bytes "none")))))

abbrev pub pool_checks : Option ConnectionPoolConfig → List (Bool × RouteFault)
pool_checks none = []
pool_checks (some p) =
    (negative p.max_idle_conns, bad_idle_conns)
    ∷ (negative p.max_idle_per_host, bad_idle_per_host)
    ∷ (negative p.idle_timeout, bad_idle_timeout)
    ∷ []

abbrev pub url_checks : Url → List (Bool × RouteFault)
url_checks u =
    (
      not (same_bytes u.scheme (bytes "http")) && not (same_bytes u.scheme (bytes "https")),
      not_http,
    )
    ∷ (blank u.host, no_host)
    ∷ []

unfoldable pub is_seen : Bytes → List Bytes → Bool
is_seen s [] = false
is_seen s (x ∷ xs) = same_bytes x s || is_seen s xs

module _ (parse_cidr : Bytes → Bool) where
  unfoldable pub network_fault : ℕ → List Bytes → Option Fault
  network_fault i [] = none
  network_fault i (c ∷ cs) = if parse_cidr c then network_fault (suc i) cs else some (bad_network i)

  unfoldable pub admin_fault : AdminConfig → Option Fault
  admin_fault a = elim a.ip_allowlist [
    | [] ↦ if a.enabled then some no_allowlist else none
    | c ∷ cs ↦ if a.enabled then network_fault 0 (c ∷ cs) else none
  ]

module _ {F : Type 0} where
  -- What is checked before the backend is parsed, and after it.
  abbrev pub place_checks : RouteConfig F → List (Bool × RouteFault)
  place_checks r =
      (blank r.path_prefix, no_prefix)
      ∷ (not (has_prefix r.path_prefix (bytes "/")), prefix_without_slash)
      ∷ (blank r.backend, no_backend)
      ∷ []

  abbrev pub rest_checks : List Bytes → RouteConfig F → List (Bool × RouteFault)
  rest_checks seen r =
      (is_seen r.path_prefix seen, duplicate_prefix)
      ∷ (not (valid_log_level r.log_level), unknown_log_level)
      ∷ (
        not (same_ℤ r.fallback_status (pos 0))
            && (ltb_ℤ r.fallback_status (pos 200) || ltb_ℤ (pos 599) r.fallback_status),
        bad_fallback_status,
      )
      ∷ pool_checks r.connection_pool

module _ (parse : Bytes → Option Url) where
  unfoldable pub backend_fault : Bytes → Option RouteFault
  backend_fault backend = elim (parse backend) [
    | none ↦ some invalid_url
    | some u ↦ first_fault (url_checks u)
  ]

  module _ {F : Type 0} where
    -- The body of the loop over the routes; `seen` has the prefixes of those before.
    unfoldable pub route_fault : List Bytes → RouteConfig F → Option RouteFault
    route_fault seen r =
        or_else (first_fault (place_checks r))
          (or_else (backend_fault r.backend) (first_fault (rest_checks seen r)))

    unfoldable pub routes_fault : ℕ → List Bytes → List (RouteConfig F) → Option Fault
    routes_fault i seen [] = none
    routes_fault i seen (r ∷ rs) = elim (route_fault seen r) [
      | some e ↦ some (at_route i e)
      | none ↦ routes_fault (suc i) (r.path_prefix ∷ seen) rs
    ]

module _ {F : Type 0} (parse : Bytes → Option Url) where
  unfoldable pub configured_fault : List (RouteConfig F) → Option Fault
  configured_fault [] = some no_routes
  configured_fault (r ∷ rs) = routes_fault parse 0 [] (r ∷ rs)

module _ {F : Type 0} ⦃fl : Float F⦄ where
  abbrev pub rate_limit_checks : RateLimitConfig F → List (Bool × Fault)
  rate_limit_checks l =
      (fl.at_most l.requests_per_second (fl.of_ℤ (pos 0)), bad_rate)
      ∷ (leb_ℤ l.burst_size (pos 0), bad_burst)
      ∷ (negative l.idle_ttl, bad_idle_ttl)
      ∷ (negative l.cleanup_interval, bad_cleanup_interval)
      ∷ []

  abbrev pub circuit_breaker_checks : CircuitBreakerConfig F → List (Bool × Fault)
  circuit_breaker_checks cb =
      (ltb_ℤ cb.window_size (pos 1), bad_window)
      ∷ (
        fl.at_most cb.failure_threshold (fl.of_ℤ (pos 0))
            || fl.less (fl.of_ℤ (pos 1)) cb.failure_threshold,
        bad_threshold,
      )
      ∷ (leb_ℤ cb.reset_timeout (pos 0), bad_reset_timeout)
      ∷ (ltb_ℤ cb.half_open_max (pos 1), bad_half_open_max)
      ∷ (negative cb.slow_threshold, bad_slow_threshold)
      ∷ (negative cb.max_concurrent, bad_max_concurrent)
      ∷ (
        cb.is_adaptive
            && (fl.at_most cb.min_threshold (fl.of_ℤ (pos 0))
                || fl.at_most cb.failure_threshold cb.min_threshold),
        bad_min_threshold,
      )
      ∷ (cb.is_adaptive && leb_ℤ cb.latency_ceiling (pos 0), bad_latency_ceiling)
      ∷ []

  -- The checks ahead of the admin endpoints and the routes, in the source's order.
  abbrev pub settings_checks : Config F → List (Bool × Fault)
  settings_checks cfg =
      server_checks cfg.server
      ++ (rate_limit_checks cfg.rate_limit
          ++ (auth_checks cfg.auth
              ++ (circuit_breaker_checks cfg.circuit_breaker
                  ++ (timeout_checks cfg.server
                      ++ (tls_checks cfg.server.tls ++ logging_checks cfg.logging)))))

  module _ (parse : Bytes → Option Url) (parse_cidr : Bytes → Bool) where
    unfoldable pub validate : Config F → Option Fault
    validate cfg =
        or_else (first_fault (settings_checks cfg))
          (or_else (admin_fault parse_cidr cfg.admin) (configured_fault parse cfg.routes))
