-- ===== src/Gateway.antt =====
-- internal/gateway/gateway.go: the parts of a gateway, from a configuration, and its hot reload. The
-- middleware between the server and the router is in modules of its own.
pub mod Reload
pub mod Serving
pub mod Loaded
mod Tests
use gateway_core.Base.{
  ℕ, Bool, true, false, not, ◌||◌, ◌&&◌, List, [], ◌∷◌, ◌++◌, map, Option, none, some, ltb,
  if◌then◌else◌,
}
use gateway_core.Base.Int.{pos_part}
use gateway_core.Base.Float.{Float}
use gateway_core.Base.Bytes.{Bytes, bytes, same_bytes, has_prefix, to_lower}
use gateway_core.Config.Types.{RouteConfig, CircuitBreakerConfig, MetricsConfig, AdminConfig}
use gateway_core.Config.Types
use gateway_core.Config.Load.{is_enabled}
use gateway_core.CircuitBreaker.Config
use gateway_core.CircuitBreaker.Composite.{Composite, new_composite, update_config}
use gateway_core.Http.{Url}
use gateway_core.Routing.Select.{matches, prefix_length}
use gateway_core.RateLimit.Limiter.{Limiter, new_limiter, update_limiter}
use gateway_core.Proxy.Router.{Router, lookup, new_router}

-- The settings are not negative: `validate` has seen to it.
unfoldable pub breaker_config : {F : Type 0} → CircuitBreakerConfig F → Config.Config F
breaker_config cb = record {
  window_size = pos_part cb.window_size;
  failure_threshold = cb.failure_threshold;
  reset_timeout = pos_part cb.reset_timeout;
  half_open_max = pos_part cb.half_open_max;
  slow_threshold = pos_part cb.slow_threshold;
  max_concurrent = pos_part cb.max_concurrent;
  is_adaptive = cb.is_adaptive;
  latency_ceiling = pos_part cb.latency_ceiling;
  min_threshold = cb.min_threshold;
}

pub data LogLevel : Type 0 where
  debug info warn error_ none_ : LogLevel

-- `ParseLogLevel`.
unfoldable pub parse_log_level : Bytes → LogLevel
parse_log_level level =
    let s = to_lower level in
    if same_bytes s (bytes "debug")
    then debug
    else if same_bytes s (bytes "warn")
    then warn
    else if same_bytes s (bytes "error")
    then error_
    else if same_bytes s (bytes "none")
    then none_
    else info

pub record Gateway (F : Type 0) : Type 0 where
  pub router : Router F
  pub limiter : Limiter F
  pub breakers : List (Bytes × Composite F)
  pub routes_ref : List (RouteConfig F)

-- What `NewGateway` meets: whether `metrics.New` registers its collectors, whether the mux takes the
-- endpoints of health, the path of the metrics, if they have one, and the endpoints of admin, if they
-- are enabled, and whether `tlsutil.New` gives a loader for two files.
pub record Surroundings : Type 0 where
  pub registers : Bool
  pub mounts : (metrics_path : Option Bytes) → (admin : Bool) → Bool
  pub certifies : (cert_file key_file : Bytes) → Bool

-- `NewGateway` gives a gateway or an error; registering collectors or paths twice panics.
pub data Construction (F : Type 0) : Type 0 where
  built : Gateway F → Construction F
  refused panicked : Construction F

module _ {F : Type 0} where
  -- The scan of `routeLogLevel`, with the longest prefix so far and its level.
  unfoldable pub scan_level : Bytes → List (RouteConfig F) → (best : ℕ) → LogLevel → LogLevel
  scan_level path [] best level = level
  scan_level path (r ∷ rs) best level = elim (matches path r && ltb best (prefix_length r)) [
    | true ↦ scan_level path rs (prefix_length r) (parse_log_level r.log_level)
    | false ↦ scan_level path rs best level
  ]

  unfoldable pub route_log_level : Gateway F → Bytes → LogLevel
  route_log_level g path = scan_level path g.routes_ref 0 info

abbrev pub any_prefix : List Bytes → Bytes → Bool
any_prefix [] path = false
any_prefix (p ∷ ps) path = has_prefix path p || any_prefix ps path

-- Whether a path goes to the endpoints of the gateway itself, past the middleware and the router.
unfoldable pub is_bypassed : MetricsConfig → AdminConfig → Bytes → Bool
is_bypassed metrics admin path =
    is_enabled metrics && same_bytes metrics.path path
    || any_prefix
        (bytes "/health" ∷ bytes "/ready" ∷ (if admin.enabled then bytes "/admin/" ∷ [] else []))
        path

module _ {F : Type 0} ⦃fl : Float F⦄ where
  -- One breaker for each backend.
  unfoldable pub new_breakers :
      Config.Config F
      → List (RouteConfig F)
      → List (Bytes × Composite F)
      → List (Bytes × Composite F)
  new_breakers cfg [] bs = bs
  new_breakers cfg (r ∷ rs) bs = elim (lookup r.backend bs) [
    | some b ↦ new_breakers cfg rs bs
    | none ↦ new_breakers cfg rs ((r.backend, new_composite cfg) ∷ bs)
  ]

  abbrev pub assembled : (first_bucket : ℕ) → Types.Config F → Router F → Gateway F
  assembled first_bucket cfg router = record {
    router = router;
    limiter = new_limiter cfg.rate_limit cfg.routes first_bucket;
    breakers = new_breakers (breaker_config cfg.circuit_breaker) cfg.routes [];
    routes_ref = cfg.routes;
  }

  abbrev pub metrics_path : Types.Config F → Option Bytes
  metrics_path cfg = if is_enabled cfg.metrics then some cfg.metrics.path else none

  unfoldable pub new_gateway :
      Surroundings
      → (sort : List (RouteConfig F) → List (RouteConfig F)) → (Bytes → Option Url)
      → (first_bucket : ℕ) → Types.Config F
      → Construction F
  new_gateway around sort parse first_bucket cfg =
      if is_enabled cfg.metrics && not around.registers
      then panicked
      else elim (new_router sort parse cfg.routes) [
        | none ↦ refused
        | some router ↦
            if not (around.mounts (metrics_path cfg) cfg.admin.enabled)
            then panicked
            else if cfg.server.tls.enabled
                && not (around.certifies cfg.server.tls.cert_file cfg.server.tls.key_file)
            then refused
            else built (assembled first_bucket cfg router)
      ]

module _ {F : Type 0} where
  unfoldable pub update_breakers :
      Config.Config F → List (Bytes × Composite F) → List (Bytes × Composite F)
  update_breakers cfg [] = []
  update_breakers cfg ((k, b) ∷ bs) = (k, update_config cfg b) ∷ update_breakers cfg bs

  -- `OnReload` never reports an error.
  unfoldable pub on_reload : Types.Config F → Gateway F → Gateway F
  on_reload cfg g = record g {
    limiter = update_limiter cfg.rate_limit cfg.routes g.limiter;
    breakers = update_breakers (breaker_config cfg.circuit_breaker) g.breakers;
    routes_ref = cfg.routes;
  }
