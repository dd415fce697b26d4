-- ===== src/Gateway/Tests.antt =====
-- A gateway at a concrete configuration: a request that is retried, and each theorem at one input.
use gateway_core.Base.{
  ℕ, ◌+◌, ◌*◌, ◌^◌, ◌-◌, ◌≤◌, ◌<◌, ◌↔◌, ◌≡◌, refl, ◌⊎◌, inr, true, false, List, [], ◌∷◌, Option,
  none, some, ◌==◌, arith, if◌then◌else◌,
}
use gateway_core.Base.Int.{pos, negsuc, wrap}
use gateway_core.Base.Float.{milli}
use gateway_core.Base.Bytes.{Bytes, bytes}
use gateway_core.Http.{Url, Request, writes_header, writes, no_header, new_client}
use gateway_core.Config.Types.{RouteConfig, Config}
use gateway_core.Config.Samples.{empty_config}
use gateway_core.Config.Defaults.{
  apply_defaults, metrics_defaults, tls_defaults, server_defaults, logging_defaults, route_defaults,
  rate_limit_defaults, circuit_breaker_defaults, idle_ttl_default, cleanup_default, refill_window,
}
use gateway_core.Config.Validate.{
  validate, first_fault, or_else, admin_fault, configured_fault, routes_fault, route_fault,
  backend_fault, is_seen,
}
use gateway_core.Config.Load.{
  load, LoadError, checked, collect_warnings, expand_env_vars, expand_from,
}
use gateway_core.CircuitBreaker.Composite.{Composite}
use gateway_core.Proxy.Writers.{ResponseBuffer}
use gateway_core.Proxy.Router.{
  Router, ReverseProxy, proxy_for, new_router, backend_key, build_transport, add_proxies,
  add_methods, add_target, lookup,
}
use gateway_core.Routing.Match.{matches_prefix}
use gateway_core.Routing.Select.{match_route}
use gateway_core.Proxy.Attempts.{World, Exchange, answered, returned, backoff}
use gateway_core.Proxy.Serve.{serve, Served}
use gateway_core.Config.Durations.{duration}
use gateway_core.Gateway.{Gateway, Surroundings, new_breakers, breaker_config}
use gateway_core.CircuitBreaker.Config
use gateway_core.Config.Validate.Valid.{IsValidConfig, validate_iff}
use gateway_core.Proxy.Router.Resolve.{lookup-empty}
use gateway_core.Proxy.Serve.Breakers.{AreReachable, serve_completes}
use gateway_core.Proxy.Serve.Backoff.{backoff_doubles}
use gateway_core.RateLimit.Limiter.{new_limiter}
use gateway_core.Gateway.{on_reload}
use gateway_core.Gateway.Reload.{IsReloaded, on_reload-IsReloaded}
use gateway_core.Gateway.Loaded.{Keeps, loaded_route-own_backend}
use gateway_core.Gateway.Serving.{Job, new_breakers-AreReachable}

abbrev api : RouteConfig ℕ
api = record {
  path_prefix = bytes "/api";
  backend = bytes "http://backend";
  strip_prefix = true;
  methods = [];
  auth_required = false;
  timeout_ms = pos 0;
  retry_attempts = pos 2;
  headers = [];
  rate_override = none;
  connection_pool = none;
  fallback_status = pos 0;
  fallback_body = [];
  log_level = [];
}

abbrev raw : Config ℕ
raw = record empty_config { routes = api ∷ [] }

abbrev url : Url
url = record { scheme = bytes "http"; host = bytes "backend"; path = [] }

abbrev loads : Bytes → LoadError ⊎ Config ℕ
loads = load ⦃fl = milli⦄ (λ k. none) (λ text. some raw) (λ b. some url) (λ c. true)

abbrev loaded : Config ℕ
loaded = apply_defaults ⦃fl = milli⦄ raw

loaded_ok : loads [] ≡ inr loaded
unfolding load expand_env_vars expand_from checked collect_warnings validate first_fault or_else
    admin_fault configured_fault routes_fault route_fault backend_fault is_seen apply_defaults
    metrics_defaults tls_defaults server_defaults logging_defaults route_defaults
    rate_limit_defaults circuit_breaker_defaults idle_ttl_default cleanup_default refill_window
    duration wrap
loaded_ok = refl

-- The backend is overloaded at the first attempt, and answers at the second.
abbrev attempt : ℕ → Exchange
attempt n = record {
  outcome =
      if n == 1
      then answered (writes_header 503 ∷ [])
      else answered (writes_header 200 ∷ writes (bytes "ok") ∷ []);
  ended_at = 100 + n;
  latency = 5;
  elapsed = bytes "5ns";
}

abbrev world : World
world = record {
  marshal = λ e. e.message;
  status_text = λ n. [];
  canonical = λ k. k;
  cancelled = λ n. false;
  exchange = λ p timeout r n. attempt n;
}

abbrev request : Request
request = record {
  method = bytes "GET";
  path = bytes "/api/users";
  header = no_header;
  content_length = pos 0;
  has_body = false;
  body_cap = none;
  over_tls = false;
}

abbrev buffer : ResponseBuffer
buffer = record { header = no_header; body = []; status_code = 200; written = false }

abbrev job : Job
job = record { world = world; pooled = buffer; now = 100; request = request; client = new_client }

abbrev router : Router ℕ
router = record {
  routes = loaded.routes;
  proxies = (backend_key url, record { target = url; transport = build_transport none }) ∷ [];
  route_backend_key = (bytes "/api", backend_key url) ∷ [];
  method_sets = [];
}

router_made : new_router (λ rs. rs) (λ b. some url) loaded.routes ≡ some router
unfolding new_router add_proxies add_methods add_target lookup apply_defaults route_defaults
router_made = refl

api_matches : match_route (bytes "/api/users") router.routes ≡ some (route_defaults api)
unfolding match_route matches_prefix apply_defaults route_defaults
api_matches = refl

abbrev settings : Config.Config ℕ
settings = breaker_config loaded.circuit_breaker

abbrev breakers : List (Bytes × Composite ℕ)
breakers = new_breakers ⦃fl = milli⦄ settings loaded.routes []

breakers_reachable : AreReachable ⦃fl = milli⦄ settings (λ k. 0) breakers
breakers_reachable =
    new_breakers-AreReachable ⦃fl = milli⦄ settings loaded.routes []
      (λ k b e. absurd (lookup-empty k b e))

window_pos : 0 < settings.window_size
unfolding breaker_config apply_defaults circuit_breaker_defaults
window_pos = omega arith

abbrev out : Option (Served ℕ)
out = serve ⦃fl = milli⦄ world breakers router buffer 100 request new_client

abbrev result : Served ℕ
result = elim out [
  | none ↦ record { breakers = []; client = new_client; events = []; ending = returned }
  | some o ↦ o
]

serve_completes_example :
    (o : Served ℕ) × (out ≡ some o) × AreReachable ⦃fl = milli⦄ settings (λ k. 0) o.breakers
serve_completes_example =
    serve_completes ⦃fl = milli⦄ world settings (λ k. 0) breakers router buffer 100 request
      new_client window_pos breakers_reachable

sorted_loaded :
    Keeps ⦃fl = milli⦄
      (λ k. none)
      (λ text. some raw)
      (λ b. some url)
      (λ c. true)
      (λ rs. rs)
      loaded.routes
sorted_loaded = λ r m. m

-- TLS is not enabled: no certificate is needed.
abbrev around : Surroundings
around = record { registers = true; mounts = λ p a. true; certifies = λ c k. false }

loaded_route-own_backend_example :
    (u : Url) × (p : ReverseProxy) × (some url ≡ some u)
    × (proxy_for router (route_defaults api) ≡ some p)
    × (backend_key p.target ≡ backend_key u)
loaded_route-own_backend_example =
    loaded_route-own_backend ⦃fl = milli⦄ (λ k. none) (λ text. some raw) (λ b. some url) (λ c. true)
      (λ rs. rs) [] (bytes "/api/users") loaded router (route_defaults api) loaded_ok sorted_loaded
      router_made api_matches

abbrev gateway : Gateway ℕ
gateway = record {
  router = router;
  limiter = new_limiter loaded.rate_limit loaded.routes 0;
  breakers = breakers;
  routes_ref = loaded.routes;
}

on_reload-IsReloaded_example : IsReloaded empty_config gateway (on_reload empty_config gateway)
on_reload-IsReloaded_example = on_reload-IsReloaded empty_config gateway

validate_iff_example :
    (validate ⦃fl = milli⦄ (λ b. some url) (λ c. true) loaded ≡ none)
    ↔ IsValidConfig ⦃fl = milli⦄ (λ b. some url) (λ c. true) loaded
validate_iff_example = validate_iff ⦃fl = milli⦄ (λ b. some url) (λ c. true) loaded

backoff_doubles_example :
    (1 ≤ 3 → 3 ≤ 37 → backoff 3 ≡ pos (2 ^ (3 - 1) * 100 * 10 ^ 6))
    × (backoff 38 ≡ negsuc 4702848726509551615)
    × (65 ≤ 3 → backoff 3 ≡ pos 0)
backoff_doubles_example = backoff_doubles 3
