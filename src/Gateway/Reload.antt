-- ===== src/Gateway/Reload.antt =====
-- What a hot reload changes, and what it leaves.
use mathlib.Core.Option.{some-injective}
use gateway_core.Base.{
  ◌≡◌, refl, sym, ap, subst, List, [], ◌∷◌, some, Bool-cases, inl, inr, ◌==◌, ==_iff,
}
use gateway_core.Base.Bytes.{Bytes, same_bytes}
use gateway_core.Config.Types.{RouteConfig}
use gateway_core.Config.Types
use gateway_core.CircuitBreaker.Config.{update_core, resize}
use gateway_core.CircuitBreaker.Config
use gateway_core.CircuitBreaker.FailureRate.{FailureRate}
use gateway_core.CircuitBreaker.Layers.{
  Breaker, rate_breaker, adaptive_breaker, timeout_breaker, bulkhead_breaker, core, map_core,
}
use gateway_core.CircuitBreaker.Composite.{Composite, update_config, outer_bulkhead}
use gateway_core.CircuitBreaker.Composite.Reload.{adaptive_of, slow_threshold_of}
use gateway_core.Proxy.Router.{lookup}
use gateway_core.RateLimit.Limiter.{update_limiter}
use gateway_core.Gateway.{Gateway, breaker_config, update_breakers, on_reload}

module _ {F : Type 0} where
  -- The settings of a breaker that a reload writes.
  pub record Follows (cfg : Config.Config F) (b : FailureRate F) : Type 0 where
    pub window_size : b.window_size ≡ cfg.window_size
    pub failure_threshold : b.failure_threshold ≡ cfg.failure_threshold
    pub reset_timeout : b.reset_timeout ≡ cfg.reset_timeout
    pub half_open_max : b.half_open_max ≡ cfg.half_open_max

  -- The layers around it, which it does not change.
  pub record HasLayersOf (b c : Breaker F) : Type 0 where
    pub adaptive : adaptive_of c ≡ adaptive_of b
    pub slow_threshold : slow_threshold_of c ≡ slow_threshold_of b
    pub bulkhead : outer_bulkhead c ≡ outer_bulkhead b

  update_core-Follows :
      (cfg : Config.Config F) (b : FailureRate F) → Follows cfg (update_core cfg b)
  unfolding update_core resize
  update_core-Follows cfg b = elim (Bool-cases (cfg.window_size == b.window_size)) [
    | inl e ↦
        let same = (==_iff cfg.window_size b.window_size).0 e in
        rw (e, update_core, resize)
          (record {
            window_size = sym same;
            failure_threshold = refl;
            reset_timeout = refl;
            half_open_max = refl;
          })
    | inr e ↦
        rw (e, update_core, resize)
          (record {
            window_size = refl;
            failure_threshold = refl;
            reset_timeout = refl;
            half_open_max = refl;
          })
  ]

  core-map_core :
      (f : FailureRate F → FailureRate F) (b : Breaker F) → core (map_core f b) ≡ f (core b)
  core-map_core f (rate_breaker b) = refl
  core-map_core f (adaptive_breaker a b) = refl
  core-map_core f (timeout_breaker t b) = core-map_core f b
  core-map_core f (bulkhead_breaker k b) = core-map_core f b

  map_core-HasLayersOf :
      (f : FailureRate F → FailureRate F) (b : Breaker F) → HasLayersOf b (map_core f b)
  map_core-HasLayersOf f (rate_breaker b) = record {
    adaptive = refl;
    slow_threshold = refl;
    bulkhead = refl;
  }
  map_core-HasLayersOf f (adaptive_breaker a b) = record {
    adaptive = refl;
    slow_threshold = refl;
    bulkhead = refl;
  }
  map_core-HasLayersOf f (timeout_breaker t b) = record {
    adaptive = (map_core-HasLayersOf f b).adaptive;
    slow_threshold = refl;
    bulkhead = refl;
  }
  map_core-HasLayersOf f (bulkhead_breaker k b) = record {
    adaptive = (map_core-HasLayersOf f b).adaptive;
    slow_threshold = (map_core-HasLayersOf f b).slow_threshold;
    bulkhead = refl;
  }

  lookup-update_breakers :
      (cfg : Config.Config F) (k : Bytes) (b : Composite F) (bs : List (Bytes × Composite F))
      → lookup k bs ≡ some b
      → lookup k (update_breakers cfg bs) ≡ some (update_config cfg b)
  unfolding lookup update_breakers
  lookup-update_breakers cfg k b [] h = cc
  lookup-update_breakers cfg k b ((j, c) ∷ bs) h = elim (Bool-cases (same_bytes j k)) [
    | inl e ↦
        let same = some-injective c b (rw (e, lookup) at h) in
        rw (e, lookup) (ap (λ x. some (update_config cfg x)) same)
    | inr e ↦ rw (e, lookup) (lookup-update_breakers cfg k b bs (rw (e, lookup) at h))
  ]

  -- What a reload makes of a gateway.
  pub record IsReloaded (cfg : Types.Config F) (g h : Gateway F) : Type 0 where
    pub rate : h.limiter.rate ≡ cfg.rate_limit.requests_per_second
    pub burst : h.limiter.burst ≡ cfg.rate_limit.burst_size
    pub limiter_routes : h.limiter.routes ≡ cfg.routes
    pub log_routes : h.routes_ref ≡ cfg.routes
    pub breaker :
        (k : Bytes) (b : Composite F)
        → lookup k g.breakers ≡ some b
        → (c : Composite F) × (lookup k h.breakers ≡ some c)
          × Follows (breaker_config cfg.circuit_breaker) (core c.effective)
          × HasLayersOf b.effective c.effective
    pub router : h.router ≡ g.router
    pub idle_ttl : h.limiter.table.idle_ttl ≡ g.limiter.table.idle_ttl
    pub cleanup_interval : h.limiter.cleanup_interval ≡ g.limiter.cleanup_interval

  -- After a reload, whatever the gateway was, the limiter's rate, burst and routes, the routes whose log
  -- levels are read, and the window, threshold, reset timeout and probes of every breaker are those of
  -- the new configuration. The router with its routes and proxies, the idle time and the interval of
  -- the limiter, and every breaker's bulkhead, slow threshold and adaptive settings are the old ones.
  pub on_reload-IsReloaded :
      (cfg : Types.Config F) (g : Gateway F) → IsReloaded cfg g (on_reload cfg g)
  unfolding on_reload update_limiter update_config
  on_reload-IsReloaded cfg g = record {
    rate = refl;
    burst = refl;
    limiter_routes = refl;
    log_routes = refl;
    breaker = λ k b h.
        let bcfg = breaker_config cfg.circuit_breaker in
        (
          update_config bcfg b,
          lookup-update_breakers bcfg k b g.breakers h,
          subst (Follows bcfg) (sym (core-map_core (update_core bcfg) b.effective))
              (update_core-Follows bcfg (core b.effective)),
          map_core-HasLayersOf (update_core bcfg) b.effective,
        );
    router = refl;
    idle_ttl = refl;
    cleanup_interval = refl;
  }
