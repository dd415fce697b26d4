-- ===== src/CircuitBreaker/Composite/System.antt =====
-- A breaker stack in use: requests are let in or turned away, report their outcome, and those let
-- in give their slot back once, as ServeHTTP of internal/proxy/proxy.go does by its `defer`.
use gateway_core.Base.{ℕ, ◌+◌, ◌-◌, ◌<◌, ◌≡◌, true, false, some}
use gateway_core.Base.Float.{Float}
use gateway_core.CircuitBreaker.Config.{Config}
use gateway_core.CircuitBreaker.Composite.{
  Composite, composite_allow, composite_success, composite_failure, composite_reset, release,
  update_config, new_composite,
}

-- `held` requests have been let in and have not yet given their slot back.
pub record System (F : Type 0) : Type 0 where
  pub breaker : Composite F
  pub held : ℕ

module _ {F : Type 0} ⦃fl : Float F⦄ where
  pub data Step (s : System F) : System F → Type 0 where
    admit :
        {t : System F} (now : ℕ)
        → (composite_allow now s.breaker).1 ≡ true
        → t ≡ record { breaker = (composite_allow now s.breaker).0; held = s.held + 1 }
        → Step s t
    reject :
        {t : System F} (now : ℕ)
        → (composite_allow now s.breaker).1 ≡ false
        → t ≡ record s { breaker = (composite_allow now s.breaker).0 }
        → Step s t
    succeed :
        {t : System F} (now latency : ℕ)
        → t ≡ record s { breaker = composite_success now latency s.breaker }
        → Step s t
    fail :
        {t : System F} (now latency : ℕ)
        → t ≡ record s { breaker = composite_failure now latency s.breaker }
        → Step s t
    force_closed :
        {t : System F} (now : ℕ)
        → t ≡ record s { breaker = composite_reset now s.breaker }
        → Step s t
    reload :
        {t : System F} (cfg : Config F)
        → 0 < cfg.window_size
        → t ≡ record s { breaker = update_config cfg s.breaker }
        → Step s t
    finish :
        {t : System F} (c : Composite F)
        → 0 < s.held
        → release s.breaker ≡ some c
        → t ≡ record { breaker = c; held = s.held - 1 }
        → Step s t

  -- What a gateway that starts with `cfg` can come to.
  pub data Reachable (cfg : Config F) : System F → Type 0 where
    start : {s : System F} → s ≡ record { breaker = new_composite cfg; held = 0 } → Reachable cfg s
    next : {s t : System F} → Reachable cfg s → Step s t → Reachable cfg t
