-- ===== src/CircuitBreaker/Composite/Reload.antt =====
-- How the adaptive and the timeout layers act on what the layers below them are told.
use gateway_core.Base.{ℕ, ◌<◌, ◌≡◌, ap, ◌∙◌, true, Option, none, some, arith}
use gateway_core.Base.Int.{pos}
use gateway_core.Base.Float.{Float}
use gateway_core.CircuitBreaker.FailureRate.{FailureRate, set_failure_threshold}
use gateway_core.CircuitBreaker.Config.{Config, update_core}
use gateway_core.CircuitBreaker.Layers.{
  Adaptive, Breaker, rate_breaker, adaptive_breaker, timeout_breaker, bulkhead_breaker, success_at,
  failure_at, update_threshold, next_ewma, threshold_at, core, map_core,
}
use gateway_core.CircuitBreaker.Composite.{
  Composite, composite_success, composite_failure, update_config,
}

module _ {F : Type 0} where
  abbrev pub adaptive_of : Breaker F → Option (Adaptive F)
  adaptive_of (rate_breaker b) = none
  adaptive_of (adaptive_breaker a b) = some a
  adaptive_of (timeout_breaker t b) = adaptive_of b
  adaptive_of (bulkhead_breaker k b) = adaptive_of b

  abbrev pub slow_threshold_of : Breaker F → Option ℕ
  slow_threshold_of (timeout_breaker t b) = some t
  slow_threshold_of (bulkhead_breaker k b) = slow_threshold_of b
  slow_threshold_of _ = none

module _ {F : Type 0} ⦃fl : Float F⦄ where
  failure_threshold :
      (now latency : ℕ) (f : FailureRate F → FailureRate F) (b : Breaker F) {a : Adaptive F}
      → adaptive_of b ≡ some a
      → (core (failure_at now latency (map_core f b))).failure_threshold
        ≡ threshold_at (next_ewma latency a) a
  unfolding failure_at update_threshold set_failure_threshold
  failure_threshold now latency f (rate_breaker b) e = cc
  failure_threshold now latency f (adaptive_breaker a b) e = ground arith
  failure_threshold now latency f (timeout_breaker t b) e = failure_threshold now latency f b e
  failure_threshold now latency f (bulkhead_breaker k b) e = failure_threshold now latency f b e

  success_threshold :
      (now latency : ℕ) (f : FailureRate F → FailureRate F) (b : Breaker F) {a : Adaptive F}
      → adaptive_of b ≡ some a
      → (core (success_at now latency (map_core f b))).failure_threshold
        ≡ threshold_at (next_ewma latency a) a
  unfolding success_at update_threshold set_failure_threshold
  success_threshold now latency f (rate_breaker b) e = cc
  success_threshold now latency f (adaptive_breaker a b) e = ground arith
  success_threshold now latency f (timeout_breaker t b) e =
      ground (arith, failure_threshold now latency f b e, success_threshold now latency f b e)
  success_threshold now latency f (bulkhead_breaker k b) e = success_threshold now latency f b e

  -- Under an adaptive layer a reloaded failure threshold lasts until the next outcome only: that
  -- sets the threshold from the settings of the layer's construction, whatever was reloaded, and
  -- back to the base threshold of those settings while latency is below the ceiling.
  pub reload_is_overwritten :
      (cfg : Config F) (now latency : ℕ) (c : Composite F) (a : Adaptive F)
      → adaptive_of c.effective ≡ some a
      → fl.at_most (next_ewma latency a) (fl.of_ℤ (pos a.latency_ceiling)) ≡ true
      → ((core (composite_success now latency (update_config cfg c)).effective).failure_threshold
          ≡ a.base_threshold)
        × ((core (composite_failure now latency (update_config cfg c)).effective).failure_threshold
            ≡ a.base_threshold)
  unfolding composite_success composite_failure update_config threshold_at
  reload_is_overwritten cfg now latency c a e h = (
    success_threshold now latency (update_core cfg) c.effective e ∙ calm,
    failure_threshold now latency (update_core cfg) c.effective e ∙ calm,
  )
    where
      calm : threshold_at (next_ewma latency a) a ≡ a.base_threshold
      calm = rw (h, threshold_at)

  success_at_slow :
      (now latency : ℕ) (b : Breaker F) {t : ℕ}
      → slow_threshold_of b ≡ some t
      → t < latency
      → success_at now latency b ≡ failure_at now latency b
  unfolding success_at failure_at
  success_at_slow now latency (rate_breaker b) e h = cc
  success_at_slow now latency (adaptive_breaker a b) e h = cc
  success_at_slow now latency (timeout_breaker t b) e h = ground arith
  success_at_slow now latency (bulkhead_breaker k b) e h =
      ap (bulkhead_breaker k) (success_at_slow now latency b e h)

  -- With a slow threshold configured, a success that took longer leaves the whole stack as a
  -- failure of that latency does.
  pub slow_success :
      (now latency : ℕ) (c : Composite F) (t : ℕ)
      → slow_threshold_of c.effective ≡ some t
      → t < latency
      → composite_success now latency c ≡ composite_failure now latency c
  unfolding composite_success composite_failure
  slow_success now latency c t e h =
      ap (λ b. record { effective = b }) (success_at_slow now latency c.effective e h)
