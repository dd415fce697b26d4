-- ===== src/CircuitBreaker/Config.antt =====
-- internal/circuitbreaker/composite.go: the settings of a breaker stack, and their hot reload into
-- the failure-rate breaker.
use gateway_core.Base.{ℕ, Bool, false, ◌==◌, if◌then◌else◌, replicate}
use gateway_core.CircuitBreaker.FailureRate.{FailureRate}

pub record Config (F : Type 0) : Type 0 where
  pub window_size : ℕ
  pub failure_threshold : F
  pub reset_timeout : ℕ
  pub half_open_max : ℕ
  pub slow_threshold : ℕ
  pub max_concurrent : ℕ
  pub is_adaptive : Bool
  pub latency_ceiling : ℕ
  pub min_threshold : F

module _ {F : Type 0} where
  -- A window of another size starts empty.
  unfoldable pub resize : ℕ → FailureRate F → FailureRate F
  resize size b = if size == b.window_size then b else record b {
    window = replicate size false;
    window_size = size;
    head = 0;
    count = 0;
    failures = 0;
  }

  -- `CompositeBreaker.UpdateConfig`, on the breaker that it locks.
  unfoldable pub update_core : Config F → FailureRate F → FailureRate F
  unfolding resize
  update_core cfg b = resize cfg.window_size (record b {
    failure_threshold = cfg.failure_threshold;
    reset_timeout = cfg.reset_timeout;
    half_open_max = cfg.half_open_max;
  })
