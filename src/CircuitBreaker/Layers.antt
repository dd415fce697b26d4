-- ===== src/CircuitBreaker/Layers.antt =====
-- internal/circuitbreaker/{adaptive,timeout,bulkhead}.go: the decorators of the failure-rate
-- breaker. A value of `Breaker` is a stack of them, its dynamic dispatch the clauses below.
use gateway_core.Base.{ℕ, ◌+◌, Bool, false, ltb, if◌then◌else◌}
use gateway_core.Base.Int.{pos}
use gateway_core.Base.Float.{Float}
use gateway_core.CircuitBreaker.State.{State}
use gateway_core.CircuitBreaker.FailureRate.{
  FailureRate, allow, record_success, record_failure, reset, set_failure_threshold,
}

pub record Adaptive (F : Type 0) : Type 0 where
  pub ewma_latency : F
  pub alpha : F
  pub base_threshold : F
  pub min_threshold : F
  pub latency_ceiling : ℕ

-- A channel of `capacity` places, of which `in_flight` are taken.
pub record Bulkhead : Type 0 where
  pub in_flight : ℕ
  pub capacity : ℕ

pub data Breaker (F : Type 0) : Type 0 where
  rate_breaker : FailureRate F → Breaker F
  adaptive_breaker : Adaptive F → FailureRate F → Breaker F
  timeout_breaker : (slow_threshold : ℕ) → Breaker F → Breaker F
  bulkhead_breaker : Bulkhead → Breaker F → Breaker F

module _ {F : Type 0} ⦃fl : Float F⦄ where
  unfoldable pub next_ewma : ℕ → Adaptive F → F
  next_ewma latency a =
      let ns = fl.of_ℤ (pos latency) in
      if fl.same a.ewma_latency (fl.of_ℤ (pos 0))
      then ns
      else fl.add (fl.mul a.alpha ns) (fl.mul (fl.sub (fl.of_ℤ (pos 1)) a.alpha) a.ewma_latency)

  -- From the ceiling to twice the ceiling the threshold falls from its base to its minimum.
  tightened : F → F → Adaptive F → F
  tightened ewma ceiling a =
      let ratio = fl.div (fl.sub ewma ceiling) ceiling in
      let capped = (if fl.less (fl.of_ℤ (pos 1)) ratio then fl.of_ℤ (pos 1) else ratio) in
      fl.sub a.base_threshold (fl.mul capped (fl.sub a.base_threshold a.min_threshold))

  unfoldable pub threshold_at : F → Adaptive F → F
  unfolding tightened
  threshold_at ewma a =
      let ceiling = fl.of_ℤ (pos a.latency_ceiling) in
      if fl.at_most ewma ceiling then a.base_threshold else tightened ewma ceiling a

  unfoldable pub update_threshold : ℕ → Adaptive F → FailureRate F → Breaker F
  unfolding next_ewma threshold_at
  update_threshold latency a inner =
      let ewma = next_ewma latency a in
      adaptive_breaker (record a { ewma_latency = ewma })
        (set_failure_threshold (threshold_at ewma a) inner)

  unfoldable pub allow_at : ℕ → Breaker F → Breaker F × Bool
  allow_at now (rate_breaker b) = let (b', answer) = allow now b in (rate_breaker b', answer)
  allow_at now (adaptive_breaker a b) =
      let (b', answer) = allow now b in (adaptive_breaker a b', answer)
  allow_at now (timeout_breaker t b) =
      let (b', answer) = allow_at now b in (timeout_breaker t b', answer)
  allow_at now (bulkhead_breaker k b) =
      let (b', answer) = allow_at now b in
      let taken = (if answer then record k { in_flight = k.in_flight + 1 } else k) in
      if ltb k.in_flight k.capacity
      then (bulkhead_breaker taken b', answer)
      else (bulkhead_breaker k b, false)

  unfoldable pub failure_at : (now latency : ℕ) → Breaker F → Breaker F
  failure_at now latency (rate_breaker b) = rate_breaker (record_failure now b)
  failure_at now latency (adaptive_breaker a b) = update_threshold latency a (record_failure now b)
  failure_at now latency (timeout_breaker t b) = timeout_breaker t (failure_at now latency b)
  failure_at now latency (bulkhead_breaker k b) = bulkhead_breaker k (failure_at now latency b)

  unfoldable pub success_at : (now latency : ℕ) → Breaker F → Breaker F
  unfolding failure_at
  success_at now latency (rate_breaker b) = rate_breaker (record_success now b)
  success_at now latency (adaptive_breaker a b) = update_threshold latency a (record_success now b)
  success_at now latency (timeout_breaker t b) =
      let fine = success_at now latency b in
      timeout_breaker t (if ltb t latency then failure_at now latency b else fine)
  success_at now latency (bulkhead_breaker k b) = bulkhead_breaker k (success_at now latency b)

  unfoldable pub reset_at : ℕ → Breaker F → Breaker F
  reset_at now (rate_breaker b) = rate_breaker (reset now b)
  reset_at now (adaptive_breaker a b) =
      adaptive_breaker (record a { ewma_latency = fl.of_ℤ (pos 0) })
        (set_failure_threshold a.base_threshold (reset now b))
  reset_at now (timeout_breaker t b) = timeout_breaker t (reset_at now b)
  reset_at now (bulkhead_breaker k b) = bulkhead_breaker k (reset_at now b)

module _ {F : Type 0} where
  -- The failure-rate breaker at the bottom of the stack.
  abbrev pub core : Breaker F → FailureRate F
  core (rate_breaker b) = b
  core (adaptive_breaker a b) = b
  core (timeout_breaker t b) = core b
  core (bulkhead_breaker k b) = core b

  abbrev pub state_of : Breaker F → State
  state_of (rate_breaker b) = b.state
  state_of (adaptive_breaker a b) = b.state
  state_of (timeout_breaker t b) = state_of b
  state_of (bulkhead_breaker k b) = state_of b

  -- A change to that breaker through a pointer to it, seen by every layer above.
  abbrev pub map_core : (FailureRate F → FailureRate F) → Breaker F → Breaker F
  map_core f (rate_breaker b) = rate_breaker (f b)
  map_core f (adaptive_breaker a b) = adaptive_breaker a (f b)
  map_core f (timeout_breaker t b) = timeout_breaker t (map_core f b)
  map_core f (bulkhead_breaker k b) = bulkhead_breaker k (map_core f b)
