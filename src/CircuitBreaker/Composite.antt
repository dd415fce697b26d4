-- ===== src/CircuitBreaker/Composite.antt =====
-- internal/circuitbreaker/composite.go. The pointers `failureRate` and `bulkhead` of a composite
-- point into its stack of layers, so they are read off that stack.
pub mod System
pub mod Slots
pub mod Reach
pub mod Reload
use gateway_core.Base.{ℕ, ◌-◌, Bool, true, false, Option, none, some, ltb, leb, if◌then◌else◌}
use gateway_core.Base.Int.{pos}
use gateway_core.Base.Float.{Float}
use gateway_core.CircuitBreaker.State.{State, open_}
use gateway_core.CircuitBreaker.FailureRate.{new_failure_rate}
use gateway_core.CircuitBreaker.Config.{Config, update_core}
use gateway_core.CircuitBreaker.Layers.{
  Bulkhead, Breaker, rate_breaker, adaptive_breaker, timeout_breaker, bulkhead_breaker, allow_at,
  success_at, failure_at, reset_at, state_of, core, map_core,
}

pub record Composite (F : Type 0) : Type 0 where
  pub effective : Breaker F

unfoldable pub at_capacity : Bulkhead → Bool
at_capacity k = leb k.capacity k.in_flight

module _ {F : Type 0} where
  abbrev pub outer_bulkhead : Breaker F → Option Bulkhead
  outer_bulkhead (bulkhead_breaker k b) = some k
  outer_bulkhead _ = none

  unfoldable pub inner_state : Composite F → State
  inner_state c = (core c.effective).state

  unfoldable pub effective_state : Composite F → State
  unfolding inner_state at_capacity
  effective_state c = elim (outer_bulkhead c.effective) [
    | none ↦ inner_state c
    | some k ↦ if at_capacity k then open_ else inner_state c
  ]

  -- A receive from an empty channel blocks: there is no next state.
  unfoldable pub release_layer : Breaker F → Option (Breaker F)
  release_layer (bulkhead_breaker k b) =
      if ltb 0 k.in_flight
      then some (bulkhead_breaker (record k { in_flight = k.in_flight - 1 }) b)
      else none
  release_layer b = some b

  unfoldable pub release : Composite F → Option (Composite F)
  unfolding release_layer
  release c = elim (release_layer c.effective) [
    | none ↦ none
    | some b ↦ some (record { effective = b })
  ]

  unfoldable pub update_config : Config F → Composite F → Composite F
  update_config cfg c = record { effective = map_core (update_core cfg) c.effective }

module _ {F : Type 0} ⦃fl : Float F⦄ where
  with_adaptive : Config F → Breaker F
  with_adaptive cfg =
      let fr =
        new_failure_rate cfg.window_size cfg.failure_threshold cfg.reset_timeout
          cfg.half_open_max in
      if cfg.is_adaptive
      then adaptive_breaker
          (record {
            ewma_latency = fl.of_ℤ (pos 0);
            alpha = fl.literal 3 1;
            base_threshold = cfg.failure_threshold;
            min_threshold = cfg.min_threshold;
            latency_ceiling = cfg.latency_ceiling;
          })
          fr
      else rate_breaker fr

  with_timeout : Config F → Breaker F → Breaker F
  with_timeout cfg b = if ltb 0 cfg.slow_threshold then timeout_breaker cfg.slow_threshold b else b

  with_bulkhead : Config F → Breaker F → Breaker F
  with_bulkhead cfg b =
      if ltb 0 cfg.max_concurrent
      then bulkhead_breaker (record { in_flight = 0; capacity = cfg.max_concurrent }) b
      else b

  unfoldable pub new_composite : Config F → Composite F
  unfolding with_adaptive with_timeout with_bulkhead
  new_composite cfg = record {
    effective = with_bulkhead cfg (with_timeout cfg (with_adaptive cfg));
  }

  unfoldable pub composite_allow : ℕ → Composite F → Composite F × Bool
  composite_allow now c =
      let (b, answer) = allow_at now c.effective in (record { effective = b }, answer)

  unfoldable pub composite_success : (now latency : ℕ) → Composite F → Composite F
  composite_success now latency c = record { effective = success_at now latency c.effective }

  unfoldable pub composite_failure : (now latency : ℕ) → Composite F → Composite F
  composite_failure now latency c = record { effective = failure_at now latency c.effective }

  unfoldable pub composite_reset : ℕ → Composite F → Composite F
  composite_reset now c = record { effective = reset_at now c.effective }
