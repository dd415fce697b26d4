-- ===== src/CircuitBreaker/Invariant.antt =====
-- Every operation of the failure-rate breaker keeps its window well formed.
use gateway_core.Base.{
  ℕ, ◌+◌, ◌<◌, ◌≡◌, refl, Bool, true, false, arith, replicate, if◌then◌else◌, length-replicate,
}
use gateway_core.Base.Float.{Float}
use gateway_core.CircuitBreaker.State.{State, closed, open_, half_open}
use gateway_core.CircuitBreaker.FailureRate.{
  FailureRate, allow, record_success, record_failure, reset, set_failure_threshold, transition_to,
}
use gateway_core.CircuitBreaker.Config.{Config, update_core}
use gateway_core.CircuitBreaker.Window.{recent, IsValid, read_ring_empty, record_outcome-IsValid}

module _ {F : Type 0} where
  transition_to-IsValid :
      (new : State) (now : ℕ) {b : FailureRate F} → IsValid b → IsValid (transition_to new now b)
  unfolding transition_to recent
  transition_to-IsValid closed now {b} v =
      ground (arith, read_ring_empty b.window b.window_size (omega (arith, v.within)))
  transition_to-IsValid open_ now v = ground arith
  transition_to-IsValid half_open now v = ground arith

  -- The fields that the window does not depend on.
  probe-IsValid :
      (n : ℕ) {b : FailureRate F} → IsValid b → IsValid (record b { half_open_success = n })
  unfolding recent
  probe-IsValid n v = ground arith

  pub set_failure_threshold-IsValid :
      (t : F) {b : FailureRate F} → IsValid b → IsValid (set_failure_threshold t b)
  unfolding set_failure_threshold recent
  set_failure_threshold-IsValid t v = ground arith

  if-IsValid :
      (t : Bool) {b c : FailureRate F} → IsValid b → IsValid c → IsValid (if t then b else c)
  if-IsValid true v w = v
  if-IsValid false v w = w

  pub record_success-IsValid :
      (now : ℕ) {b : FailureRate F} → IsValid b → IsValid (record_success now b)
  unfolding record_success recent
  record_success-IsValid now {b} v =
      elim b.state as (λ st. b.state ≡ st → IsValid (record_success now b)) [
        | closed ↦ λ e. rw (e, record_success) (record_outcome-IsValid false v)
        | open_ ↦ λ e. rw (e, record_success) v
        | half_open ↦ λ e.
            rw (e, record_success)
              (if-IsValid _
                (transition_to-IsValid closed now (probe-IsValid (b.half_open_success + 1) v))
                (probe-IsValid (b.half_open_success + 1) v))
      ]
        refl

  pub allow-IsValid : (now : ℕ) {b : FailureRate F} → IsValid b → IsValid (allow now b).0
  unfolding allow recent
  allow-IsValid now v = ground arith

  pub reset-IsValid : (now : ℕ) {b : FailureRate F} → IsValid b → IsValid (reset now b)
  reset-IsValid now v = unfold reset in transition_to-IsValid closed now v

  pub update_core-IsValid :
      (cfg : Config F) {b : FailureRate F}
      → 0 < cfg.window_size
      → IsValid b
      → IsValid (update_core cfg b)
  unfolding update_core recent
  update_core-IsValid cfg {b} h v = ground (
    arith,
    read_ring_empty (replicate cfg.window_size false) cfg.window_size h,
    length-replicate cfg.window_size false,
  )

module _ {F : Type 0} ⦃fl : Float F⦄ where
  pub record_failure-IsValid :
      (now : ℕ) {b : FailureRate F} → IsValid b → IsValid (record_failure now b)
  unfolding record_failure
  record_failure-IsValid now {b} v =
      elim b.state as (λ st. b.state ≡ st → IsValid (record_failure now b)) [
        | closed ↦ λ e.
            rw (e, record_failure)
              (if-IsValid _ (transition_to-IsValid open_ now (record_outcome-IsValid true v))
                (record_outcome-IsValid true v))
        | open_ ↦ λ e. rw (e, record_failure) v
        | half_open ↦ λ e. rw (e, record_failure) (transition_to-IsValid open_ now v)
      ]
        refl
