-- ===== src/CircuitBreaker/FailureRate.antt =====
-- internal/circuitbreaker/failure_rate.go: the sliding-window breaker. An outcome is its `failed`
-- flag. Backend name, logger and metrics are left out: the state changes do not read them.
use gateway_core.Base.{
  ℕ, ◌+◌, ◌-◌, ◌%◌, Bool, true, false, ◌&&◌, List, leb, ◌==◌, if◌then◌else◌, get_or, set, replicate,
}
use gateway_core.Base.Int.{pos}
use gateway_core.Base.Float.{Float}
use gateway_core.CircuitBreaker.State.{State, closed, open_, half_open, same_state}

pub record FailureRate (F : Type 0) : Type 0 where
  pub state : State
  pub window : List Bool
  pub head : ℕ
  pub count : ℕ
  pub failures : ℕ
  pub window_size : ℕ
  pub failure_threshold : F
  pub reset_timeout : ℕ
  pub half_open_max : ℕ
  pub half_open_success : ℕ
  pub opened_at : ℕ

module _ {F : Type 0} where
  unfoldable pub new_failure_rate : ℕ → F → ℕ → ℕ → FailureRate F
  new_failure_rate size threshold timeout max = record {
    state = closed;
    window = replicate size false;
    head = 0;
    count = 0;
    failures = 0;
    window_size = size;
    failure_threshold = threshold;
    reset_timeout = timeout;
    half_open_max = max;
    half_open_success = 0;
    opened_at = 0;
  }

  -- The last `switch` of `transitionTo`.
  unfoldable pub enter : State → ℕ → FailureRate F → FailureRate F
  enter closed now b = record b {
    state = closed;
    head = 0;
    count = 0;
    failures = 0;
    half_open_success = 0;
  }
  enter open_ now b = record b { state = open_; opened_at = now; half_open_success = 0 }
  enter half_open now b = record b { state = half_open; half_open_success = 0 }

  unfoldable pub transition_to : State → ℕ → FailureRate F → FailureRate F
  unfolding enter
  transition_to new now b = if same_state b.state new then b else enter new now b

  unfoldable pub allow : ℕ → FailureRate F → FailureRate F × Bool
  unfolding transition_to
  allow now b = elim b.state [
    | closed ↦ (b, true)
    | open_ ↦
        if leb b.reset_timeout (now - b.opened_at)
        then (transition_to half_open now b, true)
        else (b, false)
    | half_open ↦ (b, true)
  ]

  -- The oldest outcome leaves a full window, and its failure with it.
  evict_oldest : FailureRate F → FailureRate F
  evict_oldest b =
      if b.count == b.window_size
      then (if get_or b.window b.head false then record b { failures = b.failures - 1 } else b)
      else record b { count = b.count + 1 }

  write_outcome : Bool → FailureRate F → FailureRate F
  write_outcome failed b = record b {
    window = set b.window b.head failed;
    failures = if failed then b.failures + 1 else b.failures;
    head = (b.head + 1) % b.window_size;
  }

  unfoldable pub record_outcome : Bool → FailureRate F → FailureRate F
  unfolding evict_oldest write_outcome
  record_outcome failed b = write_outcome failed (evict_oldest b)

  unfoldable pub record_success : ℕ → FailureRate F → FailureRate F
  unfolding transition_to
  record_success now b = elim b.state [
    | closed ↦ record_outcome false b
    | open_ ↦ b
    | half_open ↦
        let b' = record b { half_open_success = b.half_open_success + 1 } in
        if leb b'.half_open_max b'.half_open_success then transition_to closed now b' else b'
  ]

  unfoldable pub reset : ℕ → FailureRate F → FailureRate F
  unfolding transition_to
  reset now b = transition_to closed now b

  unfoldable pub set_failure_threshold : F → FailureRate F → FailureRate F
  set_failure_threshold t b = record b { failure_threshold = t }

module _ {F : Type 0} ⦃fl : Float F⦄ where
  -- `float64(failures) / float64(count)`, 0 on an empty window.
  unfoldable pub rate : ℕ → ℕ → F
  rate failures count =
      if count == 0 then fl.of_ℤ (pos 0) else fl.div (fl.of_ℤ (pos failures)) (fl.of_ℤ (pos count))

  unfoldable pub failure_rate : FailureRate F → F
  failure_rate b = rate b.failures b.count

  unfoldable pub record_failure : ℕ → FailureRate F → FailureRate F
  unfolding transition_to failure_rate
  record_failure now b = elim b.state [
    | closed ↦
        let b' = record_outcome true b in
        if leb b'.window_size b'.count && fl.at_most b'.failure_threshold (failure_rate b')
        then transition_to open_ now b'
        else b'
    | open_ ↦ b
    | half_open ↦ transition_to open_ now b
  ]
