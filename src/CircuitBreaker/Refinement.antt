-- ===== src/CircuitBreaker/Refinement.antt =====
-- The failure-rate breaker of failure_rate.go against its specification.
use gateway_core.Base.{
  ℕ, ◌<◌, ◌≡◌, refl, Bool, true, false, List, [], ◌∷◌, ◌++◌, arith, All, replicate,
}
use gateway_core.Base.Float.{Float}
use gateway_core.CircuitBreaker.State.{closed, open_, half_open}
use gateway_core.CircuitBreaker.FailureRate.{
  FailureRate, allow, record_success, record_failure, record_outcome, reset, set_failure_threshold,
}
use gateway_core.CircuitBreaker.Config.{Config, update_core}
use gateway_core.CircuitBreaker.Window.{
  recent, IsValid, read_ring_empty, length-recent, recent-record_outcome, record_outcome-IsValid,
}
use gateway_core.CircuitBreaker.Invariant.{
  allow-IsValid, record_success-IsValid, record_failure-IsValid, reset-IsValid,
  set_failure_threshold-IsValid, update_core-IsValid,
}
use gateway_core.CircuitBreaker.Spec.{
  Phase, counting, tripped, probing, Policy, Event, asks, succeeds, fails, resets, retunes,
  reconfigures, IsProper, Spec, spec_step, spec_run,
}

module _ {F : Type 0} where
  abbrev pub phase_of : FailureRate F → Phase
  phase_of b = elim b.state [
    | closed ↦ counting (recent b)
    | open_ ↦ tripped b.opened_at
    | half_open ↦ probing b.half_open_success
  ]

  abbrev pub policy_of : FailureRate F → Policy F
  policy_of b = record {
    window_size = b.window_size;
    failure_threshold = b.failure_threshold;
    reset_timeout = b.reset_timeout;
    half_open_max = b.half_open_max;
  }

  abbrev pub spec_of : FailureRate F → Spec F
  spec_of b = record { policy = policy_of b; phase = phase_of b }

module _ {F : Type 0} ⦃fl : Float F⦄ where
  unfoldable pub step : Event F → FailureRate F → FailureRate F × List Bool
  step (asks now) b = let (b', answer) = allow now b in (b', answer ∷ [])
  step (succeeds now) b = (record_success now b, [])
  step (fails now) b = (record_failure now b, [])
  step (resets now) b = (reset now b, [])
  step (retunes t) b = (set_failure_threshold t b, [])
  step (reconfigures cfg) b = (update_core cfg b, [])

  unfoldable pub run : List (Event F) → FailureRate F → FailureRate F × List Bool
  unfolding step
  run [] b = (b, [])
  run (e ∷ es) b =
      let (b', answers) = step e b in let (b'', more) = run es b' in (b'', answers ++ more)

  -- A recorded outcome changes the window alone.
  record_outcome_rest :
      (failed : Bool) (b : FailureRate F)
      → ((record_outcome failed b).state ≡ b.state)
        × (policy_of (record_outcome failed b) ≡ policy_of b)
  unfolding record_outcome
  record_outcome_rest failed b = (ground arith, ground arith)

  -- What one event answers and leaves is what the specification says.
  abbrev Refines : Event F → FailureRate F → Type 0
  Refines e b =
      (spec_of (step e b).0 ≡ (spec_step e (spec_of b)).0)
      × ((step e b).1 ≡ (spec_step e (spec_of b)).1)

  asks-Refines : (now : ℕ) (b : FailureRate F) → Refines (asks now) b
  unfolding allow recent step
  asks-Refines now b = (ground arith, ground arith)

  succeeds-Refines : (now : ℕ) (b : FailureRate F) → IsValid b → Refines (succeeds now) b
  unfolding record_success step recent
  succeeds-Refines now b v = (
    ground (
      arith,
      record_outcome_rest false b,
      read_ring_empty b.window b.window_size (omega (arith, v.within)),
      recent-record_outcome false b v,
    ),
    refl,
  )

  fails-Refines : (now : ℕ) (b : FailureRate F) → IsValid b → Refines (fails now) b
  unfolding record_failure step
  fails-Refines now b v = (
    ground (
      arith,
      record_outcome_rest true b,
      recent-record_outcome true b v,
      length-recent (record_outcome true b) (record_outcome-IsValid true v),
      (record_outcome-IsValid true v).counted,
    ),
    refl,
  )

  resets-Refines : (now : ℕ) (b : FailureRate F) → IsValid b → Refines (resets now) b
  unfolding reset step recent
  resets-Refines now b v =
      (ground (arith, read_ring_empty b.window b.window_size (omega (arith, v.within))), refl)

  retunes-Refines : (t : F) (b : FailureRate F) → Refines (retunes t) b
  unfolding set_failure_threshold step recent
  retunes-Refines t b = (ground arith, refl)

  reconfigures-Refines :
      (cfg : Config F) (b : FailureRate F) → 0 < cfg.window_size → Refines (reconfigures cfg) b
  unfolding update_core step recent
  reconfigures-Refines cfg b h =
      (ground (arith, read_ring_empty (replicate cfg.window_size false) cfg.window_size h), refl)

  step-Refines : (e : Event F) {b : FailureRate F} → IsProper e → IsValid b → Refines e b
  step-Refines (asks now) {b} h v = asks-Refines now b
  step-Refines (succeeds now) {b} h v = succeeds-Refines now b v
  step-Refines (fails now) {b} h v = fails-Refines now b v
  step-Refines (resets now) {b} h v = resets-Refines now b v
  step-Refines (retunes t) {b} h v = retunes-Refines t b
  step-Refines (reconfigures cfg) {b} h v = reconfigures-Refines cfg b h

  -- Every operation keeps the window well formed: its counters agree with its outcomes, and stay
  -- in range. A reconfiguration is to a window that is not empty.
  pub step-IsValid :
      (e : Event F) {b : FailureRate F} → IsProper e → IsValid b → IsValid (step e b).0
  unfolding step
  step-IsValid (asks now) h v = allow-IsValid now v
  step-IsValid (succeeds now) h v = record_success-IsValid now v
  step-IsValid (fails now) h v = record_failure-IsValid now v
  step-IsValid (resets now) h v = reset-IsValid now v
  step-IsValid (retunes t) h v = set_failure_threshold-IsValid t v
  step-IsValid (reconfigures cfg) h v = update_core-IsValid cfg h v

  -- From a well-formed breaker, any sequence of calls (reconfigurations being to nonempty windows)
  -- gives the answers of the specification, and ends in its phase, under its policy.
  pub run-refines :
      (es : List (Event F)) (b : FailureRate F)
      → All IsProper es
      → IsValid b
      → (spec_of (run es b).0 ≡ (spec_run es (spec_of b)).0)
        × ((run es b).1 ≡ (spec_run es (spec_of b)).1)
  unfolding run spec_run
  run-refines [] b h v = (refl, refl)
  run-refines (e ∷ es) b (h, hs) v =
      let (left, answers) = step-Refines e h v in
      let (left', answers') = run-refines es (step e b).0 hs (step-IsValid e h v) in
      (rw (← left) left', rw (← left, ← answers, answers'))
