-- ===== src/CircuitBreaker/Tests.antt =====
-- Runs of the circuit breaker at concrete inputs, and each of its theorems at one. Floats are
-- thousandths here.
use gateway_core.Base.{ℕ, ◌≤◌, ◌<◌, ◌≡◌, refl, true, false, List, [], ◌∷◌, arith, All, some}
use gateway_core.Base.Float.{milli}
use gateway_core.CircuitBreaker.State.{open_}
use gateway_core.CircuitBreaker.FailureRate.{
  FailureRate, new_failure_rate, allow, record_success, record_failure, record_outcome,
  transition_to, rate,
}
use gateway_core.CircuitBreaker.Config.{Config}
use gateway_core.CircuitBreaker.Window.{IsValid, new_failure_rate-IsValid}
use gateway_core.CircuitBreaker.Spec.{Event, asks, succeeds, fails, spec_run}
use gateway_core.CircuitBreaker.Refinement.{spec_of, run, run-refines}
use gateway_core.CircuitBreaker.Recovery.{open_rejects}
use gateway_core.CircuitBreaker.Layers.{allow_at}
use gateway_core.CircuitBreaker.Composite.{Composite, new_composite, composite_allow, release}
use gateway_core.CircuitBreaker.Composite.System.{System, Reachable, start, next, admit}
use gateway_core.CircuitBreaker.Composite.Reach.{in_flight_bounded}

-- Three outcomes, half of which may fail; 100 ns until the probes, of which two must succeed.
abbrev fresh : FailureRate ℕ
fresh = new_failure_rate 3 500 100 2

fresh-IsValid : IsValid fresh
fresh-IsValid = new_failure_rate-IsValid 3 500 100 2 (omega arith)

abbrev trip : List (Event ℕ)
trip = fails 1 ∷ succeeds 2 ∷ fails 3 ∷ asks 50 ∷ asks 110 ∷ succeeds 111 ∷ []

trip_answers : (run ⦃fl = milli⦄ trip fresh).1 ≡ false ∷ true ∷ []
unfolding run record_outcome rate new_failure_rate allow record_success record_failure
trip_answers = refl

trip_probes : (run ⦃fl = milli⦄ trip fresh).0.half_open_success ≡ 1
unfolding run record_outcome rate new_failure_rate allow record_success record_failure
trip_probes = refl

run-refines_example :
    (spec_of (run ⦃fl = milli⦄ trip fresh).0 ≡ (spec_run ⦃fl = milli⦄ trip (spec_of fresh)).0)
    × ((run ⦃fl = milli⦄ trip fresh).1 ≡ (spec_run ⦃fl = milli⦄ trip (spec_of fresh)).1)
run-refines_example = run-refines ⦃fl = milli⦄ trip fresh (omega arith) fresh-IsValid

abbrev tripped_at_40 : FailureRate ℕ
tripped_at_40 = transition_to open_ 40 fresh

abbrev early : List (Event ℕ)
early = asks 60 ∷ fails 70 ∷ asks 139 ∷ []

open_rejects_example :
    ((run ⦃fl = milli⦄ early tripped_at_40).0 ≡ tripped_at_40)
    × All (λ a. a ≡ false) (run ⦃fl = milli⦄ early tripped_at_40).1
unfolding transition_to new_failure_rate
open_rejects_example = open_rejects ⦃fl = milli⦄ early tripped_at_40 refl (omega arith)

-- Two requests at most; latencies above 50 ns are failures; the threshold adapts above 1000 ns.
abbrev layered : Config ℕ
layered = record {
  window_size = 3;
  failure_threshold = 500;
  reset_timeout = 100;
  half_open_max = 2;
  slow_threshold = 50;
  max_concurrent = 2;
  is_adaptive = true;
  latency_ceiling = 1000;
  min_threshold = 200;
}

abbrev stack : Composite ℕ
stack = new_composite ⦃fl = milli⦄ layered

abbrev started : System ℕ
started = record { breaker = stack; held = 0 }

abbrev busy : System ℕ
busy = record { breaker = (composite_allow ⦃fl = milli⦄ 5 stack).0; held = 1 }

busy-Reachable : Reachable ⦃fl = milli⦄ layered busy
unfolding composite_allow new_composite allow allow_at new_failure_rate
busy-Reachable = next {s = started} (start refl) (admit 5 refl refl)

in_flight_bounded_example :
    (0 < 2 → busy.held ≤ 2) × (0 < busy.held → (c : Composite ℕ) × (release busy.breaker ≡ some c))
in_flight_bounded_example = in_flight_bounded ⦃fl = milli⦄ layered busy (omega arith) busy-Reachable
