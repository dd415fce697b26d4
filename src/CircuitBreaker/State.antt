-- ===== src/CircuitBreaker/State.antt =====
-- internal/circuitbreaker/breaker.go: the three states and their names.
use Prim.Native.String.{String}
use gateway_core.Base.{Bool, true, false}

pub data State : Type 0 where
  closed open_ half_open : State

abbrev pub state_name : State → String
state_name closed = "closed"
state_name open_ = "open"
state_name half_open = "half-open"

abbrev pub same_state : State → State → Bool
same_state closed closed = true
same_state open_ open_ = true
same_state half_open half_open = true
same_state _ _ = false
