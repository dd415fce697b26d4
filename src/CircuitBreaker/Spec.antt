-- ===== src/CircuitBreaker/Spec.antt =====
-- What the failure-rate breaker promises, with no ring buffer: the recent outcomes while it
-- counts, the time at which it tripped, or the successes of its probes.
use gateway_core.Base.{
  ℕ, ◌+◌, ◌-◌, ◌<◌, Bool, true, false, ◌&&◌, List, [], ◌∷◌, ◌++◌, leb, ◌==◌, if◌then◌else◌, length,
}
use gateway_core.Base.Float.{Float}
use gateway_core.CircuitBreaker.FailureRate.{rate}
use gateway_core.CircuitBreaker.Config.{Config}
use gateway_core.CircuitBreaker.Window.{count_failed, last_n}

pub data Phase : Type 0 where
  counting : List Bool → Phase
  tripped : (since : ℕ) → Phase
  probing : (successes : ℕ) → Phase

pub record Policy (F : Type 0) : Type 0 where
  pub window_size : ℕ
  pub failure_threshold : F
  pub reset_timeout : ℕ
  pub half_open_max : ℕ

-- What a breaker is asked to do, with the time where it matters.
pub data Event (F : Type 0) : Type 0 where
  asks : (now : ℕ) → Event F
  succeeds : (now : ℕ) → Event F
  fails : (now : ℕ) → Event F
  resets : (now : ℕ) → Event F
  retunes : F → Event F
  reconfigures : Config F → Event F

-- A configured window is not empty.
abbrev pub IsProper : {F : Type 0} → Event F → Type 0
IsProper (reconfigures cfg) = 0 < cfg.window_size
IsProper _ = Unit

pub record Spec (F : Type 0) : Type 0 where
  pub policy : Policy F
  pub phase : Phase

-- A reset forgets the window, unless the breaker is closed already.
abbrev pub spec_reset : Phase → Phase
spec_reset (counting past) = counting past
spec_reset (tripped since) = counting []
spec_reset (probing n) = counting []

abbrev pub forget : Phase → Phase
forget (counting past) = counting []
forget ph = ph

module _ {F : Type 0} ⦃fl : Float F⦄ where
  abbrev pub spec_success : Policy F → Phase → Phase
  spec_success p (counting past) = counting (last_n p.window_size (past ++ false ∷ []))
  spec_success p (tripped since) = tripped since
  spec_success p (probing n) = if leb p.half_open_max (n + 1) then counting [] else probing (n + 1)

  -- A failure trips the breaker if it completes a full window whose failure rate is too high.
  abbrev pub spec_failure : Policy F → ℕ → Phase → Phase
  spec_failure p now (counting past) =
      let past' = last_n p.window_size (past ++ true ∷ []) in
      if leb p.window_size (length past')
        && fl.at_most p.failure_threshold (rate (count_failed past') (length past'))
      then tripped now
      else counting past'
  spec_failure p now (tripped since) = tripped since
  spec_failure p now (probing n) = tripped now

  abbrev pub spec_ask : Policy F → ℕ → Phase → Phase × Bool
  spec_ask p now (counting past) = (counting past, true)
  spec_ask p now (tripped since) =
      if leb p.reset_timeout (now - since) then (probing 0, true) else (tripped since, false)
  spec_ask p now (probing n) = (probing n, true)

  abbrev pub spec_step : Event F → Spec F → Spec F × List Bool
  spec_step (asks now) s =
      let (ph, answer) = spec_ask s.policy now s.phase in (record s { phase = ph }, answer ∷ [])
  spec_step (succeeds now) s = (record s { phase = spec_success s.policy s.phase }, [])
  spec_step (fails now) s = (record s { phase = spec_failure s.policy now s.phase }, [])
  spec_step (resets now) s = (record s { phase = spec_reset s.phase }, [])
  spec_step (retunes t) s = (record s { policy = record s.policy { failure_threshold = t } }, [])
  spec_step (reconfigures cfg) s = (
    record {
      policy = record {
        window_size = cfg.window_size;
        failure_threshold = cfg.failure_threshold;
        reset_timeout = cfg.reset_timeout;
        half_open_max = cfg.half_open_max;
      };
      phase = if cfg.window_size == s.policy.window_size then s.phase else forget s.phase;
    },
    [],
  )

  -- The answers to all that is asked, in order.
  unfoldable pub spec_run : List (Event F) → Spec F → Spec F × List Bool
  spec_run [] s = (s, [])
  spec_run (e ∷ es) s =
      let (s', answers) = spec_step e s in
      let (s'', more) = spec_run es s' in (s'', answers ++ more)
