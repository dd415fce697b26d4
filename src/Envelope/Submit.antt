-- ===== src/Envelope/Submit.antt =====
-- internal/envelope/envelope.go. A decision's reason is the value whose text the source stores.
pub mod Stages
use gateway_core.Base.{Bool, true, false, List, Option, none, some, if◌then◌else◌}
use gateway_core.Base.Int.{ℤ, pos}
use gateway_core.Base.Float.{Float}
use gateway_core.Envelope.Proposal.{Proposal, DecisionKind, reject, defer}
use gateway_core.Envelope.Constraints.{Constraint, Violation, evaluate_constraints}
use gateway_core.Envelope.Bounds.{BoundsRegistry, BoundsViolation, evaluate_bounds}
use gateway_core.Envelope.Dampener.{
  DampenerRegistry, DampenerOutcome, DampenerReason, cooldown_active, below_hysteresis,
  evaluate_dampener,
}
use gateway_core.Envelope.Shadow.{
  ShadowRegistry, ShadowOutcome, ShadowReason, timed_out, simulator_internal_error, regression,
  evaluate_shadow,
}

pub data Stage : Type 0 where
  intake constraints bounds dampener shadow fallback : Stage

pub data Reason (F : Type 0) : Type 0 where
  context_error fallback_error : Reason F
  constraint_violation : Violation → Reason F
  bounds_violation : BoundsViolation → Reason F
  dampened : DampenerOutcome → Reason F
  shadowed : ShadowOutcome F → Reason F

pub record Decision (F : Type 0) : Type 0 where
  pub kind : DecisionKind
  pub stage : Stage
  pub reason : Reason F
  pub retry_after : ℤ
  pub decided_at : ℤ

-- A stage that is not configured is `none`.
pub record Envelope (F : Type 0) : Type 0 where
  pub constraint_registry : Option (List (Constraint F))
  pub bounds_registry : Option (BoundsRegistry F)
  pub dampener_registry : Option (DampenerRegistry F)
  pub shadow_registry : Option (ShadowRegistry F)

abbrev pub dampener_kind : DampenerReason → DecisionKind
dampener_kind cooldown_active = defer
dampener_kind below_hysteresis = reject

-- What a stage of the envelope finds against a proposal; one that is not configured finds nothing.
abbrev pub consult : {R O : Type 0} → Option R → (R → Option O) → Option O
consult none f = none
consult (some r) f = f r

module _ {F : Type 0} where
  unfoldable pub new_autonomous_safe : Envelope F
  new_autonomous_safe = record {
    constraint_registry = none;
    bounds_registry = none;
    dampener_registry = none;
    shadow_registry = none;
  }

  unfoldable pub with_constraints : List (Constraint F) → Envelope F → Envelope F
  with_constraints r e = record e { constraint_registry = some r }

  unfoldable pub with_bounds : BoundsRegistry F → Envelope F → Envelope F
  with_bounds r e = record e { bounds_registry = some r }

  unfoldable pub with_dampener : DampenerRegistry F → Envelope F → Envelope F
  with_dampener r e = record e { dampener_registry = some r }

  unfoldable pub with_shadow : ShadowRegistry F → Envelope F → Envelope F
  with_shadow r e = record e { shadow_registry = some r }

  abbrev pub shadow_kind : ShadowReason F → DecisionKind
  shadow_kind timed_out = defer
  shadow_kind simulator_internal_error = reject
  shadow_kind (regression gs) = reject

  abbrev pub decide : DecisionKind → Stage → Reason F → ℤ → ℤ → Decision F
  decide k s r retry now = record {
    kind = k;
    stage = s;
    reason = r;
    retry_after = retry;
    decided_at = now;
  }

module _ {F : Type 0} ⦃fl : Float F⦄ where
  -- `cancelled`: the context has ended before the call. `now` is the time at the call.
  unfoldable pub submit : Envelope F → Bool → ℤ → Proposal F → Decision F
  submit e cancelled now p =
      if cancelled
      then decide defer intake context_error (pos 0) now
      else elim (consult e.constraint_registry (λ r. evaluate_constraints r p)) [
        | some v ↦ decide reject constraints (constraint_violation v) (pos 0) now
        | none ↦ elim (consult e.bounds_registry (λ r. evaluate_bounds r p)) [
          | some v ↦ decide reject bounds (bounds_violation v) (pos 0) now
          | none ↦ elim (consult e.dampener_registry (λ r. evaluate_dampener r p now)) [
            | some o ↦ decide (dampener_kind o.code) dampener (dampened o) o.retry_after now
            | none ↦ elim (consult e.shadow_registry (λ r. evaluate_shadow r p)) [
              | some o ↦ decide (shadow_kind o.code) shadow (shadowed o) o.retry_after now
              | none ↦ decide reject fallback fallback_error (pos 0) now
            ]
          ]
        ]
      ]
