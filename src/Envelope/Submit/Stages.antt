-- ===== src/Envelope/Submit/Stages.antt =====
-- What a decision says about the stages of the envelope.
use gateway_core.Base.{
  ℕ, ◌≤◌, ◌≡◌, refl, ◌≢◌, ◌↔◌, ◌⊎◌, Bool, false, Option, none, some, arith, inl, inr,
}
use gateway_core.Base.Int.{ℤ}
use gateway_core.Base.Float.{Float}
use gateway_core.Envelope.Proposal.{Proposal, defer, apply}
use gateway_core.Envelope.Constraints.{evaluate_constraints}
use gateway_core.Envelope.Bounds.{evaluate_bounds}
use gateway_core.Envelope.Dampener.{
  DampenerReason, cooldown_active, below_hysteresis, evaluate_dampener,
}
use gateway_core.Envelope.Shadow.{
  ShadowReason, timed_out, simulator_internal_error, regression, evaluate_shadow,
}
use gateway_core.Envelope.Submit.{
  Stage, intake, constraints, bounds, dampener, shadow, fallback, Reason, context_error,
  fallback_error, constraint_violation, bounds_violation, dampened, shadowed, Envelope, submit,
  consult, dampener_kind, shadow_kind,
}

-- The stages in the order in which they are consulted.
abbrev pub rank : Stage → ℕ
rank intake = 0
rank constraints = 1
rank bounds = 2
rank dampener = 3
rank shadow = 4
rank fallback = 5

-- Reasons that a proposal may outlive: it is worth submitting again.
abbrev pub IsTemporary : {F : Type 0} → Reason F → Type 0
IsTemporary context_error = Unit
IsTemporary fallback_error = ⊥
IsTemporary (constraint_violation v) = ⊥
IsTemporary (bounds_violation v) = ⊥
IsTemporary (dampened o) = o.code ≡ cooldown_active
IsTemporary (shadowed o) = o.code ≡ timed_out

-- What one registry is to another that leaves it alone or sets it for the first time.
abbrev pub Kept : {R : Type 0} → Option R → Option R → Type 0
Kept none s = Unit
Kept (some r) s = s ≡ some r

abbrev pub Extends : {F : Type 0} → Envelope F → Envelope F → Type 0
Extends e d =
    Kept e.constraint_registry d.constraint_registry
    × Kept e.bounds_registry d.bounds_registry
    × Kept e.dampener_registry d.dampener_registry
    × Kept e.shadow_registry d.shadow_registry

-- What a registry finds, it finds in the extended envelope.
consult-Kept :
    {R O : Type 0} (r s : Option R) (f : R → Option O)
    → Kept r s
    → (consult r f ≡ none) ⊎ (consult s f ≡ consult r f)
consult-Kept none s f k = inl refl
consult-Kept (some r) s f k = inr (rw k)

dampener_kind_defer : (c : DampenerReason) → (dampener_kind c ≡ defer) ↔ (c ≡ cooldown_active)
dampener_kind_defer cooldown_active = (λ h. refl, λ h. refl)
dampener_kind_defer below_hysteresis = (λ h. cc, λ h. cc)

module _ {F : Type 0} ⦃fl : Float F⦄ where
  shadow_kind_defer : (c : ShadowReason F) → (shadow_kind c ≡ defer) ↔ (c ≡ timed_out)
  shadow_kind_defer timed_out = (λ h. refl, λ h. refl)
  shadow_kind_defer simulator_internal_error = (λ h. cc, λ h. cc)
  shadow_kind_defer (regression gs) = (λ h. cc, λ h. cc)

  -- A proposal is deferred exactly when the reason is temporary: the context has ended, a cooldown
  -- runs or the simulation timed out. No proposal is ever applied.
  pub submit_kind :
      (e : Envelope F) (cancelled : Bool) (now : ℤ) (p : Proposal F)
      → let d = submit e cancelled now p in
        ((d.kind ≡ defer) ↔ IsTemporary d.reason) × (d.kind ≢ apply)
  unfolding submit
  submit_kind e cancelled now p = grind (arith, dampener_kind_defer, shadow_kind_defer)

  -- An envelope with more stages decides no later: where `d` has the stages of `e` and perhaps more,
  -- the stage at which `d` decides does not come after that of `e`.
  pub submit_extended :
      (e d : Envelope F) (cancelled : Bool) (now : ℤ) (p : Proposal F)
      → Extends e d
      → rank (submit d cancelled now p).stage ≤ rank (submit e cancelled now p).stage
  unfolding submit
  submit_extended e d cancelled now p x =
      let c = consult-Kept _ _ (λ r. evaluate_constraints r p) x.0 in
      let b = consult-Kept _ _ (λ r. evaluate_bounds r p) x.1 in
      let a = consult-Kept _ _ (λ r. evaluate_dampener r p now) x.2 in
      let s = consult-Kept _ _ (λ r. evaluate_shadow r p) x.3 in ground arith

  -- A proposal reaches the fallback exactly when the context is alive and no configured stage
  -- objects.
  pub submit_fallback :
      (e : Envelope F) (cancelled : Bool) (now : ℤ) (p : Proposal F)
      → ((submit e cancelled now p).stage ≡ fallback) ↔ (
          (cancelled ≡ false)
          × (consult e.constraint_registry (λ r. evaluate_constraints r p) ≡ none)
          × (consult e.bounds_registry (λ r. evaluate_bounds r p) ≡ none)
          × (consult e.dampener_registry (λ r. evaluate_dampener r p now) ≡ none)
          × (consult e.shadow_registry (λ r. evaluate_shadow r p) ≡ none))
  unfolding submit
  submit_fallback e cancelled now p = ground arith
