-- ===== src/Envelope/Agent/Budget.antt =====
-- The error budget of a pipeline over its runs.
use gateway_core.Base.{
  ℕ, suc, ◌≡◌, refl, sym, ap, ◌∙◌, Option-cases, inl, inr, ◌⊎◌, if◌then◌else◌, Bool, true, false,
  List, [], ◌∷◌, some, arith,
}
use gateway_core.Base.Int.{ℤ, pos, ◌≤ℤ◌, ◌<ℤ◌, ◌+ℤ◌}
use gateway_core.Envelope.Proposal.{Proposal}
use gateway_core.Envelope.Agent.{
  Reviewer, Pipeline, Moment, review_all, run, PipelineOutcome, is_enabled, record_error,
  record_success, OutcomeKind, outcome_emit, outcome_no_proposal, outcome_veto, outcome_error,
  outcome_disabled,
}

-- What one run reads of its context and of the clock.
pub record Call : Type 0 where
  pub cancelled : Bool
  pub now : ℤ
  pub moments : ℕ → Moment

-- The errors at the end of a history of outcomes, after `n` errors before it. A run that is declined
-- does not count.
abbrev pub streak : ℕ → List OutcomeKind → ℕ
streak n [] = n
streak n (outcome_error ∷ ks) = streak (suc n) ks
streak n (outcome_disabled ∷ ks) = streak n ks
streak n (_ ∷ ks) = streak 0 ks

streak-cons :
    (n : ℕ) (k : OutcomeKind) (ks : List OutcomeKind)
    → streak n (k ∷ ks) ≡ streak (streak n (k ∷ [])) ks
streak-cons n outcome_error ks = refl
streak-cons n outcome_disabled ks = refl
streak-cons n outcome_emit ks = refl
streak-cons n outcome_no_proposal ks = refl
streak-cons n outcome_veto ks = refl

-- The times that the error budget can read in a call.
abbrev pub Reads : Call → ℤ → Type 0
Reads c s = (s ≡ c.now) ⊎ ((i : ℕ) × (s ≡ (c.moments i).recorded))

either_branch :
    {A : Type 0} (P : A → Type 0) (b : Bool) (x y : A) → P x → P y → P (if b then x else y)
either_branch P true x y px py = px
either_branch P false x y px py = py

module _ {F : Type 0} where
  unfoldable pub runs : (first : ℕ) → Pipeline F → List Call → Pipeline F × List OutcomeKind
  runs n p [] = (p, [])
  runs n p (c ∷ cs) =
      let (p', out) = run n p c.cancelled c.now c.moments in
      let (q, ks) = runs (suc n) p' cs in (q, out.kind ∷ ks)

  review_all_counts :
      (n : ℕ) (at : ℕ → Moment) (p : Pipeline F) (q : Proposal F) (i : ℕ) (rs : List (Reviewer F))
      → (review_all n at p q i rs).0.consecutive_errors
        ≡ streak p.consecutive_errors ((review_all n at p q i rs).1.kind ∷ [])
  unfolding review_all record_error record_success
  review_all_counts n at p q i [] = refl
  review_all_counts n at p q i (r ∷ rs) =
      let rest = review_all_counts n at p q (suc i) rs in ground arith

  run_counts :
      (n : ℕ) (p : Pipeline F) (c : Call)
      → (run n p c.cancelled c.now c.moments).0.consecutive_errors
        ≡ streak p.consecutive_errors ((run n p c.cancelled c.now c.moments).1.kind ∷ [])
  unfolding run record_error record_success
  run_counts n p c = elim (Option-cases (p.planner.plan n)) [
    | inl e ↦ ground arith
    | inr (plan, e) ↦
        let counts = review_all_counts n c.moments p plan.proposal 0 p.reviewers in ground arith
  ]

  -- Over any runs, in each of which the agents may answer differently, the pipeline counts the errors since its last run that brought a plan to an end:
  -- an error adds one, an emission, a veto and an empty plan start anew, a declined run changes
  -- nothing.
  pub runs-streak :
      (n : ℕ) (p : Pipeline F) (cs : List Call)
      → (runs n p cs).0.consecutive_errors ≡ streak p.consecutive_errors (runs n p cs).1
  unfolding runs
  runs-streak n p [] = refl
  runs-streak n p (c ∷ cs) =
      let out = run n p c.cancelled c.now c.moments in
      runs-streak (suc n) out.0 cs
      ∙ ap (λ m. streak m (runs (suc n) out.0 cs).1) (run_counts n p c)
      ∙ sym (streak-cons p.consecutive_errors out.1.kind (runs (suc n) out.0 cs).1)

  -- Where the error budget of `p` stands after a run of it that failed.
  abbrev pub IsCharged : Call → Pipeline F → Pipeline F → Type 0
  IsCharged c p after =
      (p.budget.max_consecutive_errors ≤ℤ pos (suc p.consecutive_errors)
        → (s : ℤ) × Reads c s × (after.enabled_from ≡ some (s +ℤ p.budget.cooldown)))
      × (pos (suc p.consecutive_errors) <ℤ p.budget.max_consecutive_errors
          → after.enabled_from ≡ p.enabled_from)

  record_error-IsCharged :
      (c : Call) (p : Pipeline F) (out : PipelineOutcome F) (now : ℤ)
      → pos 0 <ℤ p.budget.max_consecutive_errors
      → pos 0 <ℤ p.budget.cooldown
      → Reads c now
      → IsCharged c p (record_error p out now).0
  unfolding record_error
  record_error-IsCharged c p out now m d r = (λ h. (now, r, ground arith), λ h. ground arith)

  -- The same of a run's result, if the run failed.
  abbrev pub IsChargedIfFailed : Call → Pipeline F → Pipeline F × PipelineOutcome F → Type 0
  IsChargedIfFailed c p result = result.1.kind ≡ outcome_error → IsCharged c p result.0

  review_all-IsCharged :
      (n : ℕ) (c : Call) (p : Pipeline F) (q : Proposal F) (i : ℕ) (rs : List (Reviewer F))
      → pos 0 <ℤ p.budget.max_consecutive_errors
      → pos 0 <ℤ p.budget.cooldown
      → IsChargedIfFailed c p (review_all n c.moments p q i rs)
  unfolding review_all
  review_all-IsCharged n c p q i [] m d = λ h. cc
  review_all-IsCharged n c p q i (r ∷ rs) m d =
      let failed = λ (out : PipelineOutcome F).
        record_error-IsCharged c p out (c.moments i).recorded m d (inr (i, refl)) in
      let rest = review_all-IsCharged n c p q (suc i) rs m d in
      either_branch (IsChargedIfFailed c p) (c.moments i).cancelled _ _ (λ h. failed _)
        (elim (Option-cases (r.review n q)) [
          | inl e ↦ rw e (λ h. failed _)
          | inr (result, e) ↦
              rw e (either_branch (IsChargedIfFailed c p) result.veto _ _ (λ h. cc) rest)
        ])

  -- The run that makes the errors in a row as many as the budget allows disables the pipeline for the
  -- cooldown, from a time read during the run on; a run that fails earlier disables nothing. The
  -- limit and the cooldown are positive.
  pub run-IsCharged :
      (n : ℕ) (c : Call) (p : Pipeline F)
      → pos 0 <ℤ p.budget.max_consecutive_errors
      → pos 0 <ℤ p.budget.cooldown
      → (run n p c.cancelled c.now c.moments).1.kind ≡ outcome_error
      → IsCharged c p (run n p c.cancelled c.now c.moments).0
  unfolding run
  run-IsCharged n c p m d =
      let failed =
        λ (out : PipelineOutcome F). record_error-IsCharged c p out c.now m d (inl refl) in
      either_branch (IsChargedIfFailed c p) c.cancelled _ _ (λ h. failed _)
        (either_branch (IsChargedIfFailed c p) (is_enabled p c.now) _ _
          (elim (Option-cases (p.planner.plan n)) [
            | inl e ↦ rw e (λ h. failed _)
            | inr (plan, e) ↦ rw e (
                either_branch (IsChargedIfFailed c p) plan.emit _ _
                  (review_all-IsCharged n c p plan.proposal 0 p.reviewers m d) (λ h. cc))
          ])
          (λ h. cc))

  -- While a pipeline is disabled by its error budget, a run with a live context is declined and
  -- changes nothing, but a run whose context has ended is reported as an error and starts the
  -- cooldown anew.
  pub run_cancelled_prolongs :
      (n : ℕ) (p : Pipeline F) (now t : ℤ) (at : ℕ → Moment)
      → p.enabled ≡ true
      → p.enabled_from ≡ some t
      → now <ℤ t
      → pos 0 <ℤ p.budget.max_consecutive_errors
      → p.budget.max_consecutive_errors ≤ℤ pos (suc p.consecutive_errors)
      → pos 0 <ℤ p.budget.cooldown
      → ((run n p false now at).0 ≡ p)
        × ((run n p false now at).1.kind ≡ outcome_disabled)
        × ((run n p true now at).1.kind ≡ outcome_error)
        × ((run n p true now at).0.enabled_from ≡ some (now +ℤ p.budget.cooldown))
  unfolding run record_error is_enabled
  run_cancelled_prolongs n p now t at on e lt m k d = ground arith
