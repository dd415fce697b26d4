-- ===== src/Envelope/Agent/Runs.antt =====
-- When a run emits its planner's proposal, and when a reviewer stops it.
use gateway_core.Base.{
  ℕ, suc, ◌+◌, ◌≡◌, refl, ◌↔◌, Bool, true, false, List, [], ◌∷◌, ◌++◌, Option, none, some, arith,
  length, Option-cases, inl, inr, subst,
}
use gateway_core.Base.Int.{ℤ}
use gateway_core.Envelope.Proposal.{Proposal}
use gateway_core.Envelope.Agent.{
  Reviewer, PlanResult, ReviewResult, Pipeline, Moment, review_all, run, is_enabled, record_error,
  record_success, outcome_emit, outcome_veto, given,
}

abbrev pub Passes : Option ReviewResult → Type 0
Passes none = ⊥
Passes (some result) = result.veto ≡ false

module _ {F : Type 0} where
  -- Every reviewer is asked with the context alive, and neither vetoes nor fails.
  abbrev pub Approves : (run : ℕ) → (ℕ → Moment) → Proposal F → ℕ → List (Reviewer F) → Type 0
  Approves n at q i [] = Unit
  Approves n at q i (r ∷ rs) =
      ((at i).cancelled ≡ false) × Passes (r.review n q) × Approves n at q (suc i) rs

  review_all_emits :
      (n : ℕ) (at : ℕ → Moment) (p : Pipeline F) (q : Proposal F) (i : ℕ) (rs : List (Reviewer F))
      → ((review_all n at p q i rs).1.kind ≡ outcome_emit) ↔ Approves n at q i rs
  unfolding review_all record_error
  review_all_emits n at p q i [] = (λ h. tt, λ h. refl)
  review_all_emits n at p q i (r ∷ rs) =
      let rest = review_all_emits n at p q (suc i) rs in ground arith

  review_all_proposal :
      (n : ℕ) (at : ℕ → Moment) (p : Pipeline F) (q : Proposal F) (i : ℕ) (rs : List (Reviewer F))
      → (review_all n at p q i rs).1.kind ≡ outcome_emit
      → (review_all n at p q i rs).1.proposal ≡ some q
  unfolding review_all record_error
  review_all_proposal n at p q i [] h = refl
  review_all_proposal n at p q i (r ∷ rs) h =
      let rest = review_all_proposal n at p q (suc i) rs in ground arith

  -- What the planner's answer must be for the proposal `q` to be reviewed.
  abbrev pub Plans : Option (PlanResult F) → Proposal F → Type 0
  Plans none q = ⊥
  Plans (some plan) q = (plan.emit ≡ true) × (plan.proposal ≡ q)

  -- A run emits exactly if its context is alive, the pipeline enabled, the planner makes a proposal in
  -- this run and every reviewer passes it; what it emits is the proposal as the planner made it.
  pub run_emits :
      (n : ℕ) (p : Pipeline F) (cancelled : Bool) (now : ℤ) (at : ℕ → Moment) (q : Proposal F)
      → (((run n p cancelled now at).1.kind ≡ outcome_emit)
          × ((run n p cancelled now at).1.proposal ≡ some q))
        ↔ ((cancelled ≡ false)
            × (is_enabled p now ≡ true)
            × Plans (p.planner.plan n) q
            × Approves n at q 0 p.reviewers)
  unfolding run record_error
  run_emits n p cancelled now at q = elim (Option-cases (p.planner.plan n)) [
    | inl e ↦ ground arith
    | inr (plan, e) ↦
        let emits = review_all_emits n at p plan.proposal 0 p.reviewers in
        let kept = review_all_proposal n at p plan.proposal 0 p.reviewers in ground arith
  ]

  -- A reviewer is heard only if those before it pass the proposal, and its veto is the outcome,
  -- whatever the reviewers after it would say; the streak of errors ends.
  pub review_all_veto :
      (n : ℕ) (at : ℕ → Moment) (p : Pipeline F) (q : Proposal F) (i : ℕ) (qs : List (Reviewer F))
      (r : Reviewer F) (rs : List (Reviewer F)) (result : ReviewResult)
      → Approves n at q i qs
      → (at (i + length qs)).cancelled ≡ false
      → r.review n q ≡ some result
      → result.veto ≡ true
      → let (after, out) = review_all n at p q i (qs ++ r ∷ rs) in
        (out.kind ≡ outcome_veto)
        × (out.agent_name ≡ r.name)
        × (out.reason ≡ given result.reason)
        × (after ≡ record p { consecutive_errors = 0 })
  unfolding review_all record_success
  review_all_veto n at p q i [] r rs result a c e v = ground arith
  review_all_veto n at p q i (s ∷ qs) r rs result a c e v =
      let rest =
        review_all_veto n at p q (suc i) qs r rs result a.2
          (subst (λ j. (at j).cancelled ≡ false) (omega arith) c) e v in
      ground arith
