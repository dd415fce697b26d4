-- ===== src/Envelope/Agent.antt =====
-- internal/envelope/agent.go: a pipeline of one planner and its reviewers. What an agent returns is
-- the agent's field, with `none` for an error; runs are numbered, and it may answer each differently; `Moment` is what `Run` reads of the context and of the
-- clock before and after each agent. One run at a time: the source's lock guards the three fields of
-- the error budget alone. The zero time is `none`, and so is a zero proposal.
pub mod Order
pub mod Runs
pub mod Budget
mod Tests
use Prim.Native.Nat.{◌+◌}
use gateway_core.Base.{
  ℕ, suc, ◌*◌, ◌^◌, Bool, true, false, not, ◌&&◌, ◌||◌, List, [], ◌∷◌, Option, none, some,
  if◌then◌else◌,
}
use gateway_core.Base.Int.{ℤ, pos, ltb_ℤ, leb_ℤ, same_ℤ, ◌+ℤ◌}
use gateway_core.Base.Bytes.{Bytes, bytes}
use gateway_core.Envelope.Proposal.{Proposal}

abbrev pub Role : Type 0
Role = ℤ

abbrev pub role_planner : Role
role_planner = pos 0

abbrev pub role_verifier : Role
role_verifier = pos 1

abbrev pub role_safety : Role
role_safety = pos 2

abbrev pub role_observer : Role
role_observer = pos 3

pub record PlanResult (F : Type 0) : Type 0 where
  pub emit : Bool
  pub proposal : Proposal F
  pub reason : Bytes

pub record Planner (F : Type 0) : Type 0 where
  pub role : Role
  pub name : Bytes
  pub plan : (run : ℕ) → Option (PlanResult F)

pub record ReviewResult : Type 0 where
  pub veto : Bool
  pub reason : Bytes
  pub detail : Bytes

pub record Reviewer (F : Type 0) : Type 0 where
  pub role : Role
  pub name : Bytes
  pub review : (run : ℕ) → Proposal F → Option ReviewResult

pub data OutcomeKind : Type 0 where
  outcome_emit outcome_no_proposal outcome_veto outcome_error outcome_disabled : OutcomeKind

-- The texts that the code gives, or that of an agent.
pub data OutcomeReason : Type 0 where
  no_reason context_cancelled error_budget_exhausted operator_disabled : OutcomeReason
  planner_error reviewer_error : OutcomeReason
  given : Bytes → OutcomeReason

pub record PipelineOutcome (F : Type 0) : Type 0 where
  pub kind : OutcomeKind
  pub proposal : Option (Proposal F)
  pub role : Role
  pub agent_name : Bytes
  pub reason : OutcomeReason
  pub enabled_from : Option ℤ
  pub decided_at : ℤ

pub record ErrorBudget : Type 0 where
  pub max_consecutive_errors : ℤ
  pub cooldown : ℤ

unfoldable pub default_error_budget : ErrorBudget
default_error_budget = record { max_consecutive_errors = pos 3; cooldown = pos (60 * 10 ^ 9) }

pub record Pipeline (F : Type 0) : Type 0 where
  pub planner : Planner F
  pub reviewers : List (Reviewer F)
  pub budget : ErrorBudget
  pub consecutive_errors : ℕ
  pub enabled_from : Option ℤ
  pub enabled : Bool

-- Before an agent: whether the context has ended. After it: the times that the outcome and the error
-- budget read.
pub record Moment : Type 0 where
  pub cancelled : Bool
  pub decided : ℤ
  pub recorded : ℤ

abbrev pub far_future : ℤ
far_future = pos (2 ^ 62 * 10 ^ 9)

module _ {F : Type 0} where
  -- The reviewers, where none is nil, none is a planner, and no role is less than one before it.
  unfoldable pub check_order : Role → List (Option (Reviewer F)) → Option (List (Reviewer F))
  check_order prev [] = some []
  check_order prev (none ∷ rs) = none
  check_order prev (some r ∷ rs) =
      let rest = check_order r.role rs in
      if same_ℤ r.role role_planner || ltb_ℤ r.role prev
      then none
      else elim rest [ none ↦ none | some checked ↦ some (r ∷ checked) ]

  unfoldable pub new_pipeline :
      Option (Planner F) → List (Option (Reviewer F)) → ErrorBudget → Option (Pipeline F)
  new_pipeline none rs b = none
  new_pipeline (some a) rs b =
      if same_ℤ a.role role_planner
      then elim (check_order role_planner rs) [
        | none ↦ none
        | some checked ↦ some (record {
          planner = a;
          reviewers = checked;
          budget = b;
          consecutive_errors = 0;
          enabled_from = none;
          enabled = true;
        })
      ]
      else none

  unfoldable pub disable : Pipeline F → Pipeline F
  disable p = record p { enabled = false }

  unfoldable pub enable : Pipeline F → Pipeline F
  enable p = record p { enabled = true; consecutive_errors = 0; enabled_from = none }

  unfoldable pub is_enabled : Pipeline F → ℤ → Bool
  is_enabled p now =
      if p.enabled then elim p.enabled_from [ none ↦ true | some t ↦ leb_ℤ t now ] else false

  -- The pipeline after an error, and whether the error budget is exhausted.
  unfoldable pub record_error : Pipeline F → PipelineOutcome F → ℤ → Pipeline F × PipelineOutcome F
  record_error p out now =
      let n = suc p.consecutive_errors in
      if ltb_ℤ (pos 0) p.budget.max_consecutive_errors
        && leb_ℤ p.budget.max_consecutive_errors (pos n)
      then (let from =
            if ltb_ℤ (pos 0) p.budget.cooldown then now +ℤ p.budget.cooldown else far_future in
          (
            record p { consecutive_errors = n; enabled_from = some from },
            record out { enabled_from = some from },
          ))
      else (record p { consecutive_errors = n }, out)

  unfoldable pub record_success : Pipeline F → Pipeline F
  record_success p = record p { consecutive_errors = 0 }

  abbrev pub failure : Role → Bytes → OutcomeReason → ℤ → PipelineOutcome F
  failure r n reason at = record {
    kind = outcome_error;
    proposal = none;
    role = r;
    agent_name = n;
    reason = reason;
    enabled_from = none;
    decided_at = at;
  }

  abbrev pub outcome :
      OutcomeKind → Option (Proposal F) → Role → Bytes → OutcomeReason → ℤ → PipelineOutcome F
  outcome k q r n reason at = record {
    kind = k;
    proposal = q;
    role = r;
    agent_name = n;
    reason = reason;
    enabled_from = none;
    decided_at = at;
  }

  -- The loop over the reviewers; `i` counts the agents that have been asked.
  unfoldable pub review_all :
      (run : ℕ)
      → (ℕ → Moment)
      → Pipeline F
      → Proposal F
      → ℕ
      → List (Reviewer F)
      → Pipeline F × PipelineOutcome F
  review_all n at p q i [] = (
    record_success p,
    outcome outcome_emit (some q) role_planner p.planner.name no_reason (at i).decided,
  )
  review_all n at p q i (r ∷ rs) =
      let rest = review_all n at p q (suc i) rs in
      if (at i).cancelled
      then record_error p (failure r.role r.name context_cancelled (at i).decided) (at i).recorded
      else elim (r.review n q) [
        | none ↦
            record_error p (failure r.role r.name reviewer_error (at i).decided) (at i).recorded
        | some result ↦
            if result.veto
            then (
              record_success p,
              outcome outcome_veto none r.role r.name (given result.reason) (at i).decided,
            )
            else rest
      ]

  abbrev pub disabled_outcome : Pipeline F → ℤ → PipelineOutcome F
  disabled_outcome p now = record {
    kind = outcome_disabled;
    proposal = none;
    role = role_planner;
    agent_name = [];
    reason = if p.enabled then error_budget_exhausted else operator_disabled;
    enabled_from = p.enabled_from;
    decided_at = now;
  }

  -- The run `n`: `now` and `cancelled` are read before the planner, `at i` before the reviewer `i`.
  unfoldable pub run : ℕ → Pipeline F → Bool → ℤ → (ℕ → Moment) → Pipeline F × PipelineOutcome F
  run n p cancelled now at =
      if cancelled
      then record_error p (failure role_planner p.planner.name context_cancelled now) now
      else if is_enabled p now
      then elim (p.planner.plan n) [
        | none ↦ record_error p (failure role_planner p.planner.name planner_error now) now
        | some plan ↦ if plan.emit then review_all n at p plan.proposal 0 p.reviewers else (
          record_success p,
          outcome outcome_no_proposal none role_planner p.planner.name (given plan.reason) now,
        )
      ]
      else (p, disabled_outcome p now)
