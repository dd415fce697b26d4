-- ===== src/Envelope/Agent/Tests.antt =====
-- Runs of an agent pipeline at concrete inputs, and each of its theorems at one.
use gateway_core.Base.{
  ℕ, ◌==◌, if◌then◌else◌, ◌+◌, ◌≡◌, refl, ◌↔◌, true, false, List, [], ◌∷◌, none, some,
}
use gateway_core.Base.Int.{pos}
use gateway_core.Base.Bytes.{bytes}
use gateway_core.Envelope.Proposal.{Proposal, rate_limit, go_int}
use gateway_core.Envelope.Agent.{
  Planner, Reviewer, Pipeline, Moment, role_planner, role_verifier, run, record_error, is_enabled,
  outcome_emit, outcome_error,
}
use gateway_core.Envelope.Agent.Runs.{run_emits, Plans, Approves}
use gateway_core.Envelope.Agent.Budget.{Call, runs, streak, runs-streak}

abbrev plan : Proposal ℕ
plan = record {
  kind = rate_limit;
  target = bytes "/api";
  value = go_int (pos 50);
  agent = bytes "tuner";
  reason = [];
  submitted_at = pos 0;
}

abbrev tuner : Planner ℕ
tuner = record {
  role = role_planner;
  name = bytes "tuner";
  plan = λ n. some (record { emit = true; proposal = plan; reason = [] });
}

abbrev verifier : Reviewer ℕ
verifier = record {
  role = role_verifier;
  name = bytes "verifier";
  review = λ n p. some (record { veto = false; reason = []; detail = [] });
}

-- It fails in the second run alone.
abbrev broken : Planner ℕ
broken = record tuner { plan = λ n. if n == 1 then none else tuner.plan n }

abbrev clock : ℕ → Moment
clock i = record { cancelled = false; decided = pos (100 + i); recorded = pos (100 + i) }

abbrev pipeline : Planner ℕ → List (Reviewer ℕ) → Pipeline ℕ
pipeline a rs = record {
  planner = a;
  reviewers = rs;
  budget = record { max_consecutive_errors = pos 2; cooldown = pos 60 };
  consecutive_errors = 1;
  enabled_from = none;
  enabled = true;
}

abbrev called : Call
called = record { cancelled = false; now = pos 99; moments = clock }

run_emits_example :
    (((run 0 (pipeline tuner (verifier ∷ [])) false (pos 99) clock).1.kind ≡ outcome_emit)
      × ((run 0 (pipeline tuner (verifier ∷ [])) false (pos 99) clock).1.proposal ≡ some plan))
    ↔ ((false ≡ false)
        × (is_enabled (pipeline tuner (verifier ∷ [])) (pos 99) ≡ true)
        × Plans (some (record { emit = true; proposal = plan; reason = [] })) plan
        × Approves 0 clock plan 0 (verifier ∷ []))
run_emits_example = run_emits 0 (pipeline tuner (verifier ∷ [])) false (pos 99) clock plan

runs-streak_example :
    (runs 0 (pipeline broken []) (called ∷ called ∷ called ∷ [])).0.consecutive_errors
    ≡ streak 1 (runs 0 (pipeline broken []) (called ∷ called ∷ called ∷ [])).1
runs-streak_example = runs-streak 0 (pipeline broken []) (called ∷ called ∷ called ∷ [])

plan_fails : (run 1 (pipeline broken []) false (pos 99) clock).1.kind ≡ outcome_error
unfolding run record_error is_enabled
plan_fails = refl
