-- ===== src/Envelope/Agent/Order.antt =====
-- Which pipelines `NewPipeline` builds.
use gateway_core.Base.{◌≡◌, sym, subst, ◌↔◌, true, false, List, [], ◌∷◌, Option, none, some, arith}
use gateway_core.Base.Int.{◌≤ℤ◌, same_ℤ}
use gateway_core.Envelope.Agent.{
  Role, role_planner, Planner, Reviewer, Pipeline, ErrorBudget, check_order, new_pipeline,
}

module _ {F : Type 0} where
  -- Each role at least the one before, the first at least `prev`, and none that of the planner.
  abbrev pub IsOrdered : Role → List (Reviewer F) → Type 0
  IsOrdered prev [] = Unit
  IsOrdered prev (r ∷ rs) =
      (prev ≤ℤ r.role) × (same_ℤ r.role role_planner ≡ false) × IsOrdered r.role rs

  -- The reviewers that are given, if none is nil.
  abbrev pub IsGiven : List (Option (Reviewer F)) → List (Reviewer F) → Type 0
  IsGiven [] [] = Unit
  IsGiven (some r ∷ rs) (q ∷ qs) = (r ≡ q) × IsGiven rs qs
  IsGiven _ _ = ⊥

  check_order-cons :
      (prev : Role) (r q : Reviewer F) (rs : List (Option (Reviewer F))) (qs : List (Reviewer F))
      → (check_order prev (some r ∷ rs) ≡ some (q ∷ qs)) ↔ (
          (r ≡ q)
          × (check_order r.role rs ≡ some qs)
          × (prev ≤ℤ r.role)
          × (same_ℤ r.role role_planner ≡ false))
  unfolding check_order
  check_order-cons prev r q rs qs = ground arith

  check_order-IsOrdered :
      (prev : Role) (rs : List (Option (Reviewer F))) (qs : List (Reviewer F))
      → (check_order prev rs ≡ some qs) ↔ (IsGiven rs qs × IsOrdered prev qs)
  unfolding check_order
  check_order-IsOrdered prev [] [] = ground arith
  check_order-IsOrdered prev [] (q ∷ qs) = ground arith
  check_order-IsOrdered prev (none ∷ rs) qs = (λ h. cc, λ h. elim h.0 [ ])
  check_order-IsOrdered prev (some r ∷ rs) [] = ground arith
  check_order-IsOrdered prev (some r ∷ rs) (q ∷ qs) =
      let ih = check_order-IsOrdered r.role rs qs in
      let head = check_order-cons prev r q rs qs in
      (
        λ h.
            let (e, rest, le, other) = head.0 h in
            let (given, ordered) = ih.0 rest in
            (
              (e, given),
              subst
                  (λ (x : Reviewer F).
                    (prev ≤ℤ x.role) × (same_ℤ x.role role_planner ≡ false) × IsOrdered x.role qs)
                  e (le, other, ordered),
            ),
        λ ((e, given), o).
            let (le, other, ordered) =
              subst
                (λ (x : Reviewer F).
                  (prev ≤ℤ x.role) × (same_ℤ x.role role_planner ≡ false) × IsOrdered x.role qs)
                (sym e) o in
            head.1 (e, ih.1 (given, ordered), le, other),
      )

  -- A pipeline is built exactly from a planner that has the planner's role and reviewers none of
  -- which is nil or has that role, in non-decreasing order of their roles. It starts enabled, with no
  -- errors counted, and has the reviewers in the order given.
  pub new_pipeline-IsOrdered :
      (a : Planner F) (rs : List (Option (Reviewer F))) (b : ErrorBudget) (p : Pipeline F)
      → (new_pipeline (some a) rs b ≡ some p) ↔ (
          (same_ℤ a.role role_planner ≡ true)
          × IsGiven rs p.reviewers
          × IsOrdered role_planner p.reviewers
          × (p ≡ record {
            planner = a;
            reviewers = p.reviewers;
            budget = b;
            consecutive_errors = 0;
            enabled_from = none;
            enabled = true;
          }))
  unfolding new_pipeline
  new_pipeline-IsOrdered a rs b p =
      let order = check_order-IsOrdered role_planner rs p.reviewers in ground arith
