-- ===== src/Envelope/Constraints.antt =====
-- internal/envelope/constraints.go: constraints in the order of their registration.
pub mod Rules
use Prim.Native.String.{String}
use gateway_core.Base.{
  ℕ, Bool, true, false, ◌||◌, List, [], ◌∷◌, ◌++◌, map, Option, none, some, if◌then◌else◌,
}
use gateway_core.Base.Int.{ℤ, pos, leb_ℤ, ltb_ℤ}
use gateway_core.Base.Float.{Float}
use gateway_core.Base.Bytes.{Bytes, bytes, same_bytes}
use gateway_core.RateLimit.ClientIp.{trim_space}
use gateway_core.Envelope.Proposal.{
  Proposal, ProposalKind, rate_limit, circuit_breaker, route_weight, cache_ttl, other,
}
use gateway_core.Envelope.Values.{as_int64, as_float64, as_duration}

pub record Violation : Type 0 where
  pub constraint_name : String
  pub code : String

-- The error of `Evaluate`: a violation, or an error that is none.
pub data EvaluateError : Type 0 where
  violates : Violation → EvaluateError
  fails_otherwise : EvaluateError

pub record Constraint (F : Type 0) : Type 0 where
  pub name : String
  pub evaluate : Proposal F → Option EvaluateError

abbrev violation : String → String → Option EvaluateError
violation name code = some (violates (record { constraint_name = name; code = code }))

abbrev pub check_duration : Option ℤ → Option EvaluateError
check_duration none = violation "cache_ttl.non_negative" "value_type_mismatch"
check_duration (some d) =
    if ltb_ℤ d (pos 0) then violation "cache_ttl.non_negative" "negative_duration" else none

abbrev pub check_positive : Option ℤ → Option EvaluateError
check_positive none = violation "rate_limit.positive" "value_type_mismatch"
check_positive (some n) =
    if leb_ℤ n (pos 0) then violation "rate_limit.positive" "non_positive_value" else none

module _ {F : Type 0} where
  unfoldable pub register : Constraint F → List (Constraint F) → List (Constraint F)
  register c cs = cs ++ c ∷ []

  unfoldable pub names : List (Constraint F) → List String
  names cs = map (λ c. c.name) cs

  abbrev pub as_violation : Constraint F → EvaluateError → Violation
  as_violation c (violates v) = v
  as_violation c fails_otherwise = record {
    constraint_name = c.name;
    code = "constraint_internal_error";
  }

  unfoldable pub evaluate_constraints : List (Constraint F) → Proposal F → Option Violation
  evaluate_constraints [] p = none
  evaluate_constraints (c ∷ cs) p =
      let rest = evaluate_constraints cs p in
      elim (c.evaluate p) [ none ↦ rest | some e ↦ some (as_violation c e) ]

  unfoldable pub require_known_kind : Proposal F → Option EvaluateError
  require_known_kind p = elim p.kind [ other k ↦ violation "kind.known" "unknown_kind" | _ ↦ none ]

  unfoldable pub require_agent : Proposal F → Option EvaluateError
  require_agent p =
      if same_bytes (trim_space p.agent) []
      then violation "agent.required" "missing_agent"
      else none

  unfoldable pub cache_ttl_non_negative : Proposal F → Option EvaluateError
  cache_ttl_non_negative p = elim p.kind [
    | cache_ttl ↦ check_duration (as_duration p.value)
    | _ ↦ none
  ]

module _ {F : Type 0} ⦃fl : Float F⦄ where
  unfoldable pub rate_limit_positive : Proposal F → Option EvaluateError
  rate_limit_positive p = elim p.kind [ rate_limit ↦ check_positive (as_int64 p.value) | _ ↦ none ]

  abbrev pub check_unit_interval : Option F → Option EvaluateError
  check_unit_interval none = violation "route_weight.unit_interval" "value_type_mismatch"
  check_unit_interval (some f) =
      if fl.less f (fl.of_ℤ (pos 0)) || fl.less (fl.of_ℤ (pos 1)) f
      then violation "route_weight.unit_interval" "out_of_range"
      else none

  unfoldable pub route_weight_unit_interval : Proposal F → Option EvaluateError
  route_weight_unit_interval p = elim p.kind [
    | route_weight ↦ check_unit_interval (as_float64 p.value)
    | _ ↦ none
  ]

  unfoldable pub default_constraints : List (Constraint F)
  unfolding register
  default_constraints =
      register (record { name = "cache_ttl.non_negative"; evaluate = cache_ttl_non_negative })
        (register
          (record { name = "route_weight.unit_interval"; evaluate = route_weight_unit_interval })
          (register (record { name = "rate_limit.positive"; evaluate = rate_limit_positive })
            (register (record { name = "agent.required"; evaluate = require_agent })
              (register (record { name = "kind.known"; evaluate = require_known_kind }) []))))
