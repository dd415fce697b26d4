-- ===== src/Envelope/Constraints/Rules.antt =====
-- What passes the constraints.
use gateway_core.Base.{
  ℕ, ◌≤◌, ◌<◌, ◌-◌, ◌^◌, ◌≡◌, refl, ◌≢◌, ◌↔◌, ◌⊎◌, inl, inr, false, List, [], ◌∷◌, Option, none,
  some, arith,
}
use gateway_core.Base.Int.{ℤ, pos, negsuc, ◌<ℤ◌, ◌≤ℤ◌, wrap}
use gateway_core.Base.Float.{Float}
use gateway_core.Base.Bytes.{same_bytes_iff}
use gateway_core.RateLimit.ClientIp.{trim_space}
use gateway_core.Envelope.Proposal.{
  Proposal, ProposalKind, Value, rate_limit, circuit_breaker, route_weight, cache_ttl, other,
  go_uint, go_uint64,
}
use gateway_core.Envelope.Values.{as_int64, as_float64, as_duration}
use gateway_core.Envelope.Constraints.{
  Constraint, evaluate_constraints, default_constraints, require_known_kind, require_agent,
  rate_limit_positive, route_weight_unit_interval, cache_ttl_non_negative, register, check_positive,
  check_duration, check_unit_interval,
}

module _ {F : Type 0} where
  abbrev pub IsAmong : Constraint F → List (Constraint F) → Type 0
  IsAmong c [] = ⊥
  IsAmong c (d ∷ cs) = (c ≡ d) ⊎ IsAmong c cs

  all_pass :
      (cs : List (Constraint F)) (p : Proposal F)
      → evaluate_constraints cs p ≡ none
      → (c : Constraint F) → IsAmong c cs
      → c.evaluate p ≡ none
  unfolding evaluate_constraints
  all_pass [] p h c m = elim m [ ]
  all_pass (d ∷ cs) p h c m = elim m [
    | inl e ↦ rw e (ground arith)
    | inr i ↦ all_pass cs p (ground arith) c i
  ]

  passes_all :
      (cs : List (Constraint F)) (p : Proposal F)
      → ((c : Constraint F) → IsAmong c cs → c.evaluate p ≡ none)
      → evaluate_constraints cs p ≡ none
  unfolding evaluate_constraints
  passes_all [] p h = refl
  passes_all (d ∷ cs) p h =
      let e = h d (inl refl) in let rest = passes_all cs p (λ c m. h c (inr m)) in ground arith

  -- The set of proposals that pass does not depend on the order of the constraints, nor on how often
  -- one is registered.
  pub evaluate_constraints_order :
      (cs ds : List (Constraint F)) (p : Proposal F)
      → ((c : Constraint F) → IsAmong c cs ↔ IsAmong c ds)
      → (evaluate_constraints cs p ≡ none) ↔ (evaluate_constraints ds p ≡ none)
  evaluate_constraints_order cs ds p same = (
    λ h. passes_all ds p (λ c m. all_pass cs p h c ((same c).1 m)),
    λ h. passes_all cs p (λ c m. all_pass ds p h c ((same c).0 m)),
  )

-- A value that has the type it must have, and is in range.
abbrev pub IsPositive : Option ℤ → Type 0
IsPositive none = ⊥
IsPositive (some n) = pos 0 <ℤ n

abbrev pub IsNonNegative : Option ℤ → Type 0
IsNonNegative none = ⊥
IsNonNegative (some d) = pos 0 ≤ℤ d

check_positive-IsPositive : (n : Option ℤ) → (check_positive n ≡ none) ↔ IsPositive n
check_positive-IsPositive none = ground arith
check_positive-IsPositive (some n) = ground arith

check_duration-IsNonNegative : (n : Option ℤ) → (check_duration n ≡ none) ↔ IsNonNegative n
check_duration-IsNonNegative none = ground arith
check_duration-IsNonNegative (some n) = ground arith

module _ {F : Type 0} ⦃fl : Float F⦄ where
  abbrev pub IsUnitWeight : Option F → Type 0
  IsUnitWeight none = ⊥
  IsUnitWeight (some x) =
      (fl.less x (fl.of_ℤ (pos 0)) ≡ false) × (fl.less (fl.of_ℤ (pos 1)) x ≡ false)

  -- What the value of a well-formed proposal is, by its kind.
  abbrev pub ValueFits : ProposalKind → Value F → Type 0
  ValueFits rate_limit v = IsPositive (as_int64 v)
  ValueFits circuit_breaker v = Unit
  ValueFits route_weight v = IsUnitWeight (as_float64 v)
  ValueFits cache_ttl v = IsNonNegative (as_duration v)
  ValueFits (other k) v = ⊥

  check_unit_interval-IsUnitWeight :
      (x : Option F) → (check_unit_interval x ≡ none) ↔ IsUnitWeight x
  check_unit_interval-IsUnitWeight none = ground arith
  check_unit_interval-IsUnitWeight (some n) = ground arith

  -- The baseline constraints pass exactly the proposals of a known kind with an agent that is not
  -- blank, whose value fits the kind: a rate limit is a positive integer, a cache TTL a duration that
  -- is not negative, a route weight a float that is neither less than 0 nor greater than 1.
  pub default_constraints-ValueFits :
      (p : Proposal F)
      → (evaluate_constraints default_constraints p ≡ none)
        ↔ ((trim_space p.agent ≢ []) × ValueFits p.kind p.value)
  unfolding evaluate_constraints default_constraints register require_known_kind require_agent
      rate_limit_positive route_weight_unit_interval cache_ttl_non_negative
  default_constraints-ValueFits p =
      let blank = same_bytes_iff (trim_space p.agent) [] in
      let int = check_positive-IsPositive (as_int64 p.value) in
      let duration = check_duration-IsNonNegative (as_duration p.value) in
      let weight = check_unit_interval-IsUnitWeight (as_float64 p.value) in ground arith

module _ (F : Type 0) ⦃fl : Float F⦄ where
  -- A `uint` from 2^63 on is read as a negative integer, while the same number as a `uint64` is
  -- refused.
  pub as_int64_uint :
      (n : ℕ)
      → 2 ^ 63 ≤ n
      → n < 2 ^ 64
      → (as_int64 {F = F} (go_uint n) ≡ some (negsuc (2 ^ 64 - n - 1)))
        × (as_int64 {F = F} (go_uint64 n) ≡ none)
  unfolding as_int64 wrap
  as_int64_uint n lo hi = (ground arith, ground arith)
