-- ===== src/Envelope/Bounds.antt =====
-- internal/envelope/bounds.go. `Bound` is `IntBound`, `FloatBound` and `DurationBound` at once: the
-- three differ in the type of their ends alone, and so do their constructors and checks.
pub mod Exact
use Prim.Native.String.{String}
use gateway_core.Base.{Bool, true, false, ◌&&◌, Option, none, some, if◌then◌else◌}
use gateway_core.Base.Int.{ℤ, pos, ltb_ℤ}
use gateway_core.Base.Float.{Float}
use gateway_core.Base.Bytes.{Bytes}
use gateway_core.Envelope.Proposal.{
  Proposal, ProposalKind, rate_limit, circuit_breaker, route_weight, cache_ttl, other,
}
use gateway_core.Envelope.Values.{as_int64, as_float64, as_duration}

pub record Bound (A : Type 0) : Type 0 where
  pub min : A
  pub max : A
  pub has_min : Bool
  pub has_max : Bool

-- The end that a bound lacks is Go's zero value.
module _ {A : Type 0} where
  unfoldable pub bound_range : A → A → Bound A
  bound_range lo hi = record { min = lo; max = hi; has_min = true; has_max = true }

  unfoldable pub bound_at_least : A → A → Bound A
  bound_at_least nought lo = record { min = lo; max = nought; has_min = true; has_max = false }

  unfoldable pub bound_at_most : A → A → Bound A
  bound_at_most nought hi = record { min = nought; max = hi; has_min = false; has_max = true }

pub record BoundsViolation : Type 0 where
  pub kind : ProposalKind
  pub target : Bytes
  pub code : String

pub record BoundsRegistry (F : Type 0) : Type 0 where
  pub rate_limit_bound : Option (Bound ℤ)
  pub route_weight_bound : Option (Bound F)
  pub cache_ttl_bound : Option (Bound ℤ)

module _ {F : Type 0} where
  unfoldable pub new_bounds : BoundsRegistry F
  new_bounds = record { rate_limit_bound = none; route_weight_bound = none; cache_ttl_bound = none }

  unfoldable pub set_rate_limit : BoundsRegistry F → Bound ℤ → BoundsRegistry F
  set_rate_limit r b = record r { rate_limit_bound = some b }

  unfoldable pub set_route_weight : BoundsRegistry F → Bound F → BoundsRegistry F
  set_route_weight r b = record r { route_weight_bound = some b }

  unfoldable pub set_cache_ttl : BoundsRegistry F → Bound ℤ → BoundsRegistry F
  set_cache_ttl r b = record r { cache_ttl_bound = some b }

  abbrev pub out_of_bounds : Proposal F → String → Option BoundsViolation
  out_of_bounds p c = some (record { kind = p.kind; target = p.target; code = c })

  abbrev pub check_bound :
      {A : Type 0} → (A → A → Bool) → Proposal F → Option A → Bound A → Option BoundsViolation
  check_bound less p none b = out_of_bounds p "value_type_mismatch"
  check_bound less p (some x) b =
      if b.has_min && less x b.min
      then out_of_bounds p "below_minimum"
      else if b.has_max && less b.max x
      then out_of_bounds p "above_maximum"
      else none

  abbrev pub check_if_set :
      {A : Type 0}
      → (A → A → Bool)
      → Proposal F
      → Option A
      → Option (Bound A)
      → Option BoundsViolation
  check_if_set less p v none = none
  check_if_set less p v (some b) = check_bound less p v b

module _ {F : Type 0} ⦃fl : Float F⦄ where
  unfoldable pub evaluate_bounds : BoundsRegistry F → Proposal F → Option BoundsViolation
  evaluate_bounds r p = elim p.kind [
    | rate_limit ↦ check_if_set ltb_ℤ p (as_int64 p.value) r.rate_limit_bound
    | route_weight ↦ check_if_set fl.less p (as_float64 p.value) r.route_weight_bound
    | cache_ttl ↦ check_if_set ltb_ℤ p (as_duration p.value) r.cache_ttl_bound
    | circuit_breaker ↦ none
    | other k ↦ none
  ]
