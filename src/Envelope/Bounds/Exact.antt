-- ===== src/Envelope/Bounds/Exact.antt =====
-- When the bounds let a proposal pass.
use gateway_core.Base.{◌≡◌, ◌↔◌, true, false, Option, none, some, arith}
use gateway_core.Base.Int.{ℤ, ◌≤ℤ◌, ltb_ℤ}
use gateway_core.Base.Float.{Float}
use gateway_core.Envelope.Proposal.{
  Proposal, rate_limit, circuit_breaker, route_weight, cache_ttl, other,
}
use gateway_core.Envelope.Values.{as_int64, as_float64, as_duration}
use gateway_core.Envelope.Bounds.{Bound, BoundsRegistry, evaluate_bounds, check_if_set}

-- A value that has the type it must have and lies between the ends that the bound has.
abbrev pub IsWithin : Option (Bound ℤ) → Option ℤ → Type 0
IsWithin none v = Unit
IsWithin (some b) none = ⊥
IsWithin (some b) (some n) = (b.has_min ≡ true → b.min ≤ℤ n) × (b.has_max ≡ true → n ≤ℤ b.max)

check_if_set-IsWithin :
    {F : Type 0} (p : Proposal F) (b : Option (Bound ℤ)) (v : Option ℤ)
    → (check_if_set ltb_ℤ p v b ≡ none) ↔ IsWithin b v
check_if_set-IsWithin p none v = ground arith
check_if_set-IsWithin p (some b) none = ground arith
check_if_set-IsWithin p (some b) (some n) = ground arith

module _ {F : Type 0} ⦃fl : Float F⦄ where
  -- A float that no comparison excludes.
  abbrev pub IsNotOutside : Option (Bound F) → Option F → Type 0
  IsNotOutside none v = Unit
  IsNotOutside (some b) none = ⊥
  IsNotOutside (some b) (some x) =
      (b.has_min ≡ true → fl.less x b.min ≡ false) × (b.has_max ≡ true → fl.less b.max x ≡ false)

  check_if_set-IsNotOutside :
      (p : Proposal F) (b : Option (Bound F)) (v : Option F)
      → (check_if_set fl.less p v b ≡ none) ↔ IsNotOutside b v
  check_if_set-IsNotOutside p none v = ground arith
  check_if_set-IsNotOutside p (some b) none = ground arith
  check_if_set-IsNotOutside p (some b) (some n) = ground arith

  abbrev pub IsAllowed : BoundsRegistry F → Proposal F → Type 0
  IsAllowed r p = elim p.kind [
    | rate_limit ↦ IsWithin r.rate_limit_bound (as_int64 p.value)
    | route_weight ↦ IsNotOutside r.route_weight_bound (as_float64 p.value)
    | cache_ttl ↦ IsWithin r.cache_ttl_bound (as_duration p.value)
    | circuit_breaker ↦ Unit
    | other k ↦ Unit
  ]

  -- The bounds pass exactly the proposals whose value, where a bound for their kind is set, has the
  -- type of the bound and is neither below its minimum nor above its maximum, for each that it has.
  pub evaluate_bounds-IsAllowed :
      (r : BoundsRegistry F) (p : Proposal F) → (evaluate_bounds r p ≡ none) ↔ IsAllowed r p
  unfolding evaluate_bounds
  evaluate_bounds-IsAllowed r p =
      let limit = check_if_set-IsWithin p r.rate_limit_bound (as_int64 p.value) in
      let ttl = check_if_set-IsWithin p r.cache_ttl_bound (as_duration p.value) in
      let weight = check_if_set-IsNotOutside p r.route_weight_bound (as_float64 p.value) in
      ground arith
