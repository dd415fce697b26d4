-- ===== src/Envelope/Values.antt =====
-- `asInt64`, `asFloat64` and `asDuration` of internal/envelope/constraints.go.
use gateway_core.Base.{◌^◌, Option, none, some, ltb, if◌then◌else◌}
use gateway_core.Base.Int.{ℤ, pos, wrap}
use gateway_core.Base.Float.{Float}
use gateway_core.Envelope.Proposal.{
  Value, go_int, go_int32, go_int64, go_duration, go_uint, go_uint32, go_uint64, go_float32,
  go_float64,
}

module _ {F : Type 0} ⦃fl : Float F⦄ where
  unfoldable pub as_int64 : Value F → Option ℤ
  as_int64 (go_int x) = some x
  as_int64 (go_int32 x) = some x
  as_int64 (go_int64 x) = some x
  as_int64 (go_uint x) = some (wrap (pos x))
  as_int64 (go_uint32 x) = some (wrap (pos x))
  as_int64 (go_uint64 x) = if ltb (2 ^ 62) x then none else some (wrap (pos x))
  as_int64 (go_float64 x) = if fl.same x (fl.of_ℤ (fl.to_ℤ x)) then some (fl.to_ℤ x) else none
  as_int64 _ = none

  unfoldable pub as_float64 : Value F → Option F
  as_float64 (go_float64 x) = some x
  as_float64 (go_float32 x) = some x
  as_float64 (go_int x) = some (fl.of_ℤ x)
  as_float64 (go_int32 x) = some (fl.of_ℤ x)
  as_float64 (go_int64 x) = some (fl.of_ℤ x)
  as_float64 _ = none

module _ {F : Type 0} where
  unfoldable pub as_duration : Value F → Option ℤ
  as_duration (go_duration x) = some x
  as_duration (go_int64 x) = some x
  as_duration (go_int x) = some x
  as_duration _ = none
