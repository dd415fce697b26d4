-- ===== src/Envelope/Proposal.antt =====
-- internal/envelope/proposal.go. `other` is a kind that is none of the four constants; a value is a
-- dynamic type with its contents, and `go_other` stands for all types that the code does not name.
use Prim.Native.String.{String}
use gateway_core.Base.{ℕ, Bool, true, false}
use gateway_core.Base.Int.{ℤ}
use gateway_core.Base.Bytes.{Bytes, same_bytes}

pub data ProposalKind : Type 0 where
  rate_limit circuit_breaker route_weight cache_ttl : ProposalKind
  other : Bytes → ProposalKind

abbrev pub same_kind : ProposalKind → ProposalKind → Bool
same_kind rate_limit rate_limit = true
same_kind circuit_breaker circuit_breaker = true
same_kind route_weight route_weight = true
same_kind cache_ttl cache_ttl = true
same_kind (other a) (other b) = same_bytes a b
same_kind _ _ = false

pub data Value (F : Type 0) : Type 0 where
  go_int go_int32 go_int64 go_duration : ℤ → Value F
  go_uint go_uint32 go_uint64 : ℕ → Value F
  go_float32 go_float64 : F → Value F
  go_other : Value F

pub record Proposal (F : Type 0) : Type 0 where
  pub kind : ProposalKind
  pub target : Bytes
  pub value : Value F
  pub agent : Bytes
  pub reason : Bytes
  pub submitted_at : ℤ

pub data DecisionKind : Type 0 where
  reject defer apply : DecisionKind

abbrev pub decision_name : DecisionKind → String
decision_name reject = "reject"
decision_name defer = "defer"
decision_name apply = "apply"
