-- ===== src/Envelope/Dampener.antt =====
-- internal/envelope/dampener.go. The map of what was applied is a function of its key.
pub mod Exact
use gateway_core.Base.{Bool, true, false, ◌&&◌, Option, none, some, if◌then◌else◌}
use gateway_core.Base.Int.{ℤ, pos, ltb_ℤ, leb_ℤ, ◌-ℤ◌, wrap, sub_time}
use gateway_core.Base.Float.{Float}
use gateway_core.Base.Bytes.{Bytes, same_bytes}
use gateway_core.Envelope.Proposal.{
  Proposal, ProposalKind, Value, rate_limit, circuit_breaker, route_weight, cache_ttl, other,
  same_kind,
}
use gateway_core.Envelope.Values.{as_int64, as_float64, as_duration}

pub data DampenerReason : Type 0 where
  cooldown_active below_hysteresis : DampenerReason

pub record DampenerOutcome : Type 0 where
  pub kind : ProposalKind
  pub target : Bytes
  pub code : DampenerReason
  pub retry_after : ℤ

-- `IntDampener`, `FloatDampener` and `DurationDampener`.
pub record Dampener (A : Type 0) : Type 0 where
  pub cooldown : ℤ
  pub hysteresis : A

pub record DampenerState (F : Type 0) : Type 0 where
  pub applied_value : Value F
  pub applied_at : ℤ

pub record DampenerRegistry (F : Type 0) : Type 0 where
  pub rate_limit_dampener : Option (Dampener ℤ)
  pub route_weight_dampener : Option (Dampener F)
  pub cache_ttl_dampener : Option (Dampener ℤ)
  pub state : ProposalKind → Bytes → Option (DampenerState F)

abbrev pub cooldown_of : {A : Type 0} → Option (Dampener A) → Option ℤ
cooldown_of none = none
cooldown_of (some d) = some d.cooldown

-- The difference and its negation wrap around, as an int64 does.
abbrev pub int_distance : ℤ → ℤ → ℤ
int_distance a b =
    let diff = wrap (a -ℤ b) in if ltb_ℤ diff (pos 0) then wrap (pos 0 -ℤ diff) else diff

module _ {F : Type 0} where
  unfoldable pub new_dampener : DampenerRegistry F
  new_dampener = record {
    rate_limit_dampener = none;
    route_weight_dampener = none;
    cache_ttl_dampener = none;
    state = λ k t. none;
  }

  unfoldable pub set_rate_limit : DampenerRegistry F → Dampener ℤ → DampenerRegistry F
  set_rate_limit r d = record r { rate_limit_dampener = some d }

  unfoldable pub set_route_weight : DampenerRegistry F → Dampener F → DampenerRegistry F
  set_route_weight r d = record r { route_weight_dampener = some d }

  unfoldable pub set_cache_ttl : DampenerRegistry F → Dampener ℤ → DampenerRegistry F
  set_cache_ttl r d = record r { cache_ttl_dampener = some d }

  unfoldable pub cooldown_for : DampenerRegistry F → ProposalKind → Option ℤ
  cooldown_for r rate_limit = cooldown_of r.rate_limit_dampener
  cooldown_for r route_weight = cooldown_of r.route_weight_dampener
  cooldown_for r cache_ttl = cooldown_of r.cache_ttl_dampener
  cooldown_for r circuit_breaker = none
  cooldown_for r (other k) = none

  abbrev pub below_hysteresis_outcome : Proposal F → Option DampenerOutcome
  below_hysteresis_outcome p =
      some
        (record { kind = p.kind; target = p.target; code = below_hysteresis; retry_after = pos 0 })

  abbrev pub check_int_hysteresis :
      Proposal F → Option (Dampener ℤ) → Option ℤ → Option ℤ → Option DampenerOutcome
  check_int_hysteresis p (some d) (some a) (some b) =
      if leb_ℤ d.hysteresis (pos 0)
      then none
      else if ltb_ℤ (int_distance a b) d.hysteresis
      then below_hysteresis_outcome p
      else none
  check_int_hysteresis p _ _ _ = none

module _ {F : Type 0} ⦃fl : Float F⦄ where
  abbrev pub float_distance : F → F → F
  float_distance a b =
      let diff = fl.sub a b in
      if fl.less diff (fl.of_ℤ (pos 0)) then fl.sub (fl.of_ℤ (pos 0)) diff else diff

  abbrev pub check_float_hysteresis :
      Proposal F → Option (Dampener F) → Option F → Option F → Option DampenerOutcome
  check_float_hysteresis p (some d) (some a) (some b) =
      if fl.at_most d.hysteresis (fl.of_ℤ (pos 0))
      then none
      else if fl.less (float_distance a b) d.hysteresis
      then below_hysteresis_outcome p
      else none
  check_float_hysteresis p _ _ _ = none

  unfoldable pub check_hysteresis :
      DampenerRegistry F → Proposal F → DampenerState F → Option DampenerOutcome
  check_hysteresis r p prev = elim p.kind [
    | rate_limit ↦
        check_int_hysteresis p r.rate_limit_dampener (as_int64 prev.applied_value)
          (as_int64 p.value)
    | route_weight ↦
        check_float_hysteresis p r.route_weight_dampener (as_float64 prev.applied_value)
          (as_float64 p.value)
    | cache_ttl ↦
        check_int_hysteresis p r.cache_ttl_dampener (as_duration prev.applied_value)
          (as_duration p.value)
    | circuit_breaker ↦ none
    | other k ↦ none
  ]

  abbrev pub cooldown_outcome : Proposal F → ℤ → DampenerOutcome
  cooldown_outcome p remaining = record {
    kind = p.kind;
    target = p.target;
    code = cooldown_active;
    retry_after = remaining;
  }

  unfoldable pub evaluate_since :
      DampenerRegistry F → Proposal F → ℤ → ℤ → DampenerState F → Option DampenerOutcome
  evaluate_since r p now cooldown prev =
      let elapsed = sub_time now prev.applied_at in
      if ltb_ℤ (pos 0) cooldown && ltb_ℤ elapsed cooldown
      then some (cooldown_outcome p (wrap (cooldown -ℤ elapsed)))
      else check_hysteresis r p prev

  unfoldable pub evaluate_dampener : DampenerRegistry F → Proposal F → ℤ → Option DampenerOutcome
  unfolding evaluate_since
  evaluate_dampener r p now = elim (cooldown_for r p.kind) [
    | none ↦ none
    | some cooldown ↦ elim (r.state p.kind p.target) [
      | none ↦ none
      | some prev ↦ evaluate_since r p now cooldown prev
    ]
  ]

  unfoldable pub record_applied : DampenerRegistry F → Proposal F → ℤ → DampenerRegistry F
  record_applied r p at = record r {
    state = λ k t.
        if same_kind k p.kind && same_bytes t p.target
        then some (record { applied_value = p.value; applied_at = at })
        else r.state k t;
  }
