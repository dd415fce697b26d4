-- ===== src/Envelope/Shadow.antt =====
-- internal/envelope/shadow.go. What a simulator returns is the registry's field `sim`; a regression
-- carries the number that the source prints into its text.
pub mod Exact
use gateway_core.Base.{
  ℕ, Bool, true, false, not, ◌&&◌, List, [], ◌∷◌, ◌++◌, Option, none, some, if◌then◌else◌, ◌==◌,
}
use gateway_core.Base.Int.{ℤ, pos, ltb_ℤ, ◌-ℤ◌, wrap, same_ℤ}
use gateway_core.Base.Float.{Float}
use gateway_core.Base.Bytes.{Bytes}
use gateway_core.Envelope.Proposal.{Proposal, ProposalKind, same_kind}

pub record LatencyStats : Type 0 where
  pub p50 : ℤ
  pub p95 : ℤ
  pub p99 : ℤ

pub record ShadowBaseline (F : Type 0) : Type 0 where
  pub latency : LatencyStats
  pub error_rate : F

pub data Regression (F : Type 0) : Type 0 where
  named : Bytes → Regression F
  latency_p99 : ℤ → Regression F
  error_rate_up : F → Regression F

pub record ShadowVerdict (F : Type 0) : Type 0 where
  pub samples_replayed : ℤ
  pub score : F
  pub regressions : List (Regression F)
  pub latency : LatencyStats
  pub error_rate : F
  pub baseline : ShadowBaseline F
  pub evaluated_at : ℤ

-- The results of `Simulate`: a verdict or nil, an error that is a cancellation, another error.
pub data Simulation (F : Type 0) : Type 0 where
  gives : Option (ShadowVerdict F) → Simulation F
  times_out fails : Simulation F

pub data ShadowReason (F : Type 0) : Type 0 where
  timed_out simulator_internal_error : ShadowReason F
  regression : List (Regression F) → ShadowReason F

pub record ShadowOutcome (F : Type 0) : Type 0 where
  pub kind : ProposalKind
  pub target : Bytes
  pub code : ShadowReason F
  pub verdict : Option (ShadowVerdict F)
  pub retry_after : ℤ

-- A simulator is asked with the time that the context leaves it, if that is limited.
pub record ShadowRegistry (F : Type 0) : Type 0 where
  pub sim : Option ℤ → Proposal F → Simulation F
  pub scorer : Option (ShadowVerdict F → List (Regression F))
  pub timeout : ℤ
  pub enabled : ProposalKind → Bool

module _ {F : Type 0} where
  unfoldable pub new_shadow : (Option ℤ → Proposal F → Simulation F) → ℤ → ShadowRegistry F
  new_shadow s t = record { sim = s; scorer = none; timeout = t; enabled = λ k. false }

  unfoldable pub set_scorer :
      ShadowRegistry F → (ShadowVerdict F → List (Regression F)) → ShadowRegistry F
  set_scorer r s = record r { scorer = some s }

  unfoldable pub enable : ShadowRegistry F → ProposalKind → ShadowRegistry F
  enable r k = record r { enabled = λ j. if same_kind j k then true else r.enabled j }

  unfoldable pub disable : ShadowRegistry F → ProposalKind → ShadowRegistry F
  disable r k = record r { enabled = λ j. if same_kind j k then false else r.enabled j }

  abbrev pub shadow_outcome :
      Proposal F → ShadowReason F → Option (ShadowVerdict F) → ℤ → Option (ShadowOutcome F)
  shadow_outcome p c v t =
      some (record { kind = p.kind; target = p.target; code = c; verdict = v; retry_after = t })

  abbrev pub scored :
      Option (ShadowVerdict F → List (Regression F)) → ShadowVerdict F → List (Regression F)
  scored none v = v.regressions
  scored (some s) v = v.regressions ++ s v

  abbrev pub regressed :
      Proposal F → ShadowVerdict F → List (Regression F) → Option (ShadowOutcome F)
  regressed p v [] = none
  regressed p v (g ∷ gs) = shadow_outcome p (regression (g ∷ gs)) (some v) (pos 0)

  abbrev pub judge : ShadowRegistry F → Proposal F → Simulation F → Option (ShadowOutcome F)
  judge r p times_out = shadow_outcome p timed_out none r.timeout
  judge r p fails = shadow_outcome p simulator_internal_error none (pos 0)
  judge r p (gives none) = none
  judge r p (gives (some v)) = regressed p v (scored r.scorer v)

  unfoldable pub evaluate_shadow : ShadowRegistry F → Proposal F → Option (ShadowOutcome F)
  evaluate_shadow r p =
      if r.enabled p.kind
      then judge r p (r.sim (if ltb_ℤ (pos 0) r.timeout then some r.timeout else none) p)
      else none

module _ {F : Type 0} ⦃fl : Float F⦄ where
  abbrev pub has_baseline : ShadowBaseline F → Bool
  has_baseline b = not (
      same_ℤ b.latency.p50 (pos 0)
      && same_ℤ b.latency.p95 (pos 0)
      && same_ℤ b.latency.p99 (pos 0)
      && fl.same b.error_rate (fl.of_ℤ (pos 0)))

  abbrev pub latency_regressions : ℤ → ShadowVerdict F → List (Regression F)
  latency_regressions limit v =
      let delta = wrap (v.latency.p99 -ℤ v.baseline.latency.p99) in
      if has_baseline v.baseline && ltb_ℤ (pos 0) limit && ltb_ℤ limit delta
      then latency_p99 delta ∷ []
      else []

  abbrev pub error_regressions : F → ShadowVerdict F → List (Regression F)
  error_regressions limit v =
      let delta = fl.sub v.error_rate v.baseline.error_rate in
      if has_baseline v.baseline && fl.less (fl.of_ℤ (pos 0)) limit && fl.less limit delta
      then error_rate_up delta ∷ []
      else []

  unfoldable pub default_slo_scorer : ℤ → F → ShadowVerdict F → List (Regression F)
  default_slo_scorer max_latency max_errors v =
      latency_regressions max_latency v ++ error_regressions max_errors v
