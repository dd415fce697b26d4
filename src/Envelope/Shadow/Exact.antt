-- ===== src/Envelope/Shadow/Exact.antt =====
-- What the shadow stage rejects and defers.
use gateway_core.Base.{
  ◌≡◌, refl, ◌↔◌, true, false, List, [], ◌∷◌, ◌++◌, Option, none, some, if◌then◌else◌, arith, inl,
  inr, Bool-cases,
}
use gateway_core.Base.Int.{ℤ, pos, ◌≤ℤ◌, ◌<ℤ◌, ◌+ℤ◌, ◌-ℤ◌, wrap_id, ltb_ℤ, max_int64}
use gateway_core.Base.Float.{Float}
use gateway_core.Envelope.Proposal.{Proposal}
use gateway_core.Envelope.Shadow.{
  ShadowVerdict, ShadowRegistry, gives, evaluate_shadow, default_slo_scorer, latency_regressions,
  error_regressions, has_baseline, set_scorer, regressed, Regression,
}

-- A latency that a simulation can measure.
abbrev pub IsLatency : ℤ → Type 0
IsLatency l = (pos 0 ≤ℤ l) × (l ≤ℤ max_int64)

append_empty : {A : Type 0} (xs ys : List A) → (xs ++ ys ≡ []) ↔ ((xs ≡ []) × (ys ≡ []))
append_empty [] ys = (λ h. (refl, h), λ h. h.1)
append_empty (x ∷ xs) ys = (λ h. cc, λ h. cc)

regressed-none :
    {F : Type 0} (p : Proposal F) (v : ShadowVerdict F) (gs : List (Regression F))
    → (regressed p v gs ≡ none) ↔ (gs ≡ [])
regressed-none p v [] = (λ h. refl, λ h. refl)
regressed-none p v (g ∷ gs) = (λ h. cc, λ h. cc)

module _ {F : Type 0} ⦃fl : Float F⦄ where
  -- What the default scorer tolerates of a verdict.
  abbrev pub IsTolerated : ℤ → F → ShadowVerdict F → Type 0
  IsTolerated max_latency max_errors v =
      has_baseline v.baseline ≡ true
      → (pos 0 <ℤ max_latency → v.latency.p99 ≤ℤ v.baseline.latency.p99 +ℤ max_latency)
        × (fl.less (fl.of_ℤ (pos 0)) max_errors ≡ true
            → fl.less max_errors (fl.sub v.error_rate v.baseline.error_rate) ≡ false)

  latency_tolerated :
      (limit : ℤ) (v : ShadowVerdict F)
      → IsLatency v.latency.p99
      → IsLatency v.baseline.latency.p99
      → (latency_regressions limit v ≡ []) ↔ (
          has_baseline v.baseline ≡ true
          → pos 0 <ℤ limit
          → v.latency.p99 ≤ℤ v.baseline.latency.p99 +ℤ limit)
  unfolding ◌-ℤ◌ ◌+ℤ◌
  latency_tolerated limit v l b =
      let unwrapped = wrap_id (v.latency.p99 -ℤ v.baseline.latency.p99) (ground arith) in
      ground arith

  errors_tolerated :
      (limit : F) (v : ShadowVerdict F)
      → (error_regressions limit v ≡ []) ↔ (
          has_baseline v.baseline ≡ true
          → fl.less (fl.of_ℤ (pos 0)) limit ≡ true
          → fl.less limit (fl.sub v.error_rate v.baseline.error_rate) ≡ false)
  errors_tolerated limit v = elim (Bool-cases (has_baseline v.baseline)) [
    | inl e ↦ ground arith
    | inr e ↦ ground arith
  ]

  evaluate_shadow-set_scorer :
      (r : ShadowRegistry F) (p : Proposal F) (v : ShadowVerdict F)
      (s : ShadowVerdict F → List (Regression F))
      → r.enabled p.kind ≡ true
      → ((t : Option ℤ) → r.sim t p ≡ gives (some v))
      → (evaluate_shadow (set_scorer r s) p ≡ none) ↔ (v.regressions ++ s v ≡ [])
  unfolding evaluate_shadow set_scorer
  evaluate_shadow-set_scorer r p v s on given =
      rw (on, given (if ltb_ℤ (pos 0) r.timeout then some r.timeout else none))
        (regressed-none p v (v.regressions ++ s v))

  -- With the default scorer, a proposal of an enabled kind whose simulation gives a verdict passes
  -- exactly if the verdict names no regression and, unless its baseline is empty, its P99 latency
  -- exceeds the baseline's by no more than the limit and its error rate by no more than the limit,
  -- for each limit that is positive, whatever the number of samples and the score that the verdict
  -- states. Latencies are nonnegative int64s.
  pub evaluate_shadow-default_slo_scorer :
      (r : ShadowRegistry F) (p : Proposal F) (v : ShadowVerdict F) (max_latency : ℤ)
      (max_errors : F)
      → r.enabled p.kind ≡ true
      → ((t : Option ℤ) → r.sim t p ≡ gives (some v))
      → IsLatency v.latency.p99
      → IsLatency v.baseline.latency.p99
      → (evaluate_shadow (set_scorer r (default_slo_scorer max_latency max_errors)) p ≡ none)
        ↔ ((v.regressions ≡ []) × IsTolerated max_latency max_errors v)
  unfolding default_slo_scorer
  evaluate_shadow-default_slo_scorer r p v max_latency max_errors on given l b =
      let lat = latency_tolerated max_latency v l b in
      let err = errors_tolerated max_errors v in
      let all =
        evaluate_shadow-set_scorer r p v (default_slo_scorer max_latency max_errors) on given in
      let outer =
        append_empty v.regressions
          (latency_regressions max_latency v ++ error_regressions max_errors v) in
      let inner =
        append_empty (latency_regressions max_latency v) (error_regressions max_errors v) in
      (
        λ h.
            let (named, scored) = outer.0 (all.0 h) in
            let (l', e') = inner.0 scored in (named, λ on. (lat.0 l' on, err.0 e' on)),
        λ (named, tol).
            all.1 (outer.1 (named, inner.1 (lat.1 (λ on. (tol on).0), err.1 (λ on. (tol on).1)))),
      )
