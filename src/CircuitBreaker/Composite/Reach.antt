-- ===== src/CircuitBreaker/Composite/Reach.antt =====
-- What holds of a breaker stack whatever its clients do.
use mathlib.Core.Option.{some-injective}
use gateway_core.Base.{
  ℕ, ◌+◌, ◌-◌, ◌≤◌, ◌<◌, ◌≡◌, ◌≢◌, refl, sym, ◌∙◌, subst, Bool, true, false, none, some, arith,
  if◌then◌else◌,
}
use gateway_core.Base.Float.{Float}
use gateway_core.CircuitBreaker.State.{open_}
use gateway_core.CircuitBreaker.FailureRate.{FailureRate, allow}
use gateway_core.CircuitBreaker.Config.{Config}
use gateway_core.CircuitBreaker.Layers.{
  Breaker, rate_breaker, adaptive_breaker, timeout_breaker, bulkhead_breaker, allow_at, core,
}
use gateway_core.CircuitBreaker.Composite.{
  Composite, composite_allow, composite_success, composite_failure, composite_reset, release,
  update_config, inner_state, outer_bulkhead, effective_state,
}
use gateway_core.CircuitBreaker.Composite.System.{
  System, Step, admit, reject, succeed, fail, force_closed, reload, finish, Reachable, start, next,
}
use gateway_core.CircuitBreaker.Composite.Slots.{
  IsInner, HoldsSlots, allow_at-HoldsSlots, failure_at-HoldsSlots, success_at-HoldsSlots,
  reset_at-HoldsSlots, map_core-HoldsSlots, release_layer-HoldsSlots, new_composite-HoldsSlots,
}

module _ {F : Type 0} ⦃fl : Float F⦄ where
  -- The system's count of requests in flight is the bulkhead's.
  abbrev Agrees : ℕ → System F → Type 0
  Agrees room s = HoldsSlots room s.held s.breaker.effective

  allow-Agrees :
      (now room : ℕ) (s : System F) (answer : Bool)
      → (composite_allow now s.breaker).1 ≡ answer
      → Agrees room s
      → HoldsSlots room
          (if answer then s.held + 1 else s.held)
          (composite_allow now s.breaker).0.effective
  unfolding composite_allow
  allow-Agrees now room s answer e h =
      subst
        (λ a.
          HoldsSlots room (if a then s.held + 1 else s.held) (allow_at now s.breaker.effective).0)
        e (allow_at-HoldsSlots now room s.held s.breaker.effective h)

  release_cases :
      (room held : ℕ) (c : Composite F)
      → 0 < held
      → HoldsSlots room held c.effective
      → (d : Composite F) × (release c ≡ some d) × HoldsSlots room (held - 1) d.effective
  unfolding release
  release_cases room held c p h =
      let (b, e, k) = release_layer-HoldsSlots room held c.effective p h in
      (record { effective = b }, rw (e, release), k)

  Step-Agrees : (room : ℕ) {s t : System F} → Step s t → Agrees room s → Agrees room t
  Step-Agrees room {s} (admit now a e) h = rw e (allow-Agrees now room s true a h)
  Step-Agrees room {s} (reject now a e) h = rw e (allow-Agrees now room s false a h)
  Step-Agrees room {s} (succeed now latency e) h =
      rw e (unfold composite_success in success_at-HoldsSlots now latency room s.held _ h)
  Step-Agrees room {s} (fail now latency e) h =
      rw e (unfold composite_failure in failure_at-HoldsSlots now latency room s.held _ h)
  Step-Agrees room {s} (force_closed now e) h =
      rw e (unfold composite_reset in reset_at-HoldsSlots now room s.held _ h)
  Step-Agrees room {s} (reload cfg p e) h =
      rw e (unfold update_config in map_core-HoldsSlots cfg room s.held _ p h)
  Step-Agrees room {s} (finish c p r e) h =
      let (d, q, k) = release_cases room s.held s.breaker p h in
      rw e
        (subst (λ x. HoldsSlots room (s.held - 1) x.effective) (some-injective d c (sym q ∙ r)) k)

  Reachable-Agrees :
      (cfg : Config F) {s : System F}
      → 0 < cfg.window_size
      → Reachable cfg s
      → Agrees cfg.max_concurrent s
  Reachable-Agrees cfg p (start e) = rw e (new_composite-HoldsSlots cfg p)
  Reachable-Agrees cfg p (next r st) = Step-Agrees _ st (Reachable-Agrees cfg p r)

  HoldsSlots-le : (room held : ℕ) (b : Breaker F) → 0 < room → HoldsSlots room held b → held ≤ room
  HoldsSlots-le room held (bulkhead_breaker k b) p h = h.2
  HoldsSlots-le room held b p h = absurd (omega arith)

  -- With a bulkhead configured, at most `MaxConcurrent` requests that were let in are in flight,
  -- whatever calls and reloads have happened; and the release of any of them does not block.
  pub in_flight_bounded :
      (cfg : Config F) (s : System F)
      → 0 < cfg.window_size
      → Reachable cfg s
      → (0 < cfg.max_concurrent → s.held ≤ cfg.max_concurrent)
        × (0 < s.held → (c : Composite F) × (release s.breaker ≡ some c))
  in_flight_bounded cfg s p r =
      let h = Reachable-Agrees cfg p r in
      (
        (λ q. HoldsSlots-le _ _ s.breaker.effective q h),
        λ q. let (c, e, _) = release_cases _ _ s.breaker q h in (c, e),
      )

  allow_at_inner :
      (now : ℕ) (b : Breaker F) → IsInner b → (allow_at now b).1 ≡ (allow now (core b)).1
  unfolding allow_at
  allow_at_inner now (rate_breaker b) h = refl
  allow_at_inner now (adaptive_breaker a b) h = refl
  allow_at_inner now (timeout_breaker t b) h = allow_at_inner now b h
  allow_at_inner now (bulkhead_breaker k b) h = elim h [ ]

  -- When the core itself lets a request in.
  allow_cases :
      (now : ℕ) (b : FailureRate F)
      → (b.state ≢ open_ → (allow now b).1 ≡ true)
        × (b.state ≡ open_ → (allow now b).1 ≡ true → b.reset_timeout ≤ now - b.opened_at)
  unfolding allow
  allow_cases now b = (λ h. ground arith, λ h e. ground arith)

  abbrev Predicts : ℕ → Composite F → Type 0
  Predicts now c =
      (effective_state c ≢ open_ → (composite_allow now c).1 ≡ true)
      × (effective_state c ≡ open_
          → (composite_allow now c).1 ≡ true
          → (inner_state c ≡ open_)
            × ((core c.effective).reset_timeout ≤ now - (core c.effective).opened_at))

  inner_Predicts :
      (now : ℕ) (b : Breaker F)
      → IsInner b
      → outer_bulkhead b ≡ none
      → Predicts now (record { effective = b })
  unfolding effective_state composite_allow
  inner_Predicts now b h e = (
    λ o. rw (allow_at_inner now b h) ((allow_cases now (core b)).0 (ground arith)),
    λ o a. (
      ground arith,
      (allow_cases now (core b)).1 (ground arith) (sym (allow_at_inner now b h) ∙ a),
    ),
  )

  HoldsSlots-Predicts :
      (now room held : ℕ) (b : Breaker F)
      → HoldsSlots room held b
      → Predicts now (record { effective = b })
  unfolding effective_state composite_allow allow_at
  HoldsSlots-Predicts now room held (bulkhead_breaker k b) h = (
    λ o. ground (arith, allow_at_inner now b h.3, (allow_cases now (core b)).0),
    λ o a. ground (arith, allow_at_inner now b h.3, (allow_cases now (core b)).1),
  )
  HoldsSlots-Predicts now room held (rate_breaker b) h =
      inner_Predicts now (rate_breaker b) h.1 refl
  HoldsSlots-Predicts now room held (adaptive_breaker a b) h =
      inner_Predicts now (adaptive_breaker a b) h.1 refl
  HoldsSlots-Predicts now room held (timeout_breaker t b) h =
      inner_Predicts now (timeout_breaker t b) h.1 refl

  -- The state that health probes read predicts the next answer: if it is not open, the request is
  -- let in. If it is open, a request can be let in only once an open failure-rate breaker has
  -- waited `ResetTimeout`.
  pub effective_state-allow :
      (cfg : Config F) (s : System F) (now : ℕ)
      → 0 < cfg.window_size
      → Reachable cfg s
      → (effective_state s.breaker ≢ open_ → (composite_allow now s.breaker).1 ≡ true)
        × (effective_state s.breaker ≡ open_
            → (composite_allow now s.breaker).1 ≡ true
            → (inner_state s.breaker ≡ open_)
              × ((core s.breaker.effective).reset_timeout
                  ≤ now - (core s.breaker.effective).opened_at))
  effective_state-allow cfg s now p r =
      HoldsSlots-Predicts now _ s.held s.breaker.effective (Reachable-Agrees cfg p r)
