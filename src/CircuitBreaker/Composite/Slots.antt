-- ===== src/CircuitBreaker/Composite/Slots.antt =====
-- The bulkhead of a reachable breaker stack counts the requests in flight, and bounds them.
use gateway_core.Base.{
  ℕ, ◌+◌, ◌-◌, ◌≤◌, ◌<◌, ◌≡◌, refl, subst, Bool, true, false, ltb, some, arith, if◌then◌else◌,
  Bool-cases, inl, inr,
}
use gateway_core.Base.Float.{Float}
use gateway_core.CircuitBreaker.Config.{Config, update_core}
use gateway_core.CircuitBreaker.Window.{IsValid, new_failure_rate-IsValid}
use gateway_core.CircuitBreaker.Invariant.{
  allow-IsValid, record_success-IsValid, record_failure-IsValid, reset-IsValid,
  set_failure_threshold-IsValid, update_core-IsValid,
}
use gateway_core.CircuitBreaker.Layers.{
  Breaker, rate_breaker, adaptive_breaker, timeout_breaker, bulkhead_breaker, allow_at, success_at,
  failure_at, reset_at, update_threshold, map_core,
}
use gateway_core.CircuitBreaker.Composite.{
  release_layer, new_composite, with_adaptive, with_timeout, with_bulkhead,
}

-- The stack below the bulkhead: no second bulkhead, and a valid core.
abbrev pub IsInner : {F : Type 0} → Breaker F → Type 0
IsInner (rate_breaker b) = IsValid b
IsInner (adaptive_breaker a b) = IsValid b
IsInner (timeout_breaker t b) = IsInner b
IsInner (bulkhead_breaker k b) = ⊥

-- With room for `room` requests, `held` of the slots are taken; at `room` 0 there is no bulkhead.
abbrev pub HoldsSlots : {F : Type 0} → (room held : ℕ) → Breaker F → Type 0
HoldsSlots room held (bulkhead_breaker k b) =
    (k.capacity ≡ room) × (k.in_flight ≡ held) × (held ≤ room) × IsInner b
HoldsSlots room held b = (room ≡ 0) × IsInner b

module _ {F : Type 0} ⦃fl : Float F⦄ where
  allow_at-IsInner : (now : ℕ) (b : Breaker F) → IsInner b → IsInner (allow_at now b).0
  unfolding allow_at
  allow_at-IsInner now (rate_breaker b) h = allow-IsValid now h
  allow_at-IsInner now (adaptive_breaker a b) h = allow-IsValid now h
  allow_at-IsInner now (timeout_breaker t b) h = allow_at-IsInner now b h
  allow_at-IsInner now (bulkhead_breaker k b) h = elim h [ ]

  failure_at-IsInner :
      (now latency : ℕ) (b : Breaker F) → IsInner b → IsInner (failure_at now latency b)
  unfolding failure_at update_threshold
  failure_at-IsInner now latency (rate_breaker b) h = record_failure-IsValid now h
  failure_at-IsInner now latency (adaptive_breaker a b) h =
      set_failure_threshold-IsValid _ (record_failure-IsValid now h)
  failure_at-IsInner now latency (timeout_breaker t b) h = failure_at-IsInner now latency b h
  failure_at-IsInner now latency (bulkhead_breaker k b) h = elim h [ ]

  if-IsInner : (t : Bool) (b c : Breaker F) → IsInner b → IsInner c → IsInner (if t then b else c)
  if-IsInner true b c h k = h
  if-IsInner false b c h k = k

  success_at-IsInner :
      (now latency : ℕ) (b : Breaker F) → IsInner b → IsInner (success_at now latency b)
  unfolding success_at update_threshold
  success_at-IsInner now latency (rate_breaker b) h = record_success-IsValid now h
  success_at-IsInner now latency (adaptive_breaker a b) h =
      set_failure_threshold-IsValid _ (record_success-IsValid now h)
  success_at-IsInner now latency (timeout_breaker t b) h =
      if-IsInner (ltb t latency) (failure_at now latency b) (success_at now latency b)
        (failure_at-IsInner now latency b h) (success_at-IsInner now latency b h)
  success_at-IsInner now latency (bulkhead_breaker k b) h = elim h [ ]

  reset_at-IsInner : (now : ℕ) (b : Breaker F) → IsInner b → IsInner (reset_at now b)
  unfolding reset_at
  reset_at-IsInner now (rate_breaker b) h = reset-IsValid now h
  reset_at-IsInner now (adaptive_breaker a b) h =
      set_failure_threshold-IsValid _ (reset-IsValid now h)
  reset_at-IsInner now (timeout_breaker t b) h = reset_at-IsInner now b h
  reset_at-IsInner now (bulkhead_breaker k b) h = elim h [ ]

  map_core-IsInner :
      (cfg : Config F) (b : Breaker F)
      → 0 < cfg.window_size
      → IsInner b
      → IsInner (map_core (update_core cfg) b)
  map_core-IsInner cfg (rate_breaker b) p h = update_core-IsValid cfg p h
  map_core-IsInner cfg (adaptive_breaker a b) p h = update_core-IsValid cfg p h
  map_core-IsInner cfg (timeout_breaker t b) p h = map_core-IsInner cfg b p h
  map_core-IsInner cfg (bulkhead_breaker k b) p h = elim h [ ]

  -- A call of `Allow` takes a slot exactly if it lets the request in.
  pub allow_at-HoldsSlots :
      (now room held : ℕ) (b : Breaker F)
      → HoldsSlots room held b
      → HoldsSlots room (if (allow_at now b).1 then held + 1 else held) (allow_at now b).0
  unfolding allow_at
  allow_at-HoldsSlots now room held (bulkhead_breaker k b) h =
      ground (arith, allow_at-IsInner now b h.3)
  allow_at-HoldsSlots now room held (rate_breaker b) h = (h.0, allow-IsValid now h.1)
  allow_at-HoldsSlots now room held (adaptive_breaker a b) h = (h.0, allow-IsValid now h.1)
  allow_at-HoldsSlots now room held (timeout_breaker t b) h = (h.0, allow_at-IsInner now b h.1)

  pub failure_at-HoldsSlots :
      (now latency room held : ℕ) (b : Breaker F)
      → HoldsSlots room held b
      → HoldsSlots room held (failure_at now latency b)
  unfolding failure_at update_threshold
  failure_at-HoldsSlots now latency room held (bulkhead_breaker k b) h =
      (h.0, h.1, h.2, failure_at-IsInner now latency b h.3)
  failure_at-HoldsSlots now latency room held b h = (h.0, failure_at-IsInner now latency b h.1)

  pub success_at-HoldsSlots :
      (now latency room held : ℕ) (b : Breaker F)
      → HoldsSlots room held b
      → HoldsSlots room held (success_at now latency b)
  unfolding success_at update_threshold
  success_at-HoldsSlots now latency room held (bulkhead_breaker k b) h =
      (h.0, h.1, h.2, success_at-IsInner now latency b h.3)
  success_at-HoldsSlots now latency room held b h = (h.0, success_at-IsInner now latency b h.1)

  pub reset_at-HoldsSlots :
      (now room held : ℕ) (b : Breaker F)
      → HoldsSlots room held b
      → HoldsSlots room held (reset_at now b)
  unfolding reset_at
  reset_at-HoldsSlots now room held (bulkhead_breaker k b) h =
      (h.0, h.1, h.2, reset_at-IsInner now b h.3)
  reset_at-HoldsSlots now room held b h = (h.0, reset_at-IsInner now b h.1)

  pub map_core-HoldsSlots :
      (cfg : Config F) (room held : ℕ) (b : Breaker F)
      → 0 < cfg.window_size
      → HoldsSlots room held b
      → HoldsSlots room held (map_core (update_core cfg) b)
  map_core-HoldsSlots cfg room held (bulkhead_breaker k b) p h =
      (h.0, h.1, h.2, map_core-IsInner cfg b p h.3)
  map_core-HoldsSlots cfg room held b p h = (h.0, map_core-IsInner cfg b p h.1)

  pub release_layer-HoldsSlots :
      (room held : ℕ) (b : Breaker F)
      → 0 < held
      → HoldsSlots room held b
      → (c : Breaker F) × (release_layer b ≡ some c) × HoldsSlots room (held - 1) c
  unfolding release_layer
  release_layer-HoldsSlots room held (bulkhead_breaker k b) p h = (
    bulkhead_breaker (record k { in_flight = k.in_flight - 1 }) b,
    ground arith,
    (h.0, omega arith, omega arith, h.3),
  )
  release_layer-HoldsSlots room held b p h = (b, refl, h)

  with_adaptive-IsInner : (cfg : Config F) → 0 < cfg.window_size → IsInner (with_adaptive cfg)
  unfolding with_adaptive
  with_adaptive-IsInner cfg p =
      let v =
        new_failure_rate-IsValid cfg.window_size cfg.failure_threshold cfg.reset_timeout
          cfg.half_open_max p in
      if-IsInner cfg.is_adaptive _ (rate_breaker _) v v

  with_timeout-IsInner : (cfg : Config F) (b : Breaker F) → IsInner b → IsInner (with_timeout cfg b)
  unfolding with_timeout
  with_timeout-IsInner cfg b h = if-IsInner _ (timeout_breaker cfg.slow_threshold b) b h h

  of_IsInner : (b : Breaker F) (held : ℕ) → IsInner b → HoldsSlots 0 held b
  of_IsInner (rate_breaker b) held h = (refl, h)
  of_IsInner (adaptive_breaker a b) held h = (refl, h)
  of_IsInner (timeout_breaker t b) held h = (refl, h)
  of_IsInner (bulkhead_breaker k b) held h = elim h [ ]

  with_bulkhead-HoldsSlots :
      (cfg : Config F) (b : Breaker F)
      → IsInner b
      → HoldsSlots cfg.max_concurrent 0 (with_bulkhead cfg b)
  unfolding with_bulkhead
  with_bulkhead-HoldsSlots cfg b h = elim (Bool-cases (ltb 0 cfg.max_concurrent)) [
    | inl e ↦ rw (e, with_bulkhead) (refl, refl, omega arith, h)
    | inr e ↦
        let z : 0 ≡ cfg.max_concurrent = ground arith in
        rw (e, with_bulkhead) (subst (λ n. HoldsSlots n 0 b) z (of_IsInner b 0 h))
  ]

  pub new_composite-HoldsSlots :
      (cfg : Config F)
      → 0 < cfg.window_size
      → HoldsSlots cfg.max_concurrent 0 (new_composite cfg).effective
  unfolding new_composite
  new_composite-HoldsSlots cfg p =
      with_bulkhead-HoldsSlots cfg _ (with_timeout-IsInner cfg _ (with_adaptive-IsInner cfg p))
