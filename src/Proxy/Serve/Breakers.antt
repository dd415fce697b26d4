-- ===== src/Proxy/Serve/Breakers.antt =====
-- The breakers around a request that `ServeHTTP` serves.
use mathlib.Core.Option.{some-injective}
use gateway_core.Base.{
  ℕ, zero, suc, ◌+◌, ◌-◌, ◌<◌, ◌≡◌, refl, sym, ◌∙◌, subst, ◌⊎◌, inl, inr, Bool, true, false, List,
  [], ◌∷◌, Option, none, some, arith, Option-cases, Bool-cases,
}
use gateway_core.Base.Float.{Float}
use gateway_core.Base.Bytes.{Bytes, same_bytes, same_bytes_iff}
use gateway_core.Config.Types.{RouteConfig}
use gateway_core.Http.{Request, Client}
use gateway_core.CircuitBreaker.Config.{Config}
use gateway_core.CircuitBreaker.Composite.{Composite, composite_allow}
use gateway_core.CircuitBreaker.Composite.System.{
  Reachable, next, admit, reject, succeed, fail, finish,
}
use gateway_core.CircuitBreaker.Composite.Reach.{in_flight_bounded}
use gateway_core.Routing.Select.{match_route}
use gateway_core.Proxy.Writers.{ResponseBuffer, is_retryable}
use gateway_core.Proxy.Router.{Router, ReverseProxy, lookup, method_allowed, proxy_for}
use gateway_core.Proxy.Attempts.{
  World, Exchange, Serving, report, final_attempt, attempts, count_request, logs, replayed,
  repeated, refuse_cancelled, exchange_with, buffered, is_aborted,
}
use gateway_core.Proxy.Serve.{Served, forward, set_breaker, serve_admitted, serve_route, serve}

module _ {F : Type 0} ⦃fl : Float F⦄ where
  -- What every report of an outcome keeps.
  abbrev IsKept : (Option (Composite F) → Type 0) → Type 0
  IsKept P =
      (failure : Bool) (x : Exchange) (b : Option (Composite F)) → P b → P (report failure x b)

  module _ (P : Option (Composite F) → Type 0) (keep : IsKept P) (w : World)
      (proxy : Option ReverseProxy) (route : RouteConfig F) (r : Request) where
    final_attempt-kept :
        (x : Exchange) (attempt : ℕ) (s : Serving F)
        → P s.breaker
        → P (final_attempt w x r attempt s).breaker
    unfolding final_attempt count_request logs
    final_attempt-kept x attempt s h = elim (Bool-cases (is_aborted x.outcome)) [
      | inl e ↦ rw (e, final_attempt) h
      | inr e ↦ rw (e, final_attempt) (keep _ x s.breaker h)
    ]

    attempts-kept :
        (pooled : ResponseBuffer) (left attempt : ℕ) (s : Serving F)
        → P s.breaker
        → P (attempts w proxy route r pooled left attempt s).breaker
    unfolding attempts refuse_cancelled replayed repeated count_request logs
    attempts-kept pooled zero attempt s h = elim (Bool-cases (w.cancelled attempt)) [
      | inl e ↦ rw (e, attempts) h
      | inr e ↦
          rw (e, attempts) (final_attempt-kept (exchange_with w proxy route r attempt) attempt s h)
    ]
    attempts-kept pooled (suc n) attempt s h =
        let x = exchange_with w proxy route r attempt in
        let b = buffered w x r pooled in
        elim (Bool-cases (w.cancelled attempt)) [
          | inl e ↦ rw (e, attempts) h
          | inr e ↦ elim (Bool-cases (is_aborted x.outcome)) [
            | inl a ↦ rw (e, a, attempts) h
            | inr a ↦ elim (Bool-cases (is_retryable b.status_code)) [
              | inl t ↦
                  rw (e, a, t, attempts)
                    (attempts-kept b n (attempt + 1) _ (keep true x s.breaker h))
              | inr t ↦ rw (e, a, t, attempts) (keep false x s.breaker h)
            ]
          ]
        ]

  forward-kept :
      (P : Option (Composite F) → Type 0)
      → IsKept P
      → (w : World) (rt : Router F) (route : RouteConfig F) (r : Request) (pooled : ResponseBuffer)
        (b : Option (Composite F)) (c : Client)
      → P b
      → P (forward w rt route r pooled b c).breaker
  unfolding forward logs
  forward-kept P keep w rt route r pooled b c h =
      attempts-kept P keep w (proxy_for rt route) route _ pooled _ 1 _ h

  -- A breaker that a gateway started with `cfg` can have with `held` requests in flight.
  abbrev Holds : Config F → ℕ → Option (Composite F) → Type 0
  Holds cfg held none = ⊥
  Holds cfg held (some b) = Reachable cfg (record { breaker = b; held = held })

  report-Holds : (cfg : Config F) (held : ℕ) → IsKept (Holds cfg held)
  unfolding report
  report-Holds cfg held failure x none h = elim h [ ]
  report-Holds cfg held true x (some b) h = next h (fail x.ended_at x.latency refl)
  report-Holds cfg held false x (some b) h = next h (succeed x.ended_at x.latency refl)

  report-none : IsKept (λ b. b ≡ none)
  unfolding report
  report-none failure x none h = refl
  report-none failure x (some b) h = cc

  lookup-set_breaker :
      (j k : Bytes) (b c : Composite F) (bs : List (Bytes × Composite F))
      → lookup j (set_breaker k c bs) ≡ some b
      → ((j ≡ k) × (c ≡ b)) ⊎ (lookup j bs ≡ some b)
  unfolding lookup
  lookup-set_breaker j k b c [] h = inr h
  lookup-set_breaker j k b c ((i, d) ∷ bs) h =
      let at_k = (same_bytes_iff i k).0 in
      let at_j = (same_bytes_iff i j).0 in
      elim (Bool-cases (same_bytes i k)) [
        | inl e ↦ elim (Bool-cases (same_bytes i j)) [
          | inl f ↦ inl (sym (at_j f) ∙ at_k e, some-injective c b (rw (e, f, lookup) at h))
          | inr f ↦ inr (rw (f, lookup) (rw (e, f, lookup) at h))
        ]
        | inr e ↦ elim (Bool-cases (same_bytes i j)) [
          | inl f ↦ inr (rw (f, lookup) (rw (e, f, lookup) at h))
          | inr f ↦ elim (lookup-set_breaker j k b c bs (rw (e, f, lookup) at h)) [
            | inl q ↦ inl q
            | inr q ↦ inr (rw (f, lookup) q)
          ]
        ]
      ]

  -- Every backend's breaker, with its number of requests in flight.
  abbrev pub AreReachable : Config F → (Bytes → ℕ) → List (Bytes × Composite F) → Type 0
  AreReachable cfg held bs =
      (k : Bytes) (b : Composite F)
      → lookup k bs ≡ some b
      → Reachable cfg (record { breaker = b; held = held k })

  set_breaker-AreReachable :
      (cfg : Config F) (held : Bytes → ℕ) (bs : List (Bytes × Composite F)) (k : Bytes)
      (c : Composite F)
      → AreReachable cfg held bs
      → Reachable cfg (record { breaker = c; held = held k })
      → AreReachable cfg held (set_breaker k c bs)
  set_breaker-AreReachable cfg held bs k c all h j b e = elim (lookup-set_breaker j k b c bs e) [
    | inl (at_k, same) ↦
        rw at_k (subst (λ x. Reachable cfg (record { breaker = x; held = held k })) same h)
    | inr q ↦ all j b q
  ]

  -- What serving comes to: a result, and the breakers as they were found.
  abbrev Completes : Config F → (Bytes → ℕ) → Option (Served F) → Type 0
  Completes cfg held none = ⊥
  Completes cfg held (some out) = AreReachable cfg held out.breakers

  serve_admitted-Completes :
      (w : World) (cfg : Config F) (held : Bytes → ℕ) (bs : List (Bytes × Composite F))
      (backend : Bytes) (s : Serving F)
      → 0 < cfg.window_size
      → AreReachable cfg held bs
      → Holds cfg (held backend + 1) s.breaker
      → Completes cfg held (serve_admitted w bs backend s)
  unfolding serve_admitted
  serve_admitted-Completes w cfg held bs backend s p all h = elim (Option-cases s.breaker) [
    | inl e ↦ absurd (subst (Holds cfg (held backend + 1)) e h)
    | inr (b, e) ↦
        let reach : Reachable cfg (record { breaker = b; held = held backend + 1 }) =
          subst (Holds cfg (held backend + 1)) e h in
        let (d, r) = (in_flight_bounded cfg _ p reach).1 (omega arith) in
        let back = next reach (finish d (omega arith) r refl) in
        let count : held backend + 1 - 1 ≡ held backend = omega arith in
        let found = subst (λ n. Reachable cfg (record { breaker = d; held = n })) count back in
        rw (e, r, serve_admitted) (set_breaker-AreReachable cfg held bs backend d all found)
  ]

  serve_route-Completes :
      (w : World) (cfg : Config F) (held : Bytes → ℕ) (bs : List (Bytes × Composite F))
      (rt : Router F) (route : RouteConfig F) (pooled : ResponseBuffer) (now : ℕ) (r : Request)
      (c : Client)
      → 0 < cfg.window_size
      → AreReachable cfg held bs
      → Completes cfg held (serve_route w bs rt route pooled now r c)
  unfolding serve_route serve_admitted
  serve_route-Completes w cfg held bs rt route pooled now r c p all =
      elim (Option-cases (lookup route.backend bs)) [
        | inl e ↦
            let without =
              forward-kept (λ b. b ≡ none) report-none w rt route r pooled none c refl in
            rw (e, serve_route, without) all
        | inr (b, e) ↦
            let reach = all route.backend b e in
            elim (Bool-cases (composite_allow now b).1) [
              | inl t ↦
                  let inside = next reach (admit now t refl) in
                  rw (e, t, serve_route)
                    (serve_admitted-Completes w cfg held bs route.backend
                      (forward w rt route r pooled (some (composite_allow now b).0) c) p all
                      (forward-kept (Holds cfg (held route.backend + 1)) (report-Holds cfg _) w rt
                        route r pooled (some (composite_allow now b).0) c inside))
              | inr t ↦
                  rw (e, t, serve_route)
                    (set_breaker-AreReachable cfg held bs route.backend _ all
                      (next reach (reject now t refl)))
            ]
      ]

  serve-Completes :
      (w : World) (cfg : Config F) (held : Bytes → ℕ) (bs : List (Bytes × Composite F))
      (rt : Router F) (pooled : ResponseBuffer) (now : ℕ) (r : Request) (c : Client)
      → 0 < cfg.window_size
      → AreReachable cfg held bs
      → Completes cfg held (serve w bs rt pooled now r c)
  unfolding serve
  serve-Completes w cfg held bs rt pooled now r c p all =
      elim (Option-cases (match_route r.path rt.routes)) [
        | inl e ↦ rw (e, serve) all
        | inr (route, e) ↦ elim (Bool-cases (method_allowed rt route r.method)) [
          | inl t ↦
              rw (e, t, serve) (serve_route-Completes w cfg held bs rt route pooled now r c p all)
          | inr t ↦ rw (e, t, serve) all
        ]
      ]

  completed :
      (cfg : Config F) (held : Bytes → ℕ) (o : Option (Served F))
      → Completes cfg held o
      → (out : Served F) × (o ≡ some out) × AreReachable cfg held out.breakers
  completed cfg held none h = elim h [ ]
  completed cfg held (some out) h = (out, refl, h)

  -- A request is served to its end: with breakers that a gateway can have come to, whatever the
  -- backends do and whether or not the proxy panics, the slot that the request took is given back
  -- without blocking, and every breaker is again one that the gateway can come to, with as many
  -- requests in flight as before.
  pub serve_completes :
      (w : World) (cfg : Config F) (held : Bytes → ℕ) (bs : List (Bytes × Composite F))
      (rt : Router F) (pooled : ResponseBuffer) (now : ℕ) (r : Request) (c : Client)
      → 0 < cfg.window_size
      → AreReachable cfg held bs
      → (out : Served F) × (serve w bs rt pooled now r c ≡ some out)
        × AreReachable cfg held out.breakers
  serve_completes w cfg held bs rt pooled now r c p all =
      completed cfg held _ (serve-Completes w cfg held bs rt pooled now r c p all)
