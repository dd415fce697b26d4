-- ===== src/Proxy/Serve/Protocol.antt =====
-- What a request leaves behind in the backends and the metrics.
use gateway_core.Base.{
  ℕ, zero, suc, ◌+◌, ◌-◌, ◌<◌, ◌≤◌, ◌≡◌, refl, sym, ap, ◌∙◌, subst, ◌⊎◌, inl, inr, true, false,
  List, [], ◌∷◌, ◌++◌, Option, none, some, arith, Option-cases, Bool-cases, if◌then◌else◌, leb,
}
use mathlib.Core.List.{append-nil, append_assoc}
use gateway_core.Base.Float.{Float}
use gateway_core.Base.Bytes.{Bytes}
use gateway_core.Config.Types.{RouteConfig}
use gateway_core.Http.{Request, Client}
use gateway_core.CircuitBreaker.Composite.{Composite, composite_allow, release}
use gateway_core.Routing.Select.{match_route}
use gateway_core.Proxy.Writers.{ResponseBuffer, is_retryable}
use gateway_core.Proxy.Router.{Router, ReverseProxy, lookup, method_allowed, proxy_for}
use gateway_core.Proxy.Attempts.{
  World, Exchange, Event, connected, disconnected, contacted, retried, slept, counted,
  backend_error, Serving, final_attempt, attempts, count_request, logs, replayed, repeated,
  refuse_cancelled, exchange_with, buffered, is_aborted, backoff,
}
use gateway_core.Proxy.Serve.{Served, forward, serve_admitted, serve_route, serve, max_attempts}

-- The events of attempts from `attempt` on, with at most `left` behind it: an attempt is repeated
-- only after a retryable status and its pause, and the last one that ends with a response is counted
-- once. There is none when the request is cancelled, and no count when the proxy panics.
pub data IsAttempts : (left attempt : ℕ) → List Event → Type 0 where
  gave_up : {left attempt : ℕ} → IsAttempts left attempt []
  broke : {left attempt : ℕ} → IsAttempts left attempt (contacted attempt ∷ [])
  ended :
      {left attempt : ℕ} (code : ℕ)
      → code < 500
      → IsAttempts left attempt (contacted attempt ∷ counted code ∷ [])
  erred :
      {left attempt : ℕ} (code : ℕ)
      → 500 ≤ code
      → IsAttempts left attempt (contacted attempt ∷ counted code ∷ backend_error code ∷ [])
  again :
      {left attempt : ℕ} {es : List Event} (code : ℕ)
      → is_retryable code ≡ true
      → IsAttempts left (attempt + 1) es
      → IsAttempts
          (suc left)
          attempt
          (contacted attempt ∷ retried code ∷ slept (backoff attempt) ∷ es)

-- The attempts lie between the two changes of the gauge of connections.
abbrev pub IsForwarding : ℕ → List Event → Type 0
IsForwarding n es =
    (inner : List Event) × (es ≡ connected ∷ inner ++ disconnected ∷ [])
    × IsAttempts (n - 1) 1 inner

-- Events behind others.
abbrev Follows : (List Event → Type 0) → (before after : List Event) → Type 0
Follows P before after = (es : List Event) × (after ≡ before ++ es) × P es

abbrev counts : ℕ → List Event
counts code = counted code ∷ (if leb 500 code then backend_error code ∷ [] else [])

counts-IsAttempts :
    (left attempt code : ℕ) → IsAttempts left attempt (contacted attempt ∷ counts code)
counts-IsAttempts left attempt code = elim (Bool-cases (leb 500 code)) [
  | inl e ↦ rw e (erred code (ground arith))
  | inr e ↦ rw e (ended code (ground arith))
]

-- An element more behind a list, and what follows it.
append-snoc : {A : Type 0} (xs : List A) (y : A) (ys : List A) → (xs ++ y ∷ []) ++ ys ≡ xs ++ y ∷ ys
append-snoc [] y ys = refl
append-snoc (x ∷ xs) y ys = ap (λ l. x ∷ l) (append-snoc xs y ys)

module _ {F : Type 0} ⦃fl : Float F⦄ where
  module _ (w : World) (proxy : Option ReverseProxy) (route : RouteConfig F) (r : Request) where
    final_attempt-IsAttempts :
        (x : Exchange) (left attempt : ℕ) (s : Serving F)
        → Follows (IsAttempts left attempt) s.events (final_attempt w x r attempt s).events
    unfolding final_attempt count_request logs
    final_attempt-IsAttempts x left attempt s = elim (Bool-cases (is_aborted x.outcome)) [
      | inl e ↦ rw (e, final_attempt) (contacted attempt ∷ [], refl, broke)
      | inr e ↦
          rw (e, final_attempt)
            (_, append-snoc s.events (contacted attempt) _, counts-IsAttempts left attempt _)
    ]

    attempts-IsAttempts :
        (pooled : ResponseBuffer) (left attempt : ℕ) (s : Serving F)
        → Follows
            (IsAttempts left attempt)
            s.events
            (attempts w proxy route r pooled left attempt s).events
    unfolding attempts refuse_cancelled replayed repeated count_request logs
    attempts-IsAttempts pooled zero attempt s = elim (Bool-cases (w.cancelled attempt)) [
      | inl e ↦ rw (e, attempts) ([], sym (append-nil s.events), gave_up)
      | inr e ↦
          rw (e, attempts)
            (final_attempt-IsAttempts (exchange_with w proxy route r attempt) 0 attempt s)
    ]
    attempts-IsAttempts pooled (suc n) attempt s =
        let x = exchange_with w proxy route r attempt in
        let b = buffered w x r pooled in
        elim (Bool-cases (w.cancelled attempt)) [
          | inl e ↦ rw (e, attempts) ([], sym (append-nil s.events), gave_up)
          | inr e ↦ elim (Bool-cases (is_aborted x.outcome)) [
            | inl a ↦ rw (e, a, attempts) (contacted attempt ∷ [], refl, broke)
            | inr a ↦ elim (Bool-cases (is_retryable b.status_code)) [
              | inl t ↦
                  let s' = repeated x b attempt (logs (contacted attempt ∷ []) s) in
                  let (es, same, h) = attempts-IsAttempts b n (attempt + 1) s' in
                  rw (e, a, t, attempts)
                    (
                      contacted attempt ∷ retried b.status_code ∷ slept (backoff attempt) ∷ es,
                      same
                          ∙ append_assoc (s.events ++ contacted attempt ∷ [])
                              (retried b.status_code ∷ slept (backoff attempt) ∷ []) es
                          ∙ append-snoc s.events (contacted attempt) _,
                      again b.status_code t h,
                    )
              | inr t ↦
                  rw (e, a, t, attempts)
                    (
                      _,
                      append-snoc s.events (contacted attempt) _,
                      counts-IsAttempts (suc n) attempt _,
                    )
            ]
          ]
        ]

  forward-IsForwarding :
      (w : World) (rt : Router F) (route : RouteConfig F) (r : Request) (pooled : ResponseBuffer)
      (b : Option (Composite F)) (c : Client)
      → IsForwarding (max_attempts route) (forward w rt route r pooled b c).events
  unfolding forward logs
  forward-IsForwarding w rt route r pooled b c =
      let (es, same, h) =
        attempts-IsAttempts w (proxy_for rt route) route _ pooled (max_attempts route - 1) 1 _ in
      (es, ap (λ l. l ++ disconnected ∷ []) same, h)

  abbrev Leaves : (List Event → Type 0) → Option (Served F) → Type 0
  Leaves P none = Unit
  Leaves P (some out) = P out.events

  serve_admitted-Leaves :
      (P : List Event → Type 0) (w : World) (bs : List (Bytes × Composite F)) (backend : Bytes)
      (s : Serving F)
      → P s.events
      → Leaves P (serve_admitted w bs backend s)
  unfolding serve_admitted
  serve_admitted-Leaves P w bs backend s h = elim (Option-cases s.breaker) [
    | inl e ↦ rw (e, serve_admitted) h
    | inr (b, e) ↦ elim (Option-cases (release b)) [
      | inl f ↦ rw (e, f, serve_admitted) _
      | inr (d, f) ↦ rw (e, f, serve_admitted) h
    ]
  ]

  -- Why a request is answered without a backend: no route matches, or the method is not allowed, or the
  -- breaker of the backend does not let it in.
  abbrev pub IsRefused : List (Bytes × Composite F) → (now : ℕ) → Router F → Request → Type 0
  IsRefused bs now rt r =
      (match_route r.path rt.routes ≡ none)
      ⊎ ((route : RouteConfig F) × (match_route r.path rt.routes ≡ some route)
          × ((method_allowed rt route r.method ≡ false)
              ⊎ ((b : Composite F) × (lookup route.backend bs ≡ some b)
                  × ((composite_allow now b).1 ≡ false))))

  -- There is no breaker, or it lets the request in.
  abbrev pub IsAdmitted : List (Bytes × Composite F) → (now : ℕ) → RouteConfig F → Type 0
  IsAdmitted bs now route =
      (lookup route.backend bs ≡ none)
      ⊎ ((b : Composite F) × (lookup route.backend bs ≡ some b)
          × ((composite_allow now b).1 ≡ true))

  -- Without a backend, or with one of the router's routes.
  abbrev pub IsServing :
      List (Bytes × Composite F) → (now : ℕ) → Router F → Request → List Event → Type 0
  IsServing bs now rt r es =
      ((es ≡ []) × IsRefused bs now rt r)
      ⊎ ((route : RouteConfig F) × (match_route r.path rt.routes ≡ some route)
          × (method_allowed rt route r.method ≡ true)
          × IsAdmitted bs now route
          × IsForwarding (max_attempts route) es)

  serve-Leaves :
      (w : World) (bs : List (Bytes × Composite F)) (rt : Router F) (pooled : ResponseBuffer)
      (now : ℕ) (r : Request) (c : Client)
      → Leaves (IsServing bs now rt r) (serve w bs rt pooled now r c)
  unfolding serve serve_route
  serve-Leaves w bs rt pooled now r c = elim (Option-cases (match_route r.path rt.routes)) [
    | inl e ↦ rw (e, serve) (inl (refl, inl e))
    | inr (route, e) ↦ elim (Bool-cases (method_allowed rt route r.method)) [
      | inr t ↦ rw (e, t, serve) (inl (refl, inr (route, e, inl t)))
      | inl t ↦
          let sent : IsAdmitted bs now route
              → (b : Option (Composite F))
              → Leaves (IsServing bs now rt r)
                  (serve_admitted w bs route.backend (forward w rt route r pooled b c)) =
            λ let_in b.
              serve_admitted-Leaves (IsServing bs now rt r) w bs route.backend
                (forward w rt route r pooled b c)
                (inr (route, e, t, let_in, forward-IsForwarding w rt route r pooled b c)) in
          elim (Option-cases (lookup route.backend bs)) [
            | inl n ↦ rw (e, t, n, serve, serve_route) (sent (inl n) none)
            | inr (b, n) ↦ elim (Bool-cases (composite_allow now b).1) [
              | inl a ↦
                  rw (e, t, n, a, serve, serve_route)
                    (sent (inr (b, n, a)) (some (composite_allow now b).0))
              | inr a ↦
                  rw (e, t, n, a, serve, serve_route) (inl (refl, inr (route, e, inr (b, n, a))))
            ]
          ]
    ]
  ]

  pub serve-IsServing :
      (w : World) (bs : List (Bytes × Composite F)) (rt : Router F) (pooled : ResponseBuffer)
      (now : ℕ) (r : Request) (c : Client) (out : Served F)
      → serve w bs rt pooled now r c ≡ some out
      → IsServing bs now rt r out.events
  serve-IsServing w bs rt pooled now r c out h =
      subst (Leaves (IsServing bs now rt r)) h (serve-Leaves w bs rt pooled now r c)
