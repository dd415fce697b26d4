-- ===== src/Proxy/Serve.antt =====
-- `Router.ServeHTTP` of internal/proxy/proxy.go, one request from its match to its metrics. The
-- canonical form of header names is a parameter.
pub mod Breakers
pub mod Protocol
pub mod Backoff
pub mod Retries
use gateway_core.Base.{
  ℕ, zero, suc, ◌+◌, ◌-◌, ◌*◌, ◌^◌, Bool, true, false, not, ◌||◌, ◌&&◌, List, [], ◌∷◌, ◌++◌, Option,
  none, some, if◌then◌else◌, leb,
}
use gateway_core.Base.Int.{ℤ, pos, pos_part, wrap, ltb_ℤ, leb_ℤ, same_ℤ, ◌+ℤ◌}
use gateway_core.Base.Float.{Float}
use gateway_core.Base.Bytes.{Bytes, bytes, same_bytes, has_prefix, after_prefix}
use gateway_core.Config.Types.{RouteConfig}
use gateway_core.Config.Durations.{duration, route_timeout}
use gateway_core.Http.{
  Request, Call, sets_header, writes_header, writes, Client, client_calls, header_set,
}
use gateway_core.Http.Errors.{
  ErrorResponse, write_json, route_not_found, method_not_allowed, upstream_unavailable,
  circuit_open, request_cancelled,
}
use gateway_core.CircuitBreaker.Composite.{
  Composite, composite_allow, composite_success, composite_failure, release,
}
use gateway_core.Routing.Select.{match_route}
use gateway_core.Proxy.Writers.{
  is_retryable, ResponseRecorder, new_recorder, LatencyWriter, latency_calls, latency_header,
  with_header, ResponseBuffer, buffer_reset, buffer_calls, replay_to,
}
use gateway_core.Proxy.Router.{Router, ReverseProxy, lookup, method_allowed, proxy_for}
use gateway_core.Proxy.Attempts.{
  Outcome, Exchange, World, Event, Ending, shift_one, backoff, outcome_calls, is_aborted, buffered,
  Serving, logs, exchange_with, count_request, report, final_attempt, replayed, repeated,
  refuse_cancelled, attempts, answered, failed, aborted, connected, disconnected, contacted,
  retried, slept, counted, backend_error, returned, panicked,
}

unfoldable pub max_attempts : {F : Type 0} → RouteConfig F → ℕ
max_attempts r =
    let n = wrap (r.retry_attempts +ℤ pos 1) in if ltb_ℤ n (pos 1) then 1 else pos_part n

abbrev pub set_headers : (Bytes → Bytes) → List (Bytes × Bytes) → Request → Request
set_headers canonical [] r = r
set_headers canonical ((k, v) ∷ hs) r =
    set_headers canonical hs (record r { header = header_set (canonical k) v r.header })

unfoldable pub strip : {F : Type 0} → RouteConfig F → Request → Request
strip route r =
    let rest =
      if has_prefix r.path route.path_prefix
      then after_prefix r.path route.path_prefix
      else r.path in
    if route.strip_prefix
    then record r { path = if same_bytes rest [] then bytes "/" else rest }
    else r

pub record Served (F : Type 0) : Type 0 where
  pub breakers : List (Bytes × Composite F)
  pub client : Client
  pub events : List Event
  pub ending : Ending

module _ {F : Type 0} ⦃fl : Float F⦄ where
  -- The circuit is open.
  unfoldable pub fallback_calls : World → Request → RouteConfig F → List Call
  fallback_calls w r route =
      if same_ℤ route.fallback_status (pos 0)
      then write_json w.marshal w.status_text r 503 circuit_open (bytes "circuit breaker open")
      else sets_header (bytes "Content-Type") (bytes "application/json")
        ∷ writes_header (pos_part route.fallback_status)
        ∷ (if same_bytes route.fallback_body []
            then []
            else writes route.fallback_body ∷ writes (10 ∷ []) ∷ [])

  -- From the gauge of connections to the calls that `defer` has put off, panics included.
  unfoldable pub forward :
      World
      → Router F
      → RouteConfig F
      → Request
      → ResponseBuffer
      → Option (Composite F)
      → Client
      → Serving F
  forward w rt route r pooled breaker c =
      let r' = strip route (set_headers w.canonical route.headers r) in
      let started : Serving F = record {
        breaker = breaker;
        recorder = new_recorder c;
        events = connected ∷ [];
        ending = returned;
      } in
      logs (disconnected ∷ [])
        (attempts w (proxy_for rt route) route r' pooled (max_attempts route - 1) 1 started)

  abbrev pub set_breaker :
      Bytes → Composite F → List (Bytes × Composite F) → List (Bytes × Composite F)
  set_breaker k c [] = []
  set_breaker k c ((j, d) ∷ bs) =
      if same_bytes j k then (j, c) ∷ bs else (j, d) ∷ set_breaker k c bs

  module _ (w : World) (breakers : List (Bytes × Composite F)) where
    abbrev answer : List (Bytes × Composite F) → List Call → Client → Served F
    answer bs ks c = record {
      breakers = bs;
      client = client_calls ks c;
      events = [];
      ending = returned;
    }

    abbrev served : List (Bytes × Composite F) → Serving F → Served F
    served bs s = record {
      breakers = bs;
      client = s.recorder.client;
      events = s.events;
      ending = s.ending;
    }

    -- With its breaker let in, the slot is given back at the end. A release that blocks gives no result.
    unfoldable pub serve_admitted : Bytes → Serving F → Option (Served F)
    serve_admitted backend s = elim s.breaker [
      | none ↦ some (served breakers s)
      | some b ↦ elim (release b) [
        | none ↦ none
        | some d ↦ some (served (set_breaker backend d breakers) s)
      ]
    ]

    -- `now` is the time at which the breaker is asked.
    unfoldable pub serve_route :
        Router F → RouteConfig F → ResponseBuffer → (now : ℕ) → Request → Client → Option (Served F)
    serve_route rt route pooled now r c = elim (lookup route.backend breakers) [
      | none ↦ serve_admitted route.backend (forward w rt route r pooled none c)
      | some b ↦
          let (b', admitted) = composite_allow now b in
          if admitted
          then serve_admitted route.backend (forward w rt route r pooled (some b') c)
          else some (answer (set_breaker route.backend b' breakers) (fallback_calls w r route) c)
    ]

    unfoldable pub serve :
        Router F → ResponseBuffer → (now : ℕ) → Request → Client → Option (Served F)
    serve rt pooled now r c = elim (match_route r.path rt.routes) [
      | none ↦ some (
          answer breakers
            (write_json w.marshal w.status_text r 404 route_not_found (bytes "no matching route"))
            c)
      | some route ↦
          if method_allowed rt route r.method
          then serve_route rt route pooled now r c
          else some (
              answer breakers
                (write_json w.marshal w.status_text r 405 method_not_allowed
                  (bytes "method " ++ r.method ++ bytes " not allowed for " ++ route.path_prefix))
                c)
    ]
