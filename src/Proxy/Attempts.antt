-- ===== src/Proxy/Attempts.antt =====
-- The loop of `ServeHTTP` of internal/proxy/proxy.go over the attempts of one request. What the reverse
-- proxy of package net/http/httputil does in an attempt is a parameter, as are the clock and the
-- request's context.
use gateway_core.Base.{
  ℕ, zero, suc, ◌+◌, ◌-◌, ◌^◌, Bool, true, false, List, [], ◌∷◌, ◌++◌, Option, none, some,
  if◌then◌else◌, leb,
}
use gateway_core.Base.Int.{ℤ, pos, wrap}
use gateway_core.Base.Float.{Float}
use gateway_core.Base.Bytes.{Bytes, bytes}
use gateway_core.Config.Types.{RouteConfig}
use gateway_core.Config.Durations.{duration, route_timeout}
use gateway_core.Http.{Request, Call, client_calls, header_set}
use gateway_core.Http.Errors.{ErrorResponse, write_json, upstream_unavailable, request_cancelled}
use gateway_core.CircuitBreaker.Composite.{Composite, composite_success, composite_failure}
use gateway_core.Proxy.Writers.{
  is_retryable, ResponseRecorder, latency_calls, latency_header, with_header, ResponseBuffer,
  buffer_reset, buffer_calls, replay_to,
}
use gateway_core.Proxy.Router.{ReverseProxy}

-- How the reverse proxy ends: with a response, with an error (after the informational responses
-- that it has passed on), or with a panic in the middle of a body.
pub data Outcome : Type 0 where
  answered failed aborted : List Call → Outcome

-- One attempt: its outcome, when it ended, how long it took, and the text of the time since the
-- request's start when the response is stamped.
pub record Exchange : Type 0 where
  pub outcome : Outcome
  pub ended_at : ℕ
  pub latency : ℕ
  pub elapsed : Bytes

pub record World : Type 0 where
  pub marshal : ErrorResponse → Bytes
  pub status_text : ℕ → Bytes
  pub canonical : Bytes → Bytes
  pub cancelled : ℕ → Bool
  pub exchange : ReverseProxy → (timeout : ℤ) → Request → ℕ → Exchange

-- What a request leaves in the metrics and the backends, in order.
pub data Event : Type 0 where
  connected disconnected : Event
  contacted : ℕ → Event
  retried : ℕ → Event
  slept : ℤ → Event
  counted : ℕ → Event
  backend_error : ℕ → Event

pub data Ending : Type 0 where
  returned panicked : Ending

-- `1 << n` of an int.
abbrev pub shift_one : ℕ → ℤ
shift_one n = wrap (pos (2 ^ n))

unfoldable pub backoff : ℕ → ℤ
backoff attempt = duration (duration (shift_one (attempt - 1)) 100) (10 ^ 6)

-- The calls on the writer; an error ends in the proxy's `ErrorHandler`.
unfoldable pub outcome_calls : World → Request → Outcome → List Call
outcome_calls w r (answered ks) = ks
outcome_calls w r (failed ks) =
    ks
    ++ write_json w.marshal w.status_text r 502 upstream_unavailable
        (bytes "upstream service unavailable")
outcome_calls w r (aborted ks) = ks

abbrev pub is_aborted : Outcome → Bool
is_aborted (aborted ks) = true
is_aborted _ = false

-- The response of an attempt that may be repeated, in a buffer of the pool.
unfoldable pub buffered : World → Exchange → Request → ResponseBuffer → ResponseBuffer
buffered w x r b = buffer_calls (outcome_calls w r x.outcome) (buffer_reset b)

-- The request in progress.
pub record Serving (F : Type 0) : Type 0 where
  pub breaker : Option (Composite F)
  pub recorder : ResponseRecorder
  pub events : List Event
  pub ending : Ending

module _ {F : Type 0} where
  unfoldable pub logs : List Event → Serving F → Serving F
  logs es s = record s { events = s.events ++ es }

  -- A call of a nil proxy panics.
  unfoldable pub exchange_with :
      World → Option ReverseProxy → RouteConfig F → Request → ℕ → Exchange
  exchange_with w none route r attempt = record {
    outcome = aborted [];
    ended_at = 0;
    latency = 0;
    elapsed = [];
  }
  exchange_with w (some p) route r attempt = w.exchange p (route_timeout route) r attempt

  -- The metrics behind the loop.
  unfoldable pub count_request : Serving F → Serving F
  count_request s =
      let code = s.recorder.status_code in
      logs (counted code ∷ (if leb 500 code then backend_error code ∷ [] else [])) s

module _ {F : Type 0} ⦃fl : Float F⦄ where
  unfoldable pub report : Bool → Exchange → Option (Composite F) → Option (Composite F)
  report failure x none = none
  report failure x (some c) = some (
      if failure
      then composite_failure x.ended_at x.latency c
      else composite_success x.ended_at x.latency c)

  unfoldable pub final_attempt : World → Exchange → Request → ℕ → Serving F → Serving F
  final_attempt w x r attempt s =
      let lw =
        latency_calls (outcome_calls w r x.outcome)
          (record { recorder = s.recorder; elapsed = x.elapsed; written = false }) in
      let s' = logs (contacted attempt ∷ []) (record s { recorder = lw.recorder }) in
      if is_aborted x.outcome
      then record s' { ending = panicked }
      else count_request
          (record s' { breaker = report (is_retryable lw.recorder.status_code) x s.breaker })

  unfoldable pub replayed : Exchange → ResponseBuffer → Serving F → Serving F
  replayed x b s =
      let stamped =
        with_header (header_set latency_header x.elapsed s.recorder.client.header) s.recorder in
      count_request
        (record s { breaker = report false x s.breaker; recorder = replay_to b stamped })

  unfoldable pub repeated : Exchange → ResponseBuffer → ℕ → Serving F → Serving F
  repeated x b attempt s =
      logs (retried b.status_code ∷ slept (backoff attempt) ∷ [])
        (record s { breaker = report true x s.breaker })

  -- The client of a request that is cancelled is written to past the recorder.
  unfoldable pub refuse_cancelled : World → Request → Serving F → Serving F
  refuse_cancelled w r s = record s {
    recorder = record (s.recorder) {
      client =
          client_calls
            (write_json w.marshal w.status_text r 504 request_cancelled (bytes "request cancelled"))
            s.recorder.client;
    };
  }

  module _ (w : World) (proxy : Option ReverseProxy) (route : RouteConfig F) (r : Request) where
    -- The loop, with `left` attempts behind this one; `pooled` is the buffer the pool gives.
    unfoldable pub attempts : (pooled : ResponseBuffer) (left attempt : ℕ) → Serving F → Serving F
    attempts pooled zero attempt s =
        if w.cancelled attempt
        then refuse_cancelled w r s
        else final_attempt w (exchange_with w proxy route r attempt) r attempt s
    attempts pooled (suc n) attempt s =
        let x = exchange_with w proxy route r attempt in
        let b = buffered w x r pooled in
        let s' = logs (contacted attempt ∷ []) s in
        elim (w.cancelled attempt) [
          | true ↦ refuse_cancelled w r s
          | false ↦ elim (is_aborted x.outcome) [
            | true ↦ record s' { ending = panicked }
            | false ↦ elim (is_retryable b.status_code) [
              | true ↦ attempts b n (attempt + 1) (repeated x b attempt s')
              | false ↦ replayed x b s'
            ]
          ]
        ]
