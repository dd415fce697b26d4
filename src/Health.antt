-- ===== src/Health.antt =====
-- internal/health/health.go: the liveness answer, and readiness with its cache. The probes of one request
-- are made at the same time and collected in any order; here they stand in the order of the routes.
-- Dialling a backend, parsing its URL, the test for a port and the rendering as JSON are parameters.
pub mod Ready
mod Tests
use gateway_core.Base.{
  ℕ, ◌-◌, ◌*◌, ◌^◌, Bool, true, false, not, ◌||◌, List, [], ◌∷◌, ◌++◌, map, Option, none, some, ltb,
  if◌then◌else◌,
}
use gateway_core.Base.Bytes.{Bytes, bytes, same_bytes}
use gateway_core.Http.{Url, Call, sets_header, writes_header, writes}
use gateway_core.Config.Types.{RouteConfig}
use gateway_core.CircuitBreaker.State.{State, closed, open_, half_open}
use gateway_core.CircuitBreaker.Composite.{Composite, effective_state}
use gateway_core.Proxy.Router.{lookup}

pub data BackendStatus : Type 0 where
  circuit_open circuit_half_open invalid_url unreachable reached : BackendStatus

abbrev pub is_ok : BackendStatus → Bool
is_ok circuit_half_open = true
is_ok reached = true
is_ok _ = false

-- The answer that is kept, and when it was made.
pub record Cached : Type 0 where
  pub body : Bytes
  pub status : ℕ
  pub at : ℕ

abbrev pub readiness_cache_ttl : ℕ
readiness_cache_ttl = 5 * 10 ^ 9

abbrev pub respond : ℕ → Bytes → List Call
respond status body =
    sets_header (bytes "Content-Type") (bytes "application/json")
    ∷ writes_header status
    ∷ writes body
    ∷ []

unfoldable pub liveness : List Call
liveness = respond 200 (bytes "{\"status\":\"ok\"}" ++ 10 ∷ [])

module _ (parse : Bytes → Option Url) (has_port : Bytes → Bool) (dial : Bytes → Bool) where
  unfoldable pub dial_host : Url → Bytes
  dial_host u =
      if has_port u.host
      then u.host
      else u.host ++ (if same_bytes u.scheme (bytes "https") then bytes ":443" else bytes ":80")

  unfoldable pub dial_backend : Bytes → BackendStatus
  dial_backend backend = elim (parse backend) [
    | none ↦ invalid_url
    | some u ↦ if dial (dial_host u) then reached else unreachable
  ]

  unfoldable pub probe : {F : Type 0} → List (Bytes × Composite F) → RouteConfig F → BackendStatus
  probe breakers route = elim (lookup route.backend breakers) [
    | none ↦ dial_backend route.backend
    | some b ↦ elim (effective_state b) [
      | open_ ↦ circuit_open
      | half_open ↦ circuit_half_open
      | closed ↦ dial_backend route.backend
    ]
  ]

module _ {F : Type 0} (render : Bool → List (Bytes × BackendStatus) → Bytes) where
  abbrev pub probe_all :
      (RouteConfig F → BackendStatus) → List (RouteConfig F) → List (Bytes × BackendStatus)
  probe_all status [] = []
  probe_all status (r ∷ rs) = (r.path_prefix, status r) ∷ probe_all status rs

  abbrev pub any_down : (RouteConfig F → BackendStatus) → List (RouteConfig F) → Bool
  any_down status [] = false
  any_down status (r ∷ rs) = not (is_ok (status r)) || any_down status rs

  -- The answer after probing, which is kept.
  unfoldable pub fresh_answer :
      (RouteConfig F → BackendStatus) → List (RouteConfig F) → (at : ℕ) → Cached
  fresh_answer status routes at =
      let down = any_down status routes in
      record {
        body = render (not down) (probe_all status routes) ++ 10 ∷ [];
        status = if down then 503 else 200;
        at = at;
      }

  -- Asked at one time, with the probes done at another.
  unfoldable pub readiness :
      (RouteConfig F → BackendStatus)
      → List (RouteConfig F)
      → (asked_at probed_at : ℕ) → Option Cached
      → Option Cached × List Call
  readiness status routes asked_at probed_at cached =
      let a = fresh_answer status routes probed_at in
      let answer : Option Cached × List Call = (some a, respond a.status a.body) in
      elim cached [
        | none ↦ answer
        | some c ↦
            if ltb (asked_at - c.at) readiness_cache_ttl
            then (some c, respond c.status c.body)
            else answer
      ]
