-- ===== src/Proxy/Serve/Retries.antt =====
-- How often a backend is asked.
use mathlib.Core.Option.{some-injective}
use gateway_core.Base.{
  ℕ, suc, ◌+◌, ◌^◌, ◌<◌, ◌≤◌, ◌≡◌, refl, sym, ap, ◌∙◌, inl, inr, List, [], ◌∷◌, ◌++◌, some, arith,
}
use gateway_core.Base.Int.{ℤ, InInt64, pos_part, pos, wrap, wrap_id, ◌+ℤ◌}
use gateway_core.Base.Float.{Float}
use gateway_core.Base.Bytes.{Bytes}
use gateway_core.Config.Types.{RouteConfig}
use gateway_core.Http.{Request, Client}
use gateway_core.CircuitBreaker.Composite.{Composite}
use gateway_core.Routing.Select.{match_route}
use gateway_core.Proxy.Writers.{ResponseBuffer}
use gateway_core.Proxy.Router.{Router}
use gateway_core.Proxy.Attempts.{World, Event, disconnected, contacted}
use gateway_core.Proxy.Serve.{Served, serve, max_attempts}
use gateway_core.Proxy.Serve.Protocol.{
  IsAttempts, gave_up, broke, ended, erred, again, serve-IsServing,
}

abbrev pub contacts : List Event → ℕ
contacts [] = 0
contacts (contacted n ∷ es) = suc (contacts es)
contacts (_ ∷ es) = contacts es

contacts-snoc : (es : List Event) → contacts (es ++ disconnected ∷ []) ≡ contacts es
contacts-snoc [] = refl
contacts-snoc (Event.connected ∷ es) = contacts-snoc es
contacts-snoc (Event.disconnected ∷ es) = contacts-snoc es
contacts-snoc (Event.contacted n ∷ es) = ap suc (contacts-snoc es)
contacts-snoc (Event.retried n ∷ es) = contacts-snoc es
contacts-snoc (Event.slept n ∷ es) = contacts-snoc es
contacts-snoc (Event.counted n ∷ es) = contacts-snoc es
contacts-snoc (Event.backend_error n ∷ es) = contacts-snoc es

IsAttempts-contacts :
    {left attempt : ℕ} {es : List Event} → IsAttempts left attempt es → contacts es ≤ left + 1
IsAttempts-contacts gave_up = omega arith
IsAttempts-contacts broke = omega arith
IsAttempts-contacts (ended code h) = omega arith
IsAttempts-contacts (erred code h) = omega arith
IsAttempts-contacts (again code h rest) = omega (arith, IsAttempts-contacts rest)

retries_le :
    (n : ℤ) → InInt64 n → pos_part n + 1 < 2 ^ 63 → pos_part (wrap (n +ℤ pos 1)) ≤ pos_part n + 1
unfolding ◌+ℤ◌
retries_le n (h, k) p =
    let fits : InInt64 (n +ℤ pos 1) = (ground arith, ground arith) in
    rw (wrap_id (n +ℤ pos 1) fits) (ground arith)

max_attempts_le :
    {F : Type 0} (route : RouteConfig F)
    → InInt64 route.retry_attempts
    → pos_part route.retry_attempts + 1 < 2 ^ 63
    → max_attempts route ≤ pos_part route.retry_attempts + 1
unfolding max_attempts
max_attempts_le route h k = let le = retries_le route.retry_attempts h k in ground arith

module _ {F : Type 0} ⦃fl : Float F⦄ where
  -- A request of a route contacts a backend at most as often as the route has retries, and once
  -- more; a negative number of retries counts as none.
  pub serve-contacts :
      (w : World) (bs : List (Bytes × Composite F)) (rt : Router F) (pooled : ResponseBuffer)
      (now : ℕ) (r : Request) (c : Client) (out : Served F) (route : RouteConfig F)
      → match_route r.path rt.routes ≡ some route
      → InInt64 route.retry_attempts
      → pos_part route.retry_attempts + 1 < 2 ^ 63
      → serve w bs rt pooled now r c ≡ some out
      → contacts out.events ≤ pos_part route.retry_attempts + 1
  serve-contacts w bs rt pooled now r c out route m h k e =
      let most = max_attempts_le route h k in
      elim (serve-IsServing w bs rt pooled now r c out e) [
        | inl (none_left, _) ↦ rw none_left (omega arith)
        | inr (other, m', t, _, (inner, same, shape)) ↦
            let route_is : other ≡ route = some-injective other route (sym m' ∙ m) in
            let bound = IsAttempts-contacts shape in
            let outer = contacts-snoc inner in
            let renamed : max_attempts other ≡ max_attempts route = ap max_attempts route_is in
            rw (same, outer) (omega (arith, bound, most, renamed))
      ]
