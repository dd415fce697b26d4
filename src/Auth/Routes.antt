-- ===== src/Auth/Routes.antt =====
-- `routeRequiresAuth` of internal/gateway/gateway.go: the middleware asks the router whether a path
-- requires authentication.
use gateway_core.Base.{
  ◌≡◌, refl, subst, ◌⊎◌, Bool, true, false, List, Option, none, some, arith, inl, inr,
}
use gateway_core.Base.Bytes.{Bytes}
use gateway_core.Config.Types.{AuthConfig, RouteConfig}
use gateway_core.Routing.Select.{match_route}
use gateway_core.Auth.{
  Claims, Token, SigningMethod, ParserOptions, Answer, passed_on, authenticated,
  unauthorized_missing, unauthorized_invalid, forbidden, validate_token, middleware,
}
use gateway_core.Auth.Access.{Grants, presented, middleware_admits}

module _ {F : Type 0} where
  unfoldable pub route_requires_auth : List (RouteConfig F) → Bytes → Bool
  route_requires_auth routes path = elim (match_route path routes) [
    | none ↦ false
    | some route ↦ route.auth_required
  ]

-- The request goes on to the next handler.
abbrev pub GoesOn : Answer → Type 0
GoesOn passed_on = Unit
GoesOn (authenticated c) = Unit
GoesOn _ = ⊥

answered :
    (a b : Answer) → a ≡ b → GoesOn a → (b ≡ passed_on) ⊎ ((c : Claims) × (b ≡ authenticated c))
answered a passed_on e h = inl refl
answered a (authenticated c) e h = inr (c, refl)
answered a unauthorized_missing e h = elim (subst GoesOn e h) [ ]
answered a unauthorized_invalid e h = elim (subst GoesOn e h) [ ]
answered a (forbidden s) e h = elim (subst GoesOn e h) [ ]

module _ (parse : Bytes → (SigningMethod → Option Bytes) → ParserOptions → Option Token) where
  middleware-GoesOn :
      (cfg : AuthConfig) (requires_auth : Bytes → Bool) (path authorization : Bytes)
      → cfg.enabled ≡ true
      → requires_auth path ≡ true
      → GoesOn (middleware parse cfg requires_auth path authorization)
      → (c : Claims) × (middleware parse cfg requires_auth path authorization ≡ authenticated c)
  unfolding middleware validate_token
  middleware-GoesOn cfg requires_auth path authorization on needed h =
      elim (answered (middleware parse cfg requires_auth path authorization) _ refl h) [
        | inl e ↦ absurd (ground arith)
        | inr found ↦ found
      ]

  -- With authentication enabled, a request that goes on to a route that requires it has a token that
  -- grants its claims and every required scope: the route that the router chooses is the one that the
  -- middleware asked about.
  pub protected_route-Grants :
      {F : Type 0} (cfg : AuthConfig) (routes : List (RouteConfig F)) (route : RouteConfig F)
      (path authorization : Bytes)
      → cfg.enabled ≡ true
      → match_route path routes ≡ some route
      → route.auth_required ≡ true
      → GoesOn (middleware parse cfg (route_requires_auth routes) path authorization)
      → (c : Claims) × Grants cfg (presented parse cfg authorization) c
  unfolding route_requires_auth
  protected_route-Grants cfg routes route path authorization on chosen needed h =
      let (c, e) =
        middleware-GoesOn cfg (route_requires_auth routes) path authorization on (ground arith) h in
      (c, ((middleware_admits parse cfg (route_requires_auth routes) path authorization c).0 e).2)
