-- ===== src/Config/Validate/Valid.antt =====
-- Which configurations `validate` accepts.
use gateway_core.Base.{◌≡◌, ◌≢◌, refl, ◌↔◌, Bool, List, [], ◌∷◌, ◌++◌, Option, none, All}
use gateway_core.Base.Int.{pos, ◌≤ℤ◌}
use gateway_core.Base.Float.{Float}
use gateway_core.Base.Bytes.{Bytes}
use gateway_core.Http.{Url}
use gateway_core.Config.Types.{Config, RouteConfig}
use gateway_core.Config.Validate.{
  first_fault, server_checks, timeout_checks, auth_checks, tls_checks, logging_checks,
  rate_limit_checks, circuit_breaker_checks, settings_checks, admin_fault, configured_fault,
  validate,
}
use gateway_core.Config.Validate.Sections.{
  IsClear, first_fault_iff, or_else_iff, IsClear-append, timeout_iff, IsValidServer, IsValidAuth,
  IsValidTls, IsValidLogging, IsValidAdmin, IsValidRateLimit, IsValidCircuitBreaker, server_iff,
  auth_iff, tls_iff, logging_iff, admin_fault_iff, rate_limit_iff, circuit_breaker_iff,
}
use gateway_core.Config.Validate.Routes.{IsValidRoute, AreDistinct, routes_iff}

module _ {F : Type 0} ⦃fl : Float F⦄ (parse : Bytes → Option Url) (parse_cidr : Bytes → Bool) where
  pub record IsValidConfig (cfg : Config F) : Type 0 where
    pub server : IsValidServer cfg.server
    pub rate_limit : IsValidRateLimit cfg.rate_limit
    pub auth : IsValidAuth cfg.auth
    pub circuit_breaker : IsValidCircuitBreaker cfg.circuit_breaker
    pub global_timeout : pos 0 ≤ℤ cfg.server.global_timeout_ms
    pub tls : IsValidTls cfg.server.tls
    pub logging : IsValidLogging cfg.logging
    pub admin : IsValidAdmin parse_cidr cfg.admin
    pub some_route : cfg.routes ≢ []
    pub routes : All (IsValidRoute parse) cfg.routes
    pub distinct : AreDistinct cfg.routes

  configured_iff :
      (rs : List (RouteConfig F))
      → (configured_fault parse rs ≡ none)
        ↔ ((rs ≢ []) × All (IsValidRoute parse) rs × AreDistinct rs)
  unfolding configured_fault
  configured_iff [] = (λ h. cc, λ h. absurd (h.0 refl))
  configured_iff (r ∷ rs) =
      let (to, from) = routes_iff parse (r ∷ rs) in
      (
        λ h. let (valid, distinct) = to h in (λ e. cc, valid, distinct),
        λ (e, valid, distinct). from (valid, distinct),
      )

  -- The sections of the settings, whose checks stand in one list.
  settings_iff :
      (cfg : Config F)
      → IsClear (settings_checks cfg) ↔ (
          IsValidServer cfg.server
          × (IsValidRateLimit cfg.rate_limit
              × (IsValidAuth cfg.auth
                  × (IsValidCircuitBreaker cfg.circuit_breaker
                      × ((pos 0 ≤ℤ cfg.server.global_timeout_ms)
                          × (IsValidTls cfg.server.tls × IsValidLogging cfg.logging))))))
  settings_iff cfg =
      let tls = tls_checks cfg.server.tls ++ logging_checks cfg.logging in
      let timeout = timeout_checks cfg.server ++ tls in
      let breaker = circuit_breaker_checks cfg.circuit_breaker ++ timeout in
      let auth = auth_checks cfg.auth ++ breaker in
      let rate = rate_limit_checks cfg.rate_limit ++ auth in
      IsClear-append (server_checks cfg.server) rate (server_iff cfg.server) (
        IsClear-append (rate_limit_checks cfg.rate_limit) auth (rate_limit_iff cfg.rate_limit) (
          IsClear-append (auth_checks cfg.auth) breaker (auth_iff cfg.auth) (
            IsClear-append (circuit_breaker_checks cfg.circuit_breaker) timeout
              (circuit_breaker_iff cfg.circuit_breaker)
              (IsClear-append (timeout_checks cfg.server) tls (timeout_iff cfg.server) (
                IsClear-append (tls_checks cfg.server.tls) (logging_checks cfg.logging)
                  (tls_iff cfg.server.tls) (logging_iff cfg.logging))))))

  -- `validate` accepts exactly the valid configurations.
  pub validate_iff : (cfg : Config F) → (validate parse parse_cidr cfg ≡ none) ↔ IsValidConfig cfg
  unfolding validate
  validate_iff cfg =
      let (parts, whole) = or_else_iff (first_fault (settings_checks cfg)) _ in
      let (parts', whole') =
        or_else_iff (admin_fault parse_cidr cfg.admin) (configured_fault parse cfg.routes) in
      let (clear, from_clear) = first_fault_iff (settings_checks cfg) in
      let (valid, from_valid) = settings_iff cfg in
      let (allowed, from_allowed) = admin_fault_iff parse_cidr cfg.admin in
      let (routed, from_routed) = configured_iff cfg.routes in
      (
        λ h.
            let (settings, rest) = parts h in
            let (admin, routes) = parts' rest in
            let (server, (rate, (auth, (breaker, (timeout, (tls, logging)))))) =
              valid (clear settings) in
            let (some_route, routes', distinct) = routed routes in
            record {
              server = server;
              rate_limit = rate;
              auth = auth;
              circuit_breaker = breaker;
              global_timeout = timeout;
              tls = tls;
              logging = logging;
              admin = allowed admin;
              some_route = some_route;
              routes = routes';
              distinct = distinct;
            },
        λ v. whole (
          from_clear (
              from_valid (
                v.server,
                (
                  v.rate_limit,
                  (v.auth, (v.circuit_breaker, (v.global_timeout, (v.tls, v.logging)))),
                ),
              )),
          whole' (from_allowed v.admin, from_routed (v.some_route, v.routes, v.distinct)),
        ),
      )
