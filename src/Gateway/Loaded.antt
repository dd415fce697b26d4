-- ===== src/Gateway/Loaded.antt =====
-- A gateway from a file that `load` accepts.
use gateway_core.Base.{◌≡◌, inr, Bool, true, List, Option, some}
use gateway_core.Base.Float.{Float}
use gateway_core.Base.Bytes.{Bytes}
use gateway_core.Http.{Url}
use gateway_core.Config.Types.{RouteConfig, Config}
use gateway_core.Config.Load.{load}
use gateway_core.Config.Load.Loaded.{load-IsValidConfig}
use gateway_core.CircuitBreaker.Composite.{Composite}
use gateway_core.Routing.Select.{match_route}
use gateway_core.Proxy.Router.{Router, ReverseProxy, new_router, proxy_for, backend_key}
use gateway_core.Proxy.Router.Resolve.{IsRoute}
use gateway_core.Config.Load.{is_enabled}
use gateway_core.Gateway.{Gateway, Surroundings, metrics_path}
use gateway_core.Gateway.Serving.{own_backend}

module _ {F : Type 0} ⦃fl : Float F⦄ (env : Bytes → Option Bytes)
    (unmarshal : Bytes → Option (Config F)) (parse : Bytes → Option Url) (parse_cidr : Bytes → Bool)
    (sort : List (RouteConfig F) → List (RouteConfig F)) where
  -- The sorted routes are among the routes.
  abbrev pub Keeps : List (RouteConfig F) → Type 0
  Keeps routes =
      (r : RouteConfig F) → IsRoute parse routes r (sort routes) → IsRoute parse routes r routes

  -- What the surroundings have to give: the metrics, if they are enabled, register, the mux takes the
  -- endpoints, and with TLS the certificate loads.
  abbrev pub IsSupported : Surroundings → Config F → Type 0
  IsSupported around cfg =
      (is_enabled cfg.metrics ≡ true → around.registers ≡ true)
      × (around.mounts (metrics_path cfg) cfg.admin.enabled ≡ true)
      × (cfg.server.tls.enabled ≡ true
          → around.certifies cfg.server.tls.cert_file cfg.server.tls.key_file ≡ true)

  -- In a router for a file that loads, the route that a path matches has a proxy, and it leads to
  -- the backend of that route, by scheme, host, port and path.
  pub loaded_route-own_backend :
      (text path : Bytes) (cfg : Config F) (rt : Router F) (r : RouteConfig F)
      → load env unmarshal parse parse_cidr text ≡ inr cfg
      → Keeps cfg.routes
      → new_router sort parse cfg.routes ≡ some rt
      → match_route path rt.routes ≡ some r
      → (u : Url) × (p : ReverseProxy) × (parse r.backend ≡ some u)
        × (proxy_for rt r ≡ some p)
        × (backend_key p.target ≡ backend_key u)
  loaded_route-own_backend text path cfg rt r h keeps made m =
      let v = load-IsValidConfig env unmarshal parse parse_cidr text cfg h in
      own_backend parse sort cfg.routes v.routes keeps rt path r v.distinct made m
