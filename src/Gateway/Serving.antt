-- ===== src/Gateway/Serving.antt =====
-- A gateway that is built from a loaded configuration, and the requests it serves one after the other.
use mathlib.Core.Option.{some-injective}
use gateway_core.Base.{
  ℕ, ◌<◌, ◌≡◌, ◌≢◌, refl, sym, ap, ◌∙◌, subst, inl, inr, List, [], ◌∷◌, Option, none, some,
  Option-cases, Bool-cases, All,
}
use gateway_core.Base.Float.{Float}
use gateway_core.Base.Bytes.{Bytes, same_bytes}
use gateway_core.Http.{Url, Request, Client}
use gateway_core.Config.Types.{RouteConfig}
use gateway_core.Config.Validate.Routes.{IsValidRoute, AreDistinct}
use gateway_core.CircuitBreaker.Config
use gateway_core.CircuitBreaker.Composite.{Composite, new_composite}
use gateway_core.CircuitBreaker.Composite.System.{Reachable, start}
use gateway_core.Routing.Select.{matches, match_route}
use gateway_core.Proxy.Writers.{ResponseBuffer}
use gateway_core.Proxy.Router.{
  Router, ReverseProxy, lookup, add_proxy, add_proxies, new_router, proxy_for, backend_key,
}
use gateway_core.Proxy.Router.Resolve.{IsRoute, lookup_first, new_router-proxy_for}
use gateway_core.Proxy.Attempts.{World}
use gateway_core.Proxy.Serve.{Served, serve}
use gateway_core.Proxy.Serve.Breakers.{AreReachable, serve_completes}
use gateway_core.Gateway.{new_breakers}

module _ {F : Type 0} (parse : Bytes → Option Url) where
  All-IsRoute :
      (all rs : List (RouteConfig F)) (r : RouteConfig F)
      → All (IsValidRoute parse) rs
      → IsRoute parse all r rs
      → IsValidRoute parse r
  All-IsRoute all [] r v m = elim m [ ]
  All-IsRoute all (q ∷ rs) r v m = elim m [
    | inl e ↦ subst (IsValidRoute parse) (sym e) v.0
    | inr i ↦ All-IsRoute all rs r v.1 i
  ]

  other_prefix :
      (all rs : List (RouteConfig F)) (q r : RouteConfig F)
      → All (λ x. q.path_prefix ≢ x.path_prefix) rs
      → IsRoute parse all r rs
      → q.path_prefix ≢ r.path_prefix
  other_prefix all [] q r d m = elim m [ ]
  other_prefix all (x ∷ rs) q r d m = elim m [
    | inl e ↦ λ same. d.0 (same ∙ ap (λ (y : RouteConfig F). y.path_prefix) e)
    | inr i ↦ other_prefix all rs q r d.1 i
  ]

  -- Routes with distinct prefixes are told apart by their prefix.
  distinct_route :
      (all rs : List (RouteConfig F)) (q r : RouteConfig F)
      → AreDistinct rs
      → IsRoute parse all q rs
      → IsRoute parse all r rs
      → q.path_prefix ≡ r.path_prefix
      → q ≡ r
  distinct_route all [] q r d m n e = elim m [ ]
  distinct_route all (x ∷ rs) q r d m n e = elim m [
    | inl a ↦ elim n [
      | inl b ↦ a ∙ sym b
      | inr j ↦
          absurd
            (other_prefix all rs x r d.0 j (ap (λ (y : RouteConfig F). y.path_prefix) (sym a) ∙ e))
    ]
    | inr i ↦ elim n [
      | inl b ↦ absurd (
          other_prefix all rs x q d.0 i (ap (λ (y : RouteConfig F). y.path_prefix) (sym b) ∙ sym e))
      | inr j ↦ distinct_route all rs q r d.1 i j e
    ]
  ]

  match_route-IsRoute :
      (all rs : List (RouteConfig F)) (path : Bytes) (r : RouteConfig F)
      → match_route path rs ≡ some r
      → IsRoute parse all r rs
  unfolding match_route
  match_route-IsRoute all [] path r h = cc
  match_route-IsRoute all (q ∷ rs) path r h = elim (Bool-cases (matches path q)) [
    | inl e ↦ inl (sym (some-injective q r (rw (e, match_route) at h)))
    | inr e ↦ inr (match_route-IsRoute all rs path r (rw (e, match_route) at h))
  ]

  add_proxies_total :
      (all rs : List (RouteConfig F)) (rt : Router F)
      → ((r : RouteConfig F) → IsRoute parse all r rs → (u : Url) × (parse r.backend ≡ some u))
      → (rt' : Router F) × (add_proxies parse rs rt ≡ some rt') × (rt'.routes ≡ rt.routes)
  unfolding add_proxies
  add_proxies_total all [] rt p = (rt, refl, refl)
  add_proxies_total all (r ∷ rs) rt p =
      let (u, e) = p r (inl refl) in
      let (rt', h, same) = add_proxies_total all rs (add_proxy r u rt) (λ q m. p q (inr m)) in
      (rt', rw (e, add_proxies) h, same)

  module _ (sort : List (RouteConfig F) → List (RouteConfig F)) (routes : List (RouteConfig F))
      (valid : All (IsValidRoute parse) routes)
      (sorted : (r : RouteConfig F)
        → IsRoute parse routes r (sort routes)
        → IsRoute parse routes r routes) where
    pub new_router_total :
        (rt : Router F) × (new_router sort parse routes ≡ some rt) × (rt.routes ≡ sort routes)
    unfolding new_router
    new_router_total =
        add_proxies_total routes (sort routes) _
          (λ r m. let v = All-IsRoute routes routes r valid (sorted r m) in (v.2.0, v.2.1))

    -- With distinct prefixes, the proxy of a route is one for its own backend.
    pub own_backend :
        (rt : Router F) (path : Bytes) (r : RouteConfig F)
        → AreDistinct routes
        → new_router sort parse routes ≡ some rt
        → match_route path rt.routes ≡ some r
        → (u : Url) × (p : ReverseProxy) × (parse r.backend ≡ some u)
          × (proxy_for rt r ≡ some p)
          × (backend_key p.target ≡ backend_key u)
    own_backend rt path r distinct h m =
        let (rt', h', same) = new_router_total in
        let router : rt' ≡ rt = some-injective rt' rt (sym h' ∙ h) in
        let in_rt = match_route-IsRoute (sort routes) rt.routes path r m in
        let in_sorted =
          subst (λ rs. IsRoute parse (sort routes) r rs)
            (ap (λ (x : Router F). x.routes) (sym router) ∙ same) in_rt in
        let (p, found, (q, u, in_q, prefix, parsed, key)) =
          new_router-proxy_for sort parse routes rt r h in_rt in
        let one =
          distinct_route routes routes q r distinct (sorted q in_q) (sorted r in_sorted) prefix in
        (u, p, ap (λ (x : RouteConfig F). parse x.backend) (sym one) ∙ parsed, found, key)

-- A request, the world it is served in, and the time at which the breaker is asked.
pub record Job : Type 0 where
  pub world : World
  pub pooled : ResponseBuffer
  pub now : ℕ
  pub request : Request
  pub client : Client

module _ {F : Type 0} ⦃fl : Float F⦄ where
  -- One request after the other; none where a release blocks.
  unfoldable pub serve_all :
      Router F
      → List Job
      → List (Bytes × Composite F)
      → Option (List (Bytes × Composite F) × List (Served F))
  serve_all rt [] bs = some (bs, [])
  serve_all rt (j ∷ js) bs = elim (serve j.world bs rt j.pooled j.now j.request j.client) [
    | none ↦ none
    | some out ↦ elim (serve_all rt js out.breakers) [
      | none ↦ none
      | some (bs', outs) ↦ some (bs', out ∷ outs)
    ]
  ]

  pub serve_all_completes :
      (cfg : Config.Config F) (rt : Router F) (js : List Job) (bs : List (Bytes × Composite F))
      → 0 < cfg.window_size
      → AreReachable cfg (λ _. 0) bs
      → (bs' : List (Bytes × Composite F)) × (outs : List (Served F)) × (serve_all rt js bs
          ≡ some (bs', outs))
        × AreReachable cfg (λ _. 0) bs'
  unfolding serve_all
  serve_all_completes cfg rt [] bs p all = (bs, [], refl, all)
  serve_all_completes cfg rt (j ∷ js) bs p all =
      let (out, e, next) =
        serve_completes j.world cfg (λ _. 0) bs rt j.pooled j.now j.request j.client p all in
      let (bs', outs, f, last) = serve_all_completes cfg rt js out.breakers p next in
      (bs', out ∷ outs, rw (e, f, serve_all), last)

  pub new_breakers-AreReachable :
      (cfg : Config.Config F) (rs : List (RouteConfig F)) (bs : List (Bytes × Composite F))
      → AreReachable cfg (λ _. 0) bs
      → AreReachable cfg (λ _. 0) (new_breakers cfg rs bs)
  unfolding new_breakers
  new_breakers-AreReachable cfg [] bs all = all
  new_breakers-AreReachable cfg (r ∷ rs) bs all = elim (Option-cases (lookup r.backend bs)) [
    | inr (b, e) ↦ rw (e, new_breakers) (new_breakers-AreReachable cfg rs bs all)
    | inl e ↦
        let wider : AreReachable cfg (λ _. 0) ((r.backend, new_composite cfg) ∷ bs) = λ k b h.
          let first = lookup_first k r.backend (new_composite cfg) bs in
          elim (Bool-cases (same_bytes r.backend k)) [
            | inl t ↦
                let new : new_composite cfg ≡ b = some-injective _ _ (rw t at (sym first ∙ h)) in
                subst (λ x. Reachable cfg (record { breaker = x; held = 0 })) new (start refl)
            | inr t ↦ all k b (rw t at (sym first ∙ h))
          ] in
        rw (e, new_breakers)
          (new_breakers-AreReachable cfg rs ((r.backend, new_composite cfg) ∷ bs) wider)
  ]
