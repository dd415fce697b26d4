-- ===== src/Proxy/Router/Resolve.antt =====
-- Every route of a router has a proxy.
use mathlib.Core.Option.{some-injective}
use gateway_core.Base.{
  ◌≡◌, refl, sym, ap, ◌∙◌, subst, ◌⊎◌, List, [], ◌∷◌, Option, none, some, arith, Option-cases,
  Bool-cases, inl, inr, if◌then◌else◌,
}
use gateway_core.Base.Bytes.{Bytes, same_bytes, same_bytes_iff, same_bytes_refl}
use gateway_core.Config.Types.{RouteConfig, ConnectionPoolConfig}
use gateway_core.Http.{Url}
use gateway_core.Proxy.Router.{
  lookup, Router, ReverseProxy, add_proxy, add_proxies, new_router, proxy_for, backend_key,
  build_transport, add_target, add_methods,
}

pub lookup_first :
    {A : Type 0} (k j : Bytes) (a : A) (es : List (Bytes × A))
    → lookup k ((j, a) ∷ es) ≡ (if same_bytes j k then some a else lookup k es)
unfolding lookup
lookup_first k j a es = refl

pub lookup-empty : {A : Type 0} (k : Bytes) (a : A) → lookup k [] ≡ some a → ⊥
unfolding lookup
lookup-empty k a h = cc

-- A proxy stands under the key of its target.
abbrev pub IsKeyed : List (Bytes × ReverseProxy) → Type 0
IsKeyed ps = (k : Bytes) (p : ReverseProxy) → lookup k ps ≡ some p → backend_key p.target ≡ k

module _ (u : Url) (pool : Option ConnectionPoolConfig) (ps : List (Bytes × ReverseProxy)) where
  abbrev grown : List (Bytes × ReverseProxy)
  grown = add_target (backend_key u) u pool ps

  abbrev newcomer : ReverseProxy
  newcomer = record { target = u; transport = build_transport pool }

  grown_has : (p : ReverseProxy) × (lookup (backend_key u) grown ≡ some p)
  unfolding add_target
  grown_has =
      let self = same_bytes_refl (backend_key u) in
      let first = lookup_first (backend_key u) (backend_key u) newcomer ps in
      elim (Option-cases (lookup (backend_key u) ps)) [
        | inl e ↦ (newcomer, ground arith)
        | inr (p, e) ↦ (p, ground arith)
      ]

  grown_keeps : (k : Bytes) (p : ReverseProxy) → lookup k ps ≡ some p → lookup k grown ≡ some p
  unfolding add_target
  grown_keeps k p h =
      let first = lookup_first k (backend_key u) newcomer ps in
      elim (Option-cases (lookup (backend_key u) ps)) [
        | inl e ↦ elim (Bool-cases (same_bytes (backend_key u) k)) [
          | inl s ↦
              let at_k : lookup k ps ≡ none =
                subst (λ x. lookup x ps ≡ none) ((same_bytes_iff (backend_key u) k).0 s) e in
              absurd (ground arith)
          | inr s ↦ ground arith
        ]
        | inr (q, e) ↦ ground arith
      ]

  grown-IsKeyed : IsKeyed ps → IsKeyed grown
  unfolding add_target
  grown-IsKeyed keyed k p h =
      let first = lookup_first k (backend_key u) newcomer ps in
      let old = keyed k p in
      let same = same_bytes_iff (backend_key u) k in
      elim (Option-cases (lookup (backend_key u) ps)) [
        | inl e ↦ elim (Bool-cases (same_bytes (backend_key u) k)) [
          | inl s ↦
              let found : some newcomer ≡ some p = ground arith in
              ap (λ (x : ReverseProxy). backend_key x.target)
                (sym (some-injective newcomer p found))
              ∙ same.0 s
          | inr s ↦ old (ground arith)
        ]
        | inr (q, e) ↦ old (ground arith)
      ]

module _ {F : Type 0} (parse : Bytes → Option Url) (all : List (RouteConfig F)) where
  abbrev pub IsRoute : RouteConfig F → List (RouteConfig F) → Type 0
  IsRoute r [] = ⊥
  IsRoute r (q ∷ qs) = (r ≡ q) ⊎ IsRoute r qs

  -- A key under the prefix is that of the backend of a route with the prefix.
  abbrev pub IsSource : Bytes → Bytes → Type 0
  IsSource prefix key =
      (q : RouteConfig F) × (u : Url) × IsRoute q all
      × (q.path_prefix ≡ prefix)
      × (parse q.backend ≡ some u)
      × (key ≡ backend_key u)

  record IsResolved (rt : Router F) : Type 0 where
    keyed : IsKeyed rt.proxies
    target :
        (prefix key : Bytes)
        → lookup prefix rt.route_backend_key ≡ some key
        → ((p : ReverseProxy) × (lookup key rt.proxies ≡ some p)) × IsSource prefix key

  add_proxy-IsResolved :
      (r : RouteConfig F) (u : Url) (rt : Router F)
      → IsRoute r all
      → parse r.backend ≡ some u
      → IsResolved rt
      → IsResolved (add_proxy r u rt)
  add_proxy-IsResolved r u rt mem e inv = record {
    keyed = grown-IsKeyed u r.connection_pool rt.proxies inv.keyed;
    target = λ prefix key h. elim (Bool-cases (same_bytes r.path_prefix prefix)) [
      | inl s ↦
          let first = lookup_first prefix r.path_prefix (backend_key u) rt.route_backend_key in
          let own : backend_key u ≡ key = some-injective _ _ (ground arith) in
          (
            subst
                (λ k.
                  (p : ReverseProxy) × (lookup k (grown u r.connection_pool rt.proxies) ≡ some p))
                own (grown_has u r.connection_pool rt.proxies),
            (r, u, mem, (same_bytes_iff r.path_prefix prefix).0 s, e, sym own),
          )
      | inr s ↦
          let first = lookup_first prefix r.path_prefix (backend_key u) rt.route_backend_key in
          let ((p, found), source) = inv.target prefix key (ground arith) in
          ((p, grown_keeps u r.connection_pool rt.proxies key p found), source)
    ];
  }

  abbrev HasKey : Bytes → Router F → Type 0
  HasKey prefix rt = (key : Bytes) × (lookup prefix rt.route_backend_key ≡ some key)

  add_proxy-HasKey :
      (prefix : Bytes) (r : RouteConfig F) (u : Url) (rt : Router F)
      → HasKey prefix rt
      → HasKey prefix (add_proxy r u rt)
  add_proxy-HasKey prefix r u rt (key, h) =
      let first = lookup_first prefix r.path_prefix (backend_key u) rt.route_backend_key in
      elim (Bool-cases (same_bytes r.path_prefix prefix)) [
        | inl s ↦ (backend_key u, ground arith)
        | inr s ↦ (key, ground arith)
      ]

  add_proxy_own :
      (r : RouteConfig F) (u : Url) (rt : Router F) → HasKey r.path_prefix (add_proxy r u rt)
  add_proxy_own r u rt =
      let first = lookup_first r.path_prefix r.path_prefix (backend_key u) rt.route_backend_key in
      let self = same_bytes_refl r.path_prefix in (backend_key u, ground arith)

  abbrev Contains : List (RouteConfig F) → Type 0
  Contains rs = (r : RouteConfig F) → IsRoute r rs → IsRoute r all

  -- What the loop over the routes leaves: everything resolves, and every route has a key.
  record IsDone (rs : List (RouteConfig F)) (rt rt' : Router F) : Type 0 where
    resolved : IsResolved rt'
    kept : (prefix : Bytes) → HasKey prefix rt → HasKey prefix rt'
    own : (r : RouteConfig F) → IsRoute r rs → HasKey r.path_prefix rt'
    same_routes : rt'.routes ≡ rt.routes

  add_proxies-IsDone :
      (rs : List (RouteConfig F)) (rt rt' : Router F)
      → Contains rs
      → IsResolved rt
      → add_proxies parse rs rt ≡ some rt'
      → IsDone rs rt rt'
  unfolding add_proxies
  add_proxies-IsDone [] rt rt' sub inv h =
      let same : rt ≡ rt' = some-injective rt rt' h in
      record {
        resolved = subst IsResolved same inv;
        kept = λ prefix k. subst (HasKey prefix) same k;
        own = λ r m. elim m [ ];
        same_routes = ap (λ (x : Router F). x.routes) (sym same);
      }
  add_proxies-IsDone (r ∷ rs) rt rt' sub inv h = elim (Option-cases (parse r.backend)) [
    | inl e ↦ absurd (ground arith)
    | inr (u, e) ↦
        let rest =
          add_proxies-IsDone rs (add_proxy r u rt) rt' (λ q m. sub q (inr m))
            (add_proxy-IsResolved r u rt (sub r (inl refl)) e inv) (rw (e, add_proxies) at h) in
        record {
          resolved = rest.resolved;
          kept = λ prefix k. rest.kept prefix (add_proxy-HasKey prefix r u rt k);
          own = λ q m. elim m [
            | inl s ↦ rest.kept q.path_prefix (
                subst (λ (x : RouteConfig F). HasKey x.path_prefix (add_proxy r u rt)) (sym s)
                  (add_proxy_own r u rt))
            | inr i ↦ rest.own q i
          ];
          same_routes = rest.same_routes;
        }
  ]

module _ {F : Type 0} where
  -- Every route of a router that `New` has built has a proxy, and it leads to the backend, by scheme,
  -- host, port and path, of a route with the same prefix.
  pub new_router-proxy_for :
      (sort : List (RouteConfig F) → List (RouteConfig F)) (parse : Bytes → Option Url)
      (routes : List (RouteConfig F)) (rt : Router F) (r : RouteConfig F)
      → new_router sort parse routes ≡ some rt
      → IsRoute parse (sort routes) r rt.routes
      → (p : ReverseProxy) × (proxy_for rt r ≡ some p)
        × IsSource parse (sort routes) r.path_prefix (backend_key p.target)
  unfolding new_router proxy_for
  new_router-proxy_for sort parse routes rt r h m =
      let start : Router F = record {
        routes = sort routes;
        proxies = [];
        route_backend_key = [];
        method_sets = add_methods (sort routes) [];
      } in
      let empty : IsResolved parse (sort routes) start = record {
        keyed = λ k p e. absurd (lookup-empty k p e);
        target = λ prefix key e. absurd (lookup-empty prefix key e);
      } in
      let done = add_proxies-IsDone parse (sort routes) (sort routes) start rt (λ q i. i) empty h in
      let (key, own) =
        done.own r (subst (λ rs. IsRoute parse (sort routes) r rs) done.same_routes m) in
      let ((p, found), (q, u, mem, same_prefix, parsed, at_key)) =
        done.resolved.target r.path_prefix key own in
      (p, ground arith, (q, u, mem, same_prefix, parsed, done.resolved.keyed key p found ∙ at_key))
