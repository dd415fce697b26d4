-- ===== src/Proxy/Router.antt =====
-- `New` of internal/proxy/proxy.go: the proxies, one for each backend, and the methods of the routes.
-- A map is the list of its entries, the latest first; URLs are parsed by package net/url.
pub mod Resolve
use gateway_core.Base.{
  ℕ, ◌*◌, ◌^◌, ◌-◌, Bool, true, false, not, ◌||◌, ◌&&◌, List, [], ◌∷◌, ◌++◌, map, Option, none,
  some, if◌then◌else◌, ◌==◌, leb,
}
use mathlib.Core.List.{reverse}
use gateway_core.Base.Int.{ℤ, pos, ltb_ℤ}
use gateway_core.Base.Bytes.{Bytes, bytes, same_bytes}
use gateway_core.Http.{Url}
use gateway_core.Config.Types.{RouteConfig, ConnectionPoolConfig}

unfoldable pub lookup {ℓ} : {A : Type ℓ} → Bytes → List (Bytes × A) → Option A
lookup k [] = none
lookup k ((j, a) ∷ es) = let rest = lookup k es in if same_bytes j k then some a else rest

abbrev pub contains_byte : ℕ → Bytes → Bool
contains_byte b [] = false
contains_byte b (c ∷ cs) = c == b || contains_byte b cs

abbrev drop_slashes : Bytes → Bytes
drop_slashes [] = []
drop_slashes (c ∷ cs) = let rest = drop_slashes cs in if c == b'/' then rest else c ∷ cs

-- `strings.TrimRight(s, "/")`.
unfoldable pub trim_slashes : Bytes → Bytes
trim_slashes s = reverse (drop_slashes (reverse s))

unfoldable pub host_with_port : Url → Bytes
host_with_port u =
    if contains_byte b':' u.host
    then u.host
    else u.host ++ (if same_bytes u.scheme (bytes "https") then bytes ":443" else bytes ":80")

unfoldable pub backend_key : Url → Bytes
backend_key u = u.scheme ++ bytes "://" ++ host_with_port u ++ trim_slashes u.path

pub record Transport : Type 0 where
  pub max_idle_conns : ℤ
  pub max_idle_conns_per_host : ℤ
  pub idle_conn_timeout : ℤ

abbrev pub positive_or : ℤ → ℤ → ℤ
positive_or d n = if ltb_ℤ (pos 0) n then n else d

unfoldable pub build_transport : Option ConnectionPoolConfig → Transport
build_transport none = record {
  max_idle_conns = pos 100;
  max_idle_conns_per_host = pos 10;
  idle_conn_timeout = pos (90 * 10 ^ 9);
}
build_transport (some p) = record {
  max_idle_conns = positive_or (pos 100) p.max_idle_conns;
  max_idle_conns_per_host = positive_or (pos 10) p.max_idle_per_host;
  idle_conn_timeout = positive_or (pos (90 * 10 ^ 9)) p.idle_timeout;
}

-- A proxy is its target and its transport.
pub record ReverseProxy : Type 0 where
  pub target : Url
  pub transport : Transport

pub record Router (F : Type 0) : Type 0 where
  pub routes : List (RouteConfig F)
  pub proxies : List (Bytes × ReverseProxy)
  pub route_backend_key : List (Bytes × Bytes)
  pub method_sets : List (Bytes × List Bytes)

abbrev pub listed : List Bytes → Bytes → Bool
listed [] m = false
listed (x ∷ xs) m = same_bytes x m || listed xs m

abbrev pub to_upper : Bytes → Bytes
to_upper = map (λ c. if leb b'a' c && leb c b'z' then c - 32 else c)

-- A backend that has a proxy keeps it, with the transport of the first route.
unfoldable pub add_target :
    Bytes
    → Url
    → Option ConnectionPoolConfig
    → List (Bytes × ReverseProxy)
    → List (Bytes × ReverseProxy)
add_target key target pool ps = elim (lookup key ps) [
  | some p ↦ ps
  | none ↦ (key, record { target = target; transport = build_transport pool }) ∷ ps
]

module _ {F : Type 0} where
  -- The loop's entry for one route, whose backend has been parsed.
  abbrev pub add_proxy : RouteConfig F → Url → Router F → Router F
  add_proxy route target rt =
      let key = backend_key target in
      record rt {
        route_backend_key = (route.path_prefix, key) ∷ rt.route_backend_key;
        proxies = add_target key target route.connection_pool rt.proxies;
      }

  unfoldable pub add_proxies :
      (Bytes → Option Url) → List (RouteConfig F) → Router F → Option (Router F)
  add_proxies parse [] rt = some rt
  add_proxies parse (r ∷ rs) rt = elim (parse r.backend) [
    | none ↦ none
    | some target ↦ add_proxies parse rs (add_proxy r target rt)
  ]

  unfoldable pub add_methods :
      List (RouteConfig F) → List (Bytes × List Bytes) → List (Bytes × List Bytes)
  add_methods [] ms = ms
  add_methods (r ∷ rs) ms =
      add_methods rs (elim r.methods [
        | [] ↦ ms
        | m ∷ more ↦ (r.path_prefix, to_upper m ∷ map to_upper more) ∷ ms
      ])

  -- `sort` is `sort.Slice` with the comparison by the length of the prefix.
  unfoldable pub new_router :
      (List (RouteConfig F) → List (RouteConfig F))
      → (Bytes → Option Url)
      → List (RouteConfig F)
      → Option (Router F)
  new_router sort parse routes =
      let sorted = sort routes in
      add_proxies parse sorted (record {
        routes = sorted;
        proxies = [];
        route_backend_key = [];
        method_sets = add_methods sorted [];
      })

  -- A route without methods allows all.
  unfoldable pub method_allowed : Router F → RouteConfig F → Bytes → Bool
  method_allowed rt route method = elim (lookup route.path_prefix rt.method_sets) [
    | none ↦ true
    | some ms ↦ listed ms method
  ]

  unfoldable pub proxy_for : Router F → RouteConfig F → Option ReverseProxy
  proxy_for rt route = elim (lookup route.path_prefix rt.route_backend_key) [
    | none ↦ none
    | some key ↦ lookup key rt.proxies
  ]
