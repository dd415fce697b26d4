-- ===== src/Admin.antt =====
-- internal/admin/admin.go: the read-only endpoints, behind their allowlist. The parsers and the
-- containment test of package net, and the JSON encoder, are parameters. Log lines are left out.
pub mod Pages
pub mod Access
mod Tests
use gateway_core.Base.{
  ℕ, ◌-◌, Bool, not, ◌&&◌, List, [], ◌∷◌, map, Option, none, some, ltb, if◌then◌else◌, length, take,
  drop,
}
use gateway_core.Base.Int.{ℤ, pos, negsuc, ◌+ℤ◌, ◌*ℤ◌, ltb_ℤ, leb_ℤ, wrap}
use gateway_core.Base.Bytes.{Bytes, bytes, same_bytes}
use gateway_core.Config.Types.{Config, RouteConfig}
use gateway_core.CircuitBreaker.State.{state_name}
use gateway_core.CircuitBreaker.Composite.{Composite, inner_state}
use gateway_core.Proxy.Router.{lookup}
use gateway_core.Http.{Call, sets_header, writes_header, writes}
use gateway_core.RateLimit.ClientIp.{trim_space, parse_cidrs, extract_ip, is_trusted}
use gateway_core.RateLimit.Limiter.{Limiter, ClientKey}
use gateway_core.RateLimit.Table.Evict.{snapshot}

-- What a handler reads of a request; `query` gives the first value of a parameter, empty without one.
pub record AdminRequest : Type 0 where
  pub method : Bytes
  pub remote_addr : Bytes
  pub query : Bytes → Bytes

pub data Endpoint : Type 0 where
  routes_endpoint config_endpoint limiters_endpoint : Endpoint

-- `RegisterRoutes`.
unfoldable pub registered : Bytes → Option Endpoint
registered path =
    if same_bytes path (bytes "/admin/routes")
    then some routes_endpoint
    else if same_bytes path (bytes "/admin/config")
    then some config_endpoint
    else if same_bytes path (bytes "/admin/limiters")
    then some limiters_endpoint
    else none

pub record RouteStatus : Type 0 where
  pub path_prefix : Bytes
  pub backend : Bytes
  pub methods : List Bytes
  pub auth_required : Bool
  pub timeout_ms : ℤ
  pub circuit_breaker_state : Bytes

-- The values that the handlers encode.
pub data Payload (F : Type 0) : Type 0 where
  error_value : Bytes → Payload F
  routes_value : List RouteStatus → Payload F
  config_value : Config F → Payload F
  limiters_value : List (ClientKey F × ℕ) → (total page : ℤ) → Payload F

-- The handler, with what its pointers lead to when a request is served.
pub record Handler (F Cidr : Type 0) : Type 0 where
  pub current : Config F
  pub limiter : Limiter F
  pub breakers : List (Bytes × Composite F)
  pub routes : List (RouteConfig F)
  pub allowed_nets : List Cidr

-- `New`, for a reloader, a limiter and breakers as they are.
unfoldable pub new_handler :
    {F Cidr : Type 0} (parse_cidr : Bytes → Option Cidr)
    → Config F
    → Limiter F
    → List (Bytes × Composite F)
    → List (RouteConfig F)
    → (allowlist : List Bytes) → Handler F Cidr
new_handler parse_cidr current limiter breakers routes allowlist = record {
  current = current;
  limiter = limiter;
  breakers = breakers;
  routes = routes;
  allowed_nets = parse_cidrs parse_cidr allowlist;
}

-- The digits of `parseInt`, with the number so far; an int wraps around.
unfoldable pub parse_digits : ℤ → Bytes → ℤ
parse_digits n [] = n
parse_digits n (c ∷ s) =
    let rest = parse_digits (wrap (n *ℤ pos 10 +ℤ pos (c - b'0'))) s in
    if ltb c b'0' then negsuc 0 else if ltb b'9' c then negsuc 0 else rest

unfoldable pub parse_int : Bytes → ℤ
parse_int s = parse_digits (pos 0) (trim_space s)

unfoldable pub page_size_of : AdminRequest → ℤ
page_size_of r =
    let ps = r.query (bytes "page_size") in
    let v = parse_int ps in
    if not (same_bytes ps []) && (ltb_ℤ (pos 0) v && leb_ℤ v (pos 1000)) then v else pos 100

unfoldable pub page_of : AdminRequest → ℤ
page_of r =
    let p = r.query (bytes "page") in
    let v = parse_int p in if not (same_bytes p []) && leb_ℤ (pos 0) v then v else pos 0

-- `entries[start:end]`; bounds that are out of order or of range panic.
unfoldable pub slice {ℓ} : {A : Type ℓ} → List A → (start stop : ℤ) → Option (List A)
slice xs (pos i) (pos j) =
    if ltb j i then none else if ltb (length xs) j then none else some (take (j - i) (drop i xs))
slice xs _ _ = none

unfoldable pub cut_at : ℤ → ℤ → ℤ
cut_at total n = if ltb_ℤ total n then total else n

-- The page of the entries, or a panic.
unfoldable pub paged {ℓ} : {A : Type ℓ} → List A → (page page_size : ℤ) → Option (List A)
paged entries page page_size =
    let total = pos (length entries) in
    let start = cut_at total (wrap (page *ℤ page_size)) in
    slice entries start (cut_at total (wrap (start +ℤ page_size)))

module _ {F : Type 0} where
  unfoldable pub breaker_name : List (Bytes × Composite F) → RouteConfig F → Bytes
  breaker_name bs r = elim (lookup r.backend bs) [
    | none ↦ bytes "unknown"
    | some b ↦ bytes (state_name (inner_state b))
  ]

  unfoldable pub route_status : List (Bytes × Composite F) → RouteConfig F → RouteStatus
  route_status bs r = record {
    path_prefix = r.path_prefix;
    backend = r.backend;
    methods = r.methods;
    auth_required = r.auth_required;
    timeout_ms = r.timeout_ms;
    circuit_breaker_state = breaker_name bs r;
  }

  -- The copy that is shown.
  unfoldable pub redacted : Config F → Config F
  redacted cfg =
      if same_bytes cfg.auth.jwt_secret []
      then cfg
      else record cfg { auth = record (cfg.auth) { jwt_secret = bytes "***" } }

module _ {F Ip Cidr : Type 0} (parse_ip : Bytes → Option Ip) (contains : Cidr → Ip → Bool)
    (split_host_port : Bytes → Option Bytes) (encode : Payload F → Option Bytes) where
  -- A value that cannot be encoded leaves the body empty.
  unfoldable pub write_value : (status : ℕ) → Payload F → List Call
  write_value status v =
      sets_header (bytes "Content-Type") (bytes "application/json")
      ∷ writes_header status
      ∷ (elim (encode v) [ none ↦ [] | some b ↦ writes b ∷ [] ])

  -- The calls of a handler on its writer, or none for a panic.
  unfoldable pub handle : Handler F Cidr → Endpoint → AdminRequest → Option (List Call)
  handle h routes_endpoint r =
      some (write_value 200 (routes_value (map (route_status h.breakers) h.routes)))
  handle h config_endpoint r = some (write_value 200 (config_value (redacted h.current)))
  handle h limiters_endpoint r =
      let entries = snapshot h.limiter.table in
      elim (paged entries (page_of r) (page_size_of r)) [
        | none ↦ none
        | some shown ↦
            some (write_value 200 (limiters_value shown (pos (length entries)) (page_of r)))
      ]

  unfoldable pub is_allowed : List Cidr → Bytes → Bool
  is_allowed nets ip = is_trusted parse_ip contains split_host_port nets ip

  unfoldable pub guarded : Handler F Cidr → Endpoint → AdminRequest → Option (List Call)
  guarded h e r =
      if not (same_bytes r.method (bytes "GET"))
      then some (write_value 405 (error_value (bytes "Method Not Allowed")))
      else if not (
          is_allowed h.allowed_nets
            (extract_ip parse_ip contains split_host_port h.allowed_nets r.remote_addr))
      then some (write_value 403 (error_value (bytes "Forbidden")))
      else handle h e r
