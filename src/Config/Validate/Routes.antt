-- ===== src/Config/Validate/Routes.antt =====
-- Which routes `validate` accepts.
use mathlib.Core.Option.{some-injective}
use gateway_core.Base.{
  ℕ, suc, ◌≡◌, ◌≢◌, refl, sym, ◌∙◌, subst, ◌⊎◌, ◌↔◌, inl, inr, true, false, List, [], ◌∷◌, Option,
  none, some, arith, Option-cases, Bool-cases, All,
}
use gateway_core.Base.Int.{ℤ, pos, negsuc, ◌≤ℤ◌, same_ℤ}
use gateway_core.Base.Bytes.{Bytes, bytes, same_bytes, same_bytes_iff, has_prefix}
use gateway_core.Http.{Url}
use gateway_core.Config.Types.{RouteConfig}
use gateway_core.Config.Validate.{
  first_fault, valid_log_level, url_checks, place_checks, rest_checks, is_seen, backend_fault,
  route_fault, routes_fault,
}
use gateway_core.Config.Validate.Sections.{
  IsClear, first_fault_iff, or_else_iff, IsValidPool, pool_iff,
}

-- An absolute URL of one of the two schemes.
abbrev pub IsWebUrl : Url → Type 0
IsWebUrl u = ((u.scheme ≡ bytes "http") ⊎ (u.scheme ≡ bytes "https")) × (u.host ≢ [])

abbrev pub IsBackend : (Bytes → Option Url) → Bytes → Type 0
IsBackend parse b = (u : Url) × (parse b ≡ some u) × IsWebUrl u

module _ {F : Type 0} where
  abbrev pub IsValidRoute : (Bytes → Option Url) → RouteConfig F → Type 0
  IsValidRoute parse r =
      (has_prefix r.path_prefix (bytes "/") ≡ true)
      × (r.backend ≢ [])
      × IsBackend parse r.backend
      × (valid_log_level r.log_level ≡ true)
      × (r.fallback_status ≢ pos 0
          → (pos 200 ≤ℤ r.fallback_status) × (r.fallback_status ≤ℤ pos 599))
      × IsValidPool r.connection_pool

  -- No two routes have the same prefix.
  abbrev pub AreDistinct : List (RouteConfig F) → Type 0
  AreDistinct [] = Unit
  AreDistinct (r ∷ rs) = All (λ q. r.path_prefix ≢ q.path_prefix) rs × AreDistinct rs

same_zero_iff : (n : ℤ) → (same_ℤ n (pos 0) ≡ true) ↔ (n ≡ pos 0)
same_zero_iff (pos n) = (λ h. ground arith, λ h. ground arith)
same_zero_iff (negsuc n) = (λ h. ground arith, λ h. cc)

slash_not_blank : (s : Bytes) → has_prefix s (bytes "/") ≡ true → same_bytes s [] ≡ false
slash_not_blank [] h = cc
slash_not_blank (x ∷ s) h = refl

is_seen_iff : (s : Bytes) (xs : List Bytes) → (is_seen s xs ≡ false) ↔ All (λ x. x ≢ s) xs
unfolding is_seen
is_seen_iff s [] = (λ h. _, λ h. refl)
is_seen_iff s (x ∷ xs) =
    let (to, from) = is_seen_iff s xs in
    let same = same_bytes_iff x s in
    elim (Bool-cases (same_bytes x s)) [
      | inl e ↦ (λ h. cc (rw (e, is_seen) at h), λ h. absurd (h.0 (same.0 e)))
      | inr e ↦ (
        λ h. (λ q. cc (sym e ∙ same.1 q), to (rw (e, is_seen) at h)),
        λ h. rw (e, is_seen) (from h.1),
      )
    ]

url_iff : (u : Url) → IsClear (url_checks u) ↔ IsWebUrl u
url_iff u =
    let web = same_bytes_iff u.scheme (bytes "http") in
    let tls = same_bytes_iff u.scheme (bytes "https") in
    let host = same_bytes_iff u.host [] in (λ h. ground arith, λ h. ground arith)

backend_fault_iff :
    (parse : Bytes → Option Url) (b : Bytes) → (backend_fault parse b ≡ none) ↔ IsBackend parse b
unfolding backend_fault
backend_fault_iff parse b = elim (Option-cases (parse b)) [
  | inl e ↦ (λ h. cc (rw (e, backend_fault) at h), λ h. cc (sym e ∙ h.1))
  | inr (u, e) ↦
      let (to, from) = first_fault_iff (url_checks u) in
      let (good, clear) = url_iff u in
      (
        λ h. (u, e, good (to (rw (e, backend_fault) at h))),
        λ h.
            let same : h.0 ≡ u = some-injective h.0 u (sym h.1 ∙ e) in
            rw (e, backend_fault) (from (clear (subst IsWebUrl same h.2))),
      )
]

module _ {F : Type 0} where
  place_iff :
      (r : RouteConfig F)
      → IsClear (place_checks r)
        ↔ ((has_prefix r.path_prefix (bytes "/") ≡ true) × (r.backend ≢ []))
  place_iff r =
      let filled = slash_not_blank r.path_prefix in
      let backend = same_bytes_iff r.backend [] in (λ h. ground arith, λ h. ground arith)

  abbrev IsValidRest : List Bytes → RouteConfig F → Type 0
  IsValidRest seen r =
      All (λ x. x ≢ r.path_prefix) seen
      × (valid_log_level r.log_level ≡ true)
      × (r.fallback_status ≢ pos 0
          → (pos 200 ≤ℤ r.fallback_status) × (r.fallback_status ≤ℤ pos 599))
      × IsValidPool r.connection_pool

  rest_iff :
      (seen : List Bytes) (r : RouteConfig F) → IsClear (rest_checks seen r) ↔ IsValidRest seen r
  rest_iff seen r =
      let (new, fresh) = is_seen_iff r.path_prefix seen in
      let (pool, clear) = pool_iff r.connection_pool in
      let zero_status = same_zero_iff r.fallback_status in
      (
        λ h. (new h.0, ground arith, λ n. ground arith, pool h.1.1.1),
        λ h. (fresh h.0, (ground arith, (ground arith, clear h.3))),
      )

  route_fault_iff :
      (parse : Bytes → Option Url) (seen : List Bytes) (r : RouteConfig F)
      → (route_fault parse seen r ≡ none)
        ↔ (All (λ x. x ≢ r.path_prefix) seen × IsValidRoute parse r)
  unfolding route_fault
  route_fault_iff parse seen r =
      let (parts, whole) = or_else_iff (first_fault (place_checks r)) _ in
      let (parts', whole') =
        or_else_iff (backend_fault parse r.backend) (first_fault (rest_checks seen r)) in
      let (at, from_at) = first_fault_iff (place_checks r) in
      let (rest, from_rest) = first_fault_iff (rest_checks seen r) in
      let (url, from_url) = backend_fault_iff parse r.backend in
      let (place, clear) = place_iff r in
      let (left, clear') = rest_iff seen r in
      (
        λ h.
            let (p, q) = parts h in
            let (b, l) = parts' q in
            let (slash, named) = place (at p) in
            let (new, level, status, pool) = left (rest l) in
            (new, (slash, named, url b, level, status, pool)),
        λ (new, (slash, named, b, level, status, pool)). whole (
          from_at (clear (slash, named)),
          whole' (from_url b, from_rest (clear' (new, level, status, pool))),
        ),
      )

  -- The routes from one on, with the prefixes of those before it.
  abbrev AreNew : List Bytes → List (RouteConfig F) → Type 0
  AreNew seen rs = All (λ r. All (λ x. x ≢ r.path_prefix) seen) rs

  AreNew-cons :
      (p : Bytes) (seen : List Bytes) (rs : List (RouteConfig F))
      → AreNew (p ∷ seen) rs ↔ (All (λ q. p ≢ q.path_prefix) rs × AreNew seen rs)
  AreNew-cons p seen [] = (λ h. _, λ h. _)
  AreNew-cons p seen (r ∷ rs) =
      let (to, from) = AreNew-cons p seen rs in
      (
        λ h. let (k, l) = to h.1 in ((h.0.0, k), (h.0.1, l)),
        λ h. ((h.0.0, h.1.0), from (h.0.1, h.1.1)),
      )

  AreNew-nil : (rs : List (RouteConfig F)) → AreNew [] rs
  AreNew-nil [] = _
  AreNew-nil (r ∷ rs) = (_, AreNew-nil rs)

  routes_fault_iff :
      (parse : Bytes → Option Url) (i : ℕ) (seen : List Bytes) (rs : List (RouteConfig F))
      → (routes_fault parse i seen rs ≡ none)
        ↔ (AreNew seen rs × All (IsValidRoute parse) rs × AreDistinct rs)
  unfolding routes_fault
  routes_fault_iff parse i seen [] = (λ h. (_, _, _), λ h. refl)
  routes_fault_iff parse i seen (r ∷ rs) =
      let (good, clear) = route_fault_iff parse seen r in
      let (to, from) = routes_fault_iff parse (suc i) (r.path_prefix ∷ seen) rs in
      let (split, join) = AreNew-cons r.path_prefix seen rs in
      elim (Option-cases (route_fault parse seen r)) [
        | inl e ↦ (
          λ h.
              let (new, valid) = good e in
              let (later, rest, distinct) = to (rw (e, routes_fault) at h) in
              let (other, old) = split later in ((new, old), (valid, rest), (other, distinct)),
          λ (new, valid, distinct).
              rw (e, routes_fault) (from (join (distinct.0, new.1), valid.1, distinct.1)),
        )
        | inr (f, e) ↦ (
          λ h. cc (rw (e, routes_fault) at h),
          λ (new, valid, distinct). cc (sym e ∙ clear (new.0, valid.0)),
        )
      ]

  pub routes_iff :
      (parse : Bytes → Option Url) (rs : List (RouteConfig F))
      → (routes_fault parse 0 [] rs ≡ none) ↔ (All (IsValidRoute parse) rs × AreDistinct rs)
  routes_iff parse rs =
      let (to, from) = routes_fault_iff parse 0 [] rs in
      (
        λ h. let (new, valid, distinct) = to h in (valid, distinct),
        λ h. from (AreNew-nil rs, h.0, h.1),
      )
