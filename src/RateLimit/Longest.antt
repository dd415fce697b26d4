-- ===== src/RateLimit/Longest.antt =====
-- The rate limiter and the router see the same longest route; and what the scan makes of overrides.
use mathlib.Core.List.{Mem, mem-cons, mem-cons_self, mem-cons_of_mem, not-mem-nil}
use mathlib.Core.Logic.Or
use native.Mathlib.Bridge.{le_prop}
use gateway_core.Base.{
  ◌≡◌, ◌↔◌, ◌⊎◌, inl, inr, refl, sym, ap, ◌∙◌, ◌≤◌, ◌<◌, true, List, [], ◌∷◌, arith, Option, none,
  some, Option-cases,
}
use gateway_core.Base.Int.{ℤ}
use gateway_core.Base.Bytes.{Bytes, bytes, has_prefix_unique}
use gateway_core.Config.Types.{RouteConfig, RateLimitConfig}
use gateway_core.Routing.Match.{prefix_of_matches}
use gateway_core.Routing.Select.{
  matches, prefix_length, match_route, IsDescending, IsLongest, match_route-some, match_route-none,
}
use gateway_core.RateLimit.Limits.{
  Scan, scan_route, scan_routes, nothing_found, limits_of, limits_for_path,
}

module _ {F : Type 0} where
  -- What is known of the routes `rs` once the scan that stood at `s` has passed them.
  record Scanned (path : Bytes) (rs : List (RouteConfig F)) (s t : Scan F) : Type 0 where
    grows : s.best_len ≤ t.best_len
    covers : (q : RouteConfig F) → Mem q rs → matches path q ≡ true → prefix_length q ≤ t.best_len
    source :
        (t ≡ s)
        ⊎ ((q : RouteConfig F) × Mem q rs
            × (matches path q ≡ true)
            × (t.best_prefix ≡ q.path_prefix)
            × (t.best_len ≡ prefix_length q))

  scan_route-grows :
      (path : Bytes) (r : RouteConfig F) (s : Scan F)
      → (s.best_len ≤ (scan_route path r s).best_len)
        × (matches path r ≡ true → prefix_length r ≤ (scan_route path r s).best_len)
  unfolding scan_route
  scan_route-grows path r s = (ground arith, λ h. ground arith)

  scan_route-source :
      (path : Bytes) (r : RouteConfig F) (s : Scan F)
      → (scan_route path r s ≡ s)
        ⊎ ((matches path r ≡ true)
            × ((scan_route path r s).best_prefix ≡ r.path_prefix)
            × ((scan_route path r s).best_len ≡ prefix_length r))
  unfolding scan_route
  scan_route-source path r s = ground arith

  scan_routes-Scanned :
      (path : Bytes) (rs : List (RouteConfig F)) (s : Scan F)
      → Scanned path rs s (scan_routes path rs s)
  unfolding scan_routes
  scan_routes-Scanned path [] s = record {
    grows = omega arith;
    covers = λ q m h. absurd (not-mem-nil m);
    source = inl refl;
  }
  scan_routes-Scanned path (r ∷ rs) s =
      let rest = scan_routes-Scanned path rs (scan_route path r s) in
      let (grows', covers') = scan_route-grows path r s in
      record {
        grows = omega (arith, rest.grows);
        covers = λ q m h.
            Or.elim le_prop (mem-cons.0 m)
              (λ e.
                omega
                  (arith, ap prefix_length e, covers' (sym (ap (matches path) e) ∙ h), rest.grows))
              (λ k. rest.covers q k h);
        source = elim rest.source [
          | inl e₂ ↦ elim (scan_route-source path r s) [
            | inl e₁ ↦ inl (e₂ ∙ e₁)
            | inr (hit, pre, len) ↦ inr (
              r,
              mem-cons_self,
              hit,
              ap (λ (x : Scan F). x.best_prefix) e₂ ∙ pre,
              ap (λ (x : Scan F). x.best_len) e₂ ∙ len,
            )
          ]
          | inr (q, m, hit, pre, len) ↦ inr (q, mem-cons_of_mem r m, hit, pre, len)
        ];
      }

  same_prefix :
      (path : Bytes) (q r : RouteConfig F)
      → matches path q ≡ true
      → matches path r ≡ true
      → prefix_length q ≡ prefix_length r
      → q.path_prefix ≡ r.path_prefix
  same_prefix path q r h k e =
      has_prefix_unique path q.path_prefix r.path_prefix (prefix_of_matches path q.path_prefix h).1
        (prefix_of_matches path r.path_prefix k).1 e

  prefix_of_limits :
      (o : Option (RateLimitConfig F)) (rate : F) (burst : ℤ) (prefix : Bytes)
      → (limits_of o rate burst prefix).route_prefix ≡ prefix
  prefix_of_limits none rate burst prefix = refl
  prefix_of_limits (some o) rate burst prefix = refl

  -- Let `sorted` hold the configured routes, longest prefixes first, as the router does. The scan of
  -- the rate limiter, over the routes in their configured order, then ends with the prefix of the
  -- route that the router chooses, and with "unknown" if the router finds none.
  pub limits_for_path-match_route :
      (routes sorted : List (RouteConfig F)) (rate : F) (burst : ℤ) (path : Bytes)
      → IsDescending sorted
      → ((r : RouteConfig F) → Mem r sorted ↔ Mem r routes)
      → (limits_for_path routes rate burst path).route_prefix
        ≡ elim (match_route path sorted) [ none ↦ bytes "unknown" | some r ↦ r.path_prefix ]
  unfolding limits_for_path
  limits_for_path-match_route routes sorted rate burst path d same =
      prefix_of_limits t.best_override rate burst t.best_prefix
      ∙ elim (Option-cases (match_route path sorted)) [
        | inl e ↦ rw e (unmatched e scan.source)
        | inr (r, e) ↦ rw e (matched r (match_route-some path sorted r d e) scan.source)
      ]
    where
      t : Scan F
      t = scan_routes path routes nothing_found

      scan : Scanned path routes nothing_found t
      scan = scan_routes-Scanned path routes nothing_found

      unmatched :
          match_route path sorted ≡ none
          → (t ≡ nothing_found)
            ⊎ ((q : RouteConfig F) × Mem q routes
                × (matches path q ≡ true)
                × (t.best_prefix ≡ q.path_prefix)
                × (t.best_len ≡ prefix_length q))
          → t.best_prefix ≡ bytes "unknown"
      unmatched e (inl u) = ap (λ (x : Scan F). x.best_prefix) u
      unmatched e (inr (q, m, hit, _, _)) =
          absurd (match_route-none path sorted e q ((same q).1 m) hit)

      matched :
          (r : RouteConfig F)
          → IsLongest path sorted r
          → (t ≡ nothing_found)
            ⊎ ((q : RouteConfig F) × Mem q routes
                × (matches path q ≡ true)
                × (t.best_prefix ≡ q.path_prefix)
                × (t.best_len ≡ prefix_length q))
          → t.best_prefix ≡ r.path_prefix
      matched r (m, hit, longest) (inl u) = absurd (
          omega (
            arith,
            ap (λ (x : Scan F). x.best_len) u,
            scan.covers r ((same r).0 m) hit,
            (prefix_of_matches path r.path_prefix hit).0,
          ))
      matched r (m, hit, longest) (inr (q, n, hit', pre, len)) =
          pre
          ∙ same_prefix path q r hit' hit
              (omega (arith, longest q ((same q).1 n) hit', scan.covers r ((same r).0 m) hit))

  -- Where two nested prefixes match and the shorter alone has an override, the limits depend on the
  -- order of the routes: with the shorter first its override applies to the longer route, with the
  -- longer first the global limits do. The prefix is that of the longer route in both.
  pub override_depends_on_order :
      (a b : RouteConfig F) (o : RateLimitConfig F) (rate : F) (burst : ℤ) (path : Bytes)
      → matches path a ≡ true
      → matches path b ≡ true
      → prefix_length a < prefix_length b
      → a.rate_override ≡ some o
      → b.rate_override ≡ none
      → (limits_for_path (a ∷ b ∷ []) rate burst path ≡ record {
        rate = o.requests_per_second;
        burst = o.burst_size;
        route_prefix = b.path_prefix;
      })
        × (limits_for_path (b ∷ a ∷ []) rate burst path
            ≡ record { rate = rate; burst = burst; route_prefix = b.path_prefix })
  unfolding limits_for_path scan_route
  override_depends_on_order a b o rate burst path ha hb longer ea eb =
      let p = (prefix_of_matches path a.path_prefix ha).0 in (ground arith, ground arith)
