-- ===== src/RateLimit/Limits.antt =====
-- `limitsForPath` of internal/ratelimit/ratelimit.go: one scan of the routes, in their order.
use gateway_core.Base.{ℕ, ◌&&◌, List, [], ◌∷◌, Option, none, some, ltb, if◌then◌else◌}
use gateway_core.Base.Int.{ℤ}
use gateway_core.Base.Bytes.{Bytes, bytes}
use gateway_core.Config.Types.{RouteConfig, RateLimitConfig}
use gateway_core.Routing.Select.{matches, prefix_length}

-- What the loop has found so far.
pub record Scan (F : Type 0) : Type 0 where
  pub best_override : Option (RateLimitConfig F)
  pub best_len : ℕ
  pub best_prefix : Bytes

-- A rate, a burst size, and the prefix that the metrics name.
pub record Limits (F : Type 0) : Type 0 where
  pub rate : F
  pub burst : ℤ
  pub route_prefix : Bytes

module _ {F : Type 0} where
  abbrev pub override_or :
      Option (RateLimitConfig F) → Option (RateLimitConfig F) → Option (RateLimitConfig F)
  override_or none old = old
  override_or (some o) old = some o

  unfoldable pub scan_route : Bytes → RouteConfig F → Scan F → Scan F
  scan_route path r s =
      if matches path r && ltb s.best_len (prefix_length r)
      then record {
        best_override = override_or r.rate_override s.best_override;
        best_len = prefix_length r;
        best_prefix = r.path_prefix;
      }
      else s

  unfoldable pub scan_routes : Bytes → List (RouteConfig F) → Scan F → Scan F
  scan_routes path [] s = s
  scan_routes path (r ∷ rs) s = scan_routes path rs (scan_route path r s)

  abbrev pub nothing_found : Scan F
  nothing_found = record { best_override = none; best_len = 0; best_prefix = bytes "unknown" }

  abbrev pub limits_of : Option (RateLimitConfig F) → F → ℤ → Bytes → Limits F
  limits_of none rate burst prefix = record { rate = rate; burst = burst; route_prefix = prefix }
  limits_of (some o) rate burst prefix = record {
    rate = o.requests_per_second;
    burst = o.burst_size;
    route_prefix = prefix;
  }

  -- With the limiter's routes, and its rate and burst where no route overrides them.
  unfoldable pub limits_for_path : List (RouteConfig F) → F → ℤ → Bytes → Limits F
  unfolding scan_routes
  limits_for_path routes rate burst path =
      let s = scan_routes path routes nothing_found in
      limits_of s.best_override rate burst s.best_prefix
