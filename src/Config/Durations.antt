-- ===== src/Config/Durations.antt =====
-- The timeouts of internal/config/config.go: milliseconds as Durations, which wrap around.
use gateway_core.Base.{ℕ, ◌+◌, ◌-◌, ◌*◌, ◌^◌, if◌then◌else◌}
use gateway_core.Base.Int.{ℤ, pos, wrap, leb_ℤ}
use gateway_core.Config.Types.{RouteConfig, ServerConfig}

-- `Duration(n) * unit`, wrapped.
unfoldable pub duration : ℤ → ℕ → ℤ
duration (pos n) unit = wrap (pos (n * unit))
duration (ℤ.negsuc n) unit = wrap (ℤ.negsuc ((n + 1) * unit - 1))

unfoldable pub route_timeout : {F : Type 0} → RouteConfig F → ℤ
route_timeout r =
    if leb_ℤ r.timeout_ms (pos 0) then pos (30 * 10 ^ 9) else duration r.timeout_ms (10 ^ 6)

unfoldable pub global_timeout : ServerConfig → ℤ
global_timeout s =
    if leb_ℤ s.global_timeout_ms (pos 0) then pos 0 else duration s.global_timeout_ms (10 ^ 6)
