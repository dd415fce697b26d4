-- ===== src/Config/Defaults.antt =====
-- `applyDefaults` of internal/config/config.go, section by section.
use gateway_core.Base.{ℕ, suc, ◌*◌, ◌/◌, ◌^◌, ◌&&◌, [], map, if◌then◌else◌}
use gateway_core.Base.Int.{ℤ, pos, negsuc, sub_ℕ, same_ℤ, ltb_ℤ, leb_ℤ}
use gateway_core.Base.Float.{Float}
use gateway_core.Base.Bytes.{Bytes, bytes, same_bytes}
use gateway_core.Config.Durations.{duration}
use gateway_core.Config.Types.{
  MetricsConfig, TlsConfig, ServerConfig, LoggingConfig, RateLimitConfig, CircuitBreakerConfig,
  RouteConfig, Config,
}

-- The value, or the default in place of zero or of the empty string.
abbrev pub zero_or : ℤ → ℤ → ℤ
zero_or d n = if same_ℤ n (pos 0) then d else n

abbrev pub blank_or : Bytes → Bytes → Bytes
blank_or d s = if same_bytes s [] then d else s

abbrev pub seconds : ℕ → ℤ
seconds n = pos (n * 10 ^ 9)

-- Go's division truncates towards zero.
abbrev pub quotient : ℤ → ℕ → ℤ
quotient (pos n) k = pos (n / k)
quotient (negsuc n) k = sub_ℕ 0 (suc n / k)

unfoldable pub metrics_defaults : MetricsConfig → MetricsConfig
metrics_defaults m = record m { path = blank_or (bytes "/metrics") m.path }

unfoldable pub tls_defaults : TlsConfig → TlsConfig
tls_defaults t = record t {
  min_version = if t.enabled then blank_or (bytes "1.2") t.min_version else t.min_version;
}

unfoldable pub server_defaults : ServerConfig → ServerConfig
server_defaults s = record s {
  port = zero_or (pos 8080) s.port;
  tls = tls_defaults s.tls;
  read_timeout = zero_or (seconds 15) s.read_timeout;
  write_timeout = zero_or (seconds 15) s.write_timeout;
  shutdown_timeout = zero_or (seconds 10) s.shutdown_timeout;
  max_body_bytes = zero_or (pos 1048576) s.max_body_bytes;
}

unfoldable pub logging_defaults : LoggingConfig → LoggingConfig
logging_defaults l = record l {
  output = blank_or (bytes "stdout") l.output;
  max_size_mb = zero_or (pos 100) l.max_size_mb;
  max_backups = zero_or (pos 3) l.max_backups;
  max_age_days = zero_or (pos 30) l.max_age_days;
  max_body_log_bytes = zero_or (pos 4096) l.max_body_log_bytes;
}

unfoldable pub cleanup_default : ℤ → ℤ
cleanup_default ttl =
    let interval = quotient ttl 10 in if ltb_ℤ interval (seconds 60) then seconds 60 else interval

module _ {F : Type 0} where
  unfoldable pub route_defaults : RouteConfig F → RouteConfig F
  route_defaults r = record r { timeout_ms = zero_or (pos 30000) r.timeout_ms }

module _ {F : Type 0} ⦃fl : Float F⦄ where
  abbrev pub float_or : F → F → F
  float_or d x = if fl.same x (fl.of_ℤ (pos 0)) then d else x

  -- Ten times the time in which a burst is refilled.
  unfoldable pub refill_window : F → ℤ → ℤ
  refill_window rate burst =
      duration (fl.to_ℤ (fl.mul (fl.div (fl.of_ℤ burst) rate) (fl.of_ℤ (seconds 1)))) 10

  unfoldable pub idle_ttl_default : F → ℤ → ℤ
  idle_ttl_default rate burst =
      let refill = refill_window rate burst in
      if fl.less (fl.of_ℤ (pos 0)) rate && ltb_ℤ (seconds 600) refill then refill else seconds 600

  unfoldable pub rate_limit_defaults : RateLimitConfig F → RateLimitConfig F
  rate_limit_defaults l =
      let rate = float_or (fl.of_ℤ (pos 100)) l.requests_per_second in
      let burst = zero_or (pos 50) l.burst_size in
      let ttl = if leb_ℤ l.idle_ttl (pos 0) then idle_ttl_default rate burst else l.idle_ttl in
      record {
        requests_per_second = rate;
        burst_size = burst;
        idle_ttl = ttl;
        cleanup_interval =
            if leb_ℤ l.cleanup_interval (pos 0) then cleanup_default ttl else l.cleanup_interval;
      }

  unfoldable pub circuit_breaker_defaults : CircuitBreakerConfig F → CircuitBreakerConfig F
  circuit_breaker_defaults cb = record cb {
    window_size = zero_or (pos 10) cb.window_size;
    failure_threshold = float_or (fl.literal 5 1) cb.failure_threshold;
    reset_timeout = zero_or (seconds 30) cb.reset_timeout;
    half_open_max = zero_or (pos 2) cb.half_open_max;
    latency_ceiling =
        if cb.is_adaptive then zero_or (seconds 2) cb.latency_ceiling else cb.latency_ceiling;
    min_threshold =
        if cb.is_adaptive then float_or (fl.literal 2 1) cb.min_threshold else cb.min_threshold;
  }

  unfoldable pub apply_defaults : Config F → Config F
  apply_defaults cfg = record cfg {
    metrics = metrics_defaults cfg.metrics;
    server = server_defaults cfg.server;
    logging = logging_defaults cfg.logging;
    rate_limit = rate_limit_defaults cfg.rate_limit;
    circuit_breaker = circuit_breaker_defaults cfg.circuit_breaker;
    routes = map route_defaults cfg.routes;
  }
