-- ===== src/Config/Samples.antt =====
-- A configuration with nothing set, for the examples.
use gateway_core.Base.{ℕ, false, [], none}
use gateway_core.Base.Int.{pos}
use gateway_core.Config.Types.{Config}

abbrev pub empty_config : Config ℕ
empty_config = record {
  server = record {
    port = pos 0;
    read_timeout = pos 0;
    write_timeout = pos 0;
    shutdown_timeout = pos 0;
    trusted_proxies = [];
    max_body_bytes = pos 0;
    global_timeout_ms = pos 0;
    tls = record { enabled = false; cert_file = []; key_file = []; min_version = [] };
  };
  metrics = record { enabled = none; path = [] };
  logging = record {
    output = [];
    max_size_mb = pos 0;
    max_backups = pos 0;
    max_age_days = pos 0;
    body_logging = false;
    max_body_log_bytes = pos 0;
  };
  rate_limit = record {
    requests_per_second = 0;
    burst_size = pos 0;
    idle_ttl = pos 0;
    cleanup_interval = pos 0;
  };
  auth = record { enabled = false; jwt_secret = []; issuer = []; audience = []; scopes = [] };
  circuit_breaker = record {
    window_size = pos 0;
    failure_threshold = 0;
    reset_timeout = pos 0;
    half_open_max = pos 0;
    slow_threshold = pos 0;
    max_concurrent = pos 1;
    is_adaptive = false;
    latency_ceiling = pos 0;
    min_threshold = 0;
  };
  admin = record { enabled = false; ip_allowlist = [] };
  routes = [];
  warnings = [];
}
