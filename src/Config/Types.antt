-- ===== src/Config/Types.antt =====
-- internal/config/config.go: the configuration's records. Integers and durations (nanoseconds) are
-- signed; the YAML tags are left out.
use gateway_core.Base.{Bool, Option, List}
use gateway_core.Base.Int.{ℤ}
use gateway_core.Base.Bytes.{Bytes}

pub record MetricsConfig : Type 0 where
  pub enabled : Option Bool
  pub path : Bytes

pub record TlsConfig : Type 0 where
  pub enabled : Bool
  pub cert_file : Bytes
  pub key_file : Bytes
  pub min_version : Bytes

pub record ServerConfig : Type 0 where
  pub port : ℤ
  pub read_timeout : ℤ
  pub write_timeout : ℤ
  pub shutdown_timeout : ℤ
  pub trusted_proxies : List Bytes
  pub max_body_bytes : ℤ
  pub global_timeout_ms : ℤ
  pub tls : TlsConfig

pub record LoggingConfig : Type 0 where
  pub output : Bytes
  pub max_size_mb : ℤ
  pub max_backups : ℤ
  pub max_age_days : ℤ
  pub body_logging : Bool
  pub max_body_log_bytes : ℤ

pub record AdminConfig : Type 0 where
  pub enabled : Bool
  pub ip_allowlist : List Bytes

pub record RateLimitConfig (F : Type 0) : Type 0 where
  pub requests_per_second : F
  pub burst_size : ℤ
  pub idle_ttl : ℤ
  pub cleanup_interval : ℤ

pub record AuthConfig : Type 0 where
  pub enabled : Bool
  pub jwt_secret : Bytes
  pub issuer : Bytes
  pub audience : Bytes
  pub scopes : List Bytes

pub record ConnectionPoolConfig : Type 0 where
  pub max_idle_conns : ℤ
  pub max_idle_per_host : ℤ
  pub idle_timeout : ℤ

pub record CircuitBreakerConfig (F : Type 0) : Type 0 where
  pub window_size : ℤ
  pub failure_threshold : F
  pub reset_timeout : ℤ
  pub half_open_max : ℤ
  pub slow_threshold : ℤ
  pub max_concurrent : ℤ
  pub is_adaptive : Bool
  pub latency_ceiling : ℤ
  pub min_threshold : F

pub record RouteConfig (F : Type 0) : Type 0 where
  pub path_prefix : Bytes
  pub backend : Bytes
  pub strip_prefix : Bool
  pub methods : List Bytes
  pub auth_required : Bool
  pub timeout_ms : ℤ
  pub retry_attempts : ℤ
  pub headers : List (Bytes × Bytes)
  pub rate_override : Option (RateLimitConfig F)
  pub connection_pool : Option ConnectionPoolConfig
  pub fallback_status : ℤ
  pub fallback_body : Bytes
  pub log_level : Bytes

pub record Config (F : Type 0) : Type 0 where
  pub server : ServerConfig
  pub metrics : MetricsConfig
  pub logging : LoggingConfig
  pub rate_limit : RateLimitConfig F
  pub auth : AuthConfig
  pub circuit_breaker : CircuitBreakerConfig F
  pub admin : AdminConfig
  pub routes : List (RouteConfig F)
  pub warnings : List Bytes
