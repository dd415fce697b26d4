-- ===== src/Config/Validate/Sections.antt =====
-- Which sections of a configuration `validate` accepts.
use gateway_core.Base.{
  ℕ, suc, ◌≡◌, ◌≢◌, refl, ◌⊎◌, ◌↔◌, inl, inr, Bool, true, false, List, [], ◌∷◌, ◌++◌, Option, none,
  some, arith, Bool-cases, All,
}
use gateway_core.Base.Int.{pos, ◌≤ℤ◌}
use gateway_core.Base.Float.{Float}
use gateway_core.Base.Bytes.{Bytes, bytes, same_bytes_iff}
use gateway_core.Config.Types.{
  ServerConfig, TlsConfig, LoggingConfig, AdminConfig, RateLimitConfig, AuthConfig,
  CircuitBreakerConfig, ConnectionPoolConfig,
}
use gateway_core.Config.Validate.{
  first_fault, or_else, server_checks, timeout_checks, auth_checks, tls_checks, logging_checks,
  rate_limit_checks, circuit_breaker_checks, pool_checks, network_fault, admin_fault,
}

abbrev pub IsClear : {E : Type 0} → List (Bool × E) → Type 0
IsClear cs = All (λ c. c.0 ≡ false) cs

pub first_fault_iff : {E : Type 0} (cs : List (Bool × E)) → (first_fault cs ≡ none) ↔ IsClear cs
unfolding first_fault
first_fault_iff [] = (λ h. _, λ h. refl)
first_fault_iff ((true, e) ∷ cs) = (λ h. cc, λ h. cc)
first_fault_iff ((false, e) ∷ cs) =
    let (to, from) = first_fault_iff cs in (λ h. (refl, to h), λ h. from h.1)

pub or_else_iff : {E : Type 0} (a b : Option E) → (or_else a b ≡ none) ↔ ((a ≡ none) × (b ≡ none))
unfolding or_else
or_else_iff none b = (λ h. (refl, h), λ h. h.1)
or_else_iff (some e) b = (λ h. cc, λ h. cc)

-- Checks in a row, each part with what it stands for.
pub IsClear-append :
    {E A B : Type 0} (xs ys : List (Bool × E))
    → IsClear xs ↔ A
    → IsClear ys ↔ B
    → IsClear (xs ++ ys) ↔ (A × B)
IsClear-append [] ys (f, g) (h, k) = (λ c. (f _, h c), λ (a, b). k b)
IsClear-append {E} {A} {B} ((t, e) ∷ xs) ys (f, g) (h, k) =
    let (to, from) = IsClear-append {A = IsClear xs} {B = B} xs ys (λ c. c, λ c. c) (h, k) in
    (λ c. let (l, b) = to c.1 in (f (c.0, l), b), λ (a, b). ((g a).0, from ((g a).1, b)))

abbrev pub IsValidServer : ServerConfig → Type 0
IsValidServer s = (pos 1 ≤ℤ s.port) × (s.port ≤ℤ pos 65535) × (pos 0 ≤ℤ s.max_body_bytes)

abbrev pub IsValidAuth : AuthConfig → Type 0
IsValidAuth a = a.enabled ≡ true → (a.jwt_secret ≢ []) × (a.issuer ≢ []) × (a.audience ≢ [])

abbrev pub IsValidTls : TlsConfig → Type 0
IsValidTls t =
    t.enabled ≡ true
    → (t.cert_file ≢ [])
      × (t.key_file ≢ [])
      × ((t.min_version ≡ bytes "1.2") ⊎ (t.min_version ≡ bytes "1.3"))

abbrev pub IsValidLogging : LoggingConfig → Type 0
IsValidLogging l =
    ((l.output ≢ bytes "stdout" → l.output ≢ bytes "stderr" → pos 1 ≤ℤ l.max_size_mb))
    × (l.body_logging ≡ true → pos 1 ≤ℤ l.max_body_log_bytes)

abbrev pub IsValidPool : Option ConnectionPoolConfig → Type 0
IsValidPool none = Unit
IsValidPool (some p) =
    (pos 0 ≤ℤ p.max_idle_conns) × (pos 0 ≤ℤ p.max_idle_per_host) × (pos 0 ≤ℤ p.idle_timeout)

pub server_iff : (s : ServerConfig) → IsClear (server_checks s) ↔ IsValidServer s
server_iff s = (λ h. (ground arith, ground arith, ground arith), λ h. ground arith)

pub timeout_iff : (s : ServerConfig) → IsClear (timeout_checks s) ↔ (pos 0 ≤ℤ s.global_timeout_ms)
timeout_iff s = (λ h. ground arith, λ h. ground arith)

pub auth_iff : (a : AuthConfig) → IsClear (auth_checks a) ↔ IsValidAuth a
auth_iff a =
    let secret = same_bytes_iff a.jwt_secret [] in
    let issuer = same_bytes_iff a.issuer [] in
    let audience = same_bytes_iff a.audience [] in
    (λ h e. (λ p. ground arith, λ p. ground arith, λ p. ground arith), λ h. ground arith)

pub tls_iff : (t : TlsConfig) → IsClear (tls_checks t) ↔ IsValidTls t
tls_iff t =
    let cert = same_bytes_iff t.cert_file [] in
    let key = same_bytes_iff t.key_file [] in
    let old = same_bytes_iff t.min_version (bytes "1.2") in
    let new = same_bytes_iff t.min_version (bytes "1.3") in (λ h e. ground arith, λ h. ground arith)

pub logging_iff : (l : LoggingConfig) → IsClear (logging_checks l) ↔ IsValidLogging l
logging_iff l =
    let out = same_bytes_iff l.output (bytes "stdout") in
    let err = same_bytes_iff l.output (bytes "stderr") in
    (λ h. (λ p q. ground arith, λ e. ground arith), λ h. ground arith)

pub pool_iff : (p : Option ConnectionPoolConfig) → IsClear (pool_checks p) ↔ IsValidPool p
pool_iff none = (λ h. _, λ h. _)
pool_iff (some p) = (λ h. ground arith, λ h. ground arith)

abbrev pub IsValidAdmin : (Bytes → Bool) → AdminConfig → Type 0
IsValidAdmin parse_cidr a =
    a.enabled ≡ true → (a.ip_allowlist ≢ []) × All (λ c. parse_cidr c ≡ true) a.ip_allowlist

network_fault_iff :
    (parse_cidr : Bytes → Bool) (i : ℕ) (cs : List Bytes)
    → (network_fault parse_cidr i cs ≡ none) ↔ All (λ c. parse_cidr c ≡ true) cs
unfolding network_fault
network_fault_iff parse_cidr i [] = (λ h. _, λ h. refl)
network_fault_iff parse_cidr i (c ∷ cs) =
    let (to, from) = network_fault_iff parse_cidr (suc i) cs in
    elim (Bool-cases (parse_cidr c)) [
      | inl e ↦ (λ h. (e, to (rw (e, network_fault) at h)), λ h. rw (e, network_fault) (from h.1))
      | inr e ↦ (λ h. cc (rw (e, network_fault) at h), λ h. cc (h.0))
    ]

admin_cases :
    (parse_cidr : Bytes → Bool) (a : AdminConfig) (cs : List Bytes)
    → a.ip_allowlist ≡ cs
    → (admin_fault parse_cidr a ≡ none) ↔ IsValidAdmin parse_cidr a
unfolding admin_fault
admin_cases parse_cidr a [] e = elim (Bool-cases a.enabled) [
  | inl t ↦ (λ h. cc (rw (e, t, admin_fault) at h), λ h. absurd ((h t).0 e))
  | inr t ↦ (λ h k. cc, λ h. rw (e, t, admin_fault) refl)
]
admin_cases parse_cidr a (c ∷ cs) e =
    let (to, from) = network_fault_iff parse_cidr 0 (c ∷ cs) in
    elim (Bool-cases a.enabled) [
      | inl t ↦ (
        λ h k. (λ n. cc, rw e (to (rw (e, t, admin_fault) at h))),
        λ h. rw (e, t, admin_fault) (from (rw e at (h t).1)),
      )
      | inr t ↦ (λ h k. cc, λ h. rw (e, t, admin_fault) refl)
    ]

pub admin_fault_iff :
    (parse_cidr : Bytes → Bool) (a : AdminConfig)
    → (admin_fault parse_cidr a ≡ none) ↔ IsValidAdmin parse_cidr a
admin_fault_iff parse_cidr a = admin_cases parse_cidr a a.ip_allowlist refl

module _ {F : Type 0} ⦃fl : Float F⦄ where
  abbrev pub IsValidRateLimit : RateLimitConfig F → Type 0
  IsValidRateLimit l =
      (fl.at_most l.requests_per_second (fl.of_ℤ (pos 0)) ≡ false)
      × (pos 1 ≤ℤ l.burst_size)
      × (pos 0 ≤ℤ l.idle_ttl)
      × (pos 0 ≤ℤ l.cleanup_interval)

  abbrev pub IsValidCircuitBreaker : CircuitBreakerConfig F → Type 0
  IsValidCircuitBreaker cb =
      (pos 1 ≤ℤ cb.window_size)
      × (fl.at_most cb.failure_threshold (fl.of_ℤ (pos 0)) ≡ false)
      × (fl.less (fl.of_ℤ (pos 1)) cb.failure_threshold ≡ false)
      × (pos 1 ≤ℤ cb.reset_timeout)
      × (pos 1 ≤ℤ cb.half_open_max)
      × (pos 0 ≤ℤ cb.slow_threshold)
      × (pos 0 ≤ℤ cb.max_concurrent)
      × (cb.is_adaptive ≡ true
          → (fl.at_most cb.min_threshold (fl.of_ℤ (pos 0)) ≡ false)
            × (fl.at_most cb.failure_threshold cb.min_threshold ≡ false)
            × (pos 1 ≤ℤ cb.latency_ceiling))

  pub rate_limit_iff : (l : RateLimitConfig F) → IsClear (rate_limit_checks l) ↔ IsValidRateLimit l
  rate_limit_iff l = (λ h. ground arith, λ h. ground arith)

  pub circuit_breaker_iff :
      (cb : CircuitBreakerConfig F) → IsClear (circuit_breaker_checks cb) ↔ IsValidCircuitBreaker cb
  circuit_breaker_iff cb = (λ h. ground arith, λ h. ground arith)
