-- ===== src/RateLimit/Limiter.antt =====
-- The limiter of internal/ratelimit/ratelimit.go as requests and reloads use it. Whether a token
-- bucket (`rate.Limiter`) lets a request through is a parameter, and so is the text of a float.
use gateway_core.Base.{ℕ, ◌*◌, ◌^◌, Bool, ◌&&◌, List, [], ◌∷◌, Option, none, some, if◌then◌else◌}
use gateway_core.Base.Int.{ℤ, pos, pos_part, same_ℤ, leb_ℤ}
use gateway_core.Base.Float.{Float}
use gateway_core.Base.Bytes.{Bytes, bytes, same_bytes}
use gateway_core.Config.Types.{RouteConfig, RateLimitConfig}
use gateway_core.Http.{Request, Call, sets_header}
use gateway_core.Http.Errors.{ErrorResponse, write_json, rate_limit_exceeded}
use gateway_core.RateLimit.Limits.{Limits, limits_for_path}
use gateway_core.RateLimit.Table.{Table, get_limiter}

pub record ClientKey (F : Type 0) : Type 0 where
  pub ip : Bytes
  pub rate : F
  pub burst : ℤ

pub record Limiter (F : Type 0) : Type 0 where
  pub table : Table (ClientKey F)
  pub rate : F
  pub burst : ℤ
  pub routes : List (RouteConfig F)
  pub cleanup_interval : ℤ

abbrev pub default_unless : ℤ → ℤ → ℤ
default_unless d n = if leb_ℤ n (pos 0) then d else n

module _ {F : Type 0} where
  -- `New`; `first_bucket` is an address that no bucket has.
  unfoldable pub new_limiter :
      RateLimitConfig F → List (RouteConfig F) → (first_bucket : ℕ) → Limiter F
  new_limiter cfg routes first_bucket = record {
    table = record {
      clients = [];
      idle_ttl = pos_part (default_unless (pos (600 * 10 ^ 9)) cfg.idle_ttl);
      new_limiter = first_bucket;
    };
    rate = cfg.requests_per_second;
    burst = cfg.burst_size;
    routes = routes;
    cleanup_interval = default_unless (pos (60 * 10 ^ 9)) cfg.cleanup_interval;
  }

  unfoldable pub update_limiter : RateLimitConfig F → List (RouteConfig F) → Limiter F → Limiter F
  update_limiter cfg routes l = record l {
    rate = cfg.requests_per_second;
    burst = cfg.burst_size;
    routes = routes;
    table = record (l.table) { clients = [] };
  }

module _ {F : Type 0} ⦃fl : Float F⦄ where
  abbrev pub same_key : ClientKey F → ClientKey F → Bool
  same_key a b = same_bytes a.ip b.ip && (fl.same a.rate b.rate && same_ℤ a.burst b.burst)

  -- The bucket that a request of a client is counted in, and the limits of its path.
  unfoldable pub bucket_of : (ip path : Bytes) → (now : ℕ) → Limiter F → Limiter F × ℕ × Limits F
  bucket_of ip path now l =
      let limits = limits_for_path l.routes l.rate l.burst path in
      let key : ClientKey F = record { ip = ip; rate = limits.rate; burst = limits.burst } in
      let (table, bucket) = get_limiter same_key key now l.table in
      (record l { table = table }, bucket, limits)

  module _ (allow : ℕ → Bool) (format : F → Bytes) (marshal : ErrorResponse → Bytes)
      (status_text : ℕ → Bytes) where
    -- The calls that turn a request away, or none where it goes on to the next handler.
    unfoldable pub limit :
        (ip : Bytes) → (now : ℕ) → Request → Limiter F → Limiter F × Option (List Call)
    limit ip now r l =
        let (l', bucket, limits) = bucket_of ip r.path now l in
        if allow bucket then (l', none) else (
          l',
          some (
              sets_header (bytes "Retry-After") (format (fl.div (fl.of_ℤ (pos 1)) limits.rate))
              ∷ write_json marshal status_text r 429 rate_limit_exceeded
                  (bytes "rate limit exceeded, retry later")),
        )
