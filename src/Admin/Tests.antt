-- ===== src/Admin/Tests.antt =====
-- The admin endpoints at concrete inputs, and each theorem at one. Two clients are tracked.
use gateway_core.Base.{
  ℕ, ◌*◌, ◌%◌, ◌^◌, ◌<◌, ◌≤◌, ◌≡◌, ◌≢◌, refl, Bool, false, [], ◌∷◌, Option, none, some, length,
  take, drop, if◌then◌else◌, ◌==◌, map,
}
use gateway_core.Base.Int.{pos, wrap, ◌+ℤ◌, ◌*ℤ◌}
use gateway_core.Base.Bytes.{Bytes, bytes, same_bytes}
use gateway_core.RateLimit.Limiter.{ClientKey}
use gateway_core.RateLimit.Table.Evict.{snapshot, snapshot_entries}
use gateway_core.RateLimit.ClientIp.{trim_space}
use gateway_core.Config.Samples.{empty_config}
use gateway_core.Admin.{
  AdminRequest, Handler, Payload, error_value, config_value, limiters_value, limiters_endpoint,
  config_endpoint, page_of, page_size_of, parse_int, handle, guarded, write_value, parse_digits,
  paged, slice, cut_at,
}
use gateway_core.Admin.Pages.{limiters_page}
use gateway_core.Admin.Access.{guarded-Admitted, guarded-with_secret, with_secret, Admitted}

abbrev asked : (page : Bytes) → AdminRequest
asked page = record {
  method = bytes "GET";
  remote_addr = bytes "::1";
  query = λ k. if same_bytes k (bytes "page") then page else [];
}

-- A page so far out that an int64 does not hold its first entry.
far_page : page_of (asked (bytes "92233720368547760")) ≡ pos 92233720368547760
unfolding page_of parse_int parse_digits trim_space wrap ◌+ℤ◌ ◌*ℤ◌
far_page = refl

abbrev client : Bytes → ClientKey ℕ
client ip = record { ip = ip; rate = 10; burst = pos 20 }

-- Addresses are texts of three characters, and networks their first characters.
abbrev admin : Handler ℕ ℕ
admin = record {
  current = empty_config;
  limiter = record {
    table = record {
      clients =
          (client (bytes "a"), record { limiter = 0; last_seen = 7 })
          ∷ (client (bytes "b"), record { limiter = 1; last_seen = 8 })
          ∷ [];
      idle_ttl = 600;
      new_limiter = 2;
    };
    rate = 10;
    burst = pos 20;
    routes = [];
    cleanup_interval = pos 60;
  };
  breakers = [];
  routes = [];
  allowed_nets = b':' ∷ [];
}

abbrev parse_ip : Bytes → Option Bytes
parse_ip s = if length s == 3 then some s else none

abbrev contains : ℕ → Bytes → Bool
contains n [] = false
contains n (c ∷ s) = n == c

abbrev no_port : Bytes → Option Bytes
no_port s = none

abbrev encode : Payload ℕ → Option Bytes
encode (limiters_value es total page) = some (map (λ e. e.1) es)
encode (config_value c) = some c.auth.jwt_secret
encode _ = none

abbrev far : AdminRequest
far = asked (bytes "92233720368547760")

-- The handler panics at the far page.
limiters_page_example :
    (p : ℕ) × ((k : ℕ) × (page_of far ≡ pos p)
      × (page_size_of far ≡ pos k)
      × (0 < k)
      × (k ≤ 1000)
      × ((p * k) % 2 ^ 64 < 2 ^ 63
          → handle parse_ip contains no_port encode admin limiters_endpoint far
            ≡ some (
                write_value parse_ip contains no_port encode 200 (
                  limiters_value
                    (take k (drop ((p * k) % 2 ^ 64) (snapshot admin.limiter.table)))
                    (pos (length (snapshot admin.limiter.table)))
                    (pos p))))
      × (2 ^ 63 ≤ (p * k) % 2 ^ 64
          → handle parse_ip contains no_port encode admin limiters_endpoint far ≡ none))
limiters_page_example = limiters_page parse_ip contains no_port encode admin far

far_page_panics : handle parse_ip contains no_port encode admin limiters_endpoint far ≡ none
unfolding handle paged slice cut_at snapshot snapshot_entries wrap ◌*ℤ◌ page_of parse_int
    parse_digits trim_space ◌+ℤ◌ page_size_of
far_page_panics = refl

guarded-with_secret_example :
    guarded parse_ip contains no_port encode
      (record admin { current = with_secret (bytes "s") empty_config })
      config_endpoint
      far
    ≡ guarded parse_ip contains no_port encode
        (record admin { current = with_secret (bytes "t") empty_config })
        config_endpoint
        far
guarded-with_secret_example =
    guarded-with_secret parse_ip contains no_port encode admin config_endpoint far (bytes "s")
      (bytes "t") (λ h. cc) (λ h. cc)

guarded-Admitted_example :
    (far.method ≡ bytes "GET"
      → Admitted parse_ip contains no_port encode admin.allowed_nets far
      → guarded parse_ip contains no_port encode admin config_endpoint far
        ≡ handle parse_ip contains no_port encode admin config_endpoint far)
    × (far.method ≡ bytes "GET"
        → ¬ Admitted parse_ip contains no_port encode admin.allowed_nets far
        → guarded parse_ip contains no_port encode admin config_endpoint far
          ≡ some
              (write_value parse_ip contains no_port encode 403 (error_value (bytes "Forbidden"))))
    × (far.method ≢ bytes "GET"
        → guarded parse_ip contains no_port encode admin config_endpoint far
          ≡ some (
              write_value parse_ip contains no_port encode 405
                (error_value (bytes "Method Not Allowed"))))
guarded-Admitted_example =
    guarded-Admitted parse_ip contains no_port encode admin config_endpoint far
