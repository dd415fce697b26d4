-- ===== src/RateLimit/Tests.antt =====
-- Runs of the rate limiter and of the router at concrete inputs, and each theorem at one.
use gateway_core.Base.{
  ℕ, ◌≡◌, refl, sym, ◌∙◌, ◌↔◌, ◌⊎◌, true, false, [], ◌∷◌, ◌++◌, arith, Option, none, some, inr,
  ◌==◌, ==_iff, List,
}
use gateway_core.Base.Int.{pos}
use gateway_core.Base.Bytes.{Bytes, bytes}
use gateway_core.Config.Types.{RouteConfig, RateLimitConfig}
use gateway_core.Routing.Match.{matches_prefix, matches_prefix_iff, Covers}
use gateway_core.Routing.Select.{match_route}
use gateway_core.RateLimit.Limits.{limits_for_path}
use gateway_core.RateLimit.Longest.{limits_for_path-match_route}
use gateway_core.RateLimit.ClientIp.{
  client_ip, extract_ip, is_trusted, trim_space, trim_left, is_space,
}
use gateway_core.RateLimit.Table.{
  Table, get_limiter, find_client, delete_client, evict_batch, evict_keys, evict_key, found_bucket,
  look_up, refresh, insert, follow,
}
use gateway_core.RateLimit.Table.Sections.{
  Section, probes, inserts, refreshes, run_sections, sections_share,
}
use gateway_core.RateLimit.Table.Idle.{
  Event, calls, evicts, run_events, Sees, refreshed, get_limiter_stable,
}
use gateway_core.RateLimit.Forwarded.{client_ip_unforgeable}

matches_prefix_iff_example :
    (matches_prefix (bytes "/api/users") (bytes "/api") ≡ true)
    ↔ Covers (bytes "/api") (bytes "/api/users")
matches_prefix_iff_example = matches_prefix_iff (bytes "/api/users") (bytes "/api")

abbrev route : Bytes → Option (RateLimitConfig ℕ) → RouteConfig ℕ
route p o = record {
  path_prefix = p;
  backend = bytes "http://backend";
  strip_prefix = false;
  methods = [];
  auth_required = false;
  timeout_ms = pos 0;
  retry_attempts = pos 0;
  headers = [];
  rate_override = o;
  connection_pool = none;
  fallback_status = pos 0;
  fallback_body = [];
  log_level = [];
}

abbrev slow : RateLimitConfig ℕ
slow = record {
  requests_per_second = 1;
  burst_size = pos 2;
  idle_ttl = pos 0;
  cleanup_interval = pos 0;
}

abbrev api : RouteConfig ℕ
api = route (bytes "/api") (some slow)

abbrev users : RouteConfig ℕ
users = route (bytes "/api/users") none

users_route : match_route (bytes "/api/users/7") (users ∷ api ∷ []) ≡ some users
unfolding match_route matches_prefix
users_route = refl

limits_for_path-match_route_example :
    (limits_for_path (users ∷ api ∷ []) 100 (pos 50) (bytes "/api/users/7")).route_prefix
    ≡ elim (match_route (bytes "/api/users/7") (users ∷ api ∷ [])) [
      | none ↦ bytes "unknown"
      | some r ↦ r.path_prefix
    ]
limits_for_path-match_route_example =
    limits_for_path-match_route (users ∷ api ∷ []) (users ∷ api ∷ []) 100 (pos 50)
      (bytes "/api/users/7") ((omega arith, tt), (tt, tt)) (λ r. (λ m. m, λ m. m))

-- Addresses are their first byte, a network holds one of them, and an address is its own host.
abbrev first_byte : Bytes → Option ℕ
first_byte [] = none
first_byte (c ∷ s) = some c

abbrev client_of : Bytes → Bytes → Bytes
client_of = client_ip first_byte ◌==◌ (λ s. some s) (b'p' ∷ [])

client_trimmed : trim_space (bytes "client") ≡ bytes "client"
unfolding trim_space trim_left is_space
client_trimmed = refl

peer_is_trusted :
    is_trusted first_byte ◌==◌
      (λ s. some s)
      (b'p' ∷ [])
      (extract_ip first_byte ◌==◌ (λ s. some s) (b'p' ∷ []) (bytes "p1"))
    ≡ true
unfolding is_trusted extract_ip
peer_is_trusted = refl

client_is_foreign :
    is_trusted first_byte ◌==◌ (λ s. some s) (b'p' ∷ []) (trim_space (bytes "client")) ≡ false
unfolding is_trusted trim_space trim_left is_space
client_is_foreign = refl

proxy_is_passed :
    (trim_space (bytes " p2") ≡ [])
    ⊎ (is_trusted first_byte ◌==◌ (λ s. some s) (b'p' ∷ []) (trim_space (bytes " p2")) ≡ true)
unfolding is_trusted trim_space trim_left is_space
proxy_is_passed = inr refl

stranger :
    is_trusted first_byte ◌==◌
      (λ s. some s)
      (b'p' ∷ [])
      (extract_ip first_byte ◌==◌ (λ s. some s) (b'p' ∷ []) (bytes "x1"))
    ≡ false
unfolding is_trusted extract_ip
stranger = refl

client_ip_unforgeable_example :
    client_of (bytes "p1") (bytes "spoof" ++ b',' ∷ (bytes "client" ++ b',' ∷ (bytes " p2" ++ [])))
    ≡ trim_space (bytes "client")
client_ip_unforgeable_example =
    client_ip_unforgeable first_byte ◌==◌ (λ s. some s) (b'p' ∷ []) (bytes "p1") (bytes "spoof")
      (bytes "client") (bytes " p2" ∷ []) (λ e. cc) peer_is_trusted (omega arith) (omega arith, tt)
      (proxy_is_passed, tt) (λ e. cc (sym client_trimmed ∙ e)) client_is_foreign

abbrev natural : (j k : ℕ) → ((j == k) ≡ true) ↔ (j ≡ k)
natural = ==_iff

-- Keys are numbers; the client 7 was last seen at 0, and the TTL is 100.
abbrev one_client : Table ℕ
one_client = record {
  clients = (7, record { limiter = 3; last_seen = 0 }) ∷ [];
  idle_ttl = 100;
  new_limiter = 4;
}

abbrev meanwhile : List (Event ℕ)
meanwhile =
    calls (inserts 8 210)
    ∷ evicts 230 (8 ∷ 7 ∷ [])
    ∷ calls (refreshes 7 3 235)
    ∷ calls (probes 9 240)
    ∷ []

-- The client 7 calls at 200, and its refresh finds it still in the table.
refreshed_client : Sees ◌==◌ 7 3 200 one_client (refresh ◌==◌ 7 3 200 one_client)
unfolding look_up find_client
refreshed_client = refreshed refl refl

get_limiter_stable_example :
    ((done : ℕ) (u : Table ℕ)
      → (follow ◌==◌ 7 done
          (look_up ◌==◌ 7 260 (run_events ◌==◌ meanwhile (refresh ◌==◌ 7 3 200 one_client)))
          u).1
        ≡ 3)
    × ((insert ◌==◌ 7 260 (run_events ◌==◌ meanwhile (refresh ◌==◌ 7 3 200 one_client))).1 ≡ 3)
unfolding refresh find_client
get_limiter_stable_example =
    get_limiter_stable ◌==◌ natural 7 3 200 260 meanwhile one_client
      (refresh ◌==◌ 7 3 200 one_client) refreshed_client (omega arith)

-- Of two calls for the key 8 that both found none, the second gets the bucket of the first.
abbrev others : List (Section ℕ)
others = inserts 9 12 ∷ refreshes 7 3 13 ∷ probes 8 13 ∷ inserts 8 14 ∷ []

sections_share_example :
    ((insert ◌==◌ 8 15 (run_sections ◌==◌ others (insert ◌==◌ 8 11 one_client).0)).1
      ≡ (insert ◌==◌ 8 11 one_client).1)
    × (found_bucket (look_up ◌==◌ 8 15 (run_sections ◌==◌ others (insert ◌==◌ 8 11 one_client).0))
        ≡ some (insert ◌==◌ 8 11 one_client).1)
sections_share_example = sections_share ◌==◌ natural 8 11 15 others one_client

-- A client that is evicted between the probe and the refresh: the call has the bucket 3, the next one 4.
evicted_between :
    ((follow ◌==◌ 7 201
        (look_up ◌==◌ 7 201 one_client)
        (evict_batch ◌==◌ 201 (7 ∷ []) one_client)).1
      ≡ 3)
    × ((get_limiter ◌==◌ 7 202
          (follow ◌==◌ 7 201
            (look_up ◌==◌ 7 201 one_client)
            (evict_batch ◌==◌ 201 (7 ∷ []) one_client)).0).1
        ≡ 4)
unfolding follow look_up refresh insert evict_batch evict_keys evict_key find_client delete_client
    get_limiter
evicted_between = (refl, refl)
