-- ===== src/Auth/Tests.antt =====
-- Requests at concrete inputs, and each theorem on authentication at one.
use gateway_core.Base.{
  false, ℕ, ◌≡◌, refl, ◌↔◌, true, [], ◌∷◌, ◌++◌, Option, none, some, arith, if◌then◌else◌, sym, ◌∙◌,
}
use gateway_core.Base.Bytes.{Bytes, bytes, same_bytes}
use gateway_core.Base.Int.{pos}
use gateway_core.Config.Types.{AuthConfig, RouteConfig}
use gateway_core.Routing.Match.{matches_prefix}
use gateway_core.Routing.Select.{match_route}
use gateway_core.RateLimit.ClientIp.{trim_space, trim_left, is_space}
use gateway_core.Auth.{
  Claims, ClaimValue, claim_string, Token, SigningMethod, ParserOptions, middleware, authenticated,
  forbidden, extract_bearer_token, equal_fold, cut, validate_token, claims_of, fields, has_scope,
  first_missing,
}
use gateway_core.Auth.Header.{extract_bearer_token-append}
use gateway_core.Auth.Routes.{GoesOn, route_requires_auth, protected_route-Grants}
use gateway_core.Auth.Access.{middleware_admits, Grants, presented}

abbrev cfg : AuthConfig
cfg = record {
  enabled = true;
  jwt_secret = bytes "secret";
  issuer = bytes "issuer";
  audience = bytes "gateway";
  scopes = bytes "read" ∷ [];
}

-- A parser that knows two tokens: "r" has the scopes read and write, "w" write alone.
abbrev claim : Bytes → Bytes → Option ClaimValue
claim scope name = if same_bytes name (bytes "scope") then some (claim_string scope) else none

abbrev parse : Bytes → (SigningMethod → Option Bytes) → ParserOptions → Option Token
parse s key options =
    if same_bytes s (bytes "r")
    then some (record { claims = some (claim (bytes "read write")); valid = true })
    else if same_bytes s (bytes "w")
    then some (record { claims = some (claim (bytes "write")); valid = true })
    else none

reader_scopes : (claims_of (claim (bytes "read write"))).scopes ≡ bytes "read" ∷ bytes "write" ∷ []
unfolding claims_of fields is_space
reader_scopes = refl

middleware_admits_example :
    (middleware parse cfg (λ p. true) (bytes "/api") (bytes "Bearer r")
      ≡ authenticated (claims_of (claim (bytes "read write"))))
    ↔ ((true ≡ true)
        × (true ≡ true)
        × Grants cfg
            (presented parse cfg (bytes "Bearer r"))
            (claims_of (claim (bytes "read write"))))
middleware_admits_example =
    middleware_admits parse cfg (λ p. true) (bytes "/api") (bytes "Bearer r")
      (claims_of (claim (bytes "read write")))

writer_forbidden :
    middleware parse cfg (λ p. true) (bytes "/api") (bytes "Bearer w") ≡ forbidden (bytes "read")
unfolding middleware validate_token extract_bearer_token equal_fold cut trim_space trim_left
    is_space claims_of fields has_scope first_missing
writer_forbidden = refl

bearer_in_lower_case : equal_fold (bytes "bearer") (bytes "Bearer") ≡ true
unfolding equal_fold
bearer_in_lower_case = refl

token_trimmed : trim_space (bytes " r ") ≡ bytes "r"
unfolding trim_space trim_left is_space
token_trimmed = refl

extract_bearer_token-append_example :
    extract_bearer_token (bytes "bearer" ++ b' ' ∷ bytes " r ") ≡ some (trim_space (bytes " r "))
extract_bearer_token-append_example =
    extract_bearer_token-append (bytes "bearer") (bytes " r ") (omega arith) bearer_in_lower_case
      (λ e. cc (sym token_trimmed ∙ e))

abbrev api : RouteConfig ℕ
api = record {
  path_prefix = bytes "/api";
  backend = bytes "http://backend";
  strip_prefix = false;
  methods = [];
  auth_required = true;
  timeout_ms = pos 0;
  retry_attempts = pos 0;
  headers = [];
  rate_override = none;
  connection_pool = none;
  fallback_status = pos 0;
  fallback_body = [];
  log_level = [];
}

api_chosen : match_route (bytes "/api/7") (api ∷ []) ≡ some api
unfolding match_route matches_prefix
api_chosen = refl

reader-GoesOn :
    GoesOn
      (middleware parse cfg (route_requires_auth (api ∷ [])) (bytes "/api/7") (bytes "Bearer r"))
unfolding middleware validate_token extract_bearer_token equal_fold cut trim_space trim_left
    is_space claims_of fields has_scope first_missing route_requires_auth match_route matches_prefix
reader-GoesOn = tt

protected_route-Grants_example :
    (c : Claims) × Grants cfg (presented parse cfg (bytes "Bearer r")) c
protected_route-Grants_example =
    protected_route-Grants parse cfg (api ∷ []) api (bytes "/api/7") (bytes "Bearer r") refl
      api_chosen refl reader-GoesOn
