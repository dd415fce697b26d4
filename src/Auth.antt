-- ===== src/Auth.antt =====
-- internal/auth/auth.go. The JWT library is a parameter: `parse` stands for `jwt.Parse`, and gets the
-- key function and the options that the code gives it. Logs and metrics are left out.
pub mod Header
pub mod Scopes
pub mod Access
pub mod Routes
mod Tests
use gateway_core.Base.{
  ℕ, Bool, true, false, not, ◌&&◌, List, [], ◌∷◌, Option, none, some, if◌then◌else◌, ◌==◌, leb, ◌+◌,
}
use gateway_core.Base.Bytes.{Bytes, bytes, same_bytes}
use gateway_core.Config.Types.{AuthConfig}
use gateway_core.RateLimit.ClientIp.{is_space, trim_space}

pub record Claims : Type 0 where
  pub subject : Bytes
  pub issuer : Bytes
  pub audience : Bytes
  pub scopes : List Bytes

-- A claim as the JSON decoder leaves it: a string, an array whose elements are strings or something
-- else, or something else.
pub data ClaimValue : Type 0 where
  claim_string : Bytes → ClaimValue
  claim_array : List (Option Bytes) → ClaimValue
  claim_other : ClaimValue

pub data SigningMethod : Type 0 where
  hmac other_method : SigningMethod

pub record ParserOptions : Type 0 where
  pub valid_methods : List Bytes
  pub issuer : Bytes
  pub audience : Bytes
  pub expiration_required : Bool

-- `claims` is `none` where they are no map.
pub record Token : Type 0 where
  pub claims : Option (Bytes → Option ClaimValue)
  pub valid : Bool

abbrev pub lower : ℕ → ℕ
lower c = if leb 65 c && leb c 90 then c + 32 else c

-- `strings.EqualFold(s, t)` for ASCII text.
unfoldable pub equal_fold : Bytes → Bytes → Bool
equal_fold [] [] = true
equal_fold (x ∷ xs) (y ∷ ys) = lower x == lower y && equal_fold xs ys
equal_fold _ _ = false

-- `strings.SplitN(s, sep, 2)`: what precedes the first separator and what follows it, if there is one.
unfoldable pub cut : ℕ → Bytes → Option (Bytes × Bytes)
cut sep [] = none
cut sep (c ∷ s) =
    let rest = cut sep s in
    if c == sep
    then some ([], s)
    else elim rest [ none ↦ none | some (before, after) ↦ some (c ∷ before, after) ]

unfoldable pub extract_bearer_token : Bytes → Option Bytes
extract_bearer_token auth = elim (cut b' ' auth) [
  | none ↦ none
  | some (scheme, rest) ↦
      let token = trim_space rest in
      if not (equal_fold scheme (bytes "Bearer"))
      then none
      else if same_bytes token []
      then none
      else some token
]

abbrev pub into_field : ℕ → List Bytes → List Bytes
into_field c [] = (c ∷ []) ∷ []
into_field c (w ∷ ws) = (c ∷ w) ∷ ws

-- Whether a text begins with a field.
abbrev pub starts_field : Bytes → Bool
starts_field [] = false
starts_field (c ∷ s) = not (is_space c)

-- `strings.Fields(s)`, for white space of ASCII.
unfoldable pub fields : Bytes → List Bytes
unfolding is_space
fields [] = []
fields (c ∷ s) =
    let rest = fields s in
    if is_space c then rest else if starts_field s then into_field c rest else (c ∷ []) ∷ rest

abbrev pub string_claim : Option ClaimValue → Bytes
string_claim (some (claim_string s)) = s
string_claim _ = []

abbrev pub audience_claim : Option ClaimValue → Bytes
audience_claim (some (claim_string s)) = s
audience_claim (some (claim_array (some s ∷ rest))) = s
audience_claim _ = []

abbrev pub scopes_claim : Option ClaimValue → List Bytes
scopes_claim (some (claim_string s)) = fields s
scopes_claim _ = []

unfoldable pub claims_of : (Bytes → Option ClaimValue) → Claims
claims_of m = record {
  subject = string_claim (m (bytes "sub"));
  issuer = string_claim (m (bytes "iss"));
  audience = audience_claim (m (bytes "aud"));
  scopes = scopes_claim (m (bytes "scope"));
}

-- Membership in the set of a token's scopes.
unfoldable pub has_scope : List Bytes → Bytes → Bool
has_scope [] s = false
has_scope (x ∷ xs) s = if same_bytes x s then true else has_scope xs s

unfoldable pub first_missing : List Bytes → List Bytes → Option Bytes
first_missing scopes [] = none
first_missing scopes (r ∷ rs) =
    let rest = first_missing scopes rs in if has_scope scopes r then rest else some r

pub data TokenError : Type 0 where
  invalid_token : TokenError
  missing_scope : Bytes → TokenError

pub data Validation : Type 0 where
  accepted : Claims → Validation
  refused : TokenError → Validation

-- What the middleware does with a request: hand it on, as it is or with claims, or answer.
pub data Answer : Type 0 where
  passed_on : Answer
  authenticated : Claims → Answer
  unauthorized_missing unauthorized_invalid : Answer
  forbidden : Bytes → Answer

unfoldable pub key_func : AuthConfig → SigningMethod → Option Bytes
key_func cfg hmac = some cfg.jwt_secret
key_func cfg other_method = none

unfoldable pub parser_options : AuthConfig → ParserOptions
parser_options cfg = record {
  valid_methods = bytes "HS256" ∷ [];
  issuer = cfg.issuer;
  audience = cfg.audience;
  expiration_required = true;
}

abbrev pub check_scopes : AuthConfig → Claims → Validation
check_scopes cfg c = elim (first_missing c.scopes cfg.scopes) [
  | none ↦ accepted c
  | some s ↦ refused (missing_scope s)
]

module _ (parse : Bytes → (SigningMethod → Option Bytes) → ParserOptions → Option Token) where
  abbrev pub check_token : AuthConfig → Token → Validation
  check_token cfg t = elim t.claims [
    | none ↦ refused invalid_token
    | some m ↦ if t.valid then check_scopes cfg (claims_of m) else refused invalid_token
  ]

  unfoldable pub validate_token : Bytes → AuthConfig → Validation
  validate_token s cfg = elim (parse s (key_func cfg) (parser_options cfg)) [
    | none ↦ refused invalid_token
    | some t ↦ check_token cfg t
  ]

  -- `authorization` is the header's value, empty where it is missing.
  unfoldable pub middleware : AuthConfig → (Bytes → Bool) → (path authorization : Bytes) → Answer
  middleware cfg requires_auth path authorization =
      if cfg.enabled && requires_auth path
      then elim (extract_bearer_token authorization) [
        | none ↦ unauthorized_missing
        | some token ↦ elim (validate_token token cfg) [
          | accepted c ↦ authenticated c
          | refused invalid_token ↦ unauthorized_invalid
          | refused (missing_scope s) ↦ forbidden s
        ]
      ]
      else passed_on
