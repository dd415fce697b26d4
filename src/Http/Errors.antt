-- ===== src/Http/Errors.antt =====
-- internal/apierror/apierror.go. The JSON encoder and the texts of status codes are parameters.
use gateway_core.Base.{
  ℕ, ◌≡◌, ◌&&◌, List, [], ◌∷◌, ◌++◌, Option, none, some, if◌then◌else◌, ◌==◌, arith, Option-cases,
  inl, inr,
}
use gateway_core.Base.Bytes.{Bytes, bytes, same_bytes, same_bytes_iff}
use gateway_core.Http.{Request, Call, sets_header, writes_header, writes, header_get}

pub data ErrorCode : Type 0 where
  route_not_found method_not_allowed upstream_unavailable circuit_open : ErrorCode
  request_cancelled auth_missing_token auth_invalid_token : ErrorCode
  auth_insufficient_scope rate_limit_exceeded internal_error : ErrorCode
  body_too_large deadline_exceeded : ErrorCode

pub record ErrorResponse : Type 0 where
  pub error : Bytes
  pub error_code : ErrorCode
  pub message : Bytes
  pub request_id : Bytes

-- The status and the message of an error whose body is rendered once.
unfoldable pub rendered_once : ErrorCode → Option (ℕ × Bytes)
rendered_once route_not_found = some (404, bytes "no matching route")
rendered_once upstream_unavailable = some (502, bytes "upstream service unavailable")
rendered_once circuit_open = some (503, bytes "circuit breaker open")
rendered_once request_cancelled = some (504, bytes "request cancelled")
rendered_once auth_missing_token = some (401, bytes "missing or malformed Authorization header")
rendered_once rate_limit_exceeded = some (429, bytes "rate limit exceeded, retry later")
rendered_once _ = none

module _ (marshal : ErrorResponse → Bytes) (status_text : ℕ → Bytes) where
  unfoldable pub must_marshal : ℕ → ErrorCode → Bytes → Bytes
  must_marshal status code message =
      marshal (record {
        error = status_text status;
        error_code = code;
        message = message;
        request_id = [];
      })
      ++ 10 ∷ []

  unfoldable pub pre_serialized : ℕ → ErrorCode → Bytes → Option Bytes
  pre_serialized status code message = elim (rendered_once code) [
    | none ↦ none
    | some (s, m) ↦
        if status == s && same_bytes message m then some (must_marshal s code m) else none
  ]

  -- `Encode` ends the value with a line feed.
  unfoldable pub encode : ErrorResponse → Bytes
  encode r = marshal r ++ 10 ∷ []

  unfoldable pub error_body : Request → ℕ → ErrorCode → Bytes → Bytes
  error_body r status code message =
      let id = header_get (bytes "X-Request-Id") r.header in
      let fresh = encode (record {
        error = status_text status;
        error_code = code;
        message = message;
        request_id = id;
      }) in
      if same_bytes id []
      then elim (pre_serialized status code message) [ none ↦ fresh | some b ↦ b ]
      else fresh

  -- The calls of `WriteJSON` on its writer.
  unfoldable pub write_json : Request → ℕ → ErrorCode → Bytes → List Call
  write_json r status code message =
      sets_header (bytes "Content-Type") (bytes "application/json")
      ∷ writes_header status
      ∷ writes (error_body r status code message)
      ∷ []

  pre_serialized-encode :
      (status : ℕ) (code : ErrorCode) (message b : Bytes)
      → pre_serialized status code message ≡ some b
      → b
        ≡ encode (record {
          error = status_text status;
          error_code = code;
          message = message;
          request_id = [];
        })
  unfolding pre_serialized must_marshal encode
  pre_serialized-encode status code message b h = elim (Option-cases (rendered_once code)) [
    | inl e ↦ absurd (ground arith)
    | inr ((s, m), e) ↦ let same = same_bytes_iff message m in ground arith
  ]

  -- A body that was rendered once is the one that would be encoded for the request.
  pub error_body-encode :
      (r : Request) (status : ℕ) (code : ErrorCode) (message : Bytes)
      → error_body r status code message
        ≡ encode (record {
          error = status_text status;
          error_code = code;
          message = message;
          request_id = header_get (bytes "X-Request-Id") r.header;
        })
  unfolding error_body
  error_body-encode r status code message =
      let blank = same_bytes_iff (header_get (bytes "X-Request-Id") r.header) [] in
      elim (Option-cases (pre_serialized status code message)) [
        | inl e ↦ ground arith
        | inr (b, e) ↦ let once = pre_serialized-encode status code message b e in ground arith
      ]
