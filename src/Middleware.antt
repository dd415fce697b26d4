-- ===== src/Middleware.antt =====
-- internal/middleware: the handlers between the server and the limiter. A handler's answer is its calls on
-- the writer, and whether it panics after them. Log lines are left out.
pub mod Headers
pub mod Stack
mod Tests
pub mod Deadline
pub mod Uuid
pub mod Logging
use gateway_core.Base.{
  ℕ, Bool, true, false, not, ◌||◌, ◌&&◌, List, [], ◌∷◌, ◌++◌, Option, none, some, if◌then◌else◌,
}
use gateway_core.Base.Int.{ℤ, pos, ltb_ℤ, leb_ℤ, same_ℤ}
use gateway_core.Base.Bytes.{Bytes, bytes, same_bytes}
use gateway_core.Http.{Header, Request, Call, sets_header, writes_header, header_set, header_get}
use gateway_core.Http.Errors.{
  ErrorResponse, write_json, body_too_large, internal_error, deadline_exceeded,
}

-- `header` is the request's header map as the handler leaves it: the handlers share it.
pub record Answer : Type 0 where
  pub calls : List Call
  pub panics : Bool
  pub header : Header

abbrev pub Handler : Type 0
Handler = Request → Answer

-- The calls of a middleware ahead of the next handler's.
abbrev pub after : List Call → Answer → Answer
after ks a = record a { calls = ks ++ a.calls }

abbrev pub request_id_header : Bytes
request_id_header = bytes "X-Request-Id"

abbrev pub id_of : (uuid : Bytes) → Request → Bytes
id_of uuid r =
    let given = header_get request_id_header r.header in if same_bytes given [] then uuid else given

-- `RequestID`, with the identifier that `newUUID` gives.
unfoldable pub request_id : (uuid : Bytes) → Handler → Handler
request_id uuid next r =
    let id = id_of uuid r in
    after (sets_header request_id_header id ∷ [])
      (next (record r { header = header_set request_id_header id r.header }))

unfoldable pub security_headers : Handler → Handler
security_headers next r =
    let https =
      r.over_tls || same_bytes (header_get (bytes "X-Forwarded-Proto") r.header) (bytes "https") in
    after
      (sets_header (bytes "X-Content-Type-Options") (bytes "nosniff")
        ∷ sets_header (bytes "X-Frame-Options") (bytes "DENY")
        ∷ sets_header (bytes "X-Xss-Protection") (bytes "0")
        ∷ (if https
            then sets_header (bytes "Strict-Transport-Security")
                (bytes "max-age=31536000; includeSubDomains")
              ∷ []
            else []))
      (next r)

pub record CorsConfig : Type 0 where
  pub allowed_origins : List Bytes
  pub allowed_methods : List Bytes
  pub allowed_headers : List Bytes
  pub max_age : Bytes

abbrev pub default_cors_config : CorsConfig
default_cors_config = record {
  allowed_origins = bytes "*" ∷ [];
  allowed_methods =
      bytes "GET"
      ∷ bytes "POST"
      ∷ bytes "PUT"
      ∷ bytes "DELETE"
      ∷ bytes "OPTIONS"
      ∷ bytes "PATCH"
      ∷ [];
  allowed_headers = bytes "Authorization" ∷ bytes "Content-Type" ∷ bytes "X-Request-ID" ∷ [];
  max_age = bytes "86400";
}

-- `strings.Join(parts, ", ")`.
abbrev pub join : List Bytes → Bytes
join [] = []
join (p ∷ []) = p
join (p ∷ q ∷ ps) = p ++ bytes ", " ++ join (q ∷ ps)

unfoldable pub cors : CorsConfig → Handler → Handler
cors cfg next r =
    let origin = header_get (bytes "Origin") r.header in
    let headers =
      if same_bytes origin []
      then []
      else sets_header (bytes "Access-Control-Allow-Origin") (join cfg.allowed_origins)
        ∷ sets_header (bytes "Access-Control-Allow-Methods") (join cfg.allowed_methods)
        ∷ sets_header (bytes "Access-Control-Allow-Headers") (join cfg.allowed_headers)
        ∷ sets_header (bytes "Access-Control-Max-Age") cfg.max_age
        ∷ [] in
    if same_bytes r.method (bytes "OPTIONS")
    then record { calls = headers ++ writes_header 204 ∷ []; panics = false; header = r.header }
    else after headers (next r)

module _ (marshal : ErrorResponse → Bytes) (status_text : ℕ → Bytes) where
  unfoldable pub body_limit : (max_bytes : ℤ) → Handler → Handler
  body_limit max_bytes next r =
      if ltb_ℤ max_bytes r.content_length
      then record {
        calls =
            write_json marshal status_text r 413 body_too_large
              (bytes "request body exceeds maximum allowed size");
        panics = false;
        header = r.header;
      }
      else if r.has_body && not (same_ℤ r.content_length (pos 0))
      then next (record r { body_cap = some max_bytes })
      else next r

  unfoldable pub recovery : Handler → Handler
  recovery next r =
      let a = next r in
      if a.panics
      then record {
        calls =
            a.calls
            ++ write_json marshal status_text (record r { header = a.header }) 500 internal_error
                (bytes "an unexpected error occurred");
        panics = false;
        header = a.header;
      }
      else a

  -- `Deadline` as its answer: without a timeout the next handler's. With one, the calls of the next
  -- handler and of its own answer reach the writer in the order that a run gives them (Deadline has
  -- these runs); a panic ends the process, and is none that a handler outside could recover.
  unfoldable pub deadline :
      (timeout : ℤ) → (order : (handler timed_out : List Call) → List Call) → Handler → Handler
  deadline timeout order next r =
      let a = next r in
      if leb_ℤ timeout (pos 0) then a else record a {
        calls = order a.calls (
            write_json marshal status_text r 504 deadline_exceeded
              (bytes "global request deadline exceeded"));
        panics = false;
      }
