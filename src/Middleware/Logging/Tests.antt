-- ===== src/Middleware/Logging/Tests.antt =====
-- Logging at concrete inputs, and each theorem at one.
use gateway_core.Base.{
  ◌+◌, ◌≡◌, refl, true, false, List, [], ◌∷◌, ◌++◌, Option, none, some, length, take, arith,
}
use gateway_core.Base.Int.{pos}
use gateway_core.Base.Bytes.{Bytes, bytes}
use gateway_core.Http.{Request, writes_header, writes, no_header, new_client}
use gateway_core.Gateway.{LogLevel, info}
use gateway_core.Middleware.Logging.{quote, redact_sensitive, skip_blank, expect}
use gateway_core.Middleware.Logging.Matching.{is_sensitive, is_colon, has_quote-Unquoted}
use gateway_core.Middleware.Logging.Redact.{Piece, text, hidden, redact_sensitive-hidden}
use gateway_core.Middleware.Logging.Record.{
  LoggingConfig, BodyHandler, LogEntry, capture_request_body, logging, max_body, logs_body,
}
use gateway_core.Middleware.Logging.Capture.{
  written, type_at_write, last_status, shown, logging_records, capture_request_body-leaks,
}

-- {"user":"ann", "Password" : "x\"y"}: the password has a quote, which is escaped.
abbrev login : List Piece
login =
    (bytes "user", bytes ":")
    ∷ (bytes "ann", bytes ", ")
    ∷ (bytes "Password", bytes " : ")
    ∷ (bytes "x\\", bytes "y")
    ∷ []

-- What follows the escaped quote stays.
hidden-login :
    hidden login
    ≡ (bytes "user", bytes ":")
      ∷ (bytes "ann", bytes ", ")
      ∷ (bytes "Password", bytes " : ")
      ∷ (bytes "***", bytes "y")
      ∷ []
unfolding hidden is_sensitive is_colon skip_blank expect
hidden-login = refl

redact_sensitive-hidden_example :
    redact_sensitive (bytes "{" ++ text login (some (bytes "}")))
    ≡ bytes "{" ++ text (hidden login) (some (bytes "}"))
unfolding is_sensitive
redact_sensitive-hidden_example =
    redact_sensitive-hidden (bytes "{") login (some (bytes "}"))
      (has_quote-Unquoted (bytes "{") refl)
      (
        (has_quote-Unquoted (bytes "user") refl, (has_quote-Unquoted (bytes ":") refl, refl)),
        (
          (has_quote-Unquoted (bytes "ann") refl, (has_quote-Unquoted (bytes ", ") refl, refl)),
          (
            (
              has_quote-Unquoted (bytes "Password") refl,
              (has_quote-Unquoted (bytes " : ") refl, refl),
            ),
            (
              (has_quote-Unquoted (bytes "x\\") refl, (has_quote-Unquoted (bytes "y") refl, refl)),
              tt,
            ),
          ),
        ),
      )
      (has_quote-Unquoted (bytes "}") refl)

-- {"token":"abcdef"} with a limit of 12 bytes.
capture_request_body-leaks_example :
    (capture_request_body
      (bytes "{"
        ++ quote
          ∷ (bytes "token" ++ quote ∷ (bytes ":" ++ quote ∷ (bytes "abcdef" ++ quote ∷ bytes "}"))))
      (length (bytes "{" ++ quote ∷ (bytes "token" ++ quote ∷ (bytes ":" ++ quote ∷ []))) + 2)).0
    ≡ bytes "{"
      ++ quote
        ∷ (bytes "token" ++ quote ∷ (bytes ":" ++ quote ∷ (bytes "ab" ++ bytes "...[truncated]")))
unfolding is_sensitive
capture_request_body-leaks_example =
    capture_request_body-leaks (bytes "{") (bytes "token") (bytes ":") (bytes "abcdef")
      (quote ∷ bytes "}") 2 (has_quote-Unquoted (bytes "{") refl)
      (has_quote-Unquoted (bytes "token") refl) (has_quote-Unquoted (bytes ":") refl) refl
      (has_quote-Unquoted (bytes "abcdef") refl) (omega arith)

-- A handler that reports the length of the body that it reads.
abbrev counts : BodyHandler
counts r body = record {
  calls = writes_header 201 ∷ writes (length body ∷ []) ∷ writes (bytes "ok") ∷ [];
  panics = false;
  header = r.header;
}

abbrev post : Request
post = record {
  method = bytes "POST";
  path = bytes "/login";
  header = no_header;
  content_length = pos 3;
  has_body = true;
  body_cap = none;
  over_tls = false;
}

abbrev options : Option LoggingConfig
options = some (record { body_logging = true; max_body_log_bytes = pos 2 })

abbrev everything : Bytes → LogLevel
everything path = info

logging_records_example :
    (entry : LogEntry) × ((logging everything options new_client counts post (bytes "abc")).1
      ≡ some entry)
    × (entry.status ≡ last_status 200 (counts post (bytes "abc")).calls)
    × (entry.response_body
        ≡ shown
            (type_at_write new_client (counts post (bytes "abc")).calls)
            (take (max_body options) (written (counts post (bytes "abc")).calls)))
unfolding logs_body
logging_records_example =
    logging_records everything options new_client counts post (bytes "abc") refl refl refl
