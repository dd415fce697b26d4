-- ===== src/Middleware/Logging/Record.antt =====
-- internal/middleware/logging.go: the recorders of a response, the capture of bodies, and `Logging`. A
-- body is the bytes that its reader gives; latencies and identifiers of the log line are left out.
use gateway_core.Base.{
  ℕ, ◌+◌, Bool, true, false, not, ◌||◌, ◌&&◌, List, [], ◌∷◌, ◌++◌, Option, none, some, ltb,
  if◌then◌else◌, length, take, drop,
}
use gateway_core.Base.Int.{ℤ, pos, pos_part, ◌-ℤ◌, ltb_ℤ, leb_ℤ}
use gateway_core.Base.Bytes.{Bytes, bytes, same_bytes, has_prefix, to_lower}
use gateway_core.Http.{Request, Call, writes_header, writes, Client, client_call, header_get}
use gateway_core.Gateway.{LogLevel, none_}
use gateway_core.Middleware.{Answer}
use gateway_core.Middleware.Logging.{redact_sensitive}

pub record LoggingConfig : Type 0 where
  pub body_logging : Bool
  pub max_body_log_bytes : ℤ

pub record BodyCapture : Type 0 where
  pub buf : Bytes
  pub max_bytes : ℤ
  pub content_type : Bytes

unfoldable pub capture_write : Bytes → BodyCapture → BodyCapture
capture_write p bc =
    let remaining = bc.max_bytes -ℤ pos (length bc.buf) in
    if leb_ℤ remaining (pos 0) then bc else record bc {
      buf = bc.buf ++ (if ltb_ℤ remaining (pos (length p)) then take (pos_part remaining) p else p);
    }

-- The recorder of the status around that of the body, around the writer.
pub record Recorder : Type 0 where
  pub status_code : ℕ
  pub header_written : Bool
  pub capture : Option BodyCapture
  pub writer : Client

-- The content type, at the first write.
unfoldable pub note_type : Client → Bool → BodyCapture → BodyCapture
note_type w true bc = bc
note_type w false bc = record bc { content_type = header_get (bytes "Content-Type") w.header }

unfoldable pub record_call : Call → Recorder → Recorder
record_call (writes_header code) r = record {
  status_code = code;
  header_written = true;
  capture = elim r.capture [
    | none ↦ none
    | some bc ↦ some (note_type r.writer r.header_written bc)
  ];
  writer = client_call (writes_header code) r.writer;
}
record_call (writes b) r = record {
  status_code = r.status_code;
  header_written = true;
  capture = elim r.capture [
    | none ↦ none
    | some bc ↦ some (capture_write b (note_type r.writer r.header_written bc))
  ];
  writer = client_call (writes b) r.writer;
}
record_call call r = record r { writer = client_call call r.writer }

unfoldable pub record_calls : List Call → Recorder → Recorder
record_calls [] r = r
record_calls (k ∷ ks) r = record_calls ks (record_call k r)

-- `strings.Contains(s, part)`.
unfoldable pub contains_part : Bytes → Bytes → Bool
contains_part [] part = has_prefix [] part
contains_part (c ∷ s) part = has_prefix (c ∷ s) part || contains_part s part

unfoldable pub should_log_body : Bytes → Bool
unfolding contains_part
should_log_body content_type =
    let ct = to_lower content_type in
    same_bytes content_type []
    || (contains_part ct (bytes "json")
        || (has_prefix ct (bytes "text/")
            || (contains_part ct (bytes "xml") || contains_part ct (bytes "form-urlencoded"))))

-- What is logged of a body, and what its reader gives from then on.
unfoldable pub capture_request_body : Bytes → (max_bytes : ℕ) → Bytes × Bytes
capture_request_body body max_bytes =
    let captured = take (max_bytes + 1) body in
    (
      redact_sensitive (
          if ltb max_bytes (length captured)
          then take max_bytes captured ++ bytes "...[truncated]"
          else captured),
      captured ++ drop (max_bytes + 1) body,
    )

pub record LogEntry : Type 0 where
  pub level : LogLevel
  pub method : Bytes
  pub path : Bytes
  pub status : ℕ
  pub request_body : Option Bytes
  pub response_body : Option Bytes

-- A handler with the body that it reads.
abbrev pub BodyHandler : Type 0
BodyHandler = Request → Bytes → Answer

abbrev pub unless_empty : Bytes → Option Bytes
unless_empty [] = none
unless_empty (c ∷ s) = some (c ∷ s)

unfoldable pub logs_body : Option LoggingConfig → Bool
logs_body none = false
logs_body (some cfg) = cfg.body_logging

unfoldable pub max_body : Option LoggingConfig → ℕ
max_body none = 4096
max_body (some cfg) =
    if ltb_ℤ (pos 0) cfg.max_body_log_bytes then pos_part cfg.max_body_log_bytes else 4096

unfoldable pub new_recorder : Option LoggingConfig → Client → Recorder
new_recorder cfg w = record {
  status_code = 200;
  header_written = false;
  capture =
      if logs_body cfg
      then some (record { buf = []; max_bytes = pos (max_body cfg); content_type = [] })
      else none;
  writer = w;
}

-- What is logged of the body of a response.
unfoldable pub response_body : Option BodyCapture → Option Bytes
response_body none = none
response_body (some bc) =
    if should_log_body bc.content_type && not (same_bytes bc.buf [])
    then some (redact_sensitive bc.buf)
    else none

abbrev pub is_none : LogLevel → Bool
is_none none_ = true
is_none _ = false

-- What is logged of the body of a request, and what the next handler reads.
unfoldable pub read_request : Option LoggingConfig → Request → Bytes → Bytes × Bytes
read_request cfg r body =
    if logs_body cfg && (should_log_body (header_get (bytes "Content-Type") r.header) && r.has_body)
    then capture_request_body body (max_body cfg)
    else ([], body)

unfoldable pub log_entry :
    LogLevel → Option LoggingConfig → Client → Request → Bytes → Answer → LogEntry
log_entry level cfg w r body a =
    let recorder = record_calls a.calls (new_recorder cfg w) in
    record {
      level = level;
      method = r.method;
      path = r.path;
      status = recorder.status_code;
      request_body = unless_empty (read_request cfg r body).0;
      response_body = response_body recorder.capture;
    }

-- `Logging`, with the writer as it stands: the answer for the client, and the line of the log. A
-- handler that panics leaves none.
unfoldable pub logging :
    (Bytes → LogLevel)
    → Option LoggingConfig
    → Client
    → BodyHandler
    → Request
    → Bytes
    → Answer × Option LogEntry
logging level cfg w next r body =
    if is_none (level r.path)
    then (next r body, none)
    else let a = next r (read_request cfg r body).1 in
      (a, if a.panics then none else some (log_entry (level r.path) cfg w r body a))
