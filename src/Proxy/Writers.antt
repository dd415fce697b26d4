-- ===== src/Proxy/Writers.antt =====
-- The three writers of internal/proxy/proxy.go, between a backend's response and the client.
pub mod Replay
use gateway_core.Base.{
  ℕ, Bool, true, false, List, [], ◌∷◌, ◌++◌, Option, none, some, if◌then◌else◌, ◌==◌, ◌||◌,
}
use gateway_core.Base.Bytes.{Bytes, bytes, same_bytes}
use gateway_core.Http.{
  Header, no_header, header_set, header_add, Client, client_write_header, client_write, Call,
  adds_header, sets_header, drops_headers, writes_header, writes, header_drop,
}

unfoldable pub is_retryable : ℕ → Bool
is_retryable status = status == 502 || (status == 503 || status == 504)

pub record ResponseRecorder : Type 0 where
  pub client : Client
  pub status_code : ℕ
  pub written : Bool

unfoldable pub new_recorder : Client → ResponseRecorder
new_recorder c = record { client = c; status_code = 200; written = false }

unfoldable pub recorder_write_header : ℕ → ResponseRecorder → ResponseRecorder
recorder_write_header code rr = record {
  client = client_write_header code rr.client;
  status_code = if rr.written then rr.status_code else code;
  written = true;
}

unfoldable pub recorder_write : Bytes → ResponseRecorder → ResponseRecorder
recorder_write b rr = record {
  client = client_write b rr.client;
  status_code = if rr.written then rr.status_code else 200;
  written = true;
}

abbrev pub with_header : Header → ResponseRecorder → ResponseRecorder
with_header h rr = record rr { client = record (rr.client) { header = h } }

abbrev pub latency_header : Bytes
latency_header = bytes "X-Gateway-Latency"

-- `elapsed` is the text of the time that has passed since the start, when it is first asked for.
pub record LatencyWriter : Type 0 where
  pub recorder : ResponseRecorder
  pub elapsed : Bytes
  pub written : Bool

unfoldable pub stamp : LatencyWriter → LatencyWriter
stamp lw = if lw.written then lw else record lw {
  written = true;
  recorder =
      with_header (header_set latency_header lw.elapsed lw.recorder.client.header) lw.recorder;
}

abbrev pub on_recorder : (ResponseRecorder → ResponseRecorder) → LatencyWriter → LatencyWriter
on_recorder f lw = record lw { recorder = f lw.recorder }

unfoldable pub latency_write_header : ℕ → LatencyWriter → LatencyWriter
latency_write_header code lw = on_recorder (recorder_write_header code) (stamp lw)

unfoldable pub latency_write : Bytes → LatencyWriter → LatencyWriter
latency_write b lw = on_recorder (recorder_write b) (stamp lw)

-- A handler's call on a latency writer, whose header is the client's.
unfoldable pub latency_call : Call → LatencyWriter → LatencyWriter
latency_call (adds_header k v) lw =
    on_recorder (λ rr. with_header (header_add k v rr.client.header) rr) lw
latency_call (sets_header k v) lw =
    on_recorder (λ rr. with_header (header_set k v rr.client.header) rr) lw
latency_call (drops_headers p) lw =
    on_recorder (λ rr. with_header (header_drop p rr.client.header) rr) lw
latency_call (writes_header code) lw = latency_write_header code lw
latency_call (writes b) lw = latency_write b lw

unfoldable pub latency_calls : List Call → LatencyWriter → LatencyWriter
latency_calls [] lw = lw
latency_calls (k ∷ ks) lw = latency_calls ks (latency_call k lw)

pub record ResponseBuffer : Type 0 where
  pub header : Header
  pub body : Bytes
  pub status_code : ℕ
  pub written : Bool

unfoldable pub buffer_reset : ResponseBuffer → ResponseBuffer
buffer_reset b = record { header = no_header; body = []; status_code = 200; written = false }

unfoldable pub buffer_write_header : ℕ → ResponseBuffer → ResponseBuffer
buffer_write_header code b =
    if b.written then b else record b { status_code = code; written = true }

unfoldable pub buffer_write : Bytes → ResponseBuffer → ResponseBuffer
buffer_write p b = record b {
  status_code = if b.written then b.status_code else 200;
  written = true;
  body = b.body ++ p;
}

unfoldable pub buffer_call : Call → ResponseBuffer → ResponseBuffer
buffer_call (adds_header k v) b = record b { header = header_add k v b.header }
buffer_call (sets_header k v) b = record b { header = header_set k v b.header }
buffer_call (drops_headers p) b = record b { header = header_drop p b.header }
buffer_call (writes_header code) b = buffer_write_header code b
buffer_call (writes p) b = buffer_write p b

unfoldable pub buffer_calls : List Call → ResponseBuffer → ResponseBuffer
buffer_calls [] b = b
buffer_calls (k ∷ ks) b = buffer_calls ks (buffer_call k b)

-- Every value of the second header added to the first.
unfoldable pub header_add_all : Header → Header → Header
header_add_all h b k = h k ++ b k

unfoldable pub replay_to : ResponseBuffer → ResponseRecorder → ResponseRecorder
replay_to b rr = recorder_write b.body (
    recorder_write_header b.status_code (with_header (header_add_all rr.client.header b.header) rr))
