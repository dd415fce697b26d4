-- ===== src/Middleware/Tests.antt =====
-- The middleware at concrete inputs, and each theorem at one.
use gateway_core.Base.{
  ◌≡◌, ◌≢◌, refl, true, false, List, [], ◌∷◌, ◌++◌, Option, none, some, All-append,
}
use gateway_core.Base.Int.{pos}
use gateway_core.Base.Bytes.{Bytes, bytes}
use gateway_core.Http.{
  Request, Call, sets_header, writes_header, writes, Head, no_header, new_client, client_call,
  client_calls, client_write, client_write_header, header_set, header_get,
}
use gateway_core.Http.Errors.{write_json}
use gateway_core.Middleware.{
  request_id_header, id_of, deadline, recovery, request_id, security_headers, cors, body_limit,
}
use gateway_core.Middleware.Headers.{IsIn, SparesId}
use gateway_core.Middleware.Stack.{stack, IsMixing, stack-request_id}
use gateway_core.Middleware.Logging.Record.{BodyHandler, logging, read_request, logs_body}
use gateway_core.Gateway.{info}
use gateway_core.Middleware.Deadline.{
  Race, running, returned, crashed, Reachable, Reaches, here, next, handles, claims_write,
  deadline_claims_unsent, deadline_mixes,
}
use gateway_core.Middleware.Deadline.Panic.{deadline_panics}

-- The handler has set a header, and has still to write.
abbrev waiting : Race
waiting = record {
  client = client_call (sets_header (bytes "A") (bytes "b")) new_client;
  claimed = false;
  entered = false;
  handler = writes (bytes "body") ∷ [];
  faulty = true;
  deadline = [];
  fired = false;
  progress = running;
}

abbrev timeout : List Call
timeout = writes_header 504 ∷ []

abbrev slow : List Call
slow = sets_header (bytes "A") (bytes "b") ∷ writes (bytes "body") ∷ []

waiting_reached : Reachable timeout slow true waiting
waiting_reached = next here (handles _ _ refl refl refl refl)

-- The deadline passes, and has its answer to make.
abbrev passed : Race
passed = record waiting { claimed = true; fired = true; deadline = timeout }

deadline_claims_unsent_example :
    (waiting.fired ≡ false) × (waiting.client.sent ≡ none) × (waiting.client.body ≡ [])
deadline_claims_unsent_example =
    deadline_claims_unsent timeout slow true waiting passed waiting_reached
      (claims_write refl refl refl refl) refl (λ e. cc)

deadline_panics_example :
    (waiting.progress ≢ returned)
    × ((t : Race) × Reaches timeout waiting t × (t.progress ≡ crashed))
deadline_panics_example = deadline_panics timeout slow waiting waiting_reached

deadline_mixes_example :
    (s : Race) × Reachable
      (sets_header (bytes "Content-Type") (bytes "json")
        ∷ writes_header 504
        ∷ writes (bytes "late")
        ∷ [])
      (writes_header 200 ∷ writes (bytes "body") ∷ [])
      false
      s
    × (s.handler ≡ [])
    × (s.client.body ≡ bytes "late" ++ bytes "body")
    × ((h : Head) × (s.client.sent ≡ some h) × (h.status ≡ 504))
deadline_mixes_example =
    deadline_mixes (bytes "Content-Type") (bytes "json") (bytes "late") (bytes "body") 200

-- A handler that panics at once.
abbrev broken : BodyHandler
broken r read = record { calls = []; panics = true; header = r.header }

abbrev request : Request
request = record {
  method = bytes "GET";
  path = bytes "/api";
  header = no_header;
  content_length = pos 0;
  has_body = false;
  body_cap = none;
  over_tls = false;
}

-- The answer of the deadline follows the handler's.
abbrev one_after_other : (handler timed_out : List Call) → List Call
one_after_other ks js = ks ++ js

abbrev out : Option Head
out =
    (client_calls
      (stack (λ e. e.message) (λ n. []) (λ p. info) none new_client (bytes "uuid") (pos 0)
        one_after_other (pos 10) broken [] request).calls
      new_client).sent

abbrev head : Head
head = elim out [ none ↦ record { status = 0; header = no_header } | some h ↦ h ]

out_head : (out ≡ some head) × (head.status ≡ 500)
unfolding stack deadline logging read_request logs_body recovery client_calls request_id
    security_headers cors body_limit header_get header_set write_json client_call client_write
    client_write_header
out_head = (refl, refl)

broken_spares : (read : Bytes) → SparesId (λ q. broken q read)
broken_spares read r = _

one_after_other-IsMixing : IsMixing one_after_other
one_after_other-IsMixing = λ P ks js. All-append P ks js

stack-request_id_example : IsIn (id_of (bytes "uuid") request) (head.header request_id_header)
stack-request_id_example =
    stack-request_id (λ e. e.message) (λ n. []) (λ p. info) none new_client (bytes "uuid") (pos 0)
      one_after_other (pos 10) broken [] request head one_after_other-IsMixing broken_spares
      out_head.0
