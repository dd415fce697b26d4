-- ===== src/Middleware/Logging/Capture.antt =====
-- What logging leaves of a request and its response.
use mathlib.Core.List.{append_assoc, append-nil}
use gateway_core.Base.{
  ℕ, zero, suc, ◌+◌, ◌-◌, ◌≤◌, ◌<◌, ◌≡◌, refl, sym, ap, ◌∙◌, inl, inr, true, false, not, ◌&&◌,
  Bool-cases, List, [], ◌∷◌, ◌++◌, Option, none, some, ltb, if◌then◌else◌, length, take, drop,
  take_all, length-take, length-append, arith, All-append, lt→ltb, ◌==◌,
}
use gateway_core.Base.Int.{pos, ◌-ℤ◌, ltb_ℤ, leb_ℤ}
use gateway_core.Base.Bytes.{Bytes, bytes, same_bytes}
use gateway_core.Http.{
  Request, Call, adds_header, sets_header, drops_headers, writes_header, writes, Client,
  client_call, client_calls, header_get,
}
use gateway_core.Gateway.{LogLevel}
use gateway_core.Middleware.Logging.{redact_sensitive, quote}
use gateway_core.Middleware.Logging.Matching.{Unquoted, is_sensitive, has_quote-Unquoted}
use gateway_core.Middleware.Logging.Redact.{hidden, redact_sensitive-hidden}
use gateway_core.Middleware.Logging.Record.{
  LoggingConfig, BodyCapture, capture_write, Recorder, note_type, record_call, record_calls,
  should_log_body, capture_request_body, LogEntry, BodyHandler, logs_body, max_body, new_recorder,
  response_body, is_none, logging, read_request, log_entry,
}

record_call-writer : (k : Call) (r : Recorder) → (record_call k r).writer ≡ client_call k r.writer
unfolding record_call
record_call-writer (adds_header k v) r = refl
record_call-writer (sets_header k v) r = refl
record_call-writer (drops_headers p) r = refl
record_call-writer (writes_header code) r = refl
record_call-writer (writes b) r = refl

record_calls-writer :
    (ks : List Call) (r : Recorder) → (record_calls ks r).writer ≡ client_calls ks r.writer
unfolding record_calls client_calls
record_calls-writer [] r = refl
record_calls-writer (k ∷ ks) r =
    record_calls-writer ks (record_call k r) ∙ ap (client_calls ks) (record_call-writer k r)

take-drop : (n : ℕ) (s : Bytes) → take n s ++ drop n s ≡ s
take-drop zero s = refl
take-drop (suc n) [] = refl
take-drop (suc n) (c ∷ s) = rw (take-drop n s)

capture_request_body-body : (s : Bytes) (n : ℕ) → (capture_request_body s n).1 ≡ s
unfolding capture_request_body
capture_request_body-body s n = take-drop (n + 1) s

-- The bytes that a handler writes, and the last status that it names.
abbrev pub written : List Call → Bytes
written [] = []
written (writes b ∷ ks) = b ++ written ks
written (_ ∷ ks) = written ks

abbrev pub last_status : ℕ → List Call → ℕ
last_status code [] = code
last_status code (writes_header c ∷ ks) = last_status c ks
last_status code (_ ∷ ks) = last_status code ks

take-append : (n : ℕ) (x y : Bytes) → length x ≤ n → take n (x ++ y) ≡ x ++ take (n - length x) y
take-append n [] y h = let e : n - 0 ≡ n = omega arith in rw e
take-append zero (c ∷ x) y h = elim h [ ]
take-append (suc n) (c ∷ x) y h =
    let e : suc n - suc (length x) ≡ n - length x = omega arith in
    rw (e, take-append n x y (omega arith))

take-take-append : (n : ℕ) (x y : Bytes) → take n (take n x ++ y) ≡ take n (x ++ y)
take-take-append zero x y = refl
take-take-append (suc n) [] y = refl
take-take-append (suc n) (c ∷ x) y = rw (take-take-append n x y)

-- A capture that holds the first bytes of what has been written.
abbrev captured : (limit : ℕ) → (s content_type : Bytes) → BodyCapture
captured n s ct = record { buf = take n s; max_bytes = pos n; content_type = ct }

remaining : (n l : ℕ) → l ≤ n → pos n -ℤ pos l ≡ pos (n - l)
unfolding ◌-ℤ◌
remaining n l h = ground arith

take-if : (m : ℕ) (p : Bytes) → (if ltb_ℤ (pos m) (pos (length p)) then take m p else p) ≡ take m p
take-if m p = elim (Bool-cases (ltb_ℤ (pos m) (pos (length p)))) [
  | inl e ↦ rw e
  | inr e ↦ rw e (sym (take_all m p (ground arith)))
]

capture_write-captured :
    (p s ct : Bytes) (n : ℕ) → capture_write p (captured n s ct) ≡ captured n (s ++ p) ct
unfolding capture_write
capture_write-captured p s ct n =
    let fits : length (take n s) ≤ n = omega (arith, length-take n s) in
    let m = n - length (take n s) in
    let more : take n s ++ take m p ≡ take n (s ++ p) =
      sym (take-append n (take n s) p fits) ∙ take-take-append n s p in
    elim (Bool-cases (leb_ℤ (pos m) (pos 0))) [
      | inl e ↦
          let none_left : m ≡ 0 = ground arith in
          let same : take n s ++ take m p ≡ take n s = rw (none_left, append-nil) in
          let full : take n s ≡ take n (s ++ p) = sym same ∙ more in
          rw (remaining n (length (take n s)) fits, e)
            (ap (λ b. record { buf = b; max_bytes = pos n; content_type = ct }) full)
      | inr e ↦ rw (remaining n (length (take n s)) fits, e, take-if m p, more)
    ]

-- The content type that the header has at the first write of a status or of bytes, none before it.
abbrev pub type_at_write : Client → List Call → Bytes
type_at_write w [] = []
type_at_write w (writes_header code ∷ ks) = header_get (bytes "Content-Type") w.header
type_at_write w (writes b ∷ ks) = header_get (bytes "Content-Type") w.header
type_at_write w (k ∷ ks) = type_at_write (client_call k w) ks

-- The content type of a capture is settled at the first write.
record_calls-typed :
    (ks : List Call) (r : Recorder) (n : ℕ) (s ct : Bytes)
    → r.header_written ≡ true
    → r.capture ≡ some (captured n s ct)
    → (record_calls ks r).capture ≡ some (captured n (s ++ written ks) ct)
unfolding record_calls record_call note_type
record_calls-typed [] r n s ct h e = rw append-nil e
record_calls-typed (adds_header k v ∷ ks) r n s ct h e = record_calls-typed ks _ n s ct h e
record_calls-typed (sets_header k v ∷ ks) r n s ct h e = record_calls-typed ks _ n s ct h e
record_calls-typed (drops_headers p ∷ ks) r n s ct h e = record_calls-typed ks _ n s ct h e
record_calls-typed (writes_header code ∷ ks) r n s ct h e =
    record_calls-typed ks (record_call (writes_header code) r) n s ct refl
      (rw (record_call, e, h, note_type) refl)
record_calls-typed (writes b ∷ ks) r n s ct h e = rw (← append_assoc s b (written ks)) (
    record_calls-typed ks (record_call (writes b) r) n (s ++ b) ct refl
      (rw (record_call, e, h, note_type, capture_write-captured b s ct n) refl))

record_calls-captured :
    (ks : List Call) (r : Recorder) (n : ℕ) (s : Bytes)
    → r.header_written ≡ false
    → r.capture ≡ some (captured n s [])
    → (record_calls ks r).capture ≡ some (captured n (s ++ written ks) (type_at_write r.writer ks))
unfolding record_calls record_call note_type
record_calls-captured [] r n s h e = rw append-nil e
record_calls-captured (adds_header k v ∷ ks) r n s h e = record_calls-captured ks _ n s h e
record_calls-captured (sets_header k v ∷ ks) r n s h e = record_calls-captured ks _ n s h e
record_calls-captured (drops_headers p ∷ ks) r n s h e = record_calls-captured ks _ n s h e
record_calls-captured (writes_header code ∷ ks) r n s h e =
    record_calls-typed ks (record_call (writes_header code) r) n s _ refl
      (rw (record_call, e, h, note_type) refl)
record_calls-captured (writes b ∷ ks) r n s h e =
    let ct = header_get (bytes "Content-Type") r.writer.header in
    rw (← append_assoc s b (written ks)) (
      record_calls-typed ks (record_call (writes b) r) n (s ++ b) ct refl
        (rw (record_call, e, h, note_type, capture_write-captured b s ct n) refl))

record_calls-status :
    (ks : List Call) (r : Recorder) → (record_calls ks r).status_code ≡ last_status r.status_code ks
unfolding record_calls record_call
record_calls-status [] r = refl
record_calls-status (adds_header k v ∷ ks) r = record_calls-status ks _
record_calls-status (sets_header k v ∷ ks) r = record_calls-status ks _
record_calls-status (drops_headers p ∷ ks) r = record_calls-status ks _
record_calls-status (writes_header code ∷ ks) r = record_calls-status ks _
record_calls-status (writes b ∷ ks) r = record_calls-status ks _

recorded-captured :
    (cfg : Option LoggingConfig) (w : Client) (ks : List Call)
    → logs_body cfg ≡ true
    → (record_calls ks (new_recorder cfg w)).capture
      ≡ some (captured (max_body cfg) (written ks) (type_at_write w ks))
unfolding new_recorder
recorded-captured cfg w ks e =
    let empty : take {A = ℕ} (max_body cfg) [] ≡ [] = take_all (max_body cfg) [] (omega arith) in
    record_calls-captured ks (new_recorder cfg w) (max_body cfg) [] refl
      (rw (new_recorder, e, empty))

-- What is logged of a response body with a content type.
abbrev pub shown : (content_type taken : Bytes) → Option Bytes
shown ct taken =
    if should_log_body ct && not (same_bytes taken []) then some (redact_sensitive taken) else none

read_request-body :
    (cfg : Option LoggingConfig) (r : Request) (body : Bytes) → (read_request cfg r body).1 ≡ body
unfolding read_request
read_request-body cfg r body =
    elim (Bool-cases (
      logs_body cfg
      && (should_log_body (header_get (bytes "Content-Type") r.header) && r.has_body))) [
        | inl e ↦ rw (read_request, e) (capture_request_body-body body (max_body cfg))
        | inr e ↦ rw (read_request, e)
      ]

module _ (level : Bytes → LogLevel) (cfg : Option LoggingConfig) (w : Client) (next : BodyHandler)
    (r : Request) (body : Bytes) where
  -- Whatever is logged, the answer is the one of the next handler on the whole body, and the recorders
  -- leave the client as the calls alone would have left it.
  pub logging_passes :
      ((logging level cfg w next r body).0 ≡ next r body)
      × ((record_calls (next r body).calls (new_recorder cfg w)).writer
          ≡ client_calls (next r body).calls w)
  unfolding logging new_recorder
  logging_passes = (
    elim (Bool-cases (is_none (level r.path))) [
      | inl e ↦ rw (logging, e)
      | inr e ↦ rw (logging, e) (ap (next r) (read_request-body cfg r body))
    ],
    record_calls-writer (next r body).calls (new_recorder cfg w),
  )

  -- With body logging, the line of a handler that does not panic, on a path whose level is not none,
  -- has the last status that the handler names, or 200. Of the response it has the redaction of the
  -- first bytes that are written, as many as the limit, if there are any and the content type that the
  -- header has at the first write is one to be logged, as is a missing one; and nothing else.
  pub logging_records :
      is_none (level r.path) ≡ false
      → logs_body cfg ≡ true
      → (next r body).panics ≡ false
      → (entry : LogEntry) × ((logging level cfg w next r body).1 ≡ some entry)
        × (entry.status ≡ last_status 200 (next r body).calls)
        × (entry.response_body
            ≡ shown
                (type_at_write w (next r body).calls)
                (take (max_body cfg) (written (next r body).calls)))
  unfolding logging log_entry new_recorder response_body
  logging_records quiet on ok =
      let a = next r body in
      let e = recorded-captured cfg w a.calls on in
      (
        log_entry (level r.path) cfg w r body a,
        rw (logging, quiet, read_request-body cfg r body, ok),
        record_calls-status a.calls (new_recorder cfg w),
        rw (log_entry, e, response_body),
      )

take-length-add : (x y : Bytes) (k : ℕ) → take (length x + k) (x ++ y) ≡ x ++ take k y
take-length-add x y k =
    let e : length x + k - length x ≡ k = omega arith in
    take-append (length x + k) x y (omega arith) ∙ ap (λ n. x ++ take n y) e

take-take_suc : (n : ℕ) (s : Bytes) → take n (take (n + 1) s) ≡ take n s
take-take_suc zero s = refl
take-take_suc (suc n) [] = let e : suc n + 1 ≡ suc (n + 1) = omega arith in rw e
take-take_suc (suc n) (c ∷ s) =
    let e : suc n + 1 ≡ suc (n + 1) = omega arith in rw (e, take-take_suc n s)

take-append_le : (k : ℕ) (x y : Bytes) → k ≤ length x → take k (x ++ y) ≡ take k x
take-append_le zero x y h = refl
take-append_le (suc k) [] y h = elim h [ ]
take-append_le (suc k) (c ∷ x) y h = rw (take-append_le k x y (omega arith))

Unquoted-append : (x y : Bytes) → Unquoted x → Unquoted y → Unquoted (x ++ y)
Unquoted-append x y h k = All-append (λ c. (c == quote) ≡ false) x y h k

Unquoted-take : (k : ℕ) (x : Bytes) → Unquoted x → Unquoted (take k x)
Unquoted-take zero x h = tt
Unquoted-take (suc k) [] h = tt
Unquoted-take (suc k) (c ∷ x) h = (h.0, Unquoted-take k x h.1)

-- A body that is longer than the limit.
capture_request_body-truncated :
    (s : Bytes) (n : ℕ)
    → n < length s
    → (capture_request_body s n).0 ≡ redact_sensitive (take n s ++ bytes "...[truncated]")
unfolding capture_request_body
capture_request_body-truncated s n h =
    let e : ltb n (length (take (n + 1) s)) ≡ true =
      lt→ltb n _ (omega (arith, length-take (n + 1) s)) in
    rw (capture_request_body, e, take-take_suc n s)

-- A request body that is cut off inside the value of a member is logged with the bytes of the value
-- that the limit leaves, whatever the member's name, a sensitive one included. In front of the member
-- stands text without quotes, and between name and value no sensitive word.
pub capture_request_body-leaks :
    (front name gap value more : Bytes) (k : ℕ)
    → Unquoted front
    → Unquoted name
    → Unquoted gap
    → is_sensitive gap ≡ false
    → Unquoted value
    → k < length value
    → (capture_request_body
        (front ++ quote ∷ (name ++ quote ∷ (gap ++ quote ∷ (value ++ more))))
        (length (front ++ quote ∷ (name ++ quote ∷ (gap ++ quote ∷ []))) + k)).0
      ≡ front ++ quote ∷ (name ++ quote ∷ (gap ++ quote ∷ (take k value ++ bytes "...[truncated]")))
unfolding hidden
capture_request_body-leaks front name gap value more k hf hn hg word hv short =
    let open_ = front ++ quote ∷ (name ++ quote ∷ (gap ++ quote ∷ [])) in
    let whole : front ++ quote ∷ (name ++ quote ∷ (gap ++ quote ∷ (value ++ more)))
        ≡ open_ ++ (value ++ more) =
      simp append_assoc in
    let long : length open_ + k < length (open_ ++ (value ++ more)) =
      omega (arith, length-append open_ (value ++ more), length-append value more) in
    let end = take k value ++ bytes "...[truncated]" in
    let closed : Unquoted end =
      Unquoted-append (take k value) (bytes "...[truncated]") (Unquoted-take k value hv)
        (has_quote-Unquoted (bytes "...[truncated]") refl) in
    let flat : (open_ ++ take k value) ++ bytes "...[truncated]"
        ≡ front ++ quote ∷ (name ++ quote ∷ (gap ++ quote ∷ end)) =
      simp append_assoc in
    rw
      (
        whole,
        capture_request_body-truncated (open_ ++ (value ++ more)) (length open_ + k) long,
        take-length-add open_ (value ++ more) k,
        take-append_le k value more (omega arith),
      )
      (rw flat (
        redact_sensitive-hidden front ((name, gap) ∷ []) (some end) hf ((hn, (hg, word)), tt)
          closed))
