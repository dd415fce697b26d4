-- ===== src/Proxy/Writers/Replay.antt =====
-- A buffered response that is replayed is the one that the backend would have written to the client.
use mathlib.Core.List.{append_assoc, append-nil}
use gateway_core.Base.{
  ℕ, ◌≤◌, ◌≡◌, refl, sym, ap, ◌∙◌, subst, true, false, List, [], ◌∷◌, ◌++◌, none, some,
  if◌then◌else◌, arith, Bool-cases, inl, inr,
}
use gateway_core.Base.Bytes.{Bytes, same_bytes, same_bytes_iff}
use gateway_core.Http.{
  Header, no_header, header_set, header_add, Client, Head, client_write_header, client_write, Call,
  adds_header, sets_header, drops_headers, writes_header, writes, is_informational,
}
use gateway_core.Proxy.Writers.{
  ResponseRecorder, new_recorder, recorder_write_header, recorder_write, with_header,
  latency_header, LatencyWriter, stamp, latency_write_header, latency_write, latency_call,
  latency_calls, ResponseBuffer, buffer_reset, buffer_write_header, buffer_write, buffer_call,
  buffer_calls, header_add_all, replay_to,
}

-- Writes of the body alone.
abbrev pub IsBody : List Call → Type 0
IsBody [] = Unit
IsBody (writes b ∷ ks) = IsBody ks
IsBody (_ ∷ ks) = ⊥

-- A response as a reverse proxy writes it: the backend's headers, without one of the gateway's own
-- name, then one status, which is final, then the body.
abbrev pub IsPlain : List Call → Type 0
IsPlain (adds_header k v ∷ ks) = (same_bytes latency_header k ≡ false) × IsPlain ks
IsPlain (writes_header code ∷ ks) = (200 ≤ code) × IsBody ks
IsPlain _ = ⊥

abbrev body_of : List Call → Bytes
body_of [] = []
body_of (writes b ∷ ks) = b ++ body_of ks
body_of (_ ∷ ks) = body_of ks

abbrev status_of : List Call → ℕ
status_of [] = 200
status_of (writes_header code ∷ ks) = code
status_of (_ ∷ ks) = status_of ks

-- The header after the additions to `h`.
abbrev added : List Call → Header → Header
added [] h = h
added (adds_header k v ∷ ks) h = added ks (header_add k v h)
added (_ ∷ ks) h = h

buffer_calls-IsBody :
    (ks : List Call) (b : ResponseBuffer)
    → IsBody ks
    → b.written ≡ true
    → buffer_calls ks b ≡ record b { body = b.body ++ body_of ks }
unfolding buffer_calls buffer_call buffer_write
buffer_calls-IsBody [] b h w = ap (λ x. record b { body = x }) (sym (append-nil b.body))
buffer_calls-IsBody (writes p ∷ ks) b h w =
    let one : buffer_write p b ≡ record b { body = b.body ++ p } = ground arith in
    ap (buffer_calls ks) one
    ∙ buffer_calls-IsBody ks (record b { body = b.body ++ p }) h w
    ∙ ap (λ x. record b { body = x }) (append_assoc b.body p (body_of ks))
buffer_calls-IsBody (adds_header _ _ ∷ ks) b h w = elim h [ ]
buffer_calls-IsBody (sets_header _ _ ∷ ks) b h w = elim h [ ]
buffer_calls-IsBody (drops_headers _ ∷ ks) b h w = elim h [ ]
buffer_calls-IsBody (writes_header _ ∷ ks) b h w = elim h [ ]

-- A writer whose status has left.
abbrev sent_by : Bytes → Client → Head → ℕ → LatencyWriter
sent_by elapsed c head status = record {
  recorder = record {
    client = record c { sent = some head };
    status_code = status;
    written = true;
  };
  elapsed = elapsed;
  written = true;
}

latency_calls-IsBody :
    (ks : List Call) (elapsed : Bytes) (c : Client) (head : Head) (status : ℕ)
    → IsBody ks
    → latency_calls ks (sent_by elapsed c head status)
      ≡ sent_by elapsed (record c { body = c.body ++ body_of ks }) head status
unfolding latency_calls latency_call latency_write stamp recorder_write client_write
    client_write_header
latency_calls-IsBody [] elapsed c head status h =
    ap (λ x. sent_by elapsed (record c { body = x }) head status) (sym (append-nil c.body))
latency_calls-IsBody (writes p ∷ ks) elapsed c head status h =
    latency_calls-IsBody ks elapsed (record c { body = c.body ++ p }) head status h
    ∙ ap (λ x. sent_by elapsed (record c { body = x }) head status)
        (append_assoc c.body p (body_of ks))
latency_calls-IsBody (adds_header _ _ ∷ ks) elapsed c head status h = elim h [ ]
latency_calls-IsBody (sets_header _ _ ∷ ks) elapsed c head status h = elim h [ ]
latency_calls-IsBody (drops_headers _ ∷ ks) elapsed c head status h = elim h [ ]
latency_calls-IsBody (writes_header _ ∷ ks) elapsed c head status h = elim h [ ]

header_add-add_all :
    (k v : Bytes) (h g : Header)
    → header_add k v (header_add_all h g) ≡ header_add_all h (header_add k v g)
unfolding header_add header_add_all
header_add-add_all k v h g = λ i j. at j i
  where
    at :
        (j : Bytes)
        → (if same_bytes j k then (h j ++ g j) ++ v ∷ [] else h j ++ g j)
          ≡ h j ++ (if same_bytes j k then g j ++ v ∷ [] else g j)
    at j = elim (Bool-cases (same_bytes j k)) [
      | inl e ↦ rw e (append_assoc (h j) (g j) (v ∷ []))
      | inr e ↦ rw e refl
    ]

added-add_all :
    (ks : List Call) (h g : Header) → added ks (header_add_all h g) ≡ header_add_all h (added ks g)
added-add_all [] h g = refl
added-add_all (adds_header k v ∷ ks) h g =
    ap (added ks) (header_add-add_all k v h g) ∙ added-add_all ks h (header_add k v g)
added-add_all (sets_header _ _ ∷ ks) h g = refl
added-add_all (drops_headers _ ∷ ks) h g = refl
added-add_all (writes_header _ ∷ ks) h g = refl
added-add_all (writes _ ∷ ks) h g = refl

-- The gateway's own header is not added to.
added_latency :
    (ks : List Call) (h : Header) → IsPlain ks → added ks h latency_header ≡ h latency_header
unfolding header_add
added_latency (adds_header k v ∷ ks) h p = added_latency ks (header_add k v h) p.1 ∙ rw p.0 refl
added_latency (writes_header code ∷ ks) h p = refl
added_latency [] h p = elim p [ ]
added_latency (sets_header _ _ ∷ ks) h p = elim p [ ]
added_latency (drops_headers _ ∷ ks) h p = elim p [ ]
added_latency (writes _ ∷ ks) h p = elim p [ ]

add_all_no_header : (h : Header) → header_add_all h no_header ≡ h
unfolding header_add_all
add_all_no_header h = λ i j. append-nil (h j) i

-- Setting the gateway's header before the additions or after them is the same.
header_set-added :
    (ks : List Call) (elapsed : Bytes) (h : Header)
    → IsPlain ks
    → header_add_all (header_set latency_header elapsed h) (added ks no_header)
      ≡ header_set latency_header elapsed (added ks h)
unfolding header_set header_add_all
header_set-added ks elapsed h p = λ i j. at j i
  where
    all : added ks h ≡ (λ j. h j ++ added ks no_header j)
    all = ap (added ks) (sym (add_all_no_header h)) ∙ added-add_all ks h no_header

    at :
        (j : Bytes)
        → (if same_bytes j latency_header then elapsed ∷ [] else h j) ++ added ks no_header j
          ≡ (if same_bytes j latency_header then elapsed ∷ [] else added ks h j)
    at j = elim (Bool-cases (same_bytes j latency_header)) [
      | inl e ↦
          let own : j ≡ latency_header = (same_bytes_iff j latency_header).0 e in
          let none_added : added ks no_header j ≡ [] =
            subst (λ x. added ks no_header x ≡ []) (sym own) (added_latency ks no_header p) in
          rw (e, none_added) refl
      | inr e ↦ rw e (sym (ap (λ f. f j) all))
    ]

buffer_calls-IsPlain :
    (ks : List Call) (h : Header)
    → IsPlain ks
    → buffer_calls ks (record { header = h; body = []; status_code = 200; written = false })
      ≡ record {
        header = added ks h;
        body = body_of ks;
        status_code = status_of ks;
        written = true;
      }
unfolding buffer_calls buffer_call buffer_write_header
buffer_calls-IsPlain (adds_header k v ∷ ks) h p = buffer_calls-IsPlain ks (header_add k v h) p.1
buffer_calls-IsPlain (writes_header code ∷ ks) h p = buffer_calls-IsBody ks _ p.1 refl
buffer_calls-IsPlain [] h p = elim p [ ]
buffer_calls-IsPlain (sets_header _ _ ∷ ks) h p = elim p [ ]
buffer_calls-IsPlain (drops_headers _ ∷ ks) h p = elim p [ ]
buffer_calls-IsPlain (writes _ ∷ ks) h p = elim p [ ]

abbrev pub fresh : Header → Bytes → Client
fresh h b = record { header = h; sent = none; body = b }

-- The recorder after a response with the header `h`.
abbrev answered : Header → ℕ → Bytes → ResponseRecorder
answered h status b = record {
  client = record { header = h; sent = some (record { status = status; header = h }); body = b };
  status_code = status;
  written = true;
}

first_status :
    (elapsed b : Bytes) (h : Header) (code : ℕ)
    → 200 ≤ code
    → latency_write_header code
        (record { recorder = new_recorder (fresh h b); elapsed = elapsed; written = false })
      ≡ sent_by elapsed
          (fresh (header_set latency_header elapsed h) b)
          (record { status = code; header = header_set latency_header elapsed h })
          code
unfolding latency_write_header stamp recorder_write_header client_write_header new_recorder
first_status elapsed b h code p =
    let final : is_informational code ≡ false = ground arith in rw (final, client_write_header) refl

latency_calls-IsPlain :
    (ks : List Call) (elapsed b : Bytes) (h : Header)
    → IsPlain ks
    → (latency_calls ks (record {
      recorder = new_recorder (fresh h b);
      elapsed = elapsed;
      written = false;
    })).recorder
      ≡ answered (header_set latency_header elapsed (added ks h)) (status_of ks) (b ++ body_of ks)
unfolding latency_calls latency_call latency_write_header stamp recorder_write_header
    client_write_header new_recorder
latency_calls-IsPlain (adds_header k v ∷ ks) elapsed b h p =
    latency_calls-IsPlain ks elapsed b (header_add k v h) p.1
latency_calls-IsPlain (writes_header code ∷ ks) elapsed b h p =
    ap (λ lw. (latency_calls ks lw).recorder) (first_status elapsed b h code p.0)
    ∙ ap (λ lw. lw.recorder)
        (latency_calls-IsBody ks elapsed (fresh (header_set latency_header elapsed h) b)
          (record { status = code; header = header_set latency_header elapsed h }) code p.1)
latency_calls-IsPlain [] elapsed b h p = elim p [ ]
latency_calls-IsPlain (sets_header _ _ ∷ ks) elapsed b h p = elim p [ ]
latency_calls-IsPlain (drops_headers _ ∷ ks) elapsed b h p = elim p [ ]
latency_calls-IsPlain (writes _ ∷ ks) elapsed b h p = elim p [ ]

status_of-IsPlain : (ks : List Call) → IsPlain ks → 200 ≤ status_of ks
status_of-IsPlain (adds_header k v ∷ ks) p = status_of-IsPlain ks p.1
status_of-IsPlain (writes_header code ∷ ks) p = p.0
status_of-IsPlain [] p = elim p [ ]
status_of-IsPlain (sets_header _ _ ∷ ks) p = elim p [ ]
status_of-IsPlain (drops_headers _ ∷ ks) p = elim p [ ]
status_of-IsPlain (writes _ ∷ ks) p = elim p [ ]

replayed :
    (h : Header) (status : ℕ) (p b : Bytes)
    → 200 ≤ status
    → recorder_write p (recorder_write_header status (new_recorder (fresh h b)))
      ≡ answered h status (b ++ p)
unfolding recorder_write recorder_write_header client_write client_write_header new_recorder
replayed h status p b le = ap (recorder_write p) one
  where
    one : recorder_write_header status (new_recorder (fresh h b)) ≡ answered h status b
    one =
        let final : is_informational status ≡ false = ground arith in
        rw (final, client_write_header) refl

-- Buffering an attempt is transparent: a plain response that is buffered and then replayed leaves the
-- client, and the status that is recorded, exactly as if the backend had written to the client
-- through the latency writer, with the same text of the elapsed time.
pub replay_to-latency_calls :
    (ks : List Call) (elapsed b : Bytes) (h : Header) (used : ResponseBuffer)
    → IsPlain ks
    → replay_to
        (buffer_calls ks (buffer_reset used))
        (with_header (header_set latency_header elapsed h) (new_recorder (fresh h b)))
      ≡ (latency_calls ks (record {
        recorder = new_recorder (fresh h b);
        elapsed = elapsed;
        written = false;
      })).recorder
unfolding replay_to buffer_reset new_recorder header_add_all
replay_to-latency_calls ks elapsed b h used p =
    ap
      (λ x.
        replay_to x (with_header (header_set latency_header elapsed h) (new_recorder (fresh h b))))
      (buffer_calls-IsPlain ks no_header p)
    ∙ replayed (header_add_all (header_set latency_header elapsed h) (added ks no_header))
        (status_of ks) (body_of ks) b (status_of-IsPlain ks p)
    ∙ ap (λ x. answered x (status_of ks) (b ++ body_of ks)) (header_set-added ks elapsed h p)
    ∙ sym (latency_calls-IsPlain ks elapsed b h p)
