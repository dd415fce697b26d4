-- ===== src/Middleware/Headers.antt =====
-- The headers that every response carries.
use gateway_core.Base.{
  ℕ, ◌≡◌, refl, subst, ◌⊎◌, inl, inr, false, List, [], ◌∷◌, ◌++◌, none, some, Option-cases,
  Bool-cases, All, not, ◌||◌, ◌&&◌,
}
use mathlib.Core.Option.{some-injective}
use gateway_core.Base.Int.{ℤ, pos, ltb_ℤ, same_ℤ}
use gateway_core.Base.Bytes.{Bytes, bytes, same_bytes, same_bytes_refl}
use gateway_core.Http.{
  Request, Head, Call, adds_header, sets_header, drops_headers, writes_header, writes, Client,
  client_call, client_calls, client_write_header, client_write, header_set, header_add, header_drop,
  header_get, is_informational,
}
use gateway_core.Http.Errors.{ErrorResponse, ErrorCode, write_json, body_too_large}
use gateway_core.Middleware.{
  Handler, request_id_header, security_headers, CorsConfig, cors, body_limit,
}

abbrev pub IsIn : Bytes → List Bytes → Type 0
IsIn v [] = ⊥
IsIn v (x ∷ xs) = (v ≡ x) ⊎ IsIn v xs

IsIn-append : (v : Bytes) (xs ys : List Bytes) → IsIn v xs → IsIn v (xs ++ ys)
IsIn-append v [] ys h = elim h [ ]
IsIn-append v (x ∷ xs) ys h = elim h [ inl e ↦ inl e | inr i ↦ inr (IsIn-append v xs ys i) ]

-- The call neither replaces the values under `k` nor takes them away.
abbrev pub Spares : Bytes → Call → Type 0
Spares k (sets_header j v) = same_bytes k j ≡ false
Spares k (drops_headers p) = p k ≡ false
Spares k _ = Unit

-- The value stands in the header map, and in the header that has left.
pub record IsMarked (k v : Bytes) (c : Client) : Type 0 where
  pub ahead : IsIn v (c.header k)
  pub sent : (h : Head) → c.sent ≡ some h → IsIn v (h.header k)

write_header-IsMarked :
    (k v : Bytes) (code : ℕ) (c : Client)
    → IsMarked k v c
    → IsMarked k v (client_write_header code c)
unfolding client_write_header
write_header-IsMarked k v code c m = elim (Option-cases c.sent) [
  | inr (h, e) ↦ rw (e, client_write_header) m
  | inl e ↦ elim (Bool-cases (is_informational code)) [
    | inl t ↦ rw (e, t, client_write_header) m
    | inr t ↦
        rw (e, t, client_write_header)
          (record {
            ahead = m.ahead;
            sent = λ h f. subst (λ (x : Head). IsIn v (x.header k)) (some-injective _ h f) m.ahead;
          })
  ]
]

call-IsMarked :
    (k v : Bytes) (d : Call) (c : Client)
    → Spares k d
    → IsMarked k v c
    → IsMarked k v (client_call d c)
unfolding client_call client_write header_set header_add header_drop
call-IsMarked k v (adds_header j w) c s m = elim (Bool-cases (same_bytes k j)) [
  | inl e ↦ record { ahead = rw e (IsIn-append v (c.header k) (w ∷ []) m.ahead); sent = m.sent }
  | inr e ↦ record { ahead = rw e m.ahead; sent = m.sent }
]
call-IsMarked k v (sets_header j w) c s m = record { ahead = rw s m.ahead; sent = m.sent }
call-IsMarked k v (drops_headers p) c s m = record { ahead = rw s m.ahead; sent = m.sent }
call-IsMarked k v (writes_header code) c s m = write_header-IsMarked k v code c m
call-IsMarked k v (writes b) c s m =
    let n = write_header-IsMarked k v 200 c m in record { ahead = n.ahead; sent = n.sent }

pub calls-IsMarked :
    (k v : Bytes) (ks : List Call) (c : Client)
    → All (Spares k) ks
    → IsMarked k v c
    → IsMarked k v (client_calls ks c)
unfolding client_calls
calls-IsMarked k v [] c s m = m
calls-IsMarked k v (d ∷ ks) c s m =
    calls-IsMarked k v ks (client_call d c) s.1 (call-IsMarked k v d c s.0 m)

pub set-IsMarked :
    (k v : Bytes) (c : Client) → c.sent ≡ none → IsMarked k v (client_call (sets_header k v) c)
unfolding client_call header_set
set-IsMarked k v c e = record { ahead = rw (same_bytes_refl k) (inl refl); sent = λ h f. cc }

-- A handler that neither replaces the identifier of the request nor takes it away.
abbrev pub SparesId : Handler → Type 0
SparesId next = (r : Request) → All (Spares request_id_header) (next r).calls

pub security_headers-SparesId : (next : Handler) → SparesId next → SparesId (security_headers next)
unfolding security_headers
security_headers-SparesId next s r =
    let https =
      r.over_tls || same_bytes (header_get (bytes "X-Forwarded-Proto") r.header) (bytes "https") in
    elim (Bool-cases https) [
      | inl e ↦ rw (e, security_headers) (refl, (refl, (refl, (refl, s r))))
      | inr e ↦ rw (e, security_headers) (refl, (refl, (refl, s r)))
    ]

pub cors-SparesId : (cfg : CorsConfig) (next : Handler) → SparesId next → SparesId (cors cfg next)
unfolding cors
cors-SparesId cfg next s r =
    elim (Bool-cases (same_bytes (header_get (bytes "Origin") r.header) [])) [
      | inl e ↦ elim (Bool-cases (same_bytes r.method (bytes "OPTIONS"))) [
        | inl o ↦ rw (e, o, cors) (_, _)
        | inr o ↦ rw (e, o, cors) (s r)
      ]
      | inr e ↦ elim (Bool-cases (same_bytes r.method (bytes "OPTIONS"))) [
        | inl o ↦ rw (e, o, cors) (refl, (refl, (refl, (refl, (_, _)))))
        | inr o ↦ rw (e, o, cors) (refl, (refl, (refl, (refl, s r))))
      ]
    ]

module _ (marshal : ErrorResponse → Bytes) (status_text : ℕ → Bytes) where
  pub write_json-Spares :
      (r : Request) (status : ℕ) (code : ErrorCode) (message : Bytes)
      → All (Spares request_id_header) (write_json marshal status_text r status code message)
  unfolding write_json
  write_json-Spares r status code message = (refl, (_, (_, _)))

  pub body_limit-SparesId :
      (max_bytes : ℤ) (next : Handler)
      → SparesId next
      → SparesId (body_limit marshal status_text max_bytes next)
  unfolding body_limit
  body_limit-SparesId max_bytes next s r = elim (Bool-cases (ltb_ℤ max_bytes r.content_length)) [
    | inl e ↦ rw (e, body_limit) (write_json-Spares r 413 body_too_large _)
    | inr e ↦ elim (Bool-cases (r.has_body && not (same_ℤ r.content_length (pos 0)))) [
      | inl t ↦ rw (e, t, body_limit) (s (record r { body_cap = some max_bytes }))
      | inr t ↦ rw (e, t, body_limit) (s r)
    ]
  ]
