-- ===== src/Middleware/Stack.antt =====
-- The stack of middleware, and the identifier that every response carries.
use gateway_core.Base.{
  ℕ, ◌≡◌, refl, List, ◌∷◌, ◌++◌, Option, some, Bool-cases, inl, inr, All, All-append,
}
use gateway_core.Base.Int.{ℤ, pos, leb_ℤ}
use gateway_core.Base.Bytes.{Bytes, bytes}
use gateway_core.Http.{
  Request, Head, Call, Client, sets_header, new_client, client_calls, header_set,
}
use gateway_core.Http.Errors.{ErrorResponse, internal_error, deadline_exceeded}
use gateway_core.Gateway.{LogLevel}
use gateway_core.Middleware.{
  Handler, request_id_header, id_of, request_id, security_headers, default_cors_config, cors,
  body_limit, deadline, recovery,
}
use gateway_core.Middleware.Headers.{
  IsIn, Spares, SparesId, IsMarked, calls-IsMarked, set-IsMarked, security_headers-SparesId,
  cors-SparesId, write_json-Spares, body_limit-SparesId,
}
use gateway_core.Middleware.Logging.Record.{LoggingConfig, BodyHandler, logging}
use gateway_core.Middleware.Logging.Capture.{logging_passes}

-- A run of `Deadline` makes the calls of the handler and of its answer, and no others.
abbrev pub IsMixing : ((handler timed_out : List Call) → List Call) → Type 1
IsMixing order = (P : Call → Type 0) (ks js : List Call) → All P ks → All P js → All P (order ks js)

module _ (marshal : ErrorResponse → Bytes) (status_text : ℕ → Bytes) where
  -- The stack of `NewGateway` from the outside in, for a request with a body. `inner` is the limiter
  -- with what is behind it, and `w` the writer as `Logging` finds it.
  unfoldable pub stack :
      (Bytes → LogLevel)
      → Option LoggingConfig
      → (w : Client) → (uuid : Bytes) → (timeout : ℤ)
      → (order : (handler timed_out : List Call) → List Call) → (max_bytes : ℤ) → BodyHandler
      → (body : Bytes) → Handler
  stack level cfg w uuid timeout order max_bytes inner body = recovery marshal status_text (
      request_id uuid (
        deadline marshal status_text timeout order (
          security_headers (λ r.
            (logging level cfg w
              (λ s read.
                cors default_cors_config
                  (body_limit marshal status_text max_bytes (λ q. inner q read)) s)
              r body).0))))

  marked :
      (id : Bytes) (ks : List Call)
      → All (Spares request_id_header) ks
      → IsMarked request_id_header id
          (client_calls (sets_header request_id_header id ∷ ks) new_client)
  unfolding client_calls
  marked id ks s =
      calls-IsMarked request_id_header id ks _ s (set-IsMarked request_id_header id new_client refl)

  recovered :
      (uuid : Bytes) (next : Handler) (r : Request)
      → SparesId next
      → IsMarked request_id_header
          (id_of uuid r)
          (client_calls (recovery marshal status_text (request_id uuid next) r).calls new_client)
  unfolding recovery request_id
  recovered uuid next r s =
      let r' = record r { header = header_set request_id_header (id_of uuid r) r.header } in
      elim (Bool-cases (next r').panics) [
        | inl e ↦
            rw (e, recovery)
              (marked (id_of uuid r) ((next r').calls ++ _) (
                All-append (Spares request_id_header) (next r').calls _ (s r') (
                  write_json-Spares marshal status_text (record r { header = (next r').header }) 500
                    internal_error (bytes "an unexpected error occurred"))))
        | inr e ↦ rw (e, recovery) (marked (id_of uuid r) (next r').calls (s r'))
      ]

  deadline-SparesId :
      (timeout : ℤ) (order : (handler timed_out : List Call) → List Call) (next : Handler)
      → IsMixing order
      → SparesId next
      → SparesId (deadline marshal status_text timeout order next)
  unfolding deadline
  deadline-SparesId timeout order next mix s r = elim (Bool-cases (leb_ℤ timeout (pos 0))) [
    | inl e ↦ rw (e, deadline) (s r)
    | inr e ↦
        rw (e, deadline)
          (mix (Spares request_id_header) (next r).calls _ (s r) (
            write_json-Spares marshal status_text r 504 deadline_exceeded
              (bytes "global request deadline exceeded")))
  ]

  -- Whatever the handler behind the stack does, panics included, and however the global timeout comes
  -- between its calls, a response that is sent carries the identifier that the request came with, or
  -- the new one if it came with none, as long as the handler neither replaces that header nor takes it
  -- away. A preflight request and a body that is too large are no exception.
  pub stack-request_id :
      (level : Bytes → LogLevel) (cfg : Option LoggingConfig) (w : Client) (uuid : Bytes)
      (timeout : ℤ) (order : (handler timed_out : List Call) → List Call) (max_bytes : ℤ)
      (inner : BodyHandler) (body : Bytes) (r : Request) (h : Head)
      → IsMixing order
      → ((read : Bytes) → SparesId (λ q. inner q read))
      → (client_calls
          (stack level cfg w uuid timeout order max_bytes inner body r).calls
          new_client).sent
        ≡ some h
      → IsIn (id_of uuid r) (h.header request_id_header)
  unfolding stack
  stack-request_id level cfg w uuid timeout order max_bytes inner body r h mix s e =
      let shared : BodyHandler = λ q read.
        cors default_cors_config (body_limit marshal status_text max_bytes (λ p. inner p read)) q in
      let logged : SparesId (λ q. (logging level cfg w shared q body).0) = λ q.
        rw (logging_passes level cfg w shared q body).0 (
          cors-SparesId default_cors_config _
            (body_limit-SparesId marshal status_text max_bytes (λ p. inner p body) (s body)) q) in
      let timed = deadline-SparesId timeout order _ mix (security_headers-SparesId _ logged) in
      (recovered uuid _ r timed).sent h e
