-- ===== src/Auth/Access.antt =====
-- Which requests the middleware lets through, and which it forbids.
use gateway_core.Base.{
  ◌≡◌, refl, sym, subst, ◌↔◌, Bool, true, Option, none, some, arith, All, Option-cases, inl, inr,
}
use gateway_core.Base.Bytes.{Bytes}
use gateway_core.Config.Types.{AuthConfig}
use gateway_core.Auth.{
  Claims, Token, SigningMethod, ParserOptions, extract_bearer_token, claims_of, first_missing,
  key_func, parser_options, validate_token, middleware, authenticated, forbidden, check_scopes,
  check_token, accepted, refused, missing_scope,
}
use gateway_core.Auth.Scopes.{IsGranted, first_missing-none, first_missing-some}

-- The claims are those that the token carries.
abbrev pub Carries : Token → Claims → Type 0
Carries t c = elim t.claims [ none ↦ ⊥ | some m ↦ c ≡ claims_of m ]

-- A valid token that carries the claims, among them every scope that is required.
abbrev pub Grants : AuthConfig → Option Token → Claims → Type 0
Grants cfg none c = ⊥
Grants cfg (some t) c = (t.valid ≡ true) × Carries t c × All (IsGranted c.scopes) cfg.scopes

-- A valid token that carries claims without the scope `s`, which is required.
abbrev pub Lacks : AuthConfig → Option Token → Bytes → Type 0
Lacks cfg none s = ⊥
Lacks cfg (some t) s =
    (t.valid ≡ true)
    × (c : Claims) × Carries t c
    × IsGranted cfg.scopes s
    × (¬ IsGranted c.scopes s)

check_scopes_accepted :
    (cfg : AuthConfig) (c d : Claims)
    → (check_scopes cfg c ≡ accepted d) ↔ ((d ≡ c) × All (IsGranted d.scopes) cfg.scopes)
check_scopes_accepted cfg c d = elim (Option-cases (first_missing c.scopes cfg.scopes)) [
  | inl e ↦
      let all = (first_missing-none c.scopes cfg.scopes).0 e in
      (
        λ h.
            let same : d ≡ c = ground arith in
            (same, subst (λ (x : Claims). All (IsGranted x.scopes) cfg.scopes) (sym same) all),
        λ (same, _). ground arith,
      )
  | inr (s, e) ↦ (
    λ h. absurd (ground arith),
    λ (same, all).
        let none_missing =
          (first_missing-none c.scopes cfg.scopes).1
            (subst (λ (x : Claims). All (IsGranted x.scopes) cfg.scopes) same all) in
        absurd (ground arith),
  )
]

check_scopes_refused :
    (cfg : AuthConfig) (c : Claims) (s : Bytes)
    → check_scopes cfg c ≡ refused (missing_scope s)
    → IsGranted cfg.scopes s × (¬ IsGranted c.scopes s)
check_scopes_refused cfg c s h = elim (Option-cases (first_missing c.scopes cfg.scopes)) [
  | inl e ↦ absurd (ground arith)
  | inr (r, e) ↦ first_missing-some c.scopes cfg.scopes s (ground arith)
]

module _ (parse : Bytes → (SigningMethod → Option Bytes) → ParserOptions → Option Token) where
  -- What the parser makes of a header's token, with the configured secret and options.
  abbrev pub presented : AuthConfig → Bytes → Option Token
  presented cfg authorization = elim (extract_bearer_token authorization) [
    | none ↦ none
    | some token ↦ parse token (key_func cfg) (parser_options cfg)
  ]

  check_token_accepted :
      (cfg : AuthConfig) (t : Token) (c : Claims)
      → (check_token parse cfg t ≡ accepted c) ↔ Grants cfg (some t) c
  check_token_accepted cfg t c = elim (Option-cases t.claims) [
    | inl e ↦ ground arith
    | inr (m, e) ↦ let scopes = check_scopes_accepted cfg (claims_of m) c in ground arith
  ]

  check_token_refused :
      (cfg : AuthConfig) (t : Token) (s : Bytes)
      → check_token parse cfg t ≡ refused (missing_scope s)
      → Lacks cfg (some t) s
  check_token_refused cfg t s h = elim (Option-cases t.claims) [
    | inl e ↦ absurd (ground arith)
    | inr (m, e) ↦
        let valid : t.valid ≡ true = ground arith in
        let (required, lacking) = check_scopes_refused cfg (claims_of m) s (ground arith) in
        (valid, claims_of m, rw e refl, required, lacking)
  ]

  -- On a path that requires it, a request goes on with claims exactly if its header has a bearer
  -- token that the parser accepts with the configured secret, issuer and audience, HS256 alone and an
  -- expiration time, and the token is valid, carries these claims and has every required scope.
  pub middleware_admits :
      (cfg : AuthConfig) (requires_auth : Bytes → Bool) (path authorization : Bytes) (c : Claims)
      → (middleware parse cfg requires_auth path authorization ≡ authenticated c) ↔ (
          (cfg.enabled ≡ true)
          × (requires_auth path ≡ true)
          × Grants cfg (presented cfg authorization) c)
  unfolding middleware validate_token
  middleware_admits cfg requires_auth path authorization c =
      elim (Option-cases (extract_bearer_token authorization)) [
        | inl e ↦ ground arith
        | inr (token, e) ↦ elim (Option-cases (parse token (key_func cfg) (parser_options cfg))) [
          | inl n ↦ ground arith
          | inr (t, k) ↦ let token_ok = check_token_accepted cfg t c in ground arith
        ]
      ]

  -- A request is forbidden only for a scope that is required and that its valid token does not have.
  pub middleware_forbids :
      (cfg : AuthConfig) (requires_auth : Bytes → Bool) (path authorization s : Bytes)
      → middleware parse cfg requires_auth path authorization ≡ forbidden s
      → Lacks cfg (presented cfg authorization) s
  unfolding middleware validate_token
  middleware_forbids cfg requires_auth path authorization s h =
      elim (Option-cases (extract_bearer_token authorization)) [
        | inl e ↦ absurd (ground arith)
        | inr (token, e) ↦ elim (Option-cases (parse token (key_func cfg) (parser_options cfg))) [
          | inl n ↦ absurd (ground arith)
          | inr (t, k) ↦
              let p : presented cfg authorization ≡ some t = ground arith in
              subst (λ o. Lacks cfg o s) (sym p) (check_token_refused cfg t s (ground arith))
        ]
      ]
