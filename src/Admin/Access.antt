-- ===== src/Admin/Access.antt =====
-- Who is answered by the admin endpoints, and what no answer tells.
use gateway_core.Base.{
  ◌≡◌, ◌≢◌, ◌↔◌, refl, sym, ◌∙◌, subst, inl, inr, ◌⊎◌, Bool, true, false, Bool-cases, List, [], ◌∷◌,
  Option, none, some, Option-cases, arith,
}
use mathlib.Core.Option.{some-injective}
use gateway_core.Base.Bytes.{Bytes, bytes, same_bytes, same_bytes_iff}
use gateway_core.Config.Types.{Config}
use gateway_core.RateLimit.ClientIp.{extract_ip, is_trusted, any_contains}
use gateway_core.Admin.{
  AdminRequest, Endpoint, routes_endpoint, config_endpoint, limiters_endpoint, Payload, error_value,
  Handler, handle, guarded, write_value, redacted, is_allowed,
}

abbrev pub with_secret : {F : Type 0} → Bytes → Config F → Config F
with_secret secret cfg = record cfg { auth = record (cfg.auth) { jwt_secret = secret } }

redacted-with_secret :
    {F : Type 0} (s t : Bytes) (cfg : Config F)
    → s ≢ []
    → t ≢ []
    → redacted (with_secret s cfg) ≡ redacted (with_secret t cfg)
unfolding redacted
redacted-with_secret s t cfg h k = ground (arith, same_bytes_iff s [], same_bytes_iff t [])

module _ {F Ip Cidr : Type 0} (parse_ip : Bytes → Option Ip) (contains : Cidr → Ip → Bool)
    (split_host_port : Bytes → Option Bytes) (encode : Payload F → Option Bytes) where
  abbrev pub AnyContains : Ip → List Cidr → Type 0
  AnyContains ip [] = ⊥
  AnyContains ip (n ∷ ns) = (contains n ip ≡ true) ⊎ AnyContains ip ns

  -- The peer's address parses, and lies in a network of the allowlist.
  abbrev pub Admitted : List Cidr → AdminRequest → Type 0
  Admitted nets r =
      (ip : Ip) × (parse_ip (extract_ip parse_ip contains split_host_port nets r.remote_addr)
        ≡ some ip)
      × AnyContains ip nets

  any_contains_iff :
      (nets ns : List Cidr) (ip : Ip)
      → (any_contains parse_ip contains split_host_port nets ns ip ≡ true) ↔ AnyContains ip ns
  unfolding any_contains
  any_contains_iff nets [] ip = (λ h. cc, λ h. absurd h)
  any_contains_iff nets (n ∷ ns) ip =
      let (to, from) = any_contains_iff nets ns ip in
      elim (Bool-cases (contains n ip)) [
        | inl e ↦ (λ h. inl e, λ h. rw e refl)
        | inr e ↦ (λ h. inr (to (rw e at h)), λ h. elim h [ inl t ↦ cc | inr a ↦ rw e (from a) ])
      ]

  module _ (nets : List Cidr) (s : Bytes) where
    allowed : Bool
    allowed = is_allowed parse_ip contains split_host_port encode nets s

    allowed-none : parse_ip s ≡ none → allowed ≡ false
    unfolding allowed is_allowed is_trusted
    allowed-none e = rw (is_allowed, is_trusted, e)

    allowed-some :
        (ip : Ip)
        → parse_ip s ≡ some ip
        → allowed ≡ any_contains parse_ip contains split_host_port nets nets ip
    unfolding allowed is_allowed is_trusted
    allowed-some ip e = rw (is_allowed, is_trusted, e)

    allowed_iff : (allowed ≡ true) ↔ ((ip : Ip) × (parse_ip s ≡ some ip) × AnyContains ip nets)
    allowed_iff = elim (Option-cases (parse_ip s)) [
      | inl e ↦ (λ h. absurd (cc (allowed-none e)), λ (ip, f, a). absurd (cc))
      | inr (ip, e) ↦ (
        λ h. (ip, e, (any_contains_iff nets nets ip).0 (cc (allowed-some ip e))),
        λ (ip', f, a).
            let same : ip ≡ ip' = some-injective ip ip' (sym e ∙ f) in
            allowed-some ip e
            ∙ (any_contains_iff nets nets ip).1 (subst (λ i. AnyContains i nets) (sym same) a),
      )
    ]

  -- With the method GET and a peer whose address parses and lies in a network of the allowlist, the
  -- endpoint answers; any other peer gets 403 and any other method 405.
  pub guarded-Admitted :
      (h : Handler F Cidr) (e : Endpoint) (r : AdminRequest)
      → (r.method ≡ bytes "GET"
          → Admitted h.allowed_nets r
          → guarded parse_ip contains split_host_port encode h e r
            ≡ handle parse_ip contains split_host_port encode h e r)
        × (r.method ≡ bytes "GET"
            → ¬ Admitted h.allowed_nets r
            → guarded parse_ip contains split_host_port encode h e r
              ≡ some (
                  write_value parse_ip contains split_host_port encode 403
                    (error_value (bytes "Forbidden"))))
        × (r.method ≢ bytes "GET"
            → guarded parse_ip contains split_host_port encode h e r
              ≡ some (
                  write_value parse_ip contains split_host_port encode 405
                    (error_value (bytes "Method Not Allowed"))))
  unfolding guarded allowed
  guarded-Admitted h e r =
      let get = same_bytes_iff r.method (bytes "GET") in
      let peer = extract_ip parse_ip contains split_host_port h.allowed_nets r.remote_addr in
      let admitted = allowed_iff h.allowed_nets peer in
      elim (Bool-cases (same_bytes r.method (bytes "GET"))) [
        | inr e ↦ (λ g a. absurd (cc (get.1 g)), λ g a. absurd (cc (get.1 g)), λ g. rw (e, guarded))
        | inl e ↦
            elim (Bool-cases
              (is_allowed parse_ip contains split_host_port encode h.allowed_nets peer)) [
                | inl t ↦ (
                  λ g a. rw (e, t, guarded),
                  λ g a. absurd (a (admitted.0 t)),
                  λ g. absurd (g (get.0 e)),
                )
                | inr t ↦ (
                  λ g a. absurd (cc (admitted.1 a)),
                  λ g a. rw (e, t, guarded),
                  λ g. absurd (g (get.0 e)),
                )
              ]
      ]

  handle-with_secret :
      (h : Handler F Cidr) (e : Endpoint) (r : AdminRequest) (s t : Bytes)
      → s ≢ []
      → t ≢ []
      → handle parse_ip contains split_host_port encode
          (record h { current = with_secret s h.current })
          e
          r
        ≡ handle parse_ip contains split_host_port encode
            (record h { current = with_secret t h.current })
            e
            r
  unfolding handle
  handle-with_secret h routes_endpoint r s t hs ht = refl
  handle-with_secret h limiters_endpoint r s t hs ht = refl
  handle-with_secret h config_endpoint r s t hs ht = rw (redacted-with_secret s t h.current hs ht)

  -- Two gateways that differ in a JWT secret that is not empty answer every request at every
  -- endpoint with the same calls.
  pub guarded-with_secret :
      (h : Handler F Cidr) (e : Endpoint) (r : AdminRequest) (s t : Bytes)
      → s ≢ []
      → t ≢ []
      → guarded parse_ip contains split_host_port encode
          (record h { current = with_secret s h.current })
          e
          r
        ≡ guarded parse_ip contains split_host_port encode
            (record h { current = with_secret t h.current })
            e
            r
  unfolding guarded
  guarded-with_secret h e r s t hs ht = rw (handle-with_secret h e r s t hs ht)
