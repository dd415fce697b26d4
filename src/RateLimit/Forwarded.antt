-- ===== src/RateLimit/Forwarded.antt =====
-- Which part of a forwarding header names the client.
use mathlib.Core.List.{reverse, reverse-append, reverse-cons, append_assoc, append-nil}
use gateway_core.Base.{
  ℕ, ◌≡◌, ◌≢◌, refl, ap, ◌∙◌, ◌⊎◌, inl, inr, Bool, true, false, List, [], ◌∷◌, ◌++◌, Option, some,
  ◌==◌, arith, All, All-append, Bool-cases,
}
use gateway_core.Base.Bytes.{Bytes, same_bytes_iff}
use gateway_core.RateLimit.ClientIp.{
  split_on, trim_space, is_trusted, extract_ip, first_untrusted, client_ip,
}

abbrev pub Lacks : ℕ → Bytes → Type 0
Lacks sep s = All (λ c. c ≢ sep) s

-- The parts of a text are not none.
split_on-cons : (sep : ℕ) (s : Bytes) → (p : Bytes) × (ps : List Bytes) × (split_on sep s ≡ p ∷ ps)
unfolding split_on
split_on-cons sep [] = ([], [], refl)
split_on-cons sep (c ∷ s) =
    let (p, ps, e) = split_on-cons sep s in
    elim (Bool-cases (c == sep)) [
      | inl h ↦ ([], split_on sep s, rw h)
      | inr h ↦ (c ∷ p, ps, ground arith)
    ]

split_on-append :
    (sep : ℕ) (s t : Bytes) → split_on sep (s ++ sep ∷ t) ≡ split_on sep s ++ split_on sep t
unfolding split_on
split_on-append sep [] t = ground arith
split_on-append sep (c ∷ s) t =
    let (p, ps, e) = split_on-cons sep s in ground (arith, split_on-append sep s t)

split_on-Lacks : (sep : ℕ) (s : Bytes) → Lacks sep s → split_on sep s ≡ s ∷ []
unfolding split_on
split_on-Lacks sep [] h = refl
split_on-Lacks sep (c ∷ s) h = ground (arith, split_on-Lacks sep s h.1)

-- What proxies append to a header: a comma and an address each.
abbrev pub appended : List Bytes → Bytes
appended [] = []
appended (t ∷ ts) = b',' ∷ (t ++ appended ts)

split_on-appended :
    (s : Bytes) (ts : List Bytes)
    → Lacks b',' s
    → All (Lacks b',') ts
    → split_on b',' (s ++ appended ts) ≡ s ∷ ts
split_on-appended s [] h k = ap (split_on b',') (append-nil s) ∙ split_on-Lacks b',' s h
split_on-appended s (t ∷ ts) h k =
    split_on-append b',' s (t ++ appended ts)
    ∙ rw (split_on-Lacks b',' s h, split_on-appended t ts k.0 k.1)

All-reverse {ℓ κ} : {A : Type ℓ} (P : A → Type κ) (xs : List A) → All P xs → All P (reverse xs)
All-reverse P [] h = h
All-reverse P (x ∷ xs) h =
    rw (reverse-cons x xs) (All-append P (reverse xs) (x ∷ []) (All-reverse P xs h.1) (h.0, tt))

append-ne-nil : (s : Bytes) (c : ℕ) (t : Bytes) → s ++ c ∷ t ≢ []
append-ne-nil [] c t e = cc
append-ne-nil (d ∷ s) c t e = cc

module _ {Ip Cidr : Type 0} (parse_ip : Bytes → Option Ip) (contains : Cidr → Ip → Bool)
    (split_host_port : Bytes → Option Bytes) (trusted_cidrs : List Cidr) where
  abbrev pub trusts : Bytes → Bool
  trusts = is_trusted parse_ip contains split_host_port trusted_cidrs

  abbrev pub peer_of : Bytes → Bytes
  peer_of = extract_ip parse_ip contains split_host_port trusted_cidrs

  abbrev pub client : Bytes → Bytes → Bytes
  client = client_ip parse_ip contains split_host_port trusted_cidrs

  abbrev walk : List Bytes → Option Bytes
  walk = first_untrusted parse_ip contains split_host_port trusted_cidrs

  -- A part that the walk passes over: nothing, or a trusted address.
  abbrev pub IsPassed : Bytes → Type 0
  IsPassed part = (trim_space part ≡ []) ⊎ (trusts (trim_space part) ≡ true)

  walk-IsPassed : (xs ys : List Bytes) → All IsPassed xs → walk (xs ++ ys) ≡ walk ys
  unfolding first_untrusted
  walk-IsPassed [] ys h = refl
  walk-IsPassed (x ∷ xs) ys h =
      ground (arith, walk-IsPassed xs ys h.1, same_bytes_iff (trim_space x) [])

  walk_untrusted :
      (s : Bytes) (ys : List Bytes)
      → trim_space s ≢ []
      → trusts (trim_space s) ≡ false
      → walk (s ∷ ys) ≡ some (trim_space s)
  unfolding first_untrusted
  walk_untrusted s ys h k = ground (arith, same_bytes_iff (trim_space s) [])

  walk-appended :
      (forged s : Bytes) (proxies : List Bytes)
      → Lacks b',' s
      → All (Lacks b',') proxies
      → All IsPassed proxies
      → trim_space s ≢ []
      → trusts (trim_space s) ≡ false
      → walk (reverse (split_on b',' (forged ++ b',' ∷ (s ++ appended proxies))))
        ≡ some (trim_space s)
  walk-appended forged s proxies h k passed full foreign =
      ap (λ parts. walk (reverse parts))
        (split_on-append b',' forged (s ++ appended proxies)
          ∙ ap (λ parts. split_on b',' forged ++ parts) (split_on-appended s proxies h k))
      ∙ ap walk (reverse-append (split_on b',' forged) (s ∷ proxies))
      ∙ ap (λ parts. walk (parts ++ reverse (split_on b',' forged))) (reverse-cons s proxies)
      ∙ ap walk (append_assoc (reverse proxies) (s ∷ []) (reverse (split_on b',' forged)))
      ∙ walk-IsPassed (reverse proxies) _ (All-reverse IsPassed proxies passed)
      ∙ walk_untrusted s _ full foreign

  client_of_walk :
      (remote_addr xff ip : Bytes)
      → trusted_cidrs ≢ []
      → trusts (peer_of remote_addr) ≡ true
      → xff ≢ []
      → walk (reverse (split_on b',' xff)) ≡ some ip
      → client remote_addr xff ≡ ip
  unfolding client_ip
  client_of_walk remote_addr xff ip some_cidr peer sent found =
      ground (arith, same_bytes_iff xff [])

  -- Behind trusted proxies the client is the last address of the header that none of them wrote:
  -- whatever a sender puts in front of it, `forged` here, does not change who is counted. Each
  -- trusted proxy behind it wrote one part, without a comma, that is blank or a trusted address.
  pub client_ip_unforgeable :
      (remote_addr forged s : Bytes) (proxies : List Bytes)
      → trusted_cidrs ≢ []
      → trusts (peer_of remote_addr) ≡ true
      → Lacks b',' s
      → All (Lacks b',') proxies
      → All IsPassed proxies
      → trim_space s ≢ []
      → trusts (trim_space s) ≡ false
      → client remote_addr (forged ++ b',' ∷ (s ++ appended proxies)) ≡ trim_space s
  client_ip_unforgeable remote_addr forged s proxies some_cidr peer h k passed full foreign =
      client_of_walk remote_addr _ (trim_space s) some_cidr peer (append-ne-nil forged b',' _)
        (walk-appended forged s proxies h k passed full foreign)

  -- Without trusted proxies, or from a peer that is not one, the header is not read.
  pub client_ip_untrusted :
      (remote_addr xff : Bytes)
      → (trusted_cidrs ≡ []) ⊎ (trusts (peer_of remote_addr) ≡ false)
      → client remote_addr xff ≡ peer_of remote_addr
  unfolding client_ip
  client_ip_untrusted remote_addr xff h = ground arith
