-- ===== src/RateLimit/ClientIp.antt =====
-- `clientIP` of internal/ratelimit/ratelimit.go. Addresses and networks are Go's `net` package's:
-- its parsers and its containment test are arguments. White space is that of ASCII.
use mathlib.Core.List.{reverse}
use gateway_core.Base.{
  ℕ, Bool, true, false, not, ◌&&◌, ◌||◌, List, [], ◌∷◌, Option, none, some, ◌==◌, if◌then◌else◌,
}
use gateway_core.Base.Bytes.{Bytes, same_bytes}

abbrev cons_head : ℕ → List Bytes → List Bytes
cons_head c [] = (c ∷ []) ∷ []
cons_head c (s ∷ rest) = (c ∷ s) ∷ rest

-- `strings.Split(s, sep)` for a separator of one byte.
unfoldable pub split_on : ℕ → Bytes → List Bytes
split_on sep [] = [] ∷ []
split_on sep (c ∷ s) = let rest = split_on sep s in if c == sep then [] ∷ rest else cons_head c rest

unfoldable pub is_space : ℕ → Bool
is_space c = c == b' ' || (c == 9 || (c == 10 || (c == 11 || (c == 12 || c == 13))))

unfoldable pub trim_left : Bytes → Bytes
trim_left [] = []
trim_left (c ∷ s) = let rest = trim_left s in if is_space c then rest else c ∷ s

-- `strings.TrimSpace(s)`.
unfoldable pub trim_space : Bytes → Bytes
unfolding trim_left is_space
trim_space s = reverse (trim_left (reverse (trim_left s)))

-- The networks of the trusted proxies; those that cannot be parsed are skipped.
unfoldable pub parse_cidrs : {Cidr : Type 0} → (Bytes → Option Cidr) → List Bytes → List Cidr
parse_cidrs parse [] = []
parse_cidrs parse (s ∷ ss) =
    let rest = parse_cidrs parse ss in elim (parse s) [ none ↦ rest | some n ↦ n ∷ rest ]

module _ {Ip Cidr : Type 0} (parse_ip : Bytes → Option Ip) (contains : Cidr → Ip → Bool)
    (split_host_port : Bytes → Option Bytes) (trusted_cidrs : List Cidr) where
  unfoldable pub any_contains : List Cidr → Ip → Bool
  any_contains [] ip = false
  any_contains (c ∷ cs) ip = contains c ip || any_contains cs ip

  unfoldable pub is_trusted : Bytes → Bool
  unfolding any_contains
  is_trusted s = elim (parse_ip s) [ none ↦ false | some ip ↦ any_contains trusted_cidrs ip ]

  unfoldable pub extract_ip : Bytes → Bytes
  extract_ip addr = elim (split_host_port addr) [ none ↦ addr | some host ↦ host ]

  -- The walk over the header's parts, from the right.
  unfoldable pub first_untrusted : List Bytes → Option Bytes
  first_untrusted [] = none
  first_untrusted (part ∷ parts) =
      let ip = trim_space part in
      let rest = first_untrusted parts in
      if not (same_bytes ip []) && not (is_trusted ip) then some ip else rest

  abbrev is_empty : List Cidr → Bool
  is_empty [] = true
  is_empty (_ ∷ _) = false

  -- `xff` is the value of X-Forwarded-For, empty where the header is missing.
  unfoldable pub client_ip : (remote_addr xff : Bytes) → Bytes
  unfolding extract_ip
  client_ip remote_addr xff =
      let peer = extract_ip remote_addr in
      if not (is_empty trusted_cidrs) && is_trusted peer
      then (if same_bytes xff []
          then peer
          else elim (first_untrusted (reverse (split_on b',' xff))) [ none ↦ peer | some ip ↦ ip ])
      else peer
