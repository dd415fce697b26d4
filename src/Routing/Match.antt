-- ===== src/Routing/Match.antt =====
-- internal/routing/match.go: a route prefix ends at a segment boundary of the path.
use gateway_core.Base.{
  ℕ, suc, ◌≡◌, ◌≢◌, ◌↔◌, ◌⊎◌, inl, inr, refl, Bool, true, false, [], ◌∷◌, ◌++◌, arith, ◌==◌,
  if◌then◌else◌, length, get_or, ◌-◌, ap, length-append, sym, ◌∙◌, ◌<◌,
}
use gateway_core.Base.Bytes.{
  Bytes, has_prefix, same_bytes, same_bytes_iff, has_prefix_split, has_prefix-append, after_prefix,
}

-- `s[i]`, for an index in range.
abbrev byte_at : Bytes → ℕ → ℕ
byte_at s i = get_or s i 0

unfoldable pub matches_prefix : Bytes → Bytes → Bool
matches_prefix path prefix =
    if same_bytes prefix []
    then false
    else if has_prefix path prefix
    then (if length path == length prefix
        then true
        else if byte_at prefix (length prefix - 1) == b'/'
        then true
        else byte_at path (length prefix) == b'/')
    else false

abbrev pub StartsWithSlash : Bytes → Type 0
StartsWithSlash [] = ⊥
StartsWithSlash (b ∷ s) = b ≡ b'/'

abbrev pub EndsWithSlash : Bytes → Type 0
EndsWithSlash [] = ⊥
EndsWithSlash (b ∷ []) = b ≡ b'/'
EndsWithSlash (b ∷ c ∷ s) = EndsWithSlash (c ∷ s)

-- `path` is `prefix` and a rest that begins a new segment.
abbrev pub Covers : Bytes → Bytes → Type 0
Covers prefix path =
    (prefix ≢ [])
    × (rest : Bytes) × (path ≡ prefix ++ rest)
    × ((rest ≡ []) ⊎ (EndsWithSlash prefix ⊎ StartsWithSlash rest))

last_slash : (p : Bytes) → p ≢ [] → (byte_at p (length p - 1) ≡ b'/') ↔ EndsWithSlash p
last_slash [] h = absurd (h refl)
last_slash (b ∷ []) h = (λ e. e, λ e. e)
last_slash (b ∷ c ∷ p) h =
    let e : suc (suc (length p)) - 1 ≡ suc (suc (length p) - 1) = omega arith in
    rw e (last_slash (c ∷ p) (λ q. cc))

byte_at-append : (p r : Bytes) (c : ℕ) → byte_at (p ++ c ∷ r) (length p) ≡ c
byte_at-append [] r c = refl
byte_at-append (b ∷ p) r c = byte_at-append p r c

-- Behind a prefix of the path comes nothing, or a byte of the path.
split_cases :
    (path prefix : Bytes)
    → has_prefix path prefix ≡ true
    → ((length path ≡ length prefix) × (path ≡ prefix ++ []))
      ⊎ ((c : ℕ) × (r : Bytes) × (path ≡ prefix ++ c ∷ r)
          × (byte_at path (length prefix) ≡ c)
          × (length path ≢ length prefix))
split_cases path prefix h = go (after_prefix path prefix) (has_prefix_split path prefix h)
  where
    go :
        (rest : Bytes)
        → path ≡ prefix ++ rest
        → ((length path ≡ length prefix) × (path ≡ prefix ++ []))
          ⊎ ((c : ℕ) × (r : Bytes) × (path ≡ prefix ++ c ∷ r)
              × (byte_at path (length prefix) ≡ c)
              × (length path ≢ length prefix))
    go [] e = inl (omega (arith, ap length e, length-append prefix []), e)
    go (c ∷ r) e = inr (
      c,
      r,
      e,
      rw e (byte_at-append prefix r c),
      λ q. omega (arith, ap length e, length-append prefix (c ∷ r)),
    )

starts_of_matches :
    (path prefix : Bytes)
    → matches_prefix path prefix ≡ true
    → (prefix ≢ []) × (has_prefix path prefix ≡ true)
unfolding matches_prefix
starts_of_matches path prefix h = (λ e. ground (arith, same_bytes_iff prefix []), ground arith)

boundary_of_matches :
    (path prefix : Bytes)
    → matches_prefix path prefix ≡ true
    → length path ≢ length prefix
    → (byte_at prefix (length prefix - 1) ≡ b'/') ⊎ (byte_at path (length prefix) ≡ b'/')
unfolding matches_prefix
boundary_of_matches path prefix h k = ground arith

matches-Covers : (path prefix : Bytes) → matches_prefix path prefix ≡ true → Covers prefix path
matches-Covers path prefix h =
    let (ne, starts) = starts_of_matches path prefix h in
    elim (split_cases path prefix starts) [
      | inl (_, e) ↦ (ne, [], e, inl refl)
      | inr (c, r, e, at, longer) ↦ elim (boundary_of_matches path prefix h longer) [
        | inl q ↦ (ne, c ∷ r, e, inr (inl ((last_slash prefix ne).0 q)))
        | inr q ↦ (ne, c ∷ r, e, inr (inr (sym at ∙ q)))
      ]
    ]

matches_of_parts :
    (path prefix : Bytes)
    → prefix ≢ []
    → has_prefix path prefix ≡ true
    → (length path ≡ length prefix)
      ⊎ ((byte_at prefix (length prefix - 1) ≡ b'/') ⊎ (byte_at path (length prefix) ≡ b'/'))
    → matches_prefix path prefix ≡ true
unfolding matches_prefix
matches_of_parts path prefix ne h c = ground (arith, same_bytes_iff prefix [])

Covers-matches : (path prefix : Bytes) → Covers prefix path → matches_prefix path prefix ≡ true
Covers-matches path prefix (ne, rest, e, bound) =
    matches_of_parts path prefix ne (rw e (has_prefix-append prefix rest)) (go rest e bound)
  where
    go :
        (rest : Bytes)
        → path ≡ prefix ++ rest
        → (rest ≡ []) ⊎ (EndsWithSlash prefix ⊎ StartsWithSlash rest)
        → (length path ≡ length prefix)
          ⊎ ((byte_at prefix (length prefix - 1) ≡ b'/') ⊎ (byte_at path (length prefix) ≡ b'/'))
    go [] e b = inl (omega (arith, ap length e, length-append prefix []))
    go (c ∷ r) e (inl q) = cc
    go (c ∷ r) e (inr (inl q)) = inr (inl ((last_slash prefix ne).1 q))
    go (c ∷ r) e (inr (inr q)) = inr (inr (rw e (byte_at-append prefix r c ∙ q)))

-- A path matches a prefix exactly if the prefix is not empty and the path is the prefix and a
-- rest, where the rest is empty, the prefix ends with a slash, or the rest begins with one.
pub matches_prefix_iff :
    (path prefix : Bytes) → (matches_prefix path prefix ≡ true) ↔ Covers prefix path
matches_prefix_iff path prefix = (matches-Covers path prefix, Covers-matches path prefix)

-- A matching prefix is one of the path's, and it is not empty.
pub prefix_of_matches :
    (path prefix : Bytes)
    → matches_prefix path prefix ≡ true
    → (0 < length prefix) × (has_prefix path prefix ≡ true)
prefix_of_matches path prefix h =
    let (ne, starts) = starts_of_matches path prefix h in (nonempty prefix ne, starts)
  where
    nonempty : (p : Bytes) → p ≢ [] → 0 < length p
    nonempty [] k = absurd (k refl)
    nonempty (b ∷ p) k = omega arith
