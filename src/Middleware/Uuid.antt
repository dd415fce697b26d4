-- ===== src/Middleware/Uuid.antt =====
-- `newUUID` of internal/middleware/requestid.go, from the bytes that package crypto/rand gives.
use gateway_core.Base.{
  ℕ, ◌+◌, ◌/◌, ◌%◌, ◌≡◌, refl, ◌⊎◌, [], ◌∷◌, ◌++◌, arith, ltb, length, get_or, if◌then◌else◌,
}
use gateway_core.Base.Bytes.{Bytes, bytes}

abbrev pub hex_digit : ℕ → ℕ
hex_digit n = if ltb n 10 then 48 + n else 87 + n

abbrev pub hex : Bytes → Bytes
hex [] = []
hex (x ∷ xs) = hex_digit (x / 16) ∷ hex_digit (x % 16) ∷ hex xs

-- `random i` is the i-th byte.
unfoldable pub new_uuid : (random : ℕ → ℕ) → Bytes
new_uuid random =
    let version = random 6 % 16 + 64 in
    let variant = random 8 % 64 + 128 in
    hex (random 0 ∷ random 1 ∷ random 2 ∷ random 3 ∷ [])
    ++ bytes "-"
    ++ hex (random 4 ∷ random 5 ∷ [])
    ++ bytes "-"
    ++ hex (version ∷ random 7 ∷ [])
    ++ bytes "-"
    ++ hex (variant ∷ random 9 ∷ [])
    ++ bytes "-"
    ++ hex (random 10 ∷ random 11 ∷ random 12 ∷ random 13 ∷ random 14 ∷ random 15 ∷ [])

-- An identifier has 36 characters, dashes after the 8th, 12th, 16th and 20th digit, 4 as its version
-- digit, and 8, 9, a or b as its variant digit, whatever the random bytes.
pub new_uuid_format :
    (random : ℕ → ℕ)
    → (length (new_uuid random) ≡ 36)
      × (get_or (new_uuid random) 8 0 ≡ b'-')
      × (get_or (new_uuid random) 13 0 ≡ b'-')
      × (get_or (new_uuid random) 18 0 ≡ b'-')
      × (get_or (new_uuid random) 23 0 ≡ b'-')
      × (get_or (new_uuid random) 14 0 ≡ b'4')
      × ((get_or (new_uuid random) 19 0 ≡ b'8')
          ⊎ ((get_or (new_uuid random) 19 0 ≡ b'9')
              ⊎ ((get_or (new_uuid random) 19 0 ≡ b'a') ⊎ (get_or (new_uuid random) 19 0 ≡ b'b'))))
unfolding new_uuid
new_uuid_format random = (refl, refl, refl, refl, refl, ground arith, ground arith)
