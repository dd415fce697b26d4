-- ===== src/Base/Bytes.antt =====
-- Go's strings as lists of bytes, with what the code uses of the package `strings`.
use Prim.Native.Nat.{ℕ, ◌+◌}
use Prim.Native.Char.{code}
use Prim.Native.String.{String}
use mathlib.Core.Path.{◌≡◌, refl}
use mathlib.Core.Logic.{◌↔◌}
use mathlib.Core.Bool.{Bool, true, false, ◌&&◌}
use mathlib.Core.List.{List, [], ◌∷◌, ◌++◌, map}
use native.Mathlib.Omega.{arith}
use gateway_core.Base.Tests.{◌==◌, leb, if◌then◌else◌}
use gateway_core.Base.Lists.{length}

abbrev pub Bytes : Type 0
Bytes = List ℕ

-- The bytes of an ASCII literal.
abbrev pub bytes : String → Bytes
bytes String.[] = []
bytes (String.◌∷◌ c s) = code c ∷ bytes s

abbrev pub same_bytes : Bytes → Bytes → Bool
same_bytes [] [] = true
same_bytes (x ∷ xs) (y ∷ ys) = x == y && same_bytes xs ys
same_bytes _ _ = false

-- `strings.HasPrefix(s, prefix)`.
abbrev pub has_prefix : Bytes → Bytes → Bool
has_prefix s [] = true
has_prefix [] (p ∷ ps) = false
has_prefix (x ∷ xs) (p ∷ ps) = x == p && has_prefix xs ps

-- `strings.TrimPrefix(s, prefix)`, given that `prefix` is one.
abbrev pub after_prefix : Bytes → Bytes → Bytes
after_prefix s [] = s
after_prefix [] (p ∷ ps) = []
after_prefix (x ∷ xs) (p ∷ ps) = after_prefix xs ps

-- `strings.ToLower(s)`, for ASCII.
abbrev pub to_lower : Bytes → Bytes
to_lower = map (λ c. if leb b'A' c && leb c b'Z' then c + 32 else c)

pub same_bytes_iff : (xs ys : Bytes) → (same_bytes xs ys ≡ true) ↔ (xs ≡ ys)
same_bytes_iff [] [] = (λ _. refl, λ _. refl)
same_bytes_iff [] (y ∷ ys) = (λ h. cc, λ h. cc)
same_bytes_iff (x ∷ xs) [] = (λ h. cc, λ h. cc)
same_bytes_iff (x ∷ xs) (y ∷ ys) =
    let (to, from) = same_bytes_iff xs ys in (λ h. ground (arith, to), λ h. ground (arith, from))

pub same_bytes_refl : (xs : Bytes) → same_bytes xs xs ≡ true
same_bytes_refl xs = (same_bytes_iff xs xs).1 refl

-- A prefix with what follows it.
pub has_prefix_split : (s p : Bytes) → has_prefix s p ≡ true → s ≡ p ++ after_prefix s p
has_prefix_split s [] h = refl
has_prefix_split [] (p ∷ ps) h = cc
has_prefix_split (x ∷ xs) (p ∷ ps) h = ground (arith, has_prefix_split xs ps)

pub has_prefix-append : (p r : Bytes) → has_prefix (p ++ r) p ≡ true
has_prefix-append [] r = refl
has_prefix-append (x ∷ p) r = ground (arith, has_prefix-append p r)

-- Two prefixes of one length of one string are one.
pub has_prefix_unique :
    (s p q : Bytes) → has_prefix s p ≡ true → has_prefix s q ≡ true → length p ≡ length q → p ≡ q
has_prefix_unique s [] [] h k e = refl
has_prefix_unique s [] (y ∷ q) h k e = absurd (omega arith)
has_prefix_unique s (x ∷ p) [] h k e = absurd (omega arith)
has_prefix_unique [] (x ∷ p) (y ∷ q) h k e = cc
has_prefix_unique (z ∷ s) (x ∷ p) (y ∷ q) h k e = ground (arith, has_prefix_unique s p q)
