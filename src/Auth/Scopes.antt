-- ===== src/Auth/Scopes.antt =====
-- Which scope a request lacks.
use gateway_core.Base.{◌≡◌, refl, ◌↔◌, ◌⊎◌, true, List, [], ◌∷◌, none, some, arith, All}
use gateway_core.Base.Bytes.{Bytes, same_bytes_iff}
use gateway_core.Auth.{has_scope, first_missing}

-- `s` is one of the scopes.
abbrev pub IsGranted : List Bytes → Bytes → Type 0
IsGranted [] s = ⊥
IsGranted (x ∷ xs) s = (x ≡ s) ⊎ IsGranted xs s

pub has_scope-IsGranted : (xs : List Bytes) (s : Bytes) → (has_scope xs s ≡ true) ↔ IsGranted xs s
unfolding has_scope
has_scope-IsGranted [] s = (λ h. cc, λ h. elim h [ ])
has_scope-IsGranted (x ∷ xs) s =
    let rest = has_scope-IsGranted xs s in let head = same_bytes_iff x s in ground arith

pub first_missing-none : (xs rs : List Bytes) → (first_missing xs rs ≡ none) ↔ All (IsGranted xs) rs
unfolding first_missing
first_missing-none xs [] = (λ h. tt, λ h. refl)
first_missing-none xs (r ∷ rs) =
    let rest = first_missing-none xs rs in let head = has_scope-IsGranted xs r in ground arith

pub first_missing-some :
    (xs rs : List Bytes) (s : Bytes)
    → first_missing xs rs ≡ some s
    → (IsGranted rs s) × (¬ IsGranted xs s)
unfolding first_missing
first_missing-some xs [] s h = cc
first_missing-some xs (r ∷ rs) s h =
    let rest = first_missing-some xs rs s in
    let head = has_scope-IsGranted xs r in let this = has_scope-IsGranted xs s in ground arith
