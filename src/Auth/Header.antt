-- ===== src/Auth/Header.antt =====
-- What the code reads of an Authorization header.
use gateway_core.Base.{ℕ, ◌≡◌, ◌≢◌, true, [], ◌∷◌, ◌++◌, some, arith, All}
use gateway_core.Base.Bytes.{Bytes, bytes, same_bytes_iff}
use gateway_core.RateLimit.ClientIp.{trim_space}
use gateway_core.Auth.{cut, equal_fold, extract_bearer_token}

cut-append : (sep : ℕ) (s t : Bytes) → All (λ c. c ≢ sep) s → cut sep (s ++ sep ∷ t) ≡ some (s, t)
unfolding cut
cut-append sep [] t h = ground arith
cut-append sep (c ∷ s) t h = let rest = cut-append sep s t h.1 in ground arith

-- A header of the scheme "Bearer", in any case, a space and a text that is not blank gives the text
-- without the white space around it.
pub extract_bearer_token-append :
    (scheme rest : Bytes)
    → All (λ c. c ≢ b' ') scheme
    → equal_fold scheme (bytes "Bearer") ≡ true
    → trim_space rest ≢ []
    → extract_bearer_token (scheme ++ b' ' ∷ rest) ≡ some (trim_space rest)
unfolding extract_bearer_token
extract_bearer_token-append scheme rest h e n =
    let parts = cut-append b' ' scheme rest h in
    let blank = same_bytes_iff (trim_space rest) [] in ground arith
