-- ===== src/Proxy/Serve/Backoff.antt =====
-- The pauses between attempts.
use native.Mathlib.Nat.{pow-le-pow_right, pow-suc}
use gateway_core.Base.{ℕ, zero, suc, ◌+◌, ◌-◌, ◌*◌, ◌^◌, ◌≤◌, ◌<◌, ◌≡◌, refl, sym, ap, ◌∙◌, arith}
use gateway_core.Base.Int.{pos, negsuc, wrap, wrap_id}
use gateway_core.Config.Durations.{duration}
use gateway_core.Proxy.Attempts.{backoff, shift_one}

two-pow_le : (i j : ℕ) → i ≤ j → 2 ^ i ≤ 2 ^ j
two-pow_le i j h = pow-le-pow_right (omega arith) h

duration_exact : (n unit : ℕ) → n * unit < 2 ^ 63 → duration (pos n) unit ≡ pos (n * unit)
unfolding duration
duration_exact n unit h = wrap_id (pos (n * unit)) (h, omega arith)

-- A power of two from 2^64 on is a multiple of it, and shifts out.
two-pow_multiple : (k : ℕ) → (m : ℕ) × (2 ^ (k + 64) ≡ 2 ^ 64 * m)
two-pow_multiple zero = (1, refl)
two-pow_multiple (suc k) =
    let (m, e) = two-pow_multiple k in
    let next : suc k + 64 ≡ suc (k + 64) = omega arith in
    let step : 2 ^ (suc k + 64) ≡ 2 ^ (k + 64) * 2 = ap (λ n. 2 ^ n) next ∙ pow-suc 2 (k + 64) in
    (m * 2, omega (arith, e, step))

wrap_multiple : (m : ℕ) → wrap (pos (2 ^ 64 * m)) ≡ pos 0
unfolding wrap
wrap_multiple m = ground arith

shift_one_over : (n : ℕ) → 64 ≤ n → shift_one n ≡ pos 0
shift_one_over n h =
    let (m, e) = two-pow_multiple (n - 64) in
    let same : n - 64 + 64 ≡ n = omega arith in
    ap (λ k. wrap (pos (2 ^ k))) (sym same) ∙ ap (λ x. wrap (pos x)) e ∙ wrap_multiple m

backoff_exact :
    (attempt : ℕ)
    → 1 ≤ attempt
    → attempt ≤ 37
    → backoff attempt ≡ pos (2 ^ (attempt - 1) * 100 * 10 ^ 6)
unfolding backoff
backoff_exact attempt h k =
    let small : 2 ^ (attempt - 1) ≤ 2 ^ 36 = two-pow_le (attempt - 1) 36 (omega arith) in
    let shifted : shift_one (attempt - 1) ≡ pos (2 ^ (attempt - 1)) =
      wrap_id (pos (2 ^ (attempt - 1))) (omega arith, omega arith) in
    ap (λ x. duration (duration x 100) (10 ^ 6)) shifted
    ∙ ap (λ x. duration x (10 ^ 6)) (duration_exact (2 ^ (attempt - 1)) 100 (omega arith))
    ∙ duration_exact (2 ^ (attempt - 1) * 100) (10 ^ 6) (omega arith)

backoff_over : (attempt : ℕ) → 65 ≤ attempt → backoff attempt ≡ pos 0
unfolding backoff duration wrap
backoff_over attempt h =
    ap (λ x. duration (duration x 100) (10 ^ 6)) (shift_one_over (attempt - 1) (omega arith))

-- The pause behind an attempt doubles exactly up to attempt 37. It overflows a Duration at
-- attempt 38, where it is negative, and it is zero from attempt 65 on: there is no pause then.
pub backoff_doubles :
    (attempt : ℕ)
    → (1 ≤ attempt → attempt ≤ 37 → backoff attempt ≡ pos (2 ^ (attempt - 1) * 100 * 10 ^ 6))
      × (backoff 38 ≡ negsuc 4702848726509551615)
      × (65 ≤ attempt → backoff attempt ≡ pos 0)
unfolding backoff duration wrap
backoff_doubles attempt = (backoff_exact attempt, refl, backoff_over attempt)
