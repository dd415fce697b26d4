-- ===== src/CircuitBreaker/Window.antt =====
-- The ring buffer of failure_rate.go against the list of the most recent outcomes, oldest first.
use mathlib.Core.List.{append-nil, append_assoc}
use native.Mathlib.Decide.{dec_lt}
use native.Mathlib.Nat.{mod_self, mod-eq_of_lt}
use gateway_core.Base.{
  ℕ, suc, ◌+◌, ◌-◌, ◌%◌, ◌≤◌, ◌<◌, ◌≡◌, refl, ◌∙◌, sym, ◌⊎◌, inl, inr, Bool, true, false, List, [],
  ◌∷◌, ◌++◌, arith, ◌==◌, if◌then◌else◌, length, get_or, set, take, drop, length-append, length-set,
  length-take, length-drop, length-replicate, take_all, take-suc-set, drop-suc-set, drop-get_or,
  drop_all,
}
use gateway_core.CircuitBreaker.FailureRate.{FailureRate, new_failure_rate, record_outcome}

-- How many of the outcomes are failures.
abbrev pub count_failed : List Bool → ℕ
count_failed [] = 0
count_failed (true ∷ xs) = suc (count_failed xs)
count_failed (false ∷ xs) = count_failed xs

count_failed-append :
    (xs ys : List Bool) → count_failed (xs ++ ys) ≡ count_failed xs + count_failed ys
count_failed-append [] ys = omega arith
count_failed-append (true ∷ xs) ys = omega (arith, count_failed-append xs ys)
count_failed-append (false ∷ xs) ys = count_failed-append xs ys

-- At most the last `n` elements, in order.
unfoldable pub last_n {ℓ} : {A : Type ℓ} → ℕ → List A → List A
last_n n xs = drop (length xs - n) xs

module _ {ℓ} {A : Type ℓ} where
  pub last_n_all : (n : ℕ) (xs : List A) → length xs ≤ n → last_n n xs ≡ xs
  unfolding last_n
  last_n_all n xs h = let e : length xs - n ≡ 0 = omega arith in rw e

  last_n_tail : (n : ℕ) (x : A) (xs : List A) → length xs ≡ n → last_n n (x ∷ xs) ≡ xs
  unfolding last_n
  last_n_tail n x xs h = let e : suc (length xs) - n ≡ 1 = omega arith in rw e

-- A ring of `size` cells of which `count` are in use, read from the oldest.
unfoldable pub read_ring : (count size head : ℕ) → List Bool → List Bool
read_ring count size head w = if count == size then drop head w ++ take head w else take head w

-- An emptied ring reads as no outcomes, since it has a cell.
pub read_ring_empty : (w : List Bool) (size : ℕ) → 0 < size → read_ring 0 size 0 w ≡ []
unfolding read_ring
read_ring_empty w size h = ground arith

-- A write at `head` appends to what is read, and drops the oldest outcome of a full ring.
module _ (w : List Bool) (head : ℕ) (failed : Bool) (inside : head < length w) where
  abbrev next_head : ℕ
  next_head = (head + 1) % length w

  -- The head stays inside, or wraps to the front when the last cell is written.
  next_head-cases :
      ((suc head < length w) × (next_head ≡ suc head)) ⊎ ((suc head ≡ length w) × (next_head ≡ 0))
  next_head-cases = elim (dec_lt (suc head) (length w)) [
    | yes p ↦ inl (p, grind arith)
    | no p ↦ inr (omega arith, wrapped (omega arith))
  ]
    where
      wrapped : head + 1 ≡ length w → next_head ≡ 0
      wrapped e = rw (← e) (mod_self (head + 1))

  all_written : suc head ≡ length w → set w head failed ≡ take head w ++ failed ∷ []
  all_written e =
      sym (take_all (suc head) (set w head failed) (omega (arith, length-set w head failed)))
      ∙ take-suc-set w head failed inside

  read_full :
      drop next_head (set w head failed) ++ take next_head (set w head failed)
      ≡ drop (suc head) w ++ (take head w ++ failed ∷ [])
  read_full = elim next_head-cases [
    | inl (p, e) ↦ rw (e, drop-suc-set w head failed, take-suc-set w head failed inside)
    | inr (p, e) ↦ rw (e, drop_all (suc head) w (omega arith)) (append-nil _ ∙ all_written p)
  ]

  read_filling :
      (count : ℕ)
      → count ≡ head
      → read_ring (count + 1) (length w) next_head (set w head failed) ≡ take head w ++ failed ∷ []
  unfolding read_ring
  read_filling count e = elim next_head-cases [
    | inl (p, q) ↦ rw q (ground (arith, take-suc-set w head failed inside))
    | inr (p, q) ↦ rw q (ground (arith, append-nil (set w head failed), all_written p))
  ]

read_ring-drop :
    (w : List Bool) (head : ℕ)
    → head < length w
    → read_ring (length w) (length w) head w
      ≡ get_or w head false ∷ (drop (suc head) w ++ take head w)
unfolding read_ring
read_ring-drop w head inside = ground (arith, drop-get_or w head false inside)

module _ {F : Type 0} where
  -- The outcomes in the window, oldest first: a full ring is read from `head` round to `head`.
  unfoldable pub recent : FailureRate F → List Bool
  recent b = read_ring b.count b.window_size b.head b.window

  pub record IsValid (b : FailureRate F) : Type 0 where
    pub sized : length b.window ≡ b.window_size
    pub within : b.head < b.window_size
    pub bounded : b.count ≤ b.window_size
    pub filling : b.count < b.window_size → b.head ≡ b.count
    pub counted : b.failures ≡ count_failed (recent b)

  pub length-recent : (b : FailureRate F) → IsValid b → length (recent b) ≡ b.count
  unfolding recent read_ring
  length-recent b v = ground (
    arith,
    length-append (drop b.head b.window) (take b.head b.window),
    length-take b.head b.window,
    length-drop b.head b.window,
  )

  -- What a recorded outcome leaves in each field that the ring is read from.
  record_outcome_ring :
      (failed : Bool) (b : FailureRate F)
      → ((record_outcome failed b).window ≡ set b.window b.head failed)
        × ((record_outcome failed b).window_size ≡ b.window_size)
        × ((record_outcome failed b).head ≡ (b.head + 1) % b.window_size)
        × ((record_outcome failed b).count
            ≡ (if b.count == b.window_size then b.count else b.count + 1))
  unfolding record_outcome
  record_outcome_ring failed b = (ground arith, ground arith, ground arith, ground arith)

  recent_full :
      (failed : Bool) (b : FailureRate F)
      → IsValid b
      → b.count ≡ b.window_size
      → (recent b
          ≡ get_or b.window b.head false ∷ (drop (suc b.head) b.window ++ take b.head b.window))
        × (recent (record_outcome failed b)
            ≡ drop (suc b.head) b.window ++ (take b.head b.window ++ failed ∷ []))
  unfolding recent read_ring
  recent_full failed b v e = (
    ground (arith, drop-get_or b.window b.head false),
    ground (arith, record_outcome_ring failed b, read_full b.window b.head failed),
  )

  recent_filling :
      (failed : Bool) (b : FailureRate F)
      → IsValid b
      → b.count < b.window_size
      → (recent b ≡ take b.head b.window)
        × (recent (record_outcome failed b) ≡ take b.head b.window ++ failed ∷ [])
  unfolding recent
  recent_filling failed b v h = (
    unfold read_ring in ground arith,
    ground (
      arith,
      record_outcome_ring failed b,
      read_filling b.window b.head failed (omega arith) b.count (sym (v.filling h)),
    ),
  )

  full_length :
      (failed : Bool) (b : FailureRate F)
      → IsValid b
      → length ((drop (suc b.head) b.window ++ take b.head b.window) ++ failed ∷ []) ≡ b.window_size
  full_length failed b v = omega (
    arith,
    length-append (drop (suc b.head) b.window ++ take b.head b.window) (failed ∷ []),
    length-append (drop (suc b.head) b.window) (take b.head b.window),
    length-drop (suc b.head) b.window,
    length-take b.head b.window,
  )

  -- Recording an outcome appends it to the recent ones, of which the last `window_size` stay.
  pub recent-record_outcome :
      (failed : Bool) (b : FailureRate F)
      → IsValid b
      → recent (record_outcome failed b) ≡ last_n b.window_size (recent b ++ failed ∷ [])
  recent-record_outcome failed b v = elim (dec_lt b.count b.window_size) [
    | yes h ↦
        let (old, new) = recent_filling failed b v h in
        rw (new, old)
          (sym (
            last_n_all _ _ (
              omega (
                arith,
                v.filling h,
                length-append (take b.head b.window) (failed ∷ []),
                length-take b.head b.window,
              ))))
    | no h ↦
        let (old, new) = recent_full failed b v (omega arith) in
        rw (new, old)
          (sym (append_assoc (drop (suc b.head) b.window) (take b.head b.window) (failed ∷ []))
            ∙ sym (
                last_n_tail b.window_size (get_or b.window b.head false) _
                  (full_length failed b v)))
  ]

  record_outcome_failures :
      (failed : Bool) (b : FailureRate F)
      → (record_outcome failed b).failures
        ≡ (if b.count == b.window_size
            then (if get_or b.window b.head false then b.failures - 1 else b.failures)
            else b.failures)
          + count_failed (failed ∷ [])
  unfolding record_outcome
  record_outcome_failures true b = ground arith
  record_outcome_failures false b = ground arith

  failures-record_outcome :
      (failed : Bool) (b : FailureRate F)
      → IsValid b
      → (record_outcome failed b).failures ≡ count_failed (recent (record_outcome failed b))
  failures-record_outcome failed b v = elim (dec_lt b.count b.window_size) [
    | yes h ↦
        let (old, new) = recent_filling failed b v h in
        rw (new, record_outcome_failures failed b)
          (ground (arith, v.counted, old, count_failed-append (take b.head b.window) (failed ∷ [])))
    | no h ↦
        let (old, new) = recent_full failed b v (omega arith) in
        rw (new, record_outcome_failures failed b)
          (ground (
            arith,
            v.counted,
            old,
            count_failed-append (drop (suc b.head) b.window) (take b.head b.window ++ failed ∷ []),
            count_failed-append (take b.head b.window) (failed ∷ []),
            count_failed-append (drop (suc b.head) b.window) (take b.head b.window),
          ))
  ]

  filling_next :
      (failed : Bool) (b : FailureRate F)
      → IsValid b
      → (record_outcome failed b).count < (record_outcome failed b).window_size
      → (record_outcome failed b).head ≡ (record_outcome failed b).count
  filling_next failed b v h = elim (dec_lt (b.count + 1) b.window_size) [
    | yes p ↦ ground (
      arith,
      record_outcome_ring failed b,
      v.filling (omega arith),
      mod-eq_of_lt {n = b.head + 1} {m = b.window_size} (omega (arith, v.filling)),
    )
    | no p ↦ absurd (ground (arith, record_outcome_ring failed b))
  ]

  pub record_outcome-IsValid :
      (failed : Bool) {b : FailureRate F} → IsValid b → IsValid (record_outcome failed b)
  record_outcome-IsValid failed {b} v = record {
    sized = ground (arith, record_outcome_ring failed b, length-set b.window b.head failed);
    within = ground (arith, record_outcome_ring failed b);
    bounded = ground (arith, record_outcome_ring failed b);
    filling = filling_next failed b v;
    counted = failures-record_outcome failed b v;
  }

  pub new_failure_rate-IsValid :
      (size : ℕ) (threshold : F) (timeout max : ℕ)
      → 0 < size
      → IsValid (new_failure_rate size threshold timeout max)
  unfolding new_failure_rate recent read_ring
  new_failure_rate-IsValid size threshold timeout max h = record {
    sized = length-replicate size false;
    within = omega arith;
    bounded = omega arith;
    filling = λ _. refl;
    counted = ground arith;
  }
