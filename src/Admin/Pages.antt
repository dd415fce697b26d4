-- ===== src/Admin/Pages.antt =====
-- The pages of the limiters' endpoint.
use gateway_core.Base.{
  ℕ, zero, suc, ◌+◌, ◌-◌, ◌*◌, ◌%◌, ◌^◌, ◌≤◌, ◌<◌, min, ◌≡◌, refl, inl, inr, Bool, true, false,
  ◌&&◌, List, [], ◌∷◌, ◌++◌, Option, none, some, Bool-cases, arith, length, take, drop, length-drop,
  drop_all, if◌then◌else◌,
}
use native.Mathlib.Decide.{dec_lt}
use gateway_core.Base.Int.{ℤ, pos, negsuc, ◌+ℤ◌, ◌*ℤ◌, wrap, leb_ℤ, ltb_ℤ}
use gateway_core.Base.Bytes.{Bytes, bytes}
use gateway_core.RateLimit.Table.Evict.{snapshot, length-snapshot}
use gateway_core.Admin.{
  AdminRequest, Payload, limiters_value, Handler, limiters_endpoint, handle, write_value, page_of,
  page_size_of, parse_int, slice, paged, cut_at,
}

-- A product that an int64 holds, and one whose bits read as a negative number.
wrap_product_in : (p k : ℕ) → p * k < 2 ^ 63 → wrap (pos p *ℤ pos k) ≡ pos (p * k)
unfolding wrap ◌*ℤ◌
wrap_product_in p k h = ground arith

wrap_product_over :
    (p k : ℕ)
    → 2 ^ 63 ≤ (p * k) % 2 ^ 64
    → (n : ℕ) × (wrap (pos p *ℤ pos k) ≡ negsuc n) × (n < 2 ^ 63)
unfolding wrap ◌*ℤ◌
wrap_product_over p k h = (2 ^ 64 - (p * k) % 2 ^ 64 - 1, ground arith, ground arith)

wrap_product_low :
    (p k : ℕ) → (p * k) % 2 ^ 64 < 2 ^ 63 → wrap (pos p *ℤ pos k) ≡ pos ((p * k) % 2 ^ 64)
unfolding wrap ◌*ℤ◌
wrap_product_low p k h = ground arith

cut_at-pos : (t n : ℕ) → cut_at (pos t) (pos n) ≡ pos (min n t)
unfolding cut_at
cut_at-pos t n = ground arith

cut_at-negsuc : (t n : ℕ) → cut_at (pos t) (negsuc n) ≡ negsuc n
unfolding cut_at
cut_at-negsuc t n = ground arith

wrap_sum : (i k : ℕ) → i + k < 2 ^ 63 → wrap (pos i +ℤ pos k) ≡ pos (i + k)
unfolding wrap ◌+ℤ◌
wrap_sum i k h = ground arith

module _ {A : Type 0} where
  take_min : (n m : ℕ) (xs : List A) → min n (length xs) ≡ min m (length xs) → take n xs ≡ take m xs
  take_min zero zero xs h = refl
  take_min zero (suc m) [] h = refl
  take_min zero (suc m) (x ∷ xs) h = absurd (omega arith)
  take_min (suc n) zero [] h = refl
  take_min (suc n) zero (x ∷ xs) h = absurd (omega arith)
  take_min (suc n) (suc m) [] h = refl
  take_min (suc n) (suc m) (x ∷ xs) h = rw (take_min n m xs (omega arith))

  -- What is left between two bounds that are cut off at the end of the list.
  between-cut :
      (xs : List A) (i k : ℕ)
      → take
          (min (min i (length xs) + k) (length xs) - min i (length xs))
          (drop (min i (length xs)) xs)
        ≡ take k (drop i xs)
  between-cut xs i k = elim (dec_lt i (length xs)) [
    | yes h ↦
        let e : min i (length xs) ≡ i = omega arith in
        rw e (take_min _ k (drop i xs) (rw (length-drop i xs) (omega arith)))
    | no h ↦
        let e : min i (length xs) ≡ length xs = omega arith in
        rw (e, drop_all (length xs) xs (omega arith), drop_all i xs (omega arith))
          (take_min _ k [] (omega arith))
  ]

  slice-pos :
      (xs : List A) (i j : ℕ)
      → i ≤ j
      → j ≤ length xs
      → slice xs (pos i) (pos j) ≡ some (take (j - i) (drop i xs))
  unfolding slice
  slice-pos xs i j h k = ground arith

  paged_low :
      (xs : List A) (p k m : ℕ)
      → wrap (pos p *ℤ pos k) ≡ pos m
      → length xs ≤ 10000
      → k ≤ 1000
      → paged xs (pos p) (pos k) ≡ some (take k (drop m xs))
  unfolding paged
  paged_low xs p k m e h b = rw (
    e,
    cut_at-pos (length xs) m,
    wrap_sum (min m (length xs)) k (omega arith),
    cut_at-pos (length xs) _,
    slice-pos xs (min m (length xs)) (min (min m (length xs) + k) (length xs)) (omega arith)
        (omega arith),
    between-cut xs m k,
  )

  paged_over :
      (xs : List A) (p k n : ℕ) → wrap (pos p *ℤ pos k) ≡ negsuc n → paged xs (pos p) (pos k) ≡ none
  unfolding paged slice
  paged_over xs p k n e = rw (e, cut_at-negsuc (length xs) n)

take-nil : {A : Type 0} (n : ℕ) → take {A = A} n [] ≡ []
take-nil zero = refl
take-nil (suc n) = refl

take-add : {A : Type 0} (i k : ℕ) (xs : List A) → take (i + k) xs ≡ take i xs ++ take k (drop i xs)
take-add zero k xs = let e : 0 + k ≡ k = omega arith in rw e
take-add (suc i) k [] = rw (take-nil (suc i + k), take-nil k)
take-add (suc i) k (x ∷ xs) =
    let e : suc i + k ≡ suc (i + k) = omega arith in rw (e, take-add i k xs)

-- The first `n` pages of a list, put together.
unfoldable pub pages : {A : Type 0} → List A → (size n : ℕ) → Option (List A)
pages xs size zero = some []
pages xs size (suc n) = elim (pages xs size n) [
  | none ↦ none
  | some ys ↦ elim (paged xs (pos n) (pos size)) [ none ↦ none | some zs ↦ some (ys ++ zs) ]
]

-- The pages of one snapshot follow one another without a gap and without a repetition: the first n
-- of them are its first n times `size` entries, and all of them if these are no more, as long as
-- an int64 holds that number.
pub pages-take :
    {A : Type 0} (xs : List A) (size n : ℕ)
    → length xs ≤ 10000
    → size ≤ 1000
    → n * size < 2 ^ 63
    → pages xs size n ≡ some (take (n * size) xs)
unfolding pages
pages-take xs size zero h b c = let e : 0 * size ≡ 0 = omega arith in rw e
pages-take xs size (suc n) h b c =
    let e : suc n * size ≡ n * size + size = omega arith in
    let low : n * size < 2 ^ 63 = omega arith in
    rw (
      pages,
      pages-take xs size n h b low,
      paged_low xs n size (n * size) (wrap_product_in n size low) h b,
      e,
      take-add (n * size) size xs,
    )

-- The numbers that are read from a request.
chosen_page :
    (given : Bool) (v : ℤ) → (p : ℕ) × ((if given && leb_ℤ (pos 0) v then v else pos 0) ≡ pos p)
chosen_page false v = (0, refl)
chosen_page true (pos n) = (n, ground arith)
chosen_page true (negsuc n) = (0, ground arith)

page_of-pos : (r : AdminRequest) → (p : ℕ) × (page_of r ≡ pos p)
unfolding page_of
page_of-pos r = chosen_page _ (parse_int (r.query (bytes "page")))

chosen_size :
    (given : Bool) (v : ℤ)
    → (k : ℕ) × ((if given && (ltb_ℤ (pos 0) v && leb_ℤ v (pos 1000)) then v else pos 100) ≡ pos k)
      × (0 < k)
      × (k ≤ 1000)
chosen_size false v = (100, refl, omega arith, omega arith)
chosen_size true (negsuc n) = (100, ground arith, omega arith, omega arith)
chosen_size true (pos n) = elim (Bool-cases (ltb_ℤ (pos 0) (pos n) && leb_ℤ (pos n) (pos 1000))) [
  | inl e ↦ (n, rw e refl, ground arith, ground arith)
  | inr e ↦ (100, rw e refl, omega arith, omega arith)
]

page_size_of-pos : (r : AdminRequest) → (k : ℕ) × (page_size_of r ≡ pos k) × (0 < k) × (k ≤ 1000)
unfolding page_size_of
page_size_of-pos r = chosen_size _ (parse_int (r.query (bytes "page_size")))

module _ {F Ip Cidr : Type 0} (parse_ip : Bytes → Option Ip) (contains : Cidr → Ip → Bool)
    (split_host_port : Bytes → Option Bytes) (encode : Payload F → Option Bytes) where
  -- A request for the limiters has a page and a page size of 1 up to 1000. With the product of the
  -- two modulo 2^64, an answer shows that many entries of the snapshot from the product on, if there
  -- are so many, with their total number and the page; it is given exactly if the product is less
  -- than 2^63, and the handler panics otherwise.
  pub limiters_page :
      (h : Handler F Cidr) (r : AdminRequest)
      → (p : ℕ) × ((k : ℕ) × (page_of r ≡ pos p)
          × (page_size_of r ≡ pos k)
          × (0 < k)
          × (k ≤ 1000)
          × ((p * k) % 2 ^ 64 < 2 ^ 63
              → handle parse_ip contains split_host_port encode h limiters_endpoint r
                ≡ some (
                    write_value parse_ip contains split_host_port encode 200 (
                      limiters_value
                        (take k (drop ((p * k) % 2 ^ 64) (snapshot h.limiter.table)))
                        (pos (length (snapshot h.limiter.table)))
                        (pos p))))
          × (2 ^ 63 ≤ (p * k) % 2 ^ 64
              → handle parse_ip contains split_host_port encode h limiters_endpoint r ≡ none))
  unfolding handle
  limiters_page h r =
      let (p, e) = page_of-pos r in
      let (k, f, low, high) = page_size_of-pos r in
      (
        p,
        (
          k,
          e,
          f,
          low,
          high,
          λ m.
              rw
                (
                  handle,
                  e,
                  f,
                  paged_low (snapshot h.limiter.table) p k _ (wrap_product_low p k m)
                      (length-snapshot h.limiter.table) high,
                )
                (rw e),
          λ m.
              let (n, g, _) = wrap_product_over p k m in
              rw (handle, e, f, paged_over (snapshot h.limiter.table) p k n g),
        ),
      )
