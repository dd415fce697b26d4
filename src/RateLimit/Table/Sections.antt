-- ===== src/RateLimit/Table/Sections.antt =====
-- Calls of `getLimiter` whose sections come between each other's.
use gateway_core.Base.{
  ℕ, ◌≡◌, refl, subst, ◌↔◌, Bool, true, List, [], ◌∷◌, Option, none, some, arith, Option-cases,
  Bool-cases, inl, inr,
}
use gateway_core.RateLimit.Table.{
  Client, Table, found_bucket, find_client, update_client, look_up, refresh, insert,
}
use gateway_core.RateLimit.Table.Update.{update_same, update_other, find_first}

-- A section of a call, with its key and its time; a refresh has the bucket that the call has found.
pub data Section (K : Type 0) : Type 0 where
  probes inserts : K → ℕ → Section K
  refreshes : K → (id : ℕ) → ℕ → Section K

module _ {K : Type 0} (same_key : K → K → Bool) where
  unfoldable pub run_sections : List (Section K) → Table K → Table K
  run_sections [] t = t
  run_sections (probes k now ∷ ss) t = run_sections ss t
  run_sections (inserts k now ∷ ss) t = run_sections ss (insert same_key k now t).0
  run_sections (refreshes k id now ∷ ss) t = run_sections ss (refresh same_key k id now t)

module _ {K : Type 0} (same_key : K → K → Bool)
    (same_key_iff : (j k : K) → (same_key j k ≡ true) ↔ (j ≡ k)) where
  abbrev HasBucket : (id : ℕ) → Option Client → Type 0
  HasBucket id none = ⊥
  HasBucket id (some c) = c.limiter ≡ id

  abbrev Holds : K → ℕ → Table K → Type 0
  Holds k id t = HasBucket id (find_client same_key k t.clients)

  Holds-update :
      (k j : K) (id now : ℕ) (c : Client) (t : Table K)
      → find_client same_key j t.clients ≡ some c
      → Holds k id t
      → HasBucket id (
          find_client same_key k
            (update_client same_key j (record c { last_seen = now }) t.clients))
  Holds-update k j id now c t e h = elim (Bool-cases (same_key j k)) [
    | inl q ↦
        let same : j ≡ k = (same_key_iff j k).0 q in
        let seen =
          update_same same_key same_key_iff j (record c { last_seen = now }) c t.clients e in
        let found = subst (λ x. find_client same_key x t.clients ≡ some c) same e in
        let kept =
          subst
            (λ x.
              find_client same_key x
                (update_client same_key j (record c { last_seen = now }) t.clients)
              ≡ some (record c { last_seen = now }))
            same seen in
        ground arith
    | inr q ↦
        let other =
          update_other same_key same_key_iff k j (record c { last_seen = now }) t.clients q in
        rw other h
  ]

  Holds-refresh :
      (k j : K) (id i now : ℕ) (t : Table K)
      → Holds k id t
      → Holds k id (refresh same_key j i now t)
  unfolding refresh
  Holds-refresh k j id i now t h = elim (Option-cases (find_client same_key j t.clients)) [
    | inl e ↦ ground arith
    | inr (c, e) ↦ let kept = Holds-update k j id now c t e h in ground arith
  ]

  Holds-insert :
      (k j : K) (id now : ℕ) (t : Table K) → Holds k id t → Holds k id (insert same_key j now t).0
  unfolding insert
  Holds-insert k j id now t h = elim (Option-cases (find_client same_key j t.clients)) [
    | inl e ↦
        let first =
          find_first same_key same_key_iff k j (record { limiter = t.new_limiter; last_seen = now })
            t.clients in
        elim (Bool-cases (same_key j k)) [
          | inl q ↦
              let none_too =
                subst (λ x. find_client same_key x t.clients ≡ none) ((same_key_iff j k).0 q) e in
              absurd (ground arith)
          | inr q ↦ ground arith
        ]
    | inr (c, e) ↦ let kept = Holds-update k j id now c t e h in ground arith
  ]

  insert-Holds :
      (k : K) (now : ℕ) (t : Table K)
      → Holds k (insert same_key k now t).1 (insert same_key k now t).0
  unfolding insert
  insert-Holds k now t = elim (Option-cases (find_client same_key k t.clients)) [
    | inl e ↦
        let same = (same_key_iff k k).1 refl in
        let first =
          find_first same_key same_key_iff k k (record { limiter = t.new_limiter; last_seen = now })
            t.clients in
        ground arith
    | inr (c, e) ↦
        let seen =
          update_same same_key same_key_iff k (record c { last_seen = now }) c t.clients e in
        ground arith
  ]

  run-Holds :
      (k : K) (id : ℕ) (ss : List (Section K)) (t : Table K)
      → Holds k id t
      → Holds k id (run_sections same_key ss t)
  unfolding run_sections
  run-Holds k id [] t h = h
  run-Holds k id (probes j now ∷ ss) t h = run-Holds k id ss t h
  run-Holds k id (inserts j now ∷ ss) t h =
      run-Holds k id ss (insert same_key j now t).0 (Holds-insert k j id now t h)
  run-Holds k id (refreshes j i now ∷ ss) t h =
      run-Holds k id ss (refresh same_key j i now t) (Holds-refresh k j id i now t h)

  Holds-answers :
      (k : K) (id now : ℕ) (t : Table K)
      → Holds k id t
      → ((insert same_key k now t).1 ≡ id) × (found_bucket (look_up same_key k now t) ≡ some id)
  unfolding insert look_up
  Holds-answers k id now t h = elim (Option-cases (find_client same_key k t.clients)) [
    | inl e ↦ absurd (ground arith)
    | inr (c, e) ↦ ground arith
  ]

  -- Calls that overlap share a bucket: once a call has inserted or found the client of a key under the
  -- write lock, whatever sections of other calls come next, every call for the key that has still to
  -- insert, and every probe for it, gets the same bucket, as long as no client is evicted. Keys compare
  -- as equal exactly if they are.
  pub sections_share :
      (k : K) (now later : ℕ) (ss : List (Section K)) (t : Table K)
      → ((insert same_key k later (run_sections same_key ss (insert same_key k now t).0)).1
          ≡ (insert same_key k now t).1)
        × (found_bucket
              (look_up same_key k later (run_sections same_key ss (insert same_key k now t).0))
            ≡ some (insert same_key k now t).1)
  sections_share k now later ss t =
      Holds-answers k (insert same_key k now t).1 later
        (run_sections same_key ss (insert same_key k now t).0)
        (run-Holds k _ ss (insert same_key k now t).0 (insert-Holds k now t))
