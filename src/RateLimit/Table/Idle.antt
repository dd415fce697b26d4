-- ===== src/RateLimit/Table/Idle.antt =====
-- A client that keeps calling keeps its token bucket.
use gateway_core.Base.{
  ℕ, ◌+◌, ◌-◌, ◌/◌, ◌≤◌, ◌≡◌, refl, sym, subst, ◌↔◌, Bool, true, List, [], ◌∷◌, Option, none, some,
  ltb, arith, All, Option-cases, Bool-cases, inl, inr,
}
use gateway_core.RateLimit.Table.{
  Client, Table, hit, found_bucket, find_client, update_client, look_up, refresh, insert, follow,
  evict_key, evict_keys, evict_batch,
}
use gateway_core.RateLimit.Table.Update.{update_same, update_other, delete_other, find_first}
use gateway_core.RateLimit.Table.Sections.{Section, probes, inserts, refreshes, run_sections}

-- What can come between two sections: a section of any call, or a batch of an eviction.
pub data Event (K : Type 0) : Type 0 where
  calls : Section K → Event K
  evicts : ℕ → List K → Event K

abbrev pub time : {K : Type 0} → Event K → ℕ
time (calls (probes k now)) = now
time (calls (inserts k now)) = now
time (calls (refreshes k id now)) = now
time (evicts now ks) = now

abbrev pub IsSeen : (id since half : ℕ) → Option Client → Type 0
IsSeen id since half none = ⊥
IsSeen id since half (some c) = (c.limiter ≡ id) × (since ≤ c.last_seen + half)

module _ {K : Type 0} (same_key : K → K → Bool) where
  unfoldable pub run_events : List (Event K) → Table K → Table K
  run_events [] t = t
  run_events (calls s ∷ es) t = run_events es (run_sections same_key (s ∷ []) t)
  run_events (evicts now ks ∷ es) t = run_events es (evict_batch same_key now ks t)

  -- A section of a call that leaves the client of its key with the bucket `id`, just seen: the probe
  -- finds it seen lately, or it is refreshed while it is in the table, or looked up or inserted under
  -- the write lock.
  pub data Sees (k : K) (id now : ℕ) (before after : Table K) : Type 0 where
    hits : look_up same_key k now before ≡ hit id → after ≡ before → Sees k id now before after
    refreshed :
        found_bucket (look_up same_key k now before) ≡ some id
        → after ≡ refresh same_key k id now before
        → Sees k id now before after
    inserted : insert same_key k now before ≡ (after, id) → Sees k id now before after

module _ {K : Type 0} (same_key : K → K → Bool)
    (same_key_iff : (j k : K) → (same_key j k ≡ true) ↔ (j ≡ k)) where
  -- The client of `k` is known by its bucket, and was seen at most half the TTL before `since`.
  abbrev IsLive : K → ℕ → ℕ → Table K → Type 0
  IsLive k id since t = IsSeen id since (t.idle_ttl / 2) (find_client same_key k t.clients)

  -- After a client has been seen.
  IsLive-update :
      (k j : K) (id since now : ℕ) (c : Client) (t : Table K)
      → since ≤ now
      → find_client same_key j t.clients ≡ some c
      → IsLive k id since t
      → IsSeen id since (t.idle_ttl / 2) (
          find_client same_key k
            (update_client same_key j (record c { last_seen = now }) t.clients))
  IsLive-update k j id since now c t le e live = elim (Bool-cases (same_key j k)) [
    | inl q ↦
        let same : j ≡ k = (same_key_iff j k).0 q in
        let seen =
          update_same same_key same_key_iff j (record c { last_seen = now }) c t.clients e in
        let found = subst (λ x. find_client same_key x t.clients ≡ some c) same e in
        let kept =
          subst
            (λ x.
              find_client same_key x
                (update_client same_key j (record c { last_seen = now }) t.clients)
              ≡ some (record c { last_seen = now }))
            same seen in
        ground arith
    | inr q ↦
        let other =
          update_other same_key same_key_iff k j (record c { last_seen = now }) t.clients q in
        rw other live
  ]

  IsLive-refresh :
      (k j : K) (id i since now : ℕ) (t : Table K)
      → since ≤ now
      → IsLive k id since t
      → IsLive k id since (refresh same_key j i now t)
  unfolding refresh
  IsLive-refresh k j id i since now t le live =
      elim (Option-cases (find_client same_key j t.clients)) [
        | inl e ↦ ground arith
        | inr (c, e) ↦ let kept = IsLive-update k j id since now c t le e live in ground arith
      ]

  IsLive-insert :
      (k j : K) (id since now : ℕ) (t : Table K)
      → since ≤ now
      → IsLive k id since t
      → IsLive k id since (insert same_key j now t).0
  unfolding insert
  IsLive-insert k j id since now t le live =
      elim (Option-cases (find_client same_key j t.clients)) [
        | inl e ↦
            let first =
              find_first same_key same_key_iff k j
                (record { limiter = t.new_limiter; last_seen = now }) t.clients in
            elim (Bool-cases (same_key j k)) [
              | inl q ↦
                  let none_too =
                    subst (λ x. find_client same_key x t.clients ≡ none) ((same_key_iff j k).0 q)
                      e in
                  absurd (ground arith)
              | inr q ↦ ground arith
            ]
        | inr (c, e) ↦ let kept = IsLive-update k j id since now c t le e live in ground arith
      ]

  IsLive-evict_key :
      (k j : K) (id since now ttl : ℕ) (cs : List (K × Client))
      → now ≤ since + (ttl - ttl / 2)
      → IsSeen id since (ttl / 2) (find_client same_key k cs)
      → IsSeen id since (ttl / 2) (find_client same_key k (evict_key same_key now ttl j cs))
  unfolding evict_key
  IsLive-evict_key k j id since now ttl cs le live = elim (Bool-cases (same_key j k)) [
    | inl e ↦
        subst
          (λ x.
            IsSeen id since (ttl / 2) (find_client same_key k (evict_key same_key now ttl x cs)))
          (sym ((same_key_iff j k).0 e)) kept
    | inr e ↦
        let other = delete_other same_key same_key_iff k j cs e in
        elim (Option-cases (find_client same_key j cs)) [
          | inl n ↦ ground arith
          | inr (c, n) ↦ ground arith
        ]
  ]
    where
      kept : IsSeen id since (ttl / 2) (find_client same_key k (evict_key same_key now ttl k cs))
      kept = elim (Option-cases (find_client same_key k cs)) [
        | inl n ↦ absurd (ground arith)
        | inr (c, n) ↦ ground arith
      ]

  IsLive-evict_keys :
      (k : K) (id since now ttl : ℕ) (ks : List K) (cs : List (K × Client))
      → now ≤ since + (ttl - ttl / 2)
      → IsSeen id since (ttl / 2) (find_client same_key k cs)
      → IsSeen id since (ttl / 2) (find_client same_key k (evict_keys same_key now ttl ks cs))
  unfolding evict_keys
  IsLive-evict_keys k id since now ttl [] cs le live = live
  IsLive-evict_keys k id since now ttl (j ∷ ks) cs le live =
      IsLive-evict_keys k id since now ttl ks (evict_key same_key now ttl j cs) le
        (IsLive-evict_key k j id since now ttl cs le live)

  -- The TTL stays as it is.
  section-idle_ttl :
      (s : Section K) (t : Table K) → (run_sections same_key (s ∷ []) t).idle_ttl ≡ t.idle_ttl
  unfolding run_sections insert refresh
  section-idle_ttl (probes k now) t = refl
  section-idle_ttl (inserts k now) t = ground arith
  section-idle_ttl (refreshes k id now) t = ground arith

  section-IsLive :
      (k : K) (id since : ℕ) (s : Section K) (t : Table K)
      → since ≤ time (calls s)
      → IsLive k id since t
      → IsLive k id since (run_sections same_key (s ∷ []) t)
  unfolding run_sections
  section-IsLive k id since (probes j now) t le live = live
  section-IsLive k id since (inserts j now) t le live = IsLive-insert k j id since now t le live
  section-IsLive k id since (refreshes j i now) t le live =
      IsLive-refresh k j id i since now t le live

  run-IsLive :
      (k : K) (id since : ℕ) (es : List (Event K)) (t : Table K)
      → All (λ e. (since ≤ time e) × (time e ≤ since + (t.idle_ttl - t.idle_ttl / 2))) es
      → IsLive k id since t
      → IsLive k id since (run_events same_key es t)
  unfolding run_events evict_batch
  run-IsLive k id since [] t h live = live
  run-IsLive k id since (calls s ∷ es) t h live =
      run-IsLive k id since es (run_sections same_key (s ∷ []) t) (rw (section-idle_ttl s t) h.1)
        (section-IsLive k id since s t h.0.0 live)
  run-IsLive k id since (evicts now ks ∷ es) t h live =
      run-IsLive k id since es (evict_batch same_key now ks t) h.1
        (IsLive-evict_keys k id since now t.idle_ttl ks t.clients h.0.1 live)

  insert-IsLive :
      (k : K) (now : ℕ) (t : Table K)
      → IsLive k (insert same_key k now t).1 now (insert same_key k now t).0
  unfolding insert
  insert-IsLive k now t =
      let same = (same_key_iff k k).1 refl in
      let first =
        find_first same_key same_key_iff k k (record { limiter = t.new_limiter; last_seen = now })
          t.clients in
      elim (Option-cases (find_client same_key k t.clients)) [
        | inl e ↦ ground arith
        | inr (c, e) ↦
            let seen =
              update_same same_key same_key_iff k (record c { last_seen = now }) c t.clients e in
            ground arith
      ]

  hit-IsLive :
      (k : K) (id now : ℕ) (t : Table K) → look_up same_key k now t ≡ hit id → IsLive k id now t
  unfolding look_up
  hit-IsLive k id now t h = elim (Option-cases (find_client same_key k t.clients)) [
    | inl e ↦ absurd (ground arith)
    | inr (c, e) ↦ elim (Bool-cases (ltb (t.idle_ttl / 2) (now - c.last_seen))) [
      | inl q ↦ absurd (ground arith)
      | inr q ↦ ground arith
    ]
  ]

  refresh-IsLive :
      (k : K) (id now : ℕ) (t : Table K)
      → found_bucket (look_up same_key k now t) ≡ some id
      → IsLive k id now (refresh same_key k id now t)
  unfolding look_up refresh
  refresh-IsLive k id now t h = elim (Option-cases (find_client same_key k t.clients)) [
    | inl e ↦ absurd (ground arith)
    | inr (c, e) ↦
        let seen =
          update_same same_key same_key_iff k (record c { last_seen = now }) c t.clients e in
        elim (Bool-cases (ltb (t.idle_ttl / 2) (now - c.last_seen))) [
          | inl q ↦ ground arith
          | inr q ↦ ground arith
        ]
  ]

  Sees-IsLive :
      (k : K) (id now : ℕ) (s t : Table K) → Sees same_key k id now s t → IsLive k id now t
  Sees-IsLive k id now s t (hits h e) = rw e (hit-IsLive k id now s h)
  Sees-IsLive k id now s t (refreshed h e) = rw e (refresh-IsLive k id now s h)
  Sees-IsLive k id now s t (inserted e) =
      subst (λ p. IsLive k p.1 now p.0) e (insert-IsLive k now s)

  IsLive-answers :
      (k : K) (id since later : ℕ) (t : Table K)
      → IsLive k id since t
      → ((done : ℕ) (u : Table K) → (follow same_key k done (look_up same_key k later t) u).1 ≡ id)
        × ((insert same_key k later t).1 ≡ id)
  unfolding insert look_up follow
  IsLive-answers k id since later t live = elim (Option-cases (find_client same_key k t.clients)) [
    | inl n ↦ absurd (ground arith)
    | inr (c, n) ↦ (
      λ done u. elim (Bool-cases (ltb (t.idle_ttl / 2) (later - c.last_seen))) [
        | inl q ↦ ground arith
        | inr q ↦ ground arith
      ],
      ground arith,
    )
  ]

  -- A client keeps its token bucket: a section of a call sees it at `now`, and from then on, for the idle
  -- TTL less its half, come any sections of other calls, and batches of evictions that try any keys. Then
  -- a call for the same key that probes the table gets the same bucket, whatever comes between its
  -- probe and its end, and so does one that has probed before and now inserts. Keys compare as equal
  -- exactly if they are.
  pub get_limiter_stable :
      (k : K) (id now later : ℕ) (es : List (Event K)) (s t : Table K)
      → Sees same_key k id now s t
      → All (λ e. (now ≤ time e) × (time e ≤ now + (t.idle_ttl - t.idle_ttl / 2))) es
      → ((done : ℕ) (u : Table K)
          → (follow same_key k done (look_up same_key k later (run_events same_key es t)) u).1 ≡ id)
        × ((insert same_key k later (run_events same_key es t)).1 ≡ id)
  get_limiter_stable k id now later es s t seen h =
      IsLive-answers k id now later (run_events same_key es t)
        (run-IsLive k id now es t h (Sees-IsLive k id now s t seen))
