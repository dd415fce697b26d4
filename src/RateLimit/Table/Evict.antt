-- ===== src/RateLimit/Table/Evict.antt =====
-- `evictOnce` and `Snapshot` of internal/ratelimit/ratelimit.go.
use gateway_core.Base.{
  ℕ, zero, suc, ◌≤◌, ◌≡◌, refl, sym, ap, ◌∙◌, Bool, List, [], ◌∷◌, ◌++◌, arith, length, take, drop,
  length-drop,
}
use gateway_core.RateLimit.Table.{Client, Table, expired_keys, evict_keys, evict_batch}

abbrev pub evict_batch_size : ℕ
evict_batch_size = 256

-- The expired keys in batches, on fuel: as many batches as keys are enough.
unfoldable pub batches {ℓ} : {A : Type ℓ} → (fuel : ℕ) → List A → List (List A)
batches zero xs = []
batches (suc n) [] = []
batches (suc n) (x ∷ xs) =
    take evict_batch_size (x ∷ xs) ∷ batches n (drop evict_batch_size (x ∷ xs))

module _ {K : Type 0} (same_key : K → K → Bool) where
  unfoldable pub evict_batches : ℕ → List (List K) → Table K → Table K
  evict_batches now [] t = t
  evict_batches now (ks ∷ kss) t = evict_batches now kss (evict_batch same_key now ks t)

  -- A pass of the janitor that no request interrupts.
  unfoldable pub evict_once : ℕ → Table K → Table K
  evict_once now t =
      let expired = expired_keys same_key now t.idle_ttl t.clients in
      evict_batches now (batches (length expired) expired) t

  evict_keys-append :
      (now ttl : ℕ) (xs ys : List K) (cs : List (K × Client))
      → evict_keys same_key now ttl (xs ++ ys) cs
        ≡ evict_keys same_key now ttl ys (evict_keys same_key now ttl xs cs)
  unfolding evict_keys
  evict_keys-append now ttl [] ys cs = refl
  evict_keys-append now ttl (x ∷ xs) ys cs = evict_keys-append now ttl xs ys _

  take-drop : {A : Type 0} (n : ℕ) (xs : List A) → take n xs ++ drop n xs ≡ xs
  take-drop zero xs = refl
  take-drop (suc n) [] = refl
  take-drop (suc n) (x ∷ xs) = ap (λ l. x ∷ l) (take-drop n xs)

  evict_batches-evict_batch :
      (n now : ℕ) (ks : List K) (t : Table K)
      → length ks ≤ n
      → evict_batches now (batches n ks) t ≡ evict_batch same_key now ks t
  unfolding evict_batches batches evict_batch evict_keys
  evict_batches-evict_batch zero now [] t h = refl
  evict_batches-evict_batch zero now (k ∷ ks) t h = absurd (omega arith)
  evict_batches-evict_batch (suc n) now [] t h = refl
  evict_batches-evict_batch (suc n) now (k ∷ ks) t h =
      let shorter = length-drop evict_batch_size (k ∷ ks) in
      let first = evict_batch same_key now (take evict_batch_size (k ∷ ks)) t in
      evict_batches-evict_batch n now (drop evict_batch_size (k ∷ ks)) first
        (omega (arith, shorter))
      ∙ ap (λ cs. record t { clients = cs })
          (sym (evict_keys-append now t.idle_ttl (take evict_batch_size (k ∷ ks)) _ t.clients)
            ∙ ap (λ xs. evict_keys same_key now t.idle_ttl xs t.clients)
                (take-drop evict_batch_size (k ∷ ks)))

  -- Cutting the expired keys into batches changes nothing in a pass that is not interrupted.
  pub evict_once-evict_batch :
      (now : ℕ) (t : Table K)
      → evict_once now t
        ≡ evict_batch same_key now (expired_keys same_key now t.idle_ttl t.clients) t
  unfolding evict_once
  evict_once-evict_batch now t =
      evict_batches-evict_batch (length (expired_keys same_key now t.idle_ttl t.clients)) now _ t
        (omega arith)

abbrev pub max_snapshot_entries : ℕ
max_snapshot_entries = 10000

unfoldable pub snapshot_entries : {K : Type 0} → List (K × Client) → List (K × ℕ)
snapshot_entries [] = []
snapshot_entries ((k, c) ∷ cs) = (k, c.last_seen) ∷ snapshot_entries cs

-- The clients that an administrator is shown, each with its key and the time of its last request.
unfoldable pub snapshot : {K : Type 0} → Table K → List (K × ℕ)
snapshot t = snapshot_entries (take max_snapshot_entries t.clients)

length-snapshot_entries :
    {K : Type 0} (n : ℕ) (cs : List (K × Client)) → length (snapshot_entries (take n cs)) ≤ n
unfolding snapshot_entries
length-snapshot_entries zero cs = omega arith
length-snapshot_entries (suc n) [] = omega arith
length-snapshot_entries (suc n) ((k, c) ∷ cs) = omega (arith, length-snapshot_entries n cs)

pub length-snapshot : {K : Type 0} (t : Table K) → length (snapshot t) ≤ max_snapshot_entries
unfolding snapshot
length-snapshot t = length-snapshot_entries max_snapshot_entries t.clients
