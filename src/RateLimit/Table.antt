-- ===== src/RateLimit/Table.antt =====
-- The clients of internal/ratelimit/ratelimit.go: `getLimiter`, by the sections that it holds a lock for,
-- and the two phases of `evictOnce`. A
-- token bucket (`rate.Limiter`) is known by its address; `new_limiter` is the next free one. Keys are
-- compared by `same_key`. One call reads the clock once.
pub mod Update
pub mod Idle
pub mod Evict
pub mod Sections
use gateway_core.Base.{
  ℕ, suc, ◌+◌, ◌-◌, ◌/◌, Bool, true, false, ◌&&◌, List, [], ◌∷◌, Option, none, some, ltb, ◌==◌,
  if◌then◌else◌,
}

pub record Client : Type 0 where
  pub limiter : ℕ
  pub last_seen : ℕ

pub record Table (K : Type 0) : Type 0 where
  pub clients : List (K × Client)
  pub idle_ttl : ℕ
  pub new_limiter : ℕ

-- What the section under the read lock finds: a client seen lately or not, by its bucket, or none.
pub data Probe : Type 0 where
  hit stale : ℕ → Probe
  missing : Probe

abbrev pub found_bucket : Probe → Option ℕ
found_bucket (hit id) = some id
found_bucket (stale id) = some id
found_bucket missing = none

module _ {K : Type 0} (same_key : K → K → Bool) where
  unfoldable pub find_client : K → List (K × Client) → Option Client
  find_client k [] = none
  find_client k ((j, c) ∷ cs) = let rest = find_client k cs in if same_key j k then some c else rest

  -- `l.clients[key] = c` for a key of the map.
  unfoldable pub update_client : K → Client → List (K × Client) → List (K × Client)
  update_client k c [] = []
  update_client k c ((j, d) ∷ cs) =
      let rest = update_client k c cs in if same_key j k then (j, c) ∷ cs else (j, d) ∷ rest

  unfoldable pub delete_client : K → List (K × Client) → List (K × Client)
  delete_client k [] = []
  delete_client k ((j, d) ∷ cs) =
      let rest = delete_client k cs in if same_key j k then rest else (j, d) ∷ rest

  unfoldable pub look_up : K → ℕ → Table K → Probe
  look_up k now t = elim (find_client k t.clients) [
    | some c ↦ if ltb (t.idle_ttl / 2) (now - c.last_seen) then stale c.limiter else hit c.limiter
    | none ↦ missing
  ]

  -- The refresh writes to the client that the probe has found. It is in the table as long as the
  -- client of the key has its bucket.
  unfoldable pub refresh : K → (id : ℕ) → ℕ → Table K → Table K
  refresh k id now t = elim (find_client k t.clients) [
    | some c ↦
        if c.limiter == id
        then record t { clients = update_client k (record c { last_seen = now }) t.clients }
        else t
    | none ↦ t
  ]

  -- The section under the write lock, which looks the key up again.
  unfoldable pub insert : K → ℕ → Table K → Table K × ℕ
  insert k now t = elim (find_client k t.clients) [
    | some c ↦
        (record t { clients = update_client k (record c { last_seen = now }) t.clients }, c.limiter)
    | none ↦ (
      record t {
        clients = (k, record { limiter = t.new_limiter; last_seen = now }) ∷ t.clients;
        new_limiter = suc t.new_limiter;
      },
      t.new_limiter,
    )
  ]

  -- What a call does after its probe.
  unfoldable pub follow : K → ℕ → Probe → Table K → Table K × ℕ
  follow k now (hit id) t = (t, id)
  follow k now (stale id) t = (refresh k id now t, id)
  follow k now missing t = insert k now t

  -- The sections of a call in a row, as where no other call and no eviction comes between them.
  unfoldable pub get_limiter : K → ℕ → Table K → Table K × ℕ
  get_limiter k now t = follow k now (look_up k now t) t

  -- The first phase of an eviction.
  unfoldable pub expired_keys : ℕ → ℕ → List (K × Client) → List K
  expired_keys now ttl [] = []
  expired_keys now ttl ((k, c) ∷ cs) =
      let rest = expired_keys now ttl cs in if ltb ttl (now - c.last_seen) then k ∷ rest else rest

  unfoldable pub evict_key : ℕ → ℕ → K → List (K × Client) → List (K × Client)
  evict_key now ttl k cs = elim (find_client k cs) [
    | none ↦ cs
    | some c ↦ if ltb ttl (now - c.last_seen) then delete_client k cs else cs
  ]

  unfoldable pub evict_keys : ℕ → ℕ → List K → List (K × Client) → List (K × Client)
  evict_keys now ttl [] cs = cs
  evict_keys now ttl (k ∷ ks) cs = evict_keys now ttl ks (evict_key now ttl k cs)

  -- One batch of the second phase, for keys that an earlier scan found: each is tested again.
  unfoldable pub evict_batch : ℕ → List K → Table K → Table K
  evict_batch now keys t = record t { clients = evict_keys now t.idle_ttl keys t.clients }
