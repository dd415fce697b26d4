-- ===== src/Health/Ready.antt =====
-- When the gateway says that it is ready.
use gateway_core.Base.{ℕ, ◌-◌, ◌≤◌, ◌≡◌, ◌⊎◌, Bool, true, List, Option, none, some}
use gateway_core.Base.Bytes.{Bytes}
use gateway_core.Http.{Url}
use gateway_core.Config.Types.{RouteConfig}
use gateway_core.CircuitBreaker.State.{State, closed, half_open}
use gateway_core.CircuitBreaker.Composite.{Composite, effective_state}
use gateway_core.Proxy.Router.{lookup}
use gateway_core.Health.{Cached, readiness_cache_ttl, dial_host}

-- The backend's URL can be parsed, and its host answers.
abbrev pub Answers : (Bytes → Option Url) → (Bytes → Bool) → (Bytes → Bool) → Bytes → Type 0
Answers parse has_port dial backend =
    (u : Url) × (parse backend ≡ some u) × (dial (dial_host parse has_port dial u) ≡ true)

-- What a backend has to be: probing its circuit, or reachable with no circuit or a closed one.
abbrev pub IsUp :
    {F : Type 0}
    → (Bytes → Option Url)
    → (Bytes → Bool)
    → (Bytes → Bool)
    → List (Bytes × Composite F)
    → RouteConfig F
    → Type 0
IsUp {F} parse has_port dial breakers r =
    ((lookup r.backend breakers ≡ none) × Answers parse has_port dial r.backend)
    ⊎ ((b : Composite F) × (lookup r.backend breakers ≡ some b)
        × ((effective_state b ≡ half_open)
            ⊎ ((effective_state b ≡ closed) × Answers parse has_port dial r.backend)))

-- There is no answer, or one that was made five seconds before or earlier.
abbrev pub IsStale : (asked_at : ℕ) → Option Cached → Type 0
IsStale asked_at none = Unit
IsStale asked_at (some c) = readiness_cache_ttl ≤ asked_at - c.at
