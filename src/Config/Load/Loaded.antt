-- ===== src/Config/Load/Loaded.antt =====
-- What holds of a configuration that `load` returns.
use gateway_core.Base.{◌≡◌, subst, ◌⊎◌, inl, inr, Bool, Option, Option-cases}
use gateway_core.Base.Float.{Float}
use gateway_core.Base.Bytes.{Bytes}
use gateway_core.Http.{Url}
use gateway_core.Config.Types.{Config}
use gateway_core.Config.Defaults.{apply_defaults}
use gateway_core.Config.Validate.{validate}
use gateway_core.Config.Validate.Valid.{IsValidConfig, validate_iff}
use gateway_core.Config.Load.{LoadError, checked, load, expand_env_vars}

module _ {F : Type 0} ⦃fl : Float F⦄ (env : Bytes → Option Bytes)
    (unmarshal : Bytes → Option (Config F)) (parse : Bytes → Option Url)
    (parse_cidr : Bytes → Bool) where
  IsLoaded : LoadError ⊎ Config F → Type 0
  IsLoaded (inl e) = Unit
  IsLoaded (inr cfg) = IsValidConfig parse parse_cidr cfg

  checked-IsLoaded : (cfg : Config F) → IsLoaded (checked env unmarshal parse parse_cidr cfg)
  unfolding checked IsLoaded
  checked-IsLoaded cfg = elim (Option-cases (validate parse parse_cidr cfg)) [
    | inl e ↦
        let v = (validate_iff parse parse_cidr cfg).0 e in
        rw (e, checked)
          (record {
            server = v.server;
            rate_limit = v.rate_limit;
            auth = v.auth;
            circuit_breaker = v.circuit_breaker;
            global_timeout = v.global_timeout;
            tls = v.tls;
            logging = v.logging;
            admin = v.admin;
            some_route = v.some_route;
            routes = v.routes;
            distinct = v.distinct;
          })
    | inr (f, e) ↦ rw (e, checked) _
  ]

  -- What `load` returns is valid.
  pub load-IsValidConfig :
      (text : Bytes) (cfg : Config F)
      → load env unmarshal parse parse_cidr text ≡ inr cfg
      → IsValidConfig parse parse_cidr cfg
  unfolding load IsLoaded
  load-IsValidConfig text cfg h = elim (Option-cases (unmarshal (expand_env_vars env text))) [
    | inl e ↦ cc (rw (e, load) at h)
    | inr (raw, e) ↦
        let same : checked env unmarshal parse parse_cidr (apply_defaults raw) ≡ inr cfg =
          rw (e, load) at h in
        subst IsLoaded same (checked-IsLoaded (apply_defaults raw))
  ]
