-- ===== src/Config/Load.antt =====
-- `load` of internal/config/config.go: from the bytes of a file to a configuration. The environment and
-- package yaml are parameters.
pub mod Loaded
use gateway_core.Base.{
  ℕ, Bool, true, false, ◌&&◌, ◌||◌, ◌==◌, List, [], ◌∷◌, ◌++◌, Option, none, some, ◌⊎◌, inl, inr,
  if◌then◌else◌,
}
use mathlib.Core.List.{reverse}
use gateway_core.Base.Float.{Float}
use gateway_core.Base.Bytes.{Bytes, bytes, has_prefix}
use gateway_core.Http.{Url}
use gateway_core.Config.Types.{Config, MetricsConfig}
use gateway_core.Config.Defaults.{apply_defaults}
use gateway_core.Config.Validate.{Fault, validate}

unfoldable pub is_enabled : MetricsConfig → Bool
is_enabled m = elim m.enabled [ none ↦ true | some b ↦ b ]

abbrev dollar_brace : Bytes
dollar_brace = bytes "${"

-- What stands in place of `${key}`: the variable's value, or the text itself.
abbrev pub replaced : (Bytes → Option Bytes) → Bytes → Bytes
replaced env key = elim (env key) [ some v ↦ v | none ↦ dollar_brace ++ key ++ bytes "}" ]

-- Where a scan for `\$\{([^}]+)}` stands: outside a match, behind a dollar sign, or in the name, last
-- byte first.
pub data Scanned : Type 0 where
  outside dollar : Scanned
  inside : Bytes → Scanned

abbrev pub close_key : (Bytes → Option Bytes) → Bytes → Bytes
close_key env [] = bytes "${}"
close_key env (c ∷ key) = replaced env (reverse (c ∷ key))

-- A name without a closing brace behind it is no match, and nothing behind it can be one.
unfoldable pub expand_from : (Bytes → Option Bytes) → Scanned → Bytes → Bytes
expand_from env outside [] = []
expand_from env dollar [] = bytes "$"
expand_from env (inside key) [] = dollar_brace ++ reverse key
expand_from env outside (c ∷ s) = elim (c == b'$') [
  | true ↦ expand_from env dollar s
  | false ↦ c ∷ expand_from env outside s
]
expand_from env dollar (c ∷ s) = elim (c == b'{') [
  | true ↦ expand_from env (inside []) s
  | false ↦ elim (c == b'$') [
    | true ↦ b'$' ∷ expand_from env dollar s
    | false ↦ b'$' ∷ c ∷ expand_from env outside s
  ]
]
expand_from env (inside key) (c ∷ s) = elim (c == b'}') [
  | true ↦ close_key env key ++ expand_from env outside s
  | false ↦ expand_from env (inside (c ∷ key)) s
]

unfoldable pub expand_env_vars : (Bytes → Option Bytes) → Bytes → Bytes
expand_env_vars env s = expand_from env outside s

-- `strings.Contains(s, sub)`.
unfoldable pub contains : Bytes → Bytes → Bool
contains sub [] = has_prefix [] sub
contains sub (c ∷ s) = has_prefix (c ∷ s) sub || contains sub s

pub data LoadError : Type 0 where
  unparsable : LoadError
  invalid : Fault → LoadError

module _ {F : Type 0} where
  unfoldable pub collect_warnings : Config F → List Bytes
  collect_warnings cfg =
      if cfg.auth.enabled && contains dollar_brace cfg.auth.jwt_secret
      then bytes "auth.jwt_secret contains unresolved environment variable" ∷ []
      else []

module _ {F : Type 0} ⦃fl : Float F⦄ (env : Bytes → Option Bytes)
    (unmarshal : Bytes → Option (Config F)) (parse : Bytes → Option Url)
    (parse_cidr : Bytes → Bool) where
  unfoldable pub checked : Config F → LoadError ⊎ Config F
  checked cfg = elim (validate parse parse_cidr cfg) [
    | some e ↦ inl (invalid e)
    | none ↦ inr (record cfg { warnings = collect_warnings cfg })
  ]

  unfoldable pub load : Bytes → LoadError ⊎ Config F
  load text = elim (unmarshal (expand_env_vars env text)) [
    | none ↦ inl unparsable
    | some cfg ↦ checked (apply_defaults cfg)
  ]
