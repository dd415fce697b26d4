-- ===== src/Middleware/Logging.antt =====
-- internal/middleware/logging.go: what a request leaves in the log. The expression that finds sensitive
-- fields is a matcher of its own here: one alternative at most can be followed by a quote, and a run of
-- white space, or of bytes other than a quote, ends where the next byte does not belong to it.
pub mod Matching
pub mod Redact
pub mod Record
pub mod Capture
mod Tests
use gateway_core.Base.{
  ℕ, zero, suc, ◌-◌, ◌+◌, Bool, true, false, ◌||◌, ◌&&◌, List, [], ◌∷◌, ◌++◌, Option, none, some,
  ◌==◌, if◌then◌else◌, length, take, leb,
}
use gateway_core.Base.Bytes.{Bytes, bytes}

abbrev pub quote : ℕ
quote = b'"'

abbrev pub colon : ℕ
colon = b':'

-- `(?i)`, for ASCII.
abbrev pub lower : ℕ → ℕ
lower c = if leb b'A' c && leb c b'Z' then c + 32 else c

abbrev pub sensitive_words : List Bytes
sensitive_words =
    bytes "password" ∷ bytes "secret" ∷ bytes "token" ∷ bytes "key" ∷ bytes "authorization" ∷ []

unfoldable pub expect : ℕ → Bytes → Option Bytes
expect b [] = none
expect b (c ∷ s) = if c == b then some s else none

-- What follows a word and a quote.
unfoldable pub word_end : Bytes → Bytes → Option Bytes
unfolding expect
word_end [] s = expect quote s
word_end (p ∷ ps) [] = none
word_end (p ∷ ps) (c ∷ s) = let rest = word_end ps s in if lower c == p then rest else none

unfoldable pub name_end : List Bytes → Bytes → Option Bytes
name_end [] s = none
name_end (w ∷ ws) s = elim (word_end w s) [ none ↦ name_end ws s | some r ↦ some r ]

-- `\s`.
abbrev pub is_blank : ℕ → Bool
is_blank c = c == b' ' || (c == 9 || (c == 10 || (c == 12 || c == 13)))

unfoldable pub skip_blank : Bytes → Bytes
skip_blank [] = []
skip_blank (c ∷ s) = let rest = skip_blank s in if is_blank c then rest else c ∷ s

-- `[^"]*"`.
unfoldable pub value_end : Bytes → Option Bytes
value_end [] = none
value_end (c ∷ s) = let rest = value_end s in if c == quote then some s else rest

-- `\s*:\s*"[^"]*"`.
unfoldable pub member_end : Bytes → Option Bytes
unfolding expect skip_blank value_end
member_end s = elim (expect colon (skip_blank s)) [
  | none ↦ none
  | some r ↦ elim (expect quote (skip_blank r)) [ none ↦ none | some v ↦ value_end v ]
]

-- What follows a match at the beginning of a text.
unfoldable pub match_end : Bytes → Option Bytes
unfolding expect
match_end s = elim (expect quote s) [
  | none ↦ none
  | some r ↦ elim (name_end sensitive_words r) [ none ↦ none | some t ↦ member_end t ]
]

-- `strings.LastIndex` for one byte.
unfoldable pub last_index : ℕ → Bytes → Option ℕ
last_index b [] = none
last_index b (c ∷ s) = elim (last_index b s) [
  | some i ↦ some (suc i)
  | none ↦ if c == b then some 0 else none
]

-- The replacement of a match.
unfoldable pub hide_value : Bytes → Bytes
unfolding last_index
hide_value text = elim (last_index quote text) [
  | none ↦ text
  | some close ↦ elim (last_index quote (take close text)) [
    | none ↦ text
    | some open_ ↦ take (suc open_) text ++ bytes "***" ++ quote ∷ []
  ]
]

-- `ReplaceAllStringFunc`; the first argument counts the bytes of a match that are still to be passed.
unfoldable pub redact_from : ℕ → Bytes → Bytes
redact_from n [] = []
redact_from (suc n) (c ∷ s) = redact_from n s
redact_from zero (c ∷ s) = elim (match_end (c ∷ s)) [
  | none ↦ c ∷ redact_from zero s
  | some rest ↦
      hide_value (take (suc (length s) - length rest) (c ∷ s))
      ++ redact_from (length s - length rest) s
]

unfoldable pub redact_sensitive : Bytes → Bytes
unfolding redact_from
redact_sensitive s = redact_from 0 s
