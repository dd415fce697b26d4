-- ===== src/Middleware/Logging/Matching.antt =====
-- Where the expression for sensitive fields matches.
use gateway_core.Base.{
  ◌≡◌, refl, ◌∙◌, inl, inr, Bool, true, false, ◌&&◌, ◌||◌, Bool-cases, List, [], ◌∷◌, ◌++◌, Option,
  none, some, Option-cases, ◌==◌, if◌then◌else◌, All, arith,
}
use gateway_core.Base.Bytes.{Bytes, bytes}
use gateway_core.Middleware.Logging.{
  quote, colon, lower, sensitive_words, expect, word_end, name_end, is_blank, skip_blank, value_end,
  member_end, match_end,
}

abbrev pub Unquoted : Bytes → Type 0
Unquoted = All (λ c. (c == quote) ≡ false)

abbrev is_word : Bytes → Bytes → Bool
is_word [] [] = true
is_word (p ∷ ps) (c ∷ s) = lower c == p && is_word ps s
is_word _ _ = false

abbrev is_any : List Bytes → Bytes → Bool
is_any [] s = false
is_any (w ∷ ws) s = is_word w s || is_any ws s

-- One of the sensitive words, in any case.
unfoldable pub is_sensitive : Bytes → Bool
is_sensitive s = is_any sensitive_words s

word_end-quote :
    (w s r : Bytes)
    → Unquoted w
    → Unquoted s
    → word_end w (s ++ quote ∷ r) ≡ (if is_word w s then some r else none)
unfolding word_end expect
word_end-quote [] [] r hw hs = refl
word_end-quote [] (c ∷ s) r hw hs = ground arith
word_end-quote (p ∷ ps) [] r hw hs = ground arith
word_end-quote (p ∷ ps) (c ∷ s) r hw hs = ground (arith, word_end-quote ps s r)

word_end-none : (w s : Bytes) → Unquoted s → word_end w s ≡ none
unfolding word_end expect
word_end-none [] [] h = refl
word_end-none [] (c ∷ s) h = ground arith
word_end-none (p ∷ ps) [] h = refl
word_end-none (p ∷ ps) (c ∷ s) h = ground (arith, word_end-none ps s)

name_end-quote :
    (ws : List Bytes) (s r : Bytes)
    → All Unquoted ws
    → Unquoted s
    → name_end ws (s ++ quote ∷ r) ≡ (if is_any ws s then some r else none)
unfolding name_end
name_end-quote [] s r hw hs = refl
name_end-quote (w ∷ ws) s r hw hs = elim (Bool-cases (is_word w s)) [
  | inl e ↦ rw (name_end, word_end-quote w s r hw.0 hs, e)
  | inr e ↦ rw (name_end, word_end-quote w s r hw.0 hs, e) (name_end-quote ws s r hw.1 hs)
]

name_end-none : (ws : List Bytes) (s : Bytes) → Unquoted s → name_end ws s ≡ none
unfolding name_end
name_end-none [] s h = refl
name_end-none (w ∷ ws) s h = rw (name_end, word_end-none w s h) (name_end-none ws s h)

skip_blank-quote : (s r : Bytes) → skip_blank (s ++ quote ∷ r) ≡ skip_blank s ++ quote ∷ r
unfolding skip_blank
skip_blank-quote [] r = refl
skip_blank-quote (c ∷ s) r = ground (arith, skip_blank-quote s r)

skip_blank-Unquoted : (s : Bytes) → Unquoted s → Unquoted (skip_blank s)
unfolding skip_blank
skip_blank-Unquoted [] h = h
skip_blank-Unquoted (c ∷ s) h = elim (Bool-cases (is_blank c)) [
  | inl e ↦ rw e (skip_blank-Unquoted s h.1)
  | inr e ↦ rw e h
]

pub value_end-quote : (t r : Bytes) → Unquoted t → value_end (t ++ quote ∷ r) ≡ some r
unfolding value_end
value_end-quote [] r h = refl
value_end-quote (c ∷ t) r h = rw (h.0, value_end) (value_end-quote t r h.1)

pub value_end-none : (t : Bytes) → Unquoted t → value_end t ≡ none
unfolding value_end
value_end-none [] h = refl
value_end-none (c ∷ t) h = rw (h.0, value_end) (value_end-none t h.1)

abbrev is_empty : Bytes → Bool
is_empty [] = true
is_empty (_ ∷ _) = false

abbrev behind_colon : Option Bytes → Bool
behind_colon none = false
behind_colon (some r) = is_empty (skip_blank r)

-- A colon with white space around it.
unfoldable pub is_colon : Bytes → Bool
is_colon g = behind_colon (expect colon (skip_blank g))

expect-quote :
    (y r : Bytes)
    → Unquoted y
    → expect quote (y ++ quote ∷ r) ≡ (if is_empty y then some r else none)
unfolding expect
expect-quote [] r h = refl
expect-quote (c ∷ y) r h = rw (h.0, expect)

expect-none : (y : Bytes) → Unquoted y → expect quote y ≡ none
unfolding expect
expect-none [] h = refl
expect-none (c ∷ y) h = rw (h.0, expect)

-- Behind the colon of a gap the value begins.
member_from : Option Bytes → Option Bytes
member_from none = none
member_from (some r) = elim (expect quote (skip_blank r)) [ none ↦ none | some v ↦ value_end v ]

member_end-from : (s : Bytes) → member_end s ≡ member_from (expect colon (skip_blank s))
unfolding member_end member_from
member_end-from s = elim (Option-cases (expect colon (skip_blank s))) [
  | inl e ↦ rw (e, member_end)
  | inr (r, e) ↦ rw (e, member_end)
]

member_from-quote :
    (y r : Bytes)
    → Unquoted y
    → member_from (expect colon (y ++ quote ∷ r))
      ≡ (if behind_colon (expect colon y) then value_end r else none)
unfolding member_from expect
member_from-quote [] r h = refl
member_from-quote (c ∷ y) r h = elim (Bool-cases (c == colon)) [
  | inr e ↦ rw (e, expect)
  | inl e ↦
      rw
        (
          e,
          expect,
          member_from,
          skip_blank-quote y r,
          expect-quote (skip_blank y) r (skip_blank-Unquoted y h.1),
        )
        (elim (Bool-cases (is_empty (skip_blank y))) [ inl f ↦ rw f | inr f ↦ rw f ])
]

member_from-none : (y : Bytes) → Unquoted y → member_from (expect colon y) ≡ none
unfolding member_from expect
member_from-none [] h = refl
member_from-none (c ∷ y) h = elim (Bool-cases (c == colon)) [
  | inr e ↦ rw (e, expect)
  | inl e ↦ rw (e, expect, member_from, expect-none (skip_blank y) (skip_blank-Unquoted y h.1))
]

pub member_end-quote :
    (g r : Bytes)
    → Unquoted g
    → member_end (g ++ quote ∷ r) ≡ (if is_colon g then value_end r else none)
unfolding is_colon
member_end-quote g r h =
    rw (member_end-from (g ++ quote ∷ r), skip_blank-quote g r)
      (member_from-quote (skip_blank g) r (skip_blank-Unquoted g h))

pub member_end-none : (g : Bytes) → Unquoted g → member_end g ≡ none
member_end-none g h = member_end-from g ∙ member_from-none (skip_blank g) (skip_blank-Unquoted g h)

abbrev pub has_quote : Bytes → Bool
has_quote [] = false
has_quote (c ∷ s) = c == quote || has_quote s

pub has_quote-Unquoted : (s : Bytes) → has_quote s ≡ false → Unquoted s
has_quote-Unquoted [] h = tt
has_quote-Unquoted (c ∷ s) h = elim (Bool-cases (c == quote)) [
  | inl e ↦ absurd (ground arith)
  | inr e ↦ (e, has_quote-Unquoted s (ground arith))
]

sensitive_words-Unquoted : All Unquoted sensitive_words
sensitive_words-Unquoted =
    let q = has_quote-Unquoted in
    (
      q (bytes "password") refl,
      (
        q (bytes "secret") refl,
        (q (bytes "token") refl, (q (bytes "key") refl, (q (bytes "authorization") refl, tt))),
      ),
    )

pub match_end-quote :
    (s r : Bytes)
    → Unquoted s
    → match_end (quote ∷ (s ++ quote ∷ r)) ≡ (if is_sensitive s then member_end r else none)
unfolding match_end is_sensitive
match_end-quote s r h =
    rw (match_end, name_end-quote sensitive_words s r sensitive_words-Unquoted h)
      (elim (Bool-cases (is_any sensitive_words s)) [ inl e ↦ rw e | inr e ↦ rw e ])

pub match_end-none : (s : Bytes) → Unquoted s → match_end (quote ∷ s) ≡ none
unfolding match_end
match_end-none s h = rw (match_end, name_end-none sensitive_words s h)
