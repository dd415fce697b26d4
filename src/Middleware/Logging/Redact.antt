-- ===== src/Middleware/Logging/Redact.antt =====
-- What redaction leaves of a text, which is cut at its quotes.
use mathlib.Core.List.{append_assoc, append-nil}
use gateway_core.Base.{
  ℕ, suc, ◌-◌, ◌≡◌, refl, ◌∙◌, inl, inr, false, ◌&&◌, Bool-cases, List, [], ◌∷◌, ◌++◌, Option, none,
  some, if◌then◌else◌, length, take, All, arith, length-append,
}
use gateway_core.Base.Bytes.{Bytes, bytes}
use gateway_core.Middleware.Logging.{
  quote, expect, match_end, last_index, hide_value, redact_from, redact_sensitive,
}
use gateway_core.Middleware.Logging.Matching.{
  Unquoted, is_sensitive, is_colon, value_end-quote, value_end-none, member_end-quote,
  member_end-none, match_end-quote, match_end-none,
}

last_index-none : (t : Bytes) → Unquoted t → last_index quote t ≡ none
unfolding last_index
last_index-none [] h = refl
last_index-none (c ∷ t) h = rw (last_index, last_index-none t h.1, h.0)

last_index-quote : (x t : Bytes) → Unquoted t → last_index quote (x ++ quote ∷ t) ≡ some (length x)
unfolding last_index
last_index-quote [] t h = rw (last_index, last_index-none t h)
last_index-quote (c ∷ x) t h = rw (last_index, last_index-quote x t h)

take-length : (x y : Bytes) → take (length x) (x ++ y) ≡ x
take-length [] y = refl
take-length (c ∷ x) y = rw (take-length x y)

take-suc-length : (c : ℕ) (x y : Bytes) → take (suc (length x)) (x ++ c ∷ y) ≡ x ++ c ∷ []
take-suc-length c [] y = refl
take-suc-length c (d ∷ x) y = rw (take-suc-length c x y)

hide_value-some :
    (text : Bytes) (i j : ℕ)
    → last_index quote text ≡ some i
    → last_index quote (take i text) ≡ some j
    → hide_value text ≡ take (suc j) text ++ (bytes "***" ++ quote ∷ [])
unfolding hide_value
hide_value-some text i j e f =
    rw (hide_value, e, f) (append_assoc (take (suc j) text) (bytes "***") (quote ∷ []))

hide_value-quote :
    (x t : Bytes)
    → Unquoted t
    → hide_value (x ++ quote ∷ (t ++ quote ∷ [])) ≡ x ++ quote ∷ (bytes "***" ++ quote ∷ [])
hide_value-quote x t h =
    let y = x ++ quote ∷ t in
    let whole : y ++ quote ∷ [] ≡ x ++ quote ∷ (t ++ quote ∷ []) =
      append_assoc x (quote ∷ t) (quote ∷ []) in
    let cut : take (length y) (x ++ quote ∷ (t ++ quote ∷ [])) ≡ y =
      rw (← whole) (take-length y (quote ∷ [])) in
    hide_value-some _ (length y) (length x) (rw (← whole) (last_index-quote y [] tt))
      (rw cut (last_index-quote x t h))
    ∙ rw (take-suc-length quote x (t ++ quote ∷ [])) (append_assoc x (quote ∷ []) _)

redact_from-length : (m r : Bytes) → redact_from (length m) (m ++ r) ≡ redact_from 0 r
unfolding redact_from
redact_from-length [] r = refl
redact_from-length (c ∷ m) r = redact_from-length m r

redact_match :
    (c : ℕ) (m r : Bytes)
    → match_end (c ∷ (m ++ r)) ≡ some r
    → redact_from 0 (c ∷ (m ++ r)) ≡ hide_value (c ∷ m) ++ redact_from 0 r
unfolding redact_from
redact_match c m r e =
    let n : length (m ++ r) - length r ≡ length m = omega (arith, length-append m r) in
    let k : suc (length (m ++ r)) - length r ≡ suc (length m) = omega (arith, length-append m r) in
    rw (redact_from, e, n, k, take-length m r, redact_from-length m r)

redact_plain : (t r : Bytes) → Unquoted t → redact_from 0 (t ++ r) ≡ t ++ redact_from 0 r
unfolding redact_from match_end expect
redact_plain [] r h = refl
redact_plain (c ∷ t) r h = rw (redact_from, match_end, expect, h.0, redact_plain t r h.1)

redact_quote :
    (r : Bytes) → match_end (quote ∷ r) ≡ none → redact_from 0 (quote ∷ r) ≡ quote ∷ redact_from 0 r
unfolding redact_from
redact_quote r e = rw (redact_from, e)

-- A text cut at its quotes: between them stand quoted strings and the gaps behind them.
abbrev pub Piece : Type 0
Piece = Bytes × Bytes

-- The last string may want its closing quote.
abbrev pub text : List Piece → Option Bytes → Bytes
text [] none = []
text [] (some t) = quote ∷ t
text ((s, g) ∷ ps) end = quote ∷ (s ++ quote ∷ (g ++ text ps end))

-- Behind a sensitive string and a colon the next string is hidden, if it is closed.
unfoldable pub hidden : List Piece → List Piece
hidden [] = []
hidden (p ∷ []) = p ∷ []
hidden ((s, g) ∷ (t, h) ∷ ps) =
    let after = hidden ps in
    let next = hidden ((t, h) ∷ ps) in
    if is_sensitive s && is_colon g then (s, g) ∷ (bytes "***", h) ∷ after else (s, g) ∷ next

-- Strings and gaps have no quotes, and no gap is one of the words.
abbrev pub IsPiece : Piece → Type 0
IsPiece (s, g) = Unquoted s × (Unquoted g × (is_sensitive g ≡ false))

abbrev pub IsEnd : Option Bytes → Type 0
IsEnd none = Unit
IsEnd (some t) = Unquoted t

gap_end :
    (g : Bytes) (ps : List Piece) (end : Option Bytes)
    → Unquoted g
    → is_sensitive g ≡ false
    → match_end (quote ∷ (g ++ text ps end)) ≡ none
gap_end g [] none h e = rw append-nil (match_end-none g h)
gap_end g [] (some t) h e = rw (match_end-quote g t h, e)
gap_end g ((s, f) ∷ ps) end h e = rw (match_end-quote g _ h, e)

-- A string after which nothing is hidden.
redact_piece :
    (s g : Bytes) (ps : List Piece) (end : Option Bytes)
    → IsPiece (s, g)
    → match_end (quote ∷ (s ++ quote ∷ (g ++ text ps end))) ≡ none
    → redact_from 0 (text ((s, g) ∷ ps) end)
      ≡ quote ∷ (s ++ quote ∷ (g ++ redact_from 0 (text ps end)))
redact_piece s g ps end (hs, (hg, word)) e = rw (
  redact_quote _ e,
  redact_plain s (quote ∷ (g ++ text ps end)) hs,
  redact_quote _ (gap_end g ps end hg word),
  redact_plain g (text ps end) hg,
)

redact_pair :
    (s g t r : Bytes)
    → Unquoted t
    → match_end (quote ∷ (s ++ quote ∷ (g ++ quote ∷ (t ++ quote ∷ r)))) ≡ some r
    → redact_from 0 (quote ∷ (s ++ quote ∷ (g ++ quote ∷ (t ++ quote ∷ r))))
      ≡ quote ∷ (s ++ quote ∷ (g ++ quote ∷ (bytes "***" ++ quote ∷ redact_from 0 r)))
redact_pair s g t r h e =
    let m = s ++ quote ∷ (g ++ quote ∷ (t ++ quote ∷ [])) in
    let x = quote ∷ (s ++ quote ∷ g) in
    let split : m ++ r ≡ s ++ quote ∷ (g ++ quote ∷ (t ++ quote ∷ r)) = simp append_assoc in
    let front : quote ∷ m ≡ x ++ quote ∷ (t ++ quote ∷ []) = simp append_assoc in
    let found : match_end (quote ∷ (m ++ r)) ≡ some r = rw split e in
    rw (← split, redact_match quote m r found, front, hide_value-quote x t h) (simp append_assoc)

pieces_end :
    (s g t h : Bytes) (ps : List Piece) (end : Option Bytes)
    → IsPiece (s, g)
    → IsPiece (t, h)
    → match_end (quote ∷ (s ++ quote ∷ (g ++ text ((t, h) ∷ ps) end)))
      ≡ (if is_sensitive s && is_colon g then some (h ++ text ps end) else none)
pieces_end s g t h ps end p q =
    rw
      (
        match_end-quote s _ p.0,
        member_end-quote g _ p.1.0,
        value_end-quote t (h ++ text ps end) q.0,
      )
      (elim (Bool-cases (is_sensitive s)) [ inl e ↦ rw e | inr e ↦ rw e ])

last_end :
    (s g : Bytes) (end : Option Bytes)
    → IsPiece (s, g)
    → IsEnd end
    → match_end (quote ∷ (s ++ quote ∷ (g ++ text [] end))) ≡ none
last_end s g none p q =
    rw (append-nil, match_end-quote s g p.0, member_end-none g p.1.0)
      (elim (Bool-cases (is_sensitive s)) [ inl e ↦ rw e | inr e ↦ rw e ])
last_end s g (some t) p q =
    rw (match_end-quote s _ p.0, member_end-quote g t p.1.0, value_end-none t q)
      (elim (Bool-cases (is_sensitive s)) [
        | inl e ↦ rw e (elim (Bool-cases (is_colon g)) [ inl f ↦ rw f | inr f ↦ rw f ])
        | inr e ↦ rw e
      ])

redact_end : (end : Option Bytes) → IsEnd end → redact_from 0 (text [] end) ≡ text [] end
unfolding redact_from
redact_end none k = refl
redact_end (some t) k =
    let plain : redact_from 0 t ≡ t = rw (← append-nil t) (redact_plain t [] k) in
    rw (redact_quote t (match_end-none t k), plain)

redact_text :
    (ps : List Piece) (end : Option Bytes)
    → All IsPiece ps
    → IsEnd end
    → redact_from 0 (text ps end) ≡ text (hidden ps) end
unfolding hidden
redact_text [] end h k = redact_end end k
redact_text ((s, g) ∷ []) end h k =
    rw (redact_piece s g [] end h.0 (last_end s g end h.0 k), redact_end end k)
redact_text ((s, g) ∷ (t, f) ∷ ps) end h k =
    let stop = pieces_end s g t f ps end h.0 h.1.0 in
    elim (Bool-cases (is_sensitive s && is_colon g)) [
      | inl e ↦ rw (
        redact_pair s g t (f ++ text ps end) h.1.0.0 (rw e at stop),
        redact_plain f (text ps end) h.1.0.1.0,
        redact_text ps end h.1.1 k,
        e,
      )
      | inr e ↦ rw (
        redact_piece s g ((t, f) ∷ ps) end h.0 (rw e at stop),
        redact_text ((t, f) ∷ ps) end h.1 k,
        e,
      )
    ]

-- A text without one of the sensitive words between two strings is redacted string by string: where a
-- string is a sensitive word in any case, and only a colon and white space stand between it and the
-- next string, the next string becomes ***, if it is closed, and is not itself taken for a name. All
-- else stays, a last string that is not closed included.
pub redact_sensitive-hidden :
    (g : Bytes) (ps : List Piece) (end : Option Bytes)
    → Unquoted g
    → All IsPiece ps
    → IsEnd end
    → redact_sensitive (g ++ text ps end) ≡ g ++ text (hidden ps) end
unfolding redact_sensitive
redact_sensitive-hidden g ps end h k l = rw (redact_plain g (text ps end) h, redact_text ps end k l)
