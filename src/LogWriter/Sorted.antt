-- ===== src/LogWriter/Sorted.antt =====
-- The sorting of the names of rotated files.
use gateway_core.Base.{
  ◌≡◌, refl, ap, ◌∙◌, inl, inr, Bool, true, false, ◌||◌, Bool-cases, List, [], ◌∷◌, ◌++◌, All,
  arith,
}
use gateway_core.Base.Bytes.{Bytes, same_bytes}
use gateway_core.LogWriter.{at_most, insert_name, sort_names}

-- Whether a name is listed.
abbrev pub lists : List Bytes → Bytes → Bool
lists [] k = false
lists (j ∷ js) k = same_bytes j k || lists js k

-- Of two names one is at most the other, and so along a chain.
at_most_total : (s t : Bytes) → at_most s t ≡ false → at_most t s ≡ true
unfolding at_most
at_most_total [] t h = cc
at_most_total (c ∷ s) [] h = refl
at_most_total (c ∷ s) (e ∷ t) h = ground (arith, at_most_total s t)

at_most_trans : (s t u : Bytes) → at_most s t ≡ true → at_most t u ≡ true → at_most s u ≡ true
unfolding at_most
at_most_trans [] t u h k = refl
at_most_trans (c ∷ s) [] u h k = cc
at_most_trans (c ∷ s) (e ∷ t) [] h k = cc
at_most_trans (c ∷ s) (e ∷ t) (g ∷ u) h k = ground (arith, at_most_trans s t u)

abbrev pub Precedes : Bytes → List Bytes → Type 0
Precedes k = All (λ j. at_most k j ≡ true)

abbrev pub IsSorted : List Bytes → Type 0
IsSorted [] = Unit
IsSorted (k ∷ ks) = Precedes k ks × IsSorted ks

Precedes-trans :
    (k j : Bytes) (ks : List Bytes) → at_most k j ≡ true → Precedes j ks → Precedes k ks
Precedes-trans k j [] h p = tt
Precedes-trans k j (i ∷ ks) h p = (at_most_trans k j i h p.0, Precedes-trans k j ks h p.1)

Precedes-insert_name :
    (k j : Bytes) (ks : List Bytes)
    → at_most k j ≡ true
    → Precedes k ks
    → Precedes k (insert_name j ks)
unfolding insert_name
Precedes-insert_name k j [] h p = (h, tt)
Precedes-insert_name k j (i ∷ ks) h p = elim (Bool-cases (at_most j i)) [
  | inl e ↦ rw e (h, p)
  | inr e ↦ rw e (p.0, Precedes-insert_name k j ks h p.1)
]

insert_name-IsSorted : (k : Bytes) (ks : List Bytes) → IsSorted ks → IsSorted (insert_name k ks)
unfolding insert_name
insert_name-IsSorted k [] h = (tt, tt)
insert_name-IsSorted k (j ∷ ks) h = elim (Bool-cases (at_most k j)) [
  | inl e ↦ rw e ((e, Precedes-trans k j ks e h.0), h)
  | inr e ↦
      rw e (Precedes-insert_name j k ks (at_most_total k j e) h.0, insert_name-IsSorted k ks h.1)
]

pub sort_names-IsSorted : (ks : List Bytes) → IsSorted (sort_names ks)
unfolding sort_names
sort_names-IsSorted [] = tt
sort_names-IsSorted (k ∷ ks) = insert_name-IsSorted k (sort_names ks) (sort_names-IsSorted ks)

lists-insert_name :
    (k j : Bytes) (ks : List Bytes) → lists (insert_name j ks) k ≡ (same_bytes j k || lists ks k)
unfolding insert_name
lists-insert_name k j [] = refl
lists-insert_name k j (i ∷ ks) = ground (arith, lists-insert_name k j ks)

pub lists-sort_names : (k : Bytes) (ks : List Bytes) → lists (sort_names ks) k ≡ lists ks k
unfolding sort_names
lists-sort_names k [] = refl
lists-sort_names k (j ∷ ks) =
    lists-insert_name k j (sort_names ks) ∙ ap (λ b. same_bytes j k || b) (lists-sort_names k ks)

pub lists-append :
    (xs ys : List Bytes) (k : Bytes) → lists (xs ++ ys) k ≡ (lists xs k || lists ys k)
lists-append [] ys k = refl
lists-append (x ∷ xs) ys k = ground (arith, lists-append xs ys k)

Precedes-append : (r : Bytes) (xs ys : List Bytes) → Precedes r (xs ++ ys) → Precedes r ys
Precedes-append r [] ys h = h
Precedes-append r (x ∷ xs) ys h = Precedes-append r xs ys h.1

-- In a sorted list the first part precedes the rest.
pub IsSorted-append : (xs ys : List Bytes) → IsSorted (xs ++ ys) → All (λ r. Precedes r ys) xs
IsSorted-append [] ys h = tt
IsSorted-append (x ∷ xs) ys h = (Precedes-append x xs ys h.0, IsSorted-append xs ys h.1)
