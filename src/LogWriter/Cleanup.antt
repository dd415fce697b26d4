-- ===== src/LogWriter/Cleanup.antt =====
-- Which rotated files a cleanup leaves.
use gateway_core.Base.{
  ℕ, ◌≤◌, ◌<◌, ◌≡◌, refl, sym, ap, subst, ◌∙◌, ◌⊎◌, inl, inr, Bool, true, false, ◌&&◌, Bool-cases,
  List, [], ◌∷◌, ◌++◌, Option, none, some, Option-cases, ltb, if◌then◌else◌, length, All, arith,
}
use gateway_core.Base.Int.{ℤ, pos, negsuc, ltb_ℤ}
use gateway_core.Base.Bytes.{Bytes, same_bytes, same_bytes_iff}
use gateway_core.Proxy.Router.{lookup}
use gateway_core.LogWriter.{
  File, Directory, RotatingWriter, remove_file, is_rotated, rotated_files, sort_names,
  remove_excess, remove_aged, cleanup,
}
use gateway_core.LogWriter.Files.{lookup-remove_file}
use gateway_core.LogWriter.Sorted.{
  lists, Precedes, IsSorted, sort_names-IsSorted, lists-sort_names, lists-append, IsSorted-append,
}

-- A rotated file of the directory is listed.
lists-rotated_files :
    (name k : Bytes) (d : Directory) (f : File)
    → is_rotated name k ≡ true
    → lookup k d ≡ some f
    → lists (rotated_files name d) k ≡ true
unfolding rotated_files lookup
lists-rotated_files name k [] f h e = cc
lists-rotated_files name k ((j, g) ∷ d) f h e = elim (Bool-cases (same_bytes j k)) [
  | inl s ↦ let here : is_rotated name j ≡ true = rw ((same_bytes_iff j k).0 s) h in rw (here, s)
  | inr s ↦
      let later = lists-rotated_files name k d f h (rw s at e) in
      elim (Bool-cases (is_rotated name j)) [ inl r ↦ rw (r, s) later | inr r ↦ rw r later ]
]

-- What a file becomes that is listed among the rest.
abbrev pub aged : (cutoff : ℕ) → Bool → Option File → Option File
aged cutoff b none = none
aged cutoff b (some f) = if b && ltb f.modified cutoff then none else some f

aged_unlisted : (cutoff : ℕ) (o : Option File) → aged cutoff false o ≡ o
aged_unlisted cutoff none = refl
aged_unlisted cutoff (some f) = refl

excess_panics :
    (fails : Bytes → Bool) (n : ℕ) (names : List Bytes) (d : Directory)
    → remove_excess fails (negsuc n) names d ≡ none
unfolding remove_excess
excess_panics fails n [] d = ground arith
excess_panics fails n (j ∷ js) d =
    let e : ltb_ℤ (negsuc n) (pos (length (j ∷ js))) ≡ true = ground arith in
    rw (remove_excess, e) (excess_panics fails n js (if fails j then d else remove_file j d))

module _ (fails : Bytes → Bool) (none_fails : (k : Bytes) → fails k ≡ false) where
  -- The names that are removed for their number, those that are left, and the directory.
  record Excess (m : ℕ) (names : List Bytes) (d : Directory) : Type 0 where
    removed : List Bytes
    left : List Bytes
    after : Directory
    result : remove_excess fails (pos m) names d ≡ some (left, after)
    parts : removed ++ left ≡ names
    few : length left ≤ m
    no_more : (removed ≡ []) ⊎ (length left ≡ m)
    gone : (k : Bytes) → lookup k after ≡ (if lists removed k then none else lookup k d)

  excess : (m : ℕ) (names : List Bytes) (d : Directory) → Excess m names d
  unfolding remove_excess
  excess m [] d = record {
    removed = [];
    left = [];
    after = d;
    result = ground arith;
    parts = refl;
    few = omega arith;
    no_more = inl refl;
    gone = λ k. refl;
  }
  excess m (j ∷ js) d = elim (Bool-cases (ltb_ℤ (pos m) (pos (length (j ∷ js))))) [
    | inr e ↦ record {
      removed = [];
      left = j ∷ js;
      after = d;
      result = rw (remove_excess, e);
      parts = refl;
      few = ground arith;
      no_more = inl refl;
      gone = λ k. refl;
    }
    | inl e ↦
        let x = excess m js (remove_file j d) in
        record {
          removed = j ∷ x.removed;
          left = x.left;
          after = x.after;
          result = rw (remove_excess, e, none_fails j) x.result;
          parts = ap (λ (ks : List Bytes). j ∷ ks) x.parts;
          few = x.few;
          no_more = inr (elim x.no_more [
            | inr full ↦ full
            | inl kept ↦
                let all : length x.left ≡ length js =
                  ap length (sym (ap (λ (ks : List Bytes). ks ++ x.left) kept) ∙ x.parts) in
                let less = x.few in let over : m < length (j ∷ js) = ground arith in omega arith
          ]);
          gone = λ k. rw (x.gone k, lookup-remove_file k j d) (ground arith);
        }
  ]

  lookup-remove_aged :
      (cutoff : ℕ) (names : List Bytes) (d : Directory) (k : Bytes)
      → lookup k (remove_aged fails cutoff names d) ≡ aged cutoff (lists names k) (lookup k d)
  unfolding remove_aged
  lookup-remove_aged cutoff [] d k = elim (Option-cases (lookup k d)) [
    | inl e ↦ rw e
    | inr (f, e) ↦ rw e
  ]
  lookup-remove_aged cutoff (j ∷ js) d k =
      let named : same_bytes j k ≡ true → lookup k d ≡ lookup j d =
        λ s. ap (λ (i : Bytes). lookup i d) (sym ((same_bytes_iff j k).0 s)) in
      elim (Option-cases (lookup j d)) [
        | inl e ↦
            rw (remove_aged, e)
              (lookup-remove_aged cutoff js d k
                ∙ elim (Bool-cases (same_bytes j k)) [ inl s ↦ rw (named s, e) | inr s ↦ rw s ])
        | inr (f, e) ↦ elim (Bool-cases (ltb f.modified cutoff)) [
          | inl old ↦
              rw (remove_aged, e, old, none_fails j)
                (lookup-remove_aged cutoff js (remove_file j d) k
                  ∙ rw (lookup-remove_file k j d) (elim (Bool-cases (same_bytes j k)) [
                    | inl s ↦ rw (named s, e, s, old)
                    | inr s ↦ rw s
                  ]))
          | inr new ↦
              rw (remove_aged, e, new)
                (lookup-remove_aged cutoff js d k ∙ elim (Bool-cases (same_bytes j k)) [
                  | inl s ↦
                      rw (named s, e, s, new)
                        (elim (Bool-cases (lists js k)) [ inl l ↦ rw l | inr l ↦ rw l ])
                  | inr s ↦ rw s
                ])
        ]
      ]

-- A rotated file that is still there is listed among the rest.
still_listed :
    (name k : Bytes) (d : Directory) (f : File) (cutoff : ℕ) (removed left : List Bytes)
    → removed ++ left ≡ sort_names (rotated_files name d)
    → is_rotated name k ≡ true
    → aged cutoff (lists left k) (if lists removed k then none else lookup k d) ≡ some f
    → lists left k ≡ true
still_listed name k d f cutoff removed left parts r e = elim (Bool-cases (lists left k)) [
  | inl l ↦ l
  | inr l ↦
      let there : (if lists removed k then none else lookup k d) ≡ some f =
        sym (aged_unlisted cutoff (if lists removed k then none else lookup k d)) ∙ (rw l at e) in
      elim (Bool-cases (lists removed k)) [
        | inl m ↦ let nothing : none ≡ some f = rw m at there in cc
        | inr m ↦
            let here = lists-rotated_files name k d f r (rw m at there) in
            let all : lists (removed ++ left) k ≡ true =
              ap (λ (ks : List Bytes). lists ks k) parts
              ∙ lists-sort_names k (rotated_files name d)
              ∙ here in
            let split = lists-append removed left k in cc
      ]
]

module _ (days_before : ℤ → ℕ → ℕ) (fails : Bytes → Bool) (now : ℕ) (w : RotatingWriter)
    (d : Directory) where
  names : List Bytes
  names = sort_names (rotated_files w.name d)

  cutoff : ℕ
  cutoff = days_before w.max_age_days now

  -- A cleanup with a negative number of backups panics. With one that is not, and with no removal
  -- that fails, the rotated files in their order are a first part and a rest that follows it, which
  -- has no more files than that number, and as many if the first part has any. The first part is
  -- removed, and so are the files of the rest from before the cutoff; every other file stays.
  pub cleanup_leaves :
      ((n : ℕ) → w.max_backups ≡ negsuc n → cleanup days_before fails now w d ≡ none)
      × ((m : ℕ)
          → w.max_backups ≡ pos m
          → ((k : Bytes) → fails k ≡ false)
          → (removed : List Bytes) × ((left : List Bytes) × ((after : Directory) × (cleanup
                    days_before fails now w d
                  ≡ some after)
                × (removed ++ left ≡ sort_names (rotated_files w.name d))
                × (length left ≤ m)
                × ((removed ≡ []) ⊎ (length left ≡ m))
                × All (λ r. Precedes r left) removed
                × ((k : Bytes)
                    → lookup k after
                      ≡ aged
                          (days_before w.max_age_days now)
                          (lists left k)
                          (if lists removed k then none else lookup k d))
                × ((k : Bytes) (f : File)
                    → is_rotated w.name k ≡ true
                    → lookup k after ≡ some f
                    → lists left k ≡ true))))
  unfolding cleanup names cutoff
  cleanup_leaves = (
    λ n e.
        let panics : remove_excess fails w.max_backups names d ≡ none =
          ap (λ (b : ℤ). remove_excess fails b names d) e ∙ excess_panics fails n names d in
        rw (cleanup, panics),
    λ m e ok.
        let x = excess fails ok m names d in
        let kept : remove_excess fails w.max_backups names d ≡ some (x.left, x.after) =
          ap (λ (b : ℤ). remove_excess fails b names d) e ∙ x.result in
        let found = λ (k : Bytes).
          lookup-remove_aged fails ok cutoff x.left x.after k
          ∙ ap (aged cutoff (lists x.left k)) (x.gone k) in
        (
          x.removed,
          (
            x.left,
            (
              remove_aged fails cutoff x.left x.after,
              rw (cleanup, kept),
              x.parts,
              x.few,
              x.no_more,
              IsSorted-append x.removed x.left
                  (subst IsSorted (sym x.parts) (sort_names-IsSorted (rotated_files w.name d))),
              found,
              λ k f r e'.
                  still_listed w.name k d f cutoff x.removed x.left x.parts r (sym (found k) ∙ e'),
            ),
          ),
        ),
  )
