-- ===== src/LogWriter/Exact.antt =====
-- The size that a writer counts, whichever calls fail.
use mathlib.Core.Option.{some-injective}
use gateway_core.Base.{
  ℕ, ◌+◌, ◌≡◌, refl, sym, ap, subst, ◌∙◌, inl, inr, Bool, true, false, not, ◌&&◌, Bool-cases, List,
  [], ◌∷◌, ◌++◌, Option, none, some, Option-cases, ltb, if◌then◌else◌, length, length-append, All,
  arith,
}
use gateway_core.Base.Int.{ℤ, pos, ltb_ℤ}
use gateway_core.Base.Bytes.{Bytes, same_bytes, same_bytes_refl}
use gateway_core.Proxy.Router.{lookup}
use gateway_core.LogWriter.{
  File, Directory, Faults, RotatingWriter, remove_file, put_file, open_file, new_rotating_writer,
  rotate, append_file, arriving, write_log, close_log, is_rotated, rotated_files, at_most,
  insert_name, sort_names, remove_excess, remove_aged, cleanup,
}
use gateway_core.LogWriter.Files.{lookup-put_file, lookup-remove_file}

-- The calls that change a writer and its directory; cleanups run at any time.
pub data Step (format : ℕ → Bytes) (days_before : ℤ → ℕ → ℕ)
    : RotatingWriter × Directory → RotatingWriter × Directory → Type 0 where
  writes :
      (faults : Faults) (now : ℕ) (p : Bytes) (s : RotatingWriter × Directory)
      → Step format days_before s (write_log format faults now p s)
  closes : (w : RotatingWriter) (d : Directory) → Step format days_before (w, d) (close_log w, d)
  cleans :
      (fails : Bytes → Bool) (now : ℕ) (w : RotatingWriter) (d d' : Directory)
      → cleanup days_before fails now w d ≡ some d'
      → Step format days_before (w, d) (w, d')

pub data Reachable (format : ℕ → Bytes) (days_before : ℤ → ℕ → ℕ)
    : RotatingWriter × Directory → Type 0 where
  start :
      (name : Bytes) (max_size_mb max_backups max_age_days : ℤ) (faults : Faults) (now : ℕ)
      (d : Directory)
      → Reachable format days_before
          (new_rotating_writer name max_size_mb max_backups max_age_days faults now d).0
  next :
      {s t : RotatingWriter × Directory}
      → Reachable format days_before s
      → Step format days_before s t
      → Reachable format days_before t

-- An open writer counts the bytes of its file.
abbrev pub IsExact : RotatingWriter → Directory → Type 0
IsExact w d =
    w.is_open ≡ true → (f : File) × (lookup w.name d ≡ some f) × (w.size ≡ length f.content)

abbrev pub Exact : RotatingWriter × Directory → Type 0
Exact s = IsExact s.0 s.1

open_file-Exact :
    (faults : Faults) (now : ℕ) (w : RotatingWriter) (d : Directory)
    → w.is_open ≡ false
    → Exact (open_file faults now (w, d)).0
unfolding open_file
open_file-Exact faults now w d shut = elim (Bool-cases faults.open_fails) [
  | inl e ↦ rw (open_file, e) (λ h. cc)
  | inr e ↦ elim (Bool-cases faults.stat_fails) [
    | inl t ↦ rw (open_file, e, t) (λ h. cc)
    | inr t ↦
        let g : File = elim (lookup w.name d) [
          | none ↦ record { content = []; modified = now }
          | some g ↦ g
        ] in
        rw (open_file, e, t)
          (λ h. (g, lookup-put_file w.name w.name g d ∙ rw (same_bytes_refl w.name), refl))
  ]
]

chosen-Exact :
    (b : Bool) (s t : RotatingWriter × Directory)
    → (b ≡ true → Exact s)
    → Exact t
    → Exact (if b then s else t)
chosen-Exact true s t h k = h refl
chosen-Exact false s t h k = k

append_file-Exact :
    (faults : Faults) (now : ℕ) (p : Bytes) (w : RotatingWriter) (d : Directory)
    → Exact (w, d)
    → Exact (append_file faults now p (w, d))
unfolding append_file
append_file-Exact faults now p w d x = elim (Option-cases (lookup w.name d)) [
  | inl e ↦ rw (append_file, e) x
  | inr (f, e) ↦
      let q = arriving faults p in
      let g : File = record { content = f.content ++ q; modified = now } in
      rw (append_file, e)
        (chosen-Exact w.is_open (record w { size = w.size + length q }, put_file w.name g d) (w, d)
          (λ o _.
            let (f', e', n) = x o in
            let same : f' ≡ f = some-injective f' f (sym e' ∙ e) in
            let size : w.size ≡ length f.content = n ∙ ap (λ (y : File). length y.content) same in
            (
              g,
              lookup-put_file w.name w.name g d ∙ rw (same_bytes_refl w.name),
              omega (arith, length-append f.content q),
            ))
          x)
]

write_log-Exact :
    (format : ℕ → Bytes) (faults : Faults) (now : ℕ) (p : Bytes) (w : RotatingWriter)
    (d : Directory)
    → Exact (w, d)
    → Exact (write_log format faults now p (w, d))
unfolding write_log rotate
write_log-Exact format faults now p w d x =
    let r = rotate format faults now (w, d) in
    let fresh : Exact r.0 = open_file-Exact faults now (record w { is_open = false }) _ refl in
    elim (Bool-cases (ltb_ℤ w.max_bytes (pos (w.size + length p)))) [
      | inr e ↦ rw (write_log, e) (append_file-Exact faults now p w d x)
      | inl e ↦
          rw (write_log, e)
            (chosen-Exact r.1 (append_file faults now p r.0) r.0
              (λ _. append_file-Exact faults now p r.0.0 r.0.1 fresh) fresh)
    ]

-- A cleanup does not touch the log itself.
abbrev Others : Bytes → List Bytes → Type 0
Others name = All (λ k. same_bytes k name ≡ false)

rotated_files-Others : (name : Bytes) (d : Directory) → Others name (rotated_files name d)
unfolding rotated_files is_rotated
rotated_files-Others name [] = tt
rotated_files-Others name ((k, f) ∷ d) = elim (Bool-cases (is_rotated name k)) [
  | inr e ↦ rw e (rotated_files-Others name d)
  | inl e ↦ rw e (ground arith, rotated_files-Others name d)
]

insert_name-Others :
    (name k : Bytes) (ks : List Bytes)
    → same_bytes k name ≡ false
    → Others name ks
    → Others name (insert_name k ks)
unfolding insert_name
insert_name-Others name k [] h o = (h, tt)
insert_name-Others name k (j ∷ ks) h o = elim (Bool-cases (at_most k j)) [
  | inl e ↦ rw e (h, o)
  | inr e ↦ rw e (o.0, insert_name-Others name k ks h o.1)
]

sort_names-Others : (name : Bytes) (ks : List Bytes) → Others name ks → Others name (sort_names ks)
unfolding sort_names
sort_names-Others name [] o = tt
sort_names-Others name (k ∷ ks) o =
    insert_name-Others name k (sort_names ks) o.0 (sort_names-Others name ks o.1)

lookup-removed_other :
    (name k : Bytes) (d : Directory)
    → same_bytes k name ≡ false
    → lookup name (remove_file k d) ≡ lookup name d
lookup-removed_other name k d h = lookup-remove_file name k d ∙ rw h

chosen_lookup :
    (b : Bool) (name : Bytes) (x y d : Directory)
    → lookup name x ≡ lookup name d
    → lookup name y ≡ lookup name d
    → lookup name (if b then x else y) ≡ lookup name d
chosen_lookup true name x y d h k = h
chosen_lookup false name x y d h k = k

some-ne-none : {A : Type 0} (a : A) → none ≡ some a → ⊥
some-ne-none a e = cc

excess_stops :
    (name : Bytes) (ks left : List Bytes) (d after : Directory)
    → Others name ks
    → ◌≡◌ {A = Option (List Bytes × Directory)} (some (ks, d)) (some (left, after))
    → Others name left × (lookup name after ≡ lookup name d)
excess_stops name ks left d after o e =
    subst (λ (x : List Bytes × Directory). Others name x.0 × (lookup name x.1 ≡ lookup name d))
      (some-injective (ks, d) (left, after) e) (o, refl)

remove_excess-Others :
    (fails : Bytes → Bool) (most : ℤ) (name : Bytes) (ks left : List Bytes) (d after : Directory)
    → Others name ks
    → remove_excess fails most ks d ≡ some (left, after)
    → Others name left × (lookup name after ≡ lookup name d)
unfolding remove_excess
remove_excess-Others fails most name [] left d after o e = elim (Bool-cases (ltb_ℤ most (pos 0))) [
  | inl t ↦ absurd (some-ne-none _ (rw t at e))
  | inr t ↦ excess_stops name [] left d after o (rw t at e)
]
remove_excess-Others fails most name (k ∷ ks) left d after o e =
    elim (Bool-cases (ltb_ℤ most (pos (length (k ∷ ks))))) [
      | inr t ↦ excess_stops name (k ∷ ks) left d after o (rw t at e)
      | inl t ↦
          let (o', same) =
            remove_excess-Others fails most name ks left (if fails k then d else remove_file k d)
              after o.1 (rw t at e) in
          (
            o',
            same
                ∙ chosen_lookup (fails k) name d (remove_file k d) d refl
                    (lookup-removed_other name k d o.0),
          )
    ]

remove_aged-Others :
    (fails : Bytes → Bool) (cutoff : ℕ) (name : Bytes) (ks : List Bytes) (d : Directory)
    → Others name ks
    → lookup name (remove_aged fails cutoff ks d) ≡ lookup name d
unfolding remove_aged
remove_aged-Others fails cutoff name [] d o = refl
remove_aged-Others fails cutoff name (k ∷ ks) d o = elim (Option-cases (lookup k d)) [
  | inl e ↦ rw (remove_aged, e) (remove_aged-Others fails cutoff name ks d o.1)
  | inr (f, e) ↦
      let b = ltb f.modified cutoff && not (fails k) in
      rw (remove_aged, e)
        (remove_aged-Others fails cutoff name ks (if b then remove_file k d else d) o.1
          ∙ chosen_lookup b name (remove_file k d) d d (lookup-removed_other name k d o.0) refl)
]

cleanup-lookup :
    (days_before : ℤ → ℕ → ℕ) (fails : Bytes → Bool) (now : ℕ) (w : RotatingWriter)
    (d d' : Directory)
    → cleanup days_before fails now w d ≡ some d'
    → lookup w.name d' ≡ lookup w.name d
unfolding cleanup
cleanup-lookup days_before fails now w d d' e =
    let names = sort_names (rotated_files w.name d) in
    let others =
      sort_names-Others w.name (rotated_files w.name d) (rotated_files-Others w.name d) in
    elim (Option-cases (remove_excess fails w.max_backups names d)) [
      | inl t ↦ absurd (some-ne-none _ (rw (cleanup, t) at e))
      | inr ((left, after), t) ↦
          let (o, same) =
            remove_excess-Others fails w.max_backups w.name names left d after others t in
          let last : remove_aged fails (days_before w.max_age_days now) left after ≡ d' =
            some-injective _ d' (rw (cleanup, t) at e) in
          rw (← last)
            (remove_aged-Others fails (days_before w.max_age_days now) w.name left after o ∙ same)
    ]

-- However writes, closings and cleanups follow one another, and whichever calls fail or write only in
-- part, an open writer counts exactly the bytes that its file has.
pub Reachable-Exact :
    (format : ℕ → Bytes) (days_before : ℤ → ℕ → ℕ) (s : RotatingWriter × Directory)
    → Reachable format days_before s
    → Exact s
unfolding new_rotating_writer close_log
Reachable-Exact format days_before s
      (start name max_size_mb max_backups max_age_days faults now d) =
    open_file-Exact faults now _ d refl
Reachable-Exact format days_before s (next r (writes faults now p (w, d))) =
    write_log-Exact format faults now p w d (Reachable-Exact format days_before (w, d) r)
Reachable-Exact format days_before s (next r (closes w d)) = λ h. cc
Reachable-Exact format days_before s (next r (cleans fails now w d d' e)) = λ h.
    let (f, at, n) = Reachable-Exact format days_before (w, d) r h in
    (f, cleanup-lookup days_before fails now w d d' e ∙ at, n)
