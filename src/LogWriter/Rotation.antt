-- ===== src/LogWriter/Rotation.antt =====
-- What a rotation does to the directory, and the size of the log.
use mathlib.Core.List.{reverse, reverse-cons}
use gateway_core.Base.{
  ℕ, ◌+◌, ◌-◌, ◌≤◌, ◌<◌, ◌≡◌, refl, ap, ◌∙◌, ◌⊎◌, inl, inr, Bool, true, false, Bool-cases, [], ◌∷◌,
  ◌++◌, Option, none, some, ◌==◌, if◌then◌else◌, length, take, length-append, length-take, arith,
}
use gateway_core.Base.Int.{pos, ltb_ℤ, ◌≤ℤ◌}
use gateway_core.Base.Bytes.{Bytes, bytes, same_bytes, same_bytes_iff, same_bytes_refl}
use gateway_core.Proxy.Router.{lookup}
use gateway_core.LogWriter.{
  File, Directory, rename_file, put_file, Faults, RotatingWriter, ext_from, ext_of, base_of,
  rotated_name, open_file, rotate, append_file, arriving, write_log,
}
use gateway_core.LogWriter.Files.{lookup-put_file, lookup-rename_file}

length-reverse : (s : Bytes) → length (reverse s) ≡ length s
length-reverse [] = refl
length-reverse (c ∷ s) =
    rw (reverse-cons c s, length-append (reverse s) (c ∷ [])) (omega (arith, length-reverse s))

length-ext_from : (s taken : Bytes) → length (ext_from s taken) ≤ length s + length taken
unfolding ext_from
length-ext_from [] taken = omega arith
length-ext_from (c ∷ s) taken = elim (Bool-cases (c == b'.')) [
  | inl e ↦ rw e (omega arith)
  | inr e ↦ rw e (omega (arith, length-ext_from s (c ∷ taken)))
]

length-base_of : (name : Bytes) → length (base_of name) + length (ext_of name) ≡ length name
unfolding base_of ext_of
length-base_of name = omega (
  arith,
  length-ext_from (reverse name) [],
  length-reverse name,
  length-take (length name - length (ext_of name)) name,
)

-- A rotated file has a longer name than the log.
length-rotated_name : (name stamp : Bytes) → length name < length (rotated_name name stamp)
unfolding rotated_name
length-rotated_name name stamp = elim (Bool-cases (same_bytes (ext_of name) [])) [
  | inl e ↦
      let whole = ap length ((same_bytes_iff (ext_of name) []).0 e) in
      rw e (
        omega (
          arith,
          length-append (base_of name ++ bytes "-" ++ stamp) (bytes ".log"),
          length-append (base_of name ++ bytes "-") stamp,
          length-append (base_of name) (bytes "-"),
          length-base_of name,
        ))
  | inr e ↦ rw e (
      omega (
        arith,
        length-append (base_of name ++ bytes "-" ++ stamp) (ext_of name),
        length-append (base_of name ++ bytes "-") stamp,
        length-append (base_of name) (bytes "-"),
        length-base_of name,
      ))
]

rotated_name-ne : (name stamp : Bytes) → same_bytes (rotated_name name stamp) name ≡ false
rotated_name-ne name stamp = elim (Bool-cases (same_bytes (rotated_name name stamp) name)) [
  | inr e ↦ e
  | inl e ↦
      let same = ap length ((same_bytes_iff (rotated_name name stamp) name).0 e) in
      absurd (omega (arith, length-rotated_name name stamp))
]

-- Nothing fails and everything arrives.
pub record IsQuiet (faults : Faults) : Type 0 where
  pub renames : faults.rename_fails ≡ false
  pub opens : faults.open_fails ≡ false
  pub stats : faults.stat_fails ≡ false
  pub writes : faults.short_write ≡ none

abbrev pub new_file : ℕ → File
new_file now = record { content = []; modified = now }

open_file-none :
    (faults : Faults) (now : ℕ) (w : RotatingWriter) (d : Directory)
    → IsQuiet faults
    → lookup w.name d ≡ none
    → open_file faults now (w, d)
      ≡ ((record w { is_open = true; size = 0 }, put_file w.name (new_file now) d), true)
unfolding open_file
open_file-none faults now w d q e = rw (open_file, q.opens, q.stats, e)

-- Two names that differ can be asked for in either order.
named :
    (new old k : Bytes) (a b c : Option File)
    → same_bytes new old ≡ false
    → (if same_bytes old k
        then b
        else if same_bytes new k
        then a
        else if same_bytes old k
        then none
        else c)
      ≡ (if same_bytes new k then a else if same_bytes old k then b else c)
named new old k h =
    ground (arith, same_bytes_iff new old, same_bytes_iff new k, same_bytes_iff old k)

-- The directory after a rotation.
rotated : (now : ℕ) (new : Bytes) → RotatingWriter → Directory → Directory
rotated now new w d = put_file w.name (new_file now) (rename_file w.name new d)

rotate_quiet :
    (format : ℕ → Bytes) (faults : Faults) (now : ℕ) (w : RotatingWriter) (d : Directory) (f : File)
    → IsQuiet faults
    → lookup w.name d ≡ some f
    → rotate format faults now (w, d) ≡ (
      (record w { is_open = true; size = 0 }, rotated now (rotated_name w.name (format now)) w d),
      true,
    )
unfolding rotate rotated
rotate_quiet format faults now w d f q e =
    let new = rotated_name w.name (format now) in
    let renamed = rename_file w.name new d in
    let gone : lookup w.name renamed ≡ none =
      lookup-rename_file w.name w.name new f d e
      ∙ rw (rotated_name-ne w.name (format now), same_bytes_refl w.name) in
    ap (λ (b : Bool). open_file faults now (record w { is_open = false }, if b then d else renamed))
      q.renames
    ∙ open_file-none faults now (record w { is_open = false }) renamed q gone

lookup-rotated :
    (now : ℕ) (new k : Bytes) (w : RotatingWriter) (d : Directory) (f : File)
    → lookup w.name d ≡ some f
    → same_bytes new w.name ≡ false
    → lookup k (rotated now new w d) ≡ (
        if same_bytes new k
        then some f
        else if same_bytes w.name k
        then some (new_file now)
        else lookup k d)
unfolding rotated
lookup-rotated now new k w d f e differ =
    rw
      (
        lookup-put_file k w.name (new_file now) (rename_file w.name new d),
        lookup-rename_file k w.name new f d e,
      )
      (named new w.name k (some f) (some (new_file now)) (lookup k d) differ)

-- A rotation in which no call fails leaves an open, empty log. The file with the name of that second
-- is the log as it was, also if another file had that name, which is lost; all other files stay.
pub rotate-lookup :
    (format : ℕ → Bytes) (faults : Faults) (now : ℕ) (w : RotatingWriter) (d : Directory) (f : File)
    → IsQuiet faults
    → lookup w.name d ≡ some f
    → ((rotate format faults now (w, d)).1 ≡ true)
      × ((rotate format faults now (w, d)).0.0.is_open ≡ true)
      × ((rotate format faults now (w, d)).0.0.size ≡ 0)
      × ((k : Bytes)
          → lookup k (rotate format faults now (w, d)).0.1 ≡ (
              if same_bytes (rotated_name w.name (format now)) k
              then some f
              else if same_bytes w.name k
              then some (new_file now)
              else lookup k d))
rotate-lookup format faults now w d f q e = rw (rotate_quiet format faults now w d f q e) (
  refl,
  refl,
  refl,
  λ k.
      lookup-rotated now (rotated_name w.name (format now)) k w d f e
        (rotated_name-ne w.name (format now)),
)

append_file-some :
    (faults : Faults) (now : ℕ) (p : Bytes) (w : RotatingWriter) (d : Directory) (f : File)
    → faults.short_write ≡ none
    → w.is_open ≡ true
    → lookup w.name d ≡ some f
    → append_file faults now p (w, d) ≡ (
      record w { size = w.size + length p },
      put_file w.name (record { content = f.content ++ p; modified = now }) d,
    )
unfolding append_file
append_file-some faults now p w d f whole open_ e =
    let all : arriving faults p ≡ p =
      ap (λ (o : Option ℕ). elim o as (λ x. Bytes) [ none ↦ p | some n ↦ take n p ]) whole in
    let grown = record w { size = w.size + length (arriving faults p) } in
    let file : File = record { content = f.content ++ arriving faults p; modified = now } in
    rw (append_file, e)
      (ap (λ (b : Bool). if b then (grown, put_file w.name file d) else (w, d)) open_
        ∙ ap
            (λ (b : Bytes). (
              record w { size = w.size + length b },
              put_file w.name (record { content = f.content ++ b; modified = now }) d,
            ))
            all)

-- A write in which no call fails arrives whole. If the log stays within its limit with it, the log
-- grows by it; if not, it is the whole log, and the file with the name of that second is the log as it
-- was. The size is that of the log both times.
write_log_size :
    (format : ℕ → Bytes) (faults : Faults) (now : ℕ) (p : Bytes) (w : RotatingWriter)
    (d : Directory) (f : File)
    → IsQuiet faults
    → w.is_open ≡ true
    → lookup w.name d ≡ some f
    → w.size ≡ length f.content
    → (g : File) × (lookup w.name (write_log format faults now p (w, d)).1 ≡ some g)
      × ((write_log format faults now p (w, d)).0.size ≡ length g.content)
      × ((g.content ≡ f.content ++ p) × (pos (length g.content) ≤ℤ w.max_bytes)
          ⊎ (g.content ≡ p)
            × (lookup (rotated_name w.name (format now)) (write_log format faults now p (w, d)).1
                ≡ some f))
unfolding write_log
write_log_size format faults now p w d f q open_ e n =
    let new = rotated_name w.name (format now) in
    elim (Bool-cases (ltb_ℤ w.max_bytes (pos (w.size + length p)))) [
      | inr fits ↦
          let fitting : pos (w.size + length p) ≤ℤ w.max_bytes = ground arith in
          let g : File = record { content = f.content ++ p; modified = now } in
          rw (write_log, fits, append_file-some faults now p w d f q.writes open_ e)
            (
              g,
              lookup-put_file w.name w.name g d ∙ rw (same_bytes_refl w.name),
              omega (arith, length-append f.content p),
              inl (refl, omega (arith, fitting, length-append f.content p)),
            )
      | inl over ↦
          let g : File = record { content = p; modified = now } in
          let kept : lookup new (rotated now new w d) ≡ some f =
            lookup-rotated now new new w d f e (rotated_name-ne w.name (format now))
            ∙ rw (same_bytes_refl new) in
          let back : same_bytes w.name new ≡ false = ground (
            arith,
            same_bytes_iff new w.name,
            same_bytes_iff w.name new,
            rotated_name-ne w.name (format now),
          ) in
          let w' = record w { is_open = true; size = 0 } in
          let d' = rotated now new w d in
          let fresh : lookup w.name d' ≡ some (new_file now) =
            lookup-rotated now new w.name w d f e (rotated_name-ne w.name (format now))
            ∙ rw (rotated_name-ne w.name (format now), same_bytes_refl w.name) in
          rw
            (
              write_log,
              over,
              rotate_quiet format faults now w d f q e,
              append_file-some faults now p w' d' (new_file now) q.writes refl fresh,
            )
            (
              g,
              lookup-put_file w.name w.name g d' ∙ rw (same_bytes_refl w.name),
              omega arith,
              inr (refl, lookup-put_file new w.name g d' ∙ rw (back, kept)),
            )
    ]
