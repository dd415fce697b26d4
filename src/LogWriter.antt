-- ===== src/LogWriter.antt =====
-- internal/logging/writer.go: the rotating log file. The directory of the log is a list of files under
-- their names; which calls of package os fail, how much of a write arrives, the text of a time stamp
-- and the date some days ago are parameters. A name has no slash. Sizes are less than 2^63.
pub mod Files
pub mod Sorted
pub mod Rotation
pub mod Cleanup
pub mod Exact
mod Tests
use mathlib.Core.List.{reverse}
use gateway_core.Base.{
  ℕ, ◌+◌, ◌-◌, ◌*◌, ◌^◌, Bool, true, false, not, ◌&&◌, List, [], ◌∷◌, ◌++◌, Option, none, some, ltb,
  ◌==◌, if◌then◌else◌, length, take,
}
use gateway_core.Base.Int.{ℤ, pos, ◌*ℤ◌, ltb_ℤ, wrap}
use gateway_core.Base.Bytes.{Bytes, bytes, same_bytes, has_prefix}
use gateway_core.Proxy.Router.{lookup}

pub record File : Type 0 where
  pub content : Bytes
  pub modified : ℕ

abbrev pub Directory : Type 0
Directory = List (Bytes × File)

-- `os.Remove`, where it succeeds.
unfoldable pub remove_file : Bytes → Directory → Directory
remove_file k [] = []
remove_file k ((j, f) ∷ d) =
    let rest = remove_file k d in if same_bytes j k then rest else (j, f) ∷ rest

abbrev pub put_file : Bytes → File → Directory → Directory
put_file k f d = (k, f) ∷ remove_file k d

-- `os.Rename`, which replaces a file that has the new name; a missing file is an error.
unfoldable pub rename_file : (old new : Bytes) → Directory → Directory
rename_file old new d = elim (lookup old d) [
  | none ↦ d
  | some f ↦ put_file new f (remove_file old d)
]

-- Which calls fail in one operation, and how many bytes of a write arrive if not all.
pub record Faults : Type 0 where
  pub rename_fails : Bool
  pub open_fails : Bool
  pub stat_fails : Bool
  pub short_write : Option ℕ

-- The handle is that of the file under `name`, or closed.
pub record RotatingWriter : Type 0 where
  pub is_open : Bool
  pub name : Bytes
  pub size : ℕ
  pub max_bytes : ℤ
  pub max_backups : ℤ
  pub max_age_days : ℤ

-- The bytes behind the last dot, reversed, with the dot; nothing without a dot.
unfoldable pub ext_from : Bytes → Bytes → Bytes
ext_from [] taken = []
ext_from (c ∷ s) taken = let rest = ext_from s (c ∷ taken) in if c == b'.' then c ∷ taken else rest

-- `filepath.Ext`, for a name without a slash.
unfoldable pub ext_of : Bytes → Bytes
unfolding ext_from
ext_of name = ext_from (reverse name) []

-- `strings.TrimSuffix(name, ext)` for the extension of the name.
unfoldable pub base_of : Bytes → Bytes
unfolding ext_of
base_of name = take (length name - length (ext_of name)) name

abbrev pub ext_or_log : Bytes → Bytes
ext_or_log name = if same_bytes (ext_of name) [] then bytes ".log" else ext_of name

unfoldable pub rotated_name : (name stamp : Bytes) → Bytes
rotated_name name stamp = base_of name ++ bytes "-" ++ stamp ++ ext_or_log name

unfoldable pub open_file :
    Faults → (now : ℕ) → RotatingWriter × Directory → (RotatingWriter × Directory) × Bool
open_file faults now (w, d) =
    if faults.open_fails
    then ((w, d), false)
    else let f : File = elim (lookup w.name d) [
      | none ↦ record { content = []; modified = now }
      | some g ↦ g
    ] in
      let d' = put_file w.name f d in
      if faults.stat_fails
      then ((w, d'), false)
      else ((record w { is_open = true; size = length f.content }, d'), true)

-- `NewRotatingWriter`, in a directory that is there.
unfoldable pub new_rotating_writer :
    (name : Bytes) (max_size_mb max_backups max_age_days : ℤ)
    → Faults
    → (now : ℕ) → Directory
    → (RotatingWriter × Directory) × Bool
new_rotating_writer name max_size_mb max_backups max_age_days faults now d = open_file faults now (
  record {
    is_open = false;
    name = name;
    size = 0;
    max_bytes = wrap (wrap (max_size_mb *ℤ pos 1024) *ℤ pos 1024);
    max_backups = max_backups;
    max_age_days = max_age_days;
  },
  d,
)

-- The handle is closed whatever `Close` reports. `cleanup` runs by itself some time later.
unfoldable pub rotate :
    (format : ℕ → Bytes)
    → Faults
    → (now : ℕ) → RotatingWriter × Directory
    → (RotatingWriter × Directory) × Bool
rotate format faults now (w, d) =
    let d' =
      if faults.rename_fails then d else rename_file w.name (rotated_name w.name (format now)) d in
    open_file faults now (record w { is_open = false }, d')

-- `file.Write(p)`: how much of `p` arrives.
abbrev pub arriving : Faults → Bytes → Bytes
arriving faults p = elim faults.short_write [ none ↦ p | some n ↦ take n p ]

unfoldable pub append_file :
    Faults → (now : ℕ) → Bytes → RotatingWriter × Directory → RotatingWriter × Directory
append_file faults now p (w, d) = elim (lookup w.name d) [
  | none ↦ (w, d)
  | some f ↦
      if w.is_open
      then (
        record w { size = w.size + length (arriving faults p) },
        put_file w.name (record { content = f.content ++ arriving faults p; modified = now }) d,
      )
      else (w, d)
]

-- `Write`; a rotation that fails leaves the bytes unwritten.
unfoldable pub write_log :
    (format : ℕ → Bytes)
    → Faults
    → (now : ℕ) → Bytes
    → RotatingWriter × Directory
    → RotatingWriter × Directory
write_log format faults now p (w, d) =
    if ltb_ℤ w.max_bytes (pos (w.size + length p))
    then (let (s, ok) = rotate format faults now (w, d) in
        if ok then append_file faults now p s else s)
    else append_file faults now p (w, d)

unfoldable pub close_log : RotatingWriter → RotatingWriter
close_log w = record w { is_open = false }

-- The files that count as rotated.
unfoldable pub is_rotated : (name file : Bytes) → Bool
is_rotated name file =
    has_prefix file (base_of name ++ bytes "-")
    && (has_prefix (reverse file) (reverse (ext_or_log name)) && not (same_bytes file name))

unfoldable pub rotated_files : Bytes → Directory → List Bytes
rotated_files name [] = []
rotated_files name ((k, f) ∷ d) =
    let rest = rotated_files name d in if is_rotated name k then k ∷ rest else rest

-- The order of strings, and `sort.Strings` for names that differ.
unfoldable pub at_most : Bytes → Bytes → Bool
at_most [] t = true
at_most (c ∷ s) [] = false
at_most (c ∷ s) (e ∷ t) = if c == e then at_most s t else ltb c e

unfoldable pub insert_name : Bytes → List Bytes → List Bytes
insert_name k [] = k ∷ []
insert_name k (j ∷ js) = let rest = insert_name k js in if at_most k j then k ∷ j ∷ js else j ∷ rest

unfoldable pub sort_names : List Bytes → List Bytes
sort_names [] = []
sort_names (k ∷ ks) = insert_name k (sort_names ks)

-- The oldest files are removed while there are too many; none stands for a panic at `rotated[0]`.
unfoldable pub remove_excess :
    (fails : Bytes → Bool) → ℤ → List Bytes → Directory → Option (List Bytes × Directory)
remove_excess fails most [] d = if ltb_ℤ most (pos 0) then none else some ([], d)
remove_excess fails most (k ∷ ks) d =
    let rest = remove_excess fails most ks (if fails k then d else remove_file k d) in
    if ltb_ℤ most (pos (length (k ∷ ks))) then rest else some (k ∷ ks, d)

unfoldable pub remove_aged :
    (fails : Bytes → Bool) → (cutoff : ℕ) → List Bytes → Directory → Directory
remove_aged fails cutoff [] d = d
remove_aged fails cutoff (k ∷ ks) d = elim (lookup k d) [
  | none ↦ remove_aged fails cutoff ks d
  | some f ↦
      remove_aged fails cutoff ks
        (if ltb f.modified cutoff && not (fails k) then remove_file k d else d)
]

-- `cleanup`, of a directory that can be read.
unfoldable pub cleanup :
    (days_before : ℤ → ℕ → ℕ)
    → (fails : Bytes → Bool) → (now : ℕ) → RotatingWriter
    → Directory
    → Option Directory
cleanup days_before fails now w d =
    elim (remove_excess fails w.max_backups (sort_names (rotated_files w.name d)) d) [
      | none ↦ none
      | some (ks, d') ↦ some (remove_aged fails (days_before w.max_age_days now) ks d')
    ]
