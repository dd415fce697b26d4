-- ===== src/LogWriter/Tests.antt =====
-- The rotating writer at concrete inputs, and each theorem at one.
use gateway_core.Base.{
  ℕ, ◌+◌, ◌≤◌, ◌≡◌, refl, ◌⊎◌, Bool, true, false, List, [], ◌∷◌, ◌++◌, none, some, if◌then◌else◌,
  length, All,
}
use gateway_core.Base.Int.{ℤ, pos, negsuc}
use gateway_core.Base.Bytes.{Bytes, bytes, same_bytes}
use gateway_core.Proxy.Router.{lookup}
use gateway_core.LogWriter.{
  File, Directory, Faults, RotatingWriter, rotated_name, ext_of, base_of, rotate, write_log,
  new_rotating_writer, is_rotated, rotated_files, sort_names, cleanup,
}
use gateway_core.LogWriter.Rotation.{IsQuiet, new_file, rotate-lookup}
use gateway_core.LogWriter.Cleanup.{aged, cleanup_leaves}
use gateway_core.LogWriter.Sorted.{lists, Precedes}
use gateway_core.LogWriter.Exact.{Reachable, start, next, writes, Exact, Reachable-Exact}

-- A time stamp of one letter.
abbrev format : ℕ → Bytes
format now = (b'0' + now) ∷ []

abbrev quiet : Faults
quiet = record { rename_fails = false; open_fails = false; stat_fails = false; short_write = none }

quiet-IsQuiet : IsQuiet quiet
quiet-IsQuiet = record { renames = refl; opens = refl; stats = refl; writes = refl }

abbrev file : Bytes → File
file content = record { content = content; modified = 5 }

abbrev writer : RotatingWriter
writer = record {
  is_open = true;
  name = bytes "gw.log";
  size = 3;
  max_bytes = pos 4;
  max_backups = pos 1;
  max_age_days = pos 30;
}

-- The log, and the log of an earlier rotation in second 1.
abbrev directory : Directory
directory =
    (bytes "gw.log", file (bytes "abc"))
    ∷ (bytes "gw-1.log", file (bytes "old"))
    ∷ (bytes "gw-0.log", file (bytes "older"))
    ∷ []

second_name : rotated_name (bytes "gw.log") (format 1) ≡ bytes "gw-1.log"
unfolding rotated_name base_of ext_of
second_name = refl

-- The earlier log of that second is gone.
rotate-lookup_example :
    ((rotate format quiet 1 (writer, directory)).1 ≡ true)
    × ((rotate format quiet 1 (writer, directory)).0.0.is_open ≡ true)
    × ((rotate format quiet 1 (writer, directory)).0.0.size ≡ 0)
    × ((k : Bytes)
        → lookup k (rotate format quiet 1 (writer, directory)).0.1 ≡ (
            if same_bytes (rotated_name (bytes "gw.log") (format 1)) k
            then some (file (bytes "abc"))
            else if same_bytes (bytes "gw.log") k
            then some (new_file 1)
            else lookup k directory))
unfolding lookup
rotate-lookup_example =
    rotate-lookup format quiet 1 writer directory (file (bytes "abc")) quiet-IsQuiet refl

abbrev days_before : ℤ → ℕ → ℕ
days_before days now = 2

abbrev never : Bytes → Bool
never k = false

cleanup_leaves_example :
    ((n : ℕ) → pos 1 ≡ negsuc n → cleanup days_before never 9 writer directory ≡ none)
    × ((m : ℕ)
        → pos 1 ≡ pos m
        → ((k : Bytes) → never k ≡ false)
        → (removed : List Bytes) × ((left : List Bytes) × ((after : Directory) × (cleanup
                  days_before never 9 writer directory
                ≡ some after)
              × (removed ++ left ≡ sort_names (rotated_files (bytes "gw.log") directory))
              × (length left ≤ m)
              × ((removed ≡ []) ⊎ (length left ≡ m))
              × All (λ r. Precedes r left) removed
              × ((k : Bytes)
                  → lookup k after
                    ≡ aged
                        (days_before (pos 30) 9)
                        (lists left k)
                        (if lists removed k then none else lookup k directory))
              × ((k : Bytes) (f : File)
                  → is_rotated (bytes "gw.log") k ≡ true
                  → lookup k after ≡ some f
                  → lists left k ≡ true))))
cleanup_leaves_example = cleanup_leaves days_before never 9 writer directory

abbrev begun : RotatingWriter × Directory
begun = (new_rotating_writer (bytes "gw.log") (pos 1) (pos 3) (pos 30) quiet 0 directory).0

abbrev written_to : RotatingWriter × Directory
written_to = write_log format (record quiet { short_write = some 1 }) 2 (bytes "de") begun

written_to-Reachable : Reachable format days_before written_to
written_to-Reachable = next (start _ _ _ _ _ _ _) (writes _ _ _ _)

Reachable-Exact_example : Exact written_to
Reachable-Exact_example = Reachable-Exact format days_before written_to written_to-Reachable
