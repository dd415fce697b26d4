-- ===== src/TlsUtil/Tests.antt =====
-- Certificates at concrete inputs: the contents of the files are numbers, of which 0 is no pair.
use mathlib.Core.List.{Mem}
use gateway_core.Base.{ℕ, zero, suc, ◌≡◌, refl, false, [], ◌∷◌, Option, none, some}
use gateway_core.TlsUtil.{
  load_cert, new, Rotation, writes, reads_event, runs_out, asks, reads_files, installs, opened,
  Reachable, start, next,
}
use gateway_core.TlsUtil.Served.{IsSettled, rotation_served}

abbrev pair_of : ℕ → Option ℕ
pair_of zero = none
pair_of (suc n) = some n

-- A certificate is rotated: a write, its event, the timer, and the load.
abbrev rotated : Rotation ℕ ℕ
rotated = record (opened 3 (record { cert = 2 })) {
  loader = record { cert = 4 };
  files = 5;
  contents = 5 ∷ 3 ∷ [];
}

rotated-Reachable : Reachable pair_of rotated
unfolding new load_cert
rotated-Reachable =
    let changed = next (start 3 (record { cert = 2 }) refl) (writes _ 5) in
    let due = next (next changed (reads_event _ 0 refl refl)) (runs_out _ refl) in
    next (next due (reads_files _ 0 refl)) (installs _ [] [] 5 refl)

-- A write that leaves no pair keeps the certificate.
broken :
    Reachable pair_of (record (opened 3 (record { cert = 2 })) { files = 0; contents = 0 ∷ 3 ∷ [] })
unfolding new load_cert
broken =
    let changed = next (start 3 (record { cert = 2 }) refl) (writes _ 0) in
    let due = next (next changed (reads_event _ 0 refl refl)) (runs_out _ refl) in
    next (next due (reads_files _ 0 refl)) (installs _ [] [] 0 refl)

-- Of two reloads that overlap, the one that read the files first installs last: the certificate is again
-- the old one, with nothing due.
overlapped : Reachable pair_of (record rotated { loader = record { cert = 2 }; alone = false })
unfolding new load_cert
overlapped =
    let first = next (next (start 3 (record { cert = 2 }) refl) (asks _)) (reads_files _ 0 refl) in
    let changed =
      next (next (next first (writes _ 5)) (reads_event _ 0 refl refl)) (runs_out _ refl) in
    let second = next (next changed (reads_files _ 0 refl)) (installs _ [] (3 ∷ []) 5 refl) in
    next second (installs _ [] [] 3 refl)

rotation_served_example :
    ((f : ℕ) × Mem f (5 ∷ 3 ∷ []) × (pair_of f ≡ some 4))
    × (IsSettled rotated → rotated.loading ≡ [] → (c : ℕ) → pair_of 5 ≡ some c → 4 ≡ c)
rotation_served_example = rotation_served pair_of rotated rotated-Reachable
