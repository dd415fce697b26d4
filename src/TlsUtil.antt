-- ===== src/TlsUtil.antt =====
-- internal/tlsutil/certloader.go: the certificate that is served, and the reloads that follow the files.
pub mod Served
mod Tests
use gateway_core.Base.{
  ℕ, suc, ◌≡◌, Bool, true, false, ◌&&◌, List, [], ◌∷◌, ◌++◌, Option, none, some, if◌then◌else◌,
}

pub record CertLoader (C : Type 0) : Type 0 where
  pub cert : C

-- `loadCert`, by what `tls.LoadX509KeyPair` gives for the two files; whether there is no error.
unfoldable pub load_cert : {C : Type 0} → Option C → CertLoader C → CertLoader C × Bool
load_cert (some c) cl = (record cl { cert = c }, true)
load_cert none cl = (cl, false)

-- `New`, which gives no loader if the first load fails or the files cannot be watched.
unfoldable pub new : {C : Type 0} → Option C → (watches : Bool) → Option (CertLoader C)
new (some c) watches = if watches then some (record { cert = c }) else none
new none watches = none

abbrev pub get_certificate : {C : Type 0} → CertLoader C → C
get_certificate cl = cl.cert

abbrev pub is_empty : {A : Type 0} → List A → Bool
is_empty [] = true
is_empty _ = false

-- The loader with its surroundings. `files` is the contents of both files, and `contents` all that they
-- have had, the last first; `unread` counts the events of the watcher that the loop has not read;
-- `debounce` is whether a timer is pending; `starting` counts the reloads that have not read the files,
-- and `loading` has what the others have read. `unseen` is whether the files have changed without an
-- event since they were last read, `alone` whether no two loads have overlapped.
pub record Rotation (F C : Type 0) : Type 0 where
  pub loader : CertLoader C
  pub files : F
  pub contents : List F
  pub unread : ℕ
  pub debounce : Bool
  pub starting : ℕ
  pub loading : List F
  pub looping : Bool
  pub stopped : Bool
  pub unseen : Bool
  pub alone : Bool

abbrev pub opened : {F C : Type 0} → F → CertLoader C → Rotation F C
opened f cl = record {
  loader = cl;
  files = f;
  contents = f ∷ [];
  unread = 0;
  debounce = false;
  starting = 0;
  loading = [];
  looping = true;
  stopped = false;
  unseen = false;
  alone = true;
}

module _ {F C : Type 0} (load : F → Option C) where
  -- Timers may run out at any time: the delay is left out. A reload reads both files at one time.
  pub data Step : Rotation F C → Rotation F C → Type 0 where
    -- A write or a creation, of which the watcher gives an event.
    writes :
        (w : Rotation F C) (f : F)
        → Step w (record w { files = f; contents = f ∷ w.contents; unread = suc w.unread })
    -- A change without such an event: one before `New` watches the files, or one of a file that has
    -- been replaced by a rename, which ends its watch.
    replaces :
        (w : Rotation F C) (f : F)
        → Step w (record w { files = f; contents = f ∷ w.contents; unseen = true })
    reads_event :
        (w : Rotation F C) (n : ℕ)
        → w.looping ≡ true
        → w.unread ≡ suc n
        → Step w (record w { unread = n; debounce = true })
    -- Any other event, and an error of the watcher.
    ignores : (w : Rotation F C) → w.looping ≡ true → Step w w
    runs_out :
        (w : Rotation F C)
        → w.debounce ≡ true
        → Step w (record w { debounce = false; starting = suc w.starting })
    -- A call of `Reload`.
    asks : (w : Rotation F C) → Step w (record w { starting = suc w.starting })
    reads_files :
        (w : Rotation F C) (n : ℕ)
        → w.starting ≡ suc n
        → Step w (record w {
          starting = n;
          loading = w.files ∷ w.loading;
          unseen = false;
          alone = w.alone && is_empty w.loading;
        })
    installs :
        (w : Rotation F C) (before after : List F) (f : F)
        → w.loading ≡ before ++ f ∷ after
        → Step w (record w { loader = (load_cert (load f) w.loader).0; loading = before ++ after })
    stops : (w : Rotation F C) → w.stopped ≡ false → Step w (record w { stopped = true })
    -- The loop returns, with the timer stopped if it reads the channel before it finds the watcher closed.
    returns :
        (w : Rotation F C)
        → w.stopped ≡ true
        → w.looping ≡ true
        → Step w (record w { looping = false; debounce = false })
    closes :
        (w : Rotation F C)
        → w.stopped ≡ true
        → w.looping ≡ true
        → Step w (record w { looping = false })

  pub data Reachable : Rotation F C → Type 0 where
    start : (f : F) (cl : CertLoader C) → new (load f) true ≡ some cl → Reachable (opened f cl)
    next : {v w : Rotation F C} → Reachable v → Step v w → Reachable w
