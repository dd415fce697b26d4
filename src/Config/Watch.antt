-- ===== src/Config/Watch.antt =====
-- internal/config/reload.go and reload_unix.go: `watchLoop` and the handler of SIGHUP, which start
-- reloads. Times are those at which the loop reads an event or the runtime starts a reload.
use mathlib.Core.Option.{some-injective}
use gateway_core.Base.{
  ℕ, suc, ◌+◌, ◌*◌, ◌^◌, ◌≤◌, ◌≡◌, refl, Bool, true, false, List, [], ◌∷◌, Option, none, some, All,
  arith,
}

-- 300 ms.
abbrev pub debounce_delay : ℕ
debounce_delay = 300 * 10 ^ 6

-- What has happened, the last first: a change of the file that the loop has read, a reload that the
-- timer has started, and one that a signal has.
pub data Happening : Type 0 where
  changed reloaded signalled : ℕ → Happening

-- `debounce` is the time at which a pending timer runs out; a loop that has returned reads no event.
pub record Watch : Type 0 where
  pub now : ℕ
  pub debounce : Option ℕ
  pub looping : Bool
  pub signals : Bool
  pub stopped : Bool
  pub history : List Happening

pub data Step : Watch → Watch → Type 0 where
  waits : (w : Watch) (n : ℕ) → Step w (record w { now = w.now + n })
  -- A write or a creation stops the timer that is pending, and sets another.
  changes :
      (w : Watch)
      → w.looping ≡ true
      → Step w (record w {
        debounce = some (w.now + debounce_delay);
        history = changed w.now ∷ w.history;
      })
  -- Any other event, and an error of the watcher.
  ignores : (w : Watch) → w.looping ≡ true → Step w w
  -- The timer starts the reload when it has run out, or later.
  runs_out :
      (w : Watch) (due : ℕ)
      → w.debounce ≡ some due
      → due ≤ w.now
      → Step w (record w { debounce = none; history = reloaded w.now ∷ w.history })
  hangs_up :
      (w : Watch) → w.signals ≡ true → Step w (record w { history = signalled w.now ∷ w.history })
  -- `Stop` closes the channel of the loops and then the watcher.
  stops : (w : Watch) → w.stopped ≡ false → Step w (record w { stopped = true })
  -- A loop that reads the channel returns, the watcher's with the timer stopped.
  returns :
      (w : Watch)
      → w.stopped ≡ true
      → w.looping ≡ true
      → Step w (record w { looping = false; debounce = none })
  leaves : (w : Watch) → w.stopped ≡ true → Step w (record w { signals = false })
  -- A loop that finds the watcher closed first returns as it is.
  closes : (w : Watch) → w.stopped ≡ true → w.looping ≡ true → Step w (record w { looping = false })

abbrev pub started : ℕ → Watch
started now = record {
  now = now;
  debounce = none;
  looping = true;
  signals = true;
  stopped = false;
  history = [];
}

pub data Reachable : Watch → Type 0 where
  start : (now : ℕ) → Reachable (started now)
  next : {v w : Watch} → Reachable v → Step v w → Reachable w

-- No change of the file is later than a time less the delay.
abbrev pub IsSettled : ℕ → Happening → Type 0
IsSettled t (changed e) = e + debounce_delay ≤ t
IsSettled t _ = Unit

abbrev pub IsPast : ℕ → Happening → Type 0
IsPast t (changed e) = e ≤ t
IsPast t _ = Unit

-- Every reload by the timer comes the delay after every change before it.
abbrev pub IsDebounced : List Happening → Type 0
IsDebounced [] = Unit
IsDebounced (reloaded t ∷ hs) = All (IsSettled t) hs × IsDebounced hs
IsDebounced (_ ∷ hs) = IsDebounced hs

abbrev pub changes_of : List Happening → ℕ
changes_of [] = 0
changes_of (changed t ∷ hs) = suc (changes_of hs)
changes_of (_ ∷ hs) = changes_of hs

abbrev pub reloads_of : List Happening → ℕ
reloads_of [] = 0
reloads_of (reloaded t ∷ hs) = suc (reloads_of hs)
reloads_of (_ ∷ hs) = reloads_of hs

abbrev pending : Option ℕ → ℕ
pending none = 0
pending (some due) = 1

abbrev IsDue : Option ℕ → List Happening → Type 0
IsDue none hs = Unit
IsDue (some due) hs = All (IsSettled due) hs

record IsValid (w : Watch) : Type 0 where
  past : All (IsPast w.now) w.history
  due : IsDue w.debounce w.history
  debounced : IsDebounced w.history
  few : reloads_of w.history + pending w.debounce ≤ changes_of w.history

later : (t n : ℕ) (hs : List Happening) → All (IsPast t) hs → All (IsPast (t + n)) hs
later t n [] h = tt
later t n (changed e ∷ hs) h = (omega arith, later t n hs h.1)
later t n (reloaded e ∷ hs) h = (tt, later t n hs h.1)
later t n (signalled e ∷ hs) h = (tt, later t n hs h.1)

settled :
    (t : ℕ) (hs : List Happening) → All (IsPast t) hs → All (IsSettled (t + debounce_delay)) hs
settled t [] h = tt
settled t (changed e ∷ hs) h = (omega arith, settled t hs h.1)
settled t (reloaded e ∷ hs) h = (tt, settled t hs h.1)
settled t (signalled e ∷ hs) h = (tt, settled t hs h.1)

IsSettled-later :
    (s t : ℕ) (hs : List Happening) → s ≤ t → All (IsSettled s) hs → All (IsSettled t) hs
IsSettled-later s t [] k h = tt
IsSettled-later s t (changed e ∷ hs) k h = (omega arith, IsSettled-later s t hs k h.1)
IsSettled-later s t (reloaded e ∷ hs) k h = (tt, IsSettled-later s t hs k h.1)
IsSettled-later s t (signalled e ∷ hs) k h = (tt, IsSettled-later s t hs k h.1)

due_of :
    (o : Option ℕ) (t : ℕ) (hs : List Happening) → o ≡ some t → IsDue o hs → All (IsSettled t) hs
due_of none t hs e h = cc
due_of (some s) t hs e h = rw (← some-injective s t e) h

pending_of : (o : Option ℕ) (t : ℕ) → o ≡ some t → pending o ≡ 1
pending_of none t e = cc
pending_of (some s) t e = refl

signalled-IsDue :
    (o : Option ℕ) (t : ℕ) (hs : List Happening) → IsDue o hs → IsDue o (signalled t ∷ hs)
signalled-IsDue none t hs h = tt
signalled-IsDue (some s) t hs h = (tt, h)

Step-IsValid : {v w : Watch} → Step v w → IsValid v → IsValid w
Step-IsValid (waits w n) v = record {
  past = later w.now n w.history v.past;
  due = v.due;
  debounced = v.debounced;
  few = v.few;
}
Step-IsValid (changes w l) v = record {
  past = (omega arith, v.past);
  due = (omega arith, settled w.now w.history v.past);
  debounced = v.debounced;
  few = omega (arith, v.few);
}
Step-IsValid (ignores w l) v = v
Step-IsValid (runs_out w due e h) v = record {
  past = (tt, v.past);
  due = tt;
  debounced = (
    IsSettled-later due w.now w.history h (due_of w.debounce due w.history e v.due),
    v.debounced,
  );
  few = omega (arith, v.few, pending_of w.debounce due e);
}
Step-IsValid (hangs_up w l) v = record {
  past = (tt, v.past);
  due = signalled-IsDue w.debounce w.now w.history v.due;
  debounced = v.debounced;
  few = v.few;
}
Step-IsValid (stops w l) v = record {
  past = v.past;
  due = v.due;
  debounced = v.debounced;
  few = v.few;
}
Step-IsValid (returns w l k) v = record {
  past = v.past;
  due = tt;
  debounced = v.debounced;
  few = omega (arith, v.few);
}
Step-IsValid (leaves w l) v = record {
  past = v.past;
  due = v.due;
  debounced = v.debounced;
  few = v.few;
}
Step-IsValid (closes w l k) v = record {
  past = v.past;
  due = v.due;
  debounced = v.debounced;
  few = v.few;
}

Reachable-IsValid : {w : Watch} → Reachable w → IsValid w
Reachable-IsValid (start now) = record { past = tt; due = tt; debounced = tt; few = omega arith }
Reachable-IsValid (next r s) = Step-IsValid s (Reachable-IsValid r)

-- Whatever changes of the file, signals and calls of Stop come, a reload that the timer starts comes
-- at least 300 ms after every change before it, and there are no more such reloads than changes.
pub watch_debounces :
    (w : Watch)
    → Reachable w
    → IsDebounced w.history × (reloads_of w.history ≤ changes_of w.history)
watch_debounces w r =
    let v = Reachable-IsValid r in let counted = v.few in (v.debounced, omega arith)

-- The change, Stop, and a loop that finds the watcher closed before it finds the channel closed.
abbrev hung : ℕ → Watch
hung t = record {
  now = t + debounce_delay;
  debounce = some (t + debounce_delay);
  looping = false;
  signals = false;
  stopped = true;
  history = changed t ∷ [];
}

-- At any time after a start the file can change and the watch be stopped such that both loops have
-- returned and the timer still starts a reload.
stopped_reload :
    (t : ℕ)
    → (v : Watch) × Reachable v
      × (v.stopped ≡ true)
      × (v.looping ≡ false)
      × (v.signals ≡ false)
      × ((w : Watch) × Step v w × (w.history ≡ reloaded v.now ∷ v.history))
stopped_reload t = (
  hung t,
  next
      (next (next (next (next (start t) (changes _ refl)) (stops _ refl)) (closes _ refl refl))
        (leaves _ refl))
      (waits _ debounce_delay),
  refl,
  refl,
  refl,
  (_, runs_out (hung t) (t + debounce_delay) refl (omega arith), refl),
)
