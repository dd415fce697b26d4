-- ===== src/Config/Tests.antt =====
-- Reloads and variables at concrete inputs, and each theorem at one.
use gateway_core.Base.{
  ◌≤◌, arith, ℕ, ◌+◌, ◌≡◌, refl, true, false, [], ◌∷◌, Option, none, some, ◌==◌, if◌then◌else◌,
}
use gateway_core.Base.Bytes.{Bytes, bytes, same_bytes}
use gateway_core.Config.Load.{expand_env_vars, expand_from}
use gateway_core.Config.Reload.{
  accepted, erred, Reason, Observer, Reloader, reload, swap_in, settle, run_observers,
  run_callbacks, verdict_reason, reload-current,
}
use gateway_core.Config.Watch.{
  Watch, waits, changes, runs_out, Reachable, start, next, started, changed, reloaded,
  debounce_delay, IsDebounced, changes_of, reloads_of, watch_debounces,
}

abbrev environment : Bytes → Option Bytes
environment k = if same_bytes k (bytes "PORT") then some (bytes "8080") else none

-- A name that is not set stays, and so does one that is not closed.
expanded :
    expand_env_vars environment (bytes "a: ${PORT}, $${NO}, ${}, ${PORT")
    ≡ bytes "a: 8080, $${NO}, ${}, ${PORT"
unfolding expand_env_vars expand_from
expanded = refl

-- Configurations and components are numbers; the observer adds the new one, and refuses 7.
abbrev adds : Observer ℕ ℕ
adds old new s = (s + new, if new == 7 then erred else accepted)

abbrev reloader : Reloader ℕ ℕ
reloader = record {
  current = 1;
  components = 0;
  observers = adds ∷ [];
  callbacks = [];
  rollbacks = some [];
}

abbrev seven : ℕ
seven = 7

reload-current_example :
    (some seven ≡ none → reload (some seven) reloader ≡ (reloader, false))
    × ((new : ℕ)
        → some seven ≡ some new
        → ((reload (some seven) reloader).1 ≡ true
            → ((reload (some seven) reloader).0.current ≡ new)
              × ((reload (some seven) reloader).0.rollbacks ≡ some []))
          × ((reload (some seven) reloader).1 ≡ false
              → ((reload (some seven) reloader).0.current ≡ 1)
                × ((reason : Reason) × ((reload (some seven) reloader).0.rollbacks
                      ≡ some (reason ∷ [])))))
reload-current_example = reload-current (some seven) reloader

abbrev other : Reloader ℕ ℕ
other = record reloader { current = 2; components = 2 }

other_succeeds : reload (some 2) (swap_in 7 reloader).0 ≡ (other, true)
unfolding reload swap_in settle run_observers run_callbacks verdict_reason
other_succeeds = refl

-- The file changes once, and the timer runs out.
abbrev quiet_watch : Watch
quiet_watch = record (started 5) {
  now = 5 + debounce_delay;
  history = reloaded (5 + debounce_delay) ∷ changed 5 ∷ [];
}

quiet_watch-Reachable : Reachable quiet_watch
quiet_watch-Reachable =
    next (next (next (start 5) (changes _ refl)) (waits _ debounce_delay))
      (runs_out _ (5 + debounce_delay) refl (omega arith))

watch_debounces_example :
    IsDebounced (reloaded (5 + debounce_delay) ∷ changed 5 ∷ [])
    × (reloads_of (reloaded (5 + debounce_delay) ∷ changed 5 ∷ [])
        ≤ changes_of (reloaded (5 + debounce_delay) ∷ changed 5 ∷ []))
watch_debounces_example = watch_debounces quiet_watch quiet_watch-Reachable
