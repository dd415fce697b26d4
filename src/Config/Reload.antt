-- ===== src/Config/Reload.antt =====
-- internal/config/reload.go: `Reload`, as one run and as runs that overlap. The observers are parameters:
-- each may change the state `S` of the components, and accepts, reports an error or panics.
use mathlib.Core.Option.{some-injective}
use gateway_core.Base.{
  ◌≡◌, refl, sym, ◌∙◌, inl, inr, Bool, true, false, List, [], ◌∷◌, ◌++◌, Option, none, some,
  Option-cases, ap,
}

pub data Verdict : Type 0 where
  accepted erred panicked : Verdict

-- The reasons that the metrics count.
pub data Reason : Type 0 where
  observer_error observer_panic : Reason

module _ (C S : Type 0) where
  -- `OnReload(old, new)`.
  abbrev pub Observer : Type 0
  Observer = C → C → S → S × Verdict

  pub record Reloader : Type 0 where
    pub current : C
    pub components : S
    pub observers : List Observer
    pub callbacks : List (C → S → S)
    -- The rollbacks that the recorder has counted, if there is one.
    pub rollbacks : Option (List Reason)

unfoldable pub verdict_reason : Verdict → Option Reason
verdict_reason accepted = none
verdict_reason erred = some observer_error
verdict_reason panicked = some observer_panic

unfoldable pub inc_rollback : Reason → Option (List Reason) → Option (List Reason)
inc_rollback reason none = none
inc_rollback reason (some rs) = some (reason ∷ rs)

module _ {C S : Type 0} where
  -- The observers in their order, up to the first that does not accept.
  unfoldable pub run_observers : (old new : C) → List (Observer C S) → S → S × Option Reason
  run_observers old new [] s = (s, none)
  run_observers old new (o ∷ os) s =
      let (s', v) = o old new s in
      elim (verdict_reason v) [
        | some reason ↦ (s', some reason)
        | none ↦ run_observers old new os s'
      ]

  unfoldable pub run_callbacks : C → List (C → S → S) → S → S
  run_callbacks new [] s = s
  run_callbacks new (f ∷ fs) s = run_callbacks new fs (f new s)

  -- `NewReloader`, and the setters, which append.
  unfoldable pub new_reloader : C → S → Reloader C S
  new_reloader initial components = record {
    current = initial;
    components = components;
    observers = [];
    callbacks = [];
    rollbacks = none;
  }

  unfoldable pub register_observer : Observer C S → Reloader C S → Reloader C S
  register_observer o r = record r { observers = r.observers ++ o ∷ [] }

  -- With a recorder that has counted none.
  unfoldable pub set_rollback_recorder : Reloader C S → Reloader C S
  set_rollback_recorder r = record r { rollbacks = some [] }

  unfoldable pub add_callback : (C → S → S) → Reloader C S → Reloader C S
  add_callback f r = record r { callbacks = r.callbacks ++ f ∷ [] }

  abbrev ask : (old new : C) → Observer C S → S × Option Reason → S × Option Reason
  ask old new o (s, none) = run_observers old new (o ∷ []) s
  ask old new o (s, some reason) = (s, some reason)

  -- An observer that is registered is asked last, and only if the others accept.
  register_observer-last :
      (old new : C) (o : Observer C S) (os : List (Observer C S)) (s : S)
      → run_observers old new (os ++ o ∷ []) s ≡ ask old new o (run_observers old new os s)
  unfolding run_observers
  register_observer-last old new o [] s = refl
  register_observer-last old new o (p ∷ os) s =
      elim (Option-cases (verdict_reason (p old new s).1)) [
        | inr (reason, e) ↦ rw (run_observers, e)
        | inl e ↦
            let more : (qs : List (Observer C S))
                → run_observers old new (p ∷ qs) s ≡ run_observers old new qs (p old new s).0 =
              λ qs. rw (run_observers, e) in
            more (os ++ o ∷ [])
            ∙ register_observer-last old new o os (p old new s).0
            ∙ ap (ask old new o) (sym (more os))
      ]

  -- The first lock of a reload: the new configuration is current, and the old one is remembered.
  unfoldable pub swap_in : C → Reloader C S → Reloader C S × C
  swap_in new r = (record r { current = new }, r.current)

  unfoldable pub roll_back : (old : C) → Reason → Reloader C S → Reloader C S
  roll_back old reason r = record r { current = old; rollbacks = inc_rollback reason r.rollbacks }

  -- What follows the first lock.
  unfoldable pub settle : (old new : C) → Reloader C S → Reloader C S × Bool
  settle old new r =
      let (s, failure) = run_observers old new r.observers r.components in
      elim failure [
        | some reason ↦ (roll_back old reason (record r { components = s }), false)
        | none ↦ (record r { components = run_callbacks new r.callbacks s }, true)
      ]

  -- `loaded` is what `Load` makes of the file, if it accepts it.
  unfoldable pub reload : (loaded : Option C) → Reloader C S → Reloader C S × Bool
  reload none r = (r, false)
  reload (some new) r = let (r', old) = swap_in new r in settle old new r'

  -- A reload that succeeds has the new configuration current and counts no rollback.
  IsSettled : C → Reloader C S → Reloader C S × Bool → Type 0
  IsSettled old r (r', true) = (r'.current ≡ r.current) × (r'.rollbacks ≡ r.rollbacks)
  IsSettled old r (r', false) =
      (r'.current ≡ old) × ((reason : Reason) × (r'.rollbacks ≡ inc_rollback reason r.rollbacks))

  settle-IsSettled : (old new : C) (r : Reloader C S) → IsSettled old r (settle old new r)
  unfolding settle roll_back IsSettled
  settle-IsSettled old new r =
      elim (Option-cases (run_observers old new r.observers r.components).1) [
        | inl e ↦ rw (e, settle) (refl, refl)
        | inr (reason, e) ↦ rw (e, settle) (refl, (reason, refl))
      ]

  settled :
      (old : C) (r : Reloader C S) (o : Reloader C S × Bool)
      → IsSettled old r o
      → (o.1 ≡ true → (o.0.current ≡ r.current) × (o.0.rollbacks ≡ r.rollbacks))
        × (o.1 ≡ false
            → (o.0.current ≡ old)
              × ((reason : Reason) × (o.0.rollbacks ≡ inc_rollback reason r.rollbacks)))
  unfolding IsSettled
  settled old r (r', true) h = (λ e. h, λ e. cc)
  settled old r (r', false) h = (λ e. cc, λ e. h)

  -- Of a reload that no other reload overlaps: a file that does not load changes nothing. With one that
  -- does, the new configuration is current if the answer is true, with no rollback counted; if it is
  -- false the old one is current again, and the recorder, if there is one, has counted one rollback.
  pub reload-current :
      (loaded : Option C) (r : Reloader C S)
      → (loaded ≡ none → reload loaded r ≡ (r, false))
        × ((new : C)
            → loaded ≡ some new
            → ((reload loaded r).1 ≡ true
                → ((reload loaded r).0.current ≡ new)
                  × ((reload loaded r).0.rollbacks ≡ r.rollbacks))
              × ((reload loaded r).1 ≡ false
                  → ((reload loaded r).0.current ≡ r.current)
                    × ((reason : Reason) × ((reload loaded r).0.rollbacks
                          ≡ (elim r.rollbacks [ none ↦ none | some rs ↦ some (reason ∷ rs) ])))))
  unfolding reload swap_in inc_rollback
  reload-current none r = (λ e. refl, λ new e. cc)
  reload-current (some c) r = (
    λ e. cc,
    λ new e.
        let (good, bad) =
          settled r.current (record r { current = c })
            (settle r.current c (record r { current = c }))
            (settle-IsSettled r.current c (record r { current = c })) in
        (λ t. let (k, l) = good t in (k ∙ some-injective c new e, l), bad),
  )

  -- Two reloads that overlap: one has swapped its configuration in when another begins and succeeds,
  -- and is then refused by an observer. The configuration from before both is current again, though
  -- the other has reported success and the components stay as it left them.
  overlap_loses_update :
      (r other : Reloader C S) (first second : C) (reason : Reason)
      → reload (some second) (swap_in first r).0 ≡ (other, true)
      → (other.current ≡ second)
        × ((roll_back (swap_in first r).1 reason other).current ≡ r.current)
        × ((roll_back (swap_in first r).1 reason other).components ≡ other.components)
  unfolding swap_in roll_back
  overlap_loses_update r other first second reason h =
      let (_, cases) = reload-current (some second) (swap_in first r).0 in
      let (now, _) = (cases second refl).0 (ap (λ o. o.1) h) in
      (sym (ap (λ (o : Reloader C S × Bool). o.0.current) h) ∙ now, refl, refl)
