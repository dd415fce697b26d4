-- ===== src/CircuitBreaker/Recovery.antt =====
-- The life of a tripped breaker: it rejects until its timeout, then probes until it closes.
use gateway_core.Base.{
  ℕ, suc, ◌+◌, ◌-◌, ◌<◌, ◌≡◌, refl, ap, ◌∙◌, true, false, List, [], ◌∷◌, ◌++◌, arith, All,
  All-append,
}
use gateway_core.Base.Float.{Float}
use gateway_core.CircuitBreaker.State.{closed, open_, half_open}
use gateway_core.CircuitBreaker.FailureRate.{FailureRate, allow, record_success, record_failure}
use gateway_core.CircuitBreaker.Window.{recent, IsValid, read_ring_empty}
use gateway_core.CircuitBreaker.Spec.{Event, asks, succeeds, fails, resets, retunes, reconfigures}
use gateway_core.CircuitBreaker.Refinement.{step, run}

-- A call by a request, made within `timeout` after `since` where it asks for leave.
abbrev pub IsEarly : {F : Type 0} → (since timeout : ℕ) → Event F → Type 0
IsEarly since timeout (asks now) = now - since < timeout
IsEarly since timeout (succeeds now) = Unit
IsEarly since timeout (fails now) = Unit
IsEarly since timeout _ = ⊥

-- A call by a request that goes well.
abbrev pub IsProbe : {F : Type 0} → Event F → Type 0
IsProbe (asks now) = Unit
IsProbe (succeeds now) = Unit
IsProbe _ = ⊥

abbrev pub successes : {F : Type 0} → List (Event F) → ℕ
successes [] = 0
successes (succeeds now ∷ es) = suc (successes es)
successes (_ ∷ es) = successes es

successes-cons :
    {F : Type 0} (e : Event F) (es : List (Event F))
    → successes (e ∷ es) ≡ successes (e ∷ []) + successes es
successes-cons (succeeds now) es = omega arith
successes-cons _ es = omega arith

module _ {F : Type 0} ⦃fl : Float F⦄ where
  open_rejects_step :
      (e : Event F) (b : FailureRate F)
      → b.state ≡ open_
      → IsEarly b.opened_at b.reset_timeout e
      → ((step e b).0 ≡ b) × All (λ a. a ≡ false) (step e b).1
  unfolding step allow record_success record_failure
  open_rejects_step (asks now) b o h = (ground arith, ground arith)
  open_rejects_step (succeeds now) b o h = (ground arith, tt)
  open_rejects_step (fails now) b o h = (ground arith, tt)
  open_rejects_step (resets now) b o h = elim h [ ]
  open_rejects_step (retunes t) b o h = elim h [ ]
  open_rejects_step (reconfigures cfg) b o h = elim h [ ]

  -- Until `resetTimeout` has passed since it opened, an open breaker rejects every request,
  -- whatever outcomes still arrive, and nothing of it changes.
  pub open_rejects :
      (es : List (Event F)) (b : FailureRate F)
      → b.state ≡ open_
      → All (IsEarly b.opened_at b.reset_timeout) es
      → ((run es b).0 ≡ b) × All (λ a. a ≡ false) (run es b).1
  unfolding run
  open_rejects [] b o h = (refl, tt)
  open_rejects (e ∷ es) b o (h, hs) =
      let (same, answers) = open_rejects_step e b o h in
      let (same', answers') = open_rejects es b o hs in
      (rw same same', All-append _ (step e b).1 _ answers (rw same answers'))

  probe_step :
      (e : Event F) (b : FailureRate F)
      → b.state ≡ half_open
      → IsProbe e
      → b.half_open_success + successes (e ∷ []) < b.half_open_max
      → ((step e b).0 ≡ record b { half_open_success = b.half_open_success + successes (e ∷ []) })
        × All (λ a. a ≡ true) (step e b).1
  unfolding step allow record_success
  probe_step (asks now) b o p h = (ground arith, ground arith)
  probe_step (succeeds now) b o p h = (ground arith, tt)
  probe_step (fails now) b o p h = elim p [ ]
  probe_step (resets now) b o p h = elim p [ ]
  probe_step (retunes t) b o p h = elim p [ ]
  probe_step (reconfigures cfg) b o p h = elim p [ ]

  -- Successful probes are counted, and every request is let through, as long as fewer than
  -- `halfOpenMax` have succeeded.
  probing_run :
      (es : List (Event F)) (b : FailureRate F)
      → b.state ≡ half_open
      → All IsProbe es
      → b.half_open_success + successes es < b.half_open_max
      → ((run es b).0 ≡ record b { half_open_success = b.half_open_success + successes es })
        × All (λ a. a ≡ true) (run es b).1
  unfolding run
  probing_run [] b o p h = (ground arith, tt)
  probing_run (e ∷ es) b o (p, ps) h =
      let (same, answers) = probe_step e b o p (omega (arith, successes-cons e es)) in
      let (same', answers') =
        probing_run es (record b { half_open_success = b.half_open_success + successes (e ∷ []) }) o
          ps (omega (arith, successes-cons e es)) in
      (
        rw same (
            same'
            ∙ ap (λ n. record b { half_open_success = n }) (omega (arith, successes-cons e es))),
        All-append _ (step e b).1 _ answers (rw same answers'),
      )

  run-append :
      (es ds : List (Event F)) (b : FailureRate F) → (run (es ++ ds) b).0 ≡ (run ds (run es b).0).0
  unfolding run
  run-append [] ds b = refl
  run-append (e ∷ es) ds b = run-append es ds (step e b).0

  -- The success that completes `halfOpenMax` probes closes the breaker with an empty window. Until
  -- then every request is let through, and a failure opens the breaker anew, from its own time on.
  pub probes_decide :
      (es : List (Event F)) (now : ℕ) (b : FailureRate F)
      → IsValid b
      → b.state ≡ half_open
      → All IsProbe es
      → b.half_open_success + successes es + 1 ≡ b.half_open_max
      → All (λ a. a ≡ true) (run es b).1
        × ((run (es ++ succeeds now ∷ []) b).0.state ≡ closed)
        × (recent (run (es ++ succeeds now ∷ []) b).0 ≡ [])
        × ((run (es ++ fails now ∷ []) b).0.state ≡ open_)
        × ((run (es ++ fails now ∷ []) b).0.opened_at ≡ now)
  probes_decide es now b v o p h =
      let (same, answers) = probing_run es b o p (omega arith) in
      (
        answers,
        rw (run-append es (succeeds now ∷ []) b, same)
            (unfold run step record_success in ground arith),
        rw (run-append es (succeeds now ∷ []) b, same)
            (unfold run step record_success recent in
              ground (arith, read_ring_empty b.window b.window_size (omega (arith, v.within)))),
        rw (run-append es (fails now ∷ []) b, same)
            (unfold run step record_failure in ground arith),
        rw (run-append es (fails now ∷ []) b, same)
            (unfold run step record_failure in ground arith),
      )
