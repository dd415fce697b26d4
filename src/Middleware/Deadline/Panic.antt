-- ===== src/Middleware/Deadline/Panic.antt =====
-- `Deadline` around a handler that panics.
use gateway_core.Base.{
  ◌≡◌, ◌≢◌, ◌⊎◌, inl, inr, refl, sym, ◌∙◌, Bool-cases, Bool, true, false, List, [], ◌∷◌,
}
use gateway_core.Http.{Call, client_call}
use gateway_core.Middleware.Deadline.{
  claims, Progress, running, returned, crashed, Race, Step, enters, handles, claims_write,
  comes_late, answers, returns, panics, Reaches, here, next, Reachable,
}

Step-faulty : (timeout : List Call) (s t : Race) → Step timeout s t → t.faulty ≡ s.faulty
Step-faulty timeout s t (enters k ks o e c n f) = rw f refl
Step-faulty timeout s t (handles k ks o e n f) = rw f refl
Step-faulty timeout s t (claims_write o a b f) = rw f refl
Step-faulty timeout s t (comes_late o a b f) = rw f refl
Step-faulty timeout s t (answers k ks o e f) = rw f refl
Step-faulty timeout s t (returns o e a b f) = rw f refl
Step-faulty timeout s t (panics o e a f) = rw f refl

Reachable-faulty :
    (timeout handler : List Call) (faulty : Bool) (s : Race)
    → Reachable timeout handler faulty s
    → s.faulty ≡ faulty
Reachable-faulty timeout handler faulty s here = refl
Reachable-faulty timeout handler faulty s (next r st) =
    Step-faulty timeout _ s st ∙ Reachable-faulty timeout handler faulty _ r

-- A step of a handler that panics does not end in a return.
Step-unreturned :
    (timeout : List Call) (s t : Race) → Step timeout s t → s.faulty ≡ true → t.progress ≢ returned
Step-unreturned timeout s t (enters k ks o e c n f) h = rw f (λ q. cc)
Step-unreturned timeout s t (handles k ks o e n f) h = rw f (λ q. cc)
Step-unreturned timeout s t (claims_write o a b f) h = rw f (λ q. cc)
Step-unreturned timeout s t (comes_late o a b f) h = rw f (λ q. cc)
Step-unreturned timeout s t (answers k ks o e f) h = rw f (λ q. cc)
Step-unreturned timeout s t (returns o e a b f) h = cc
Step-unreturned timeout s t (panics o e a f) h = rw f (λ q. cc)

prepend :
    {timeout : List Call} {s t u : Race}
    → Step timeout s t
    → Reaches timeout t u
    → Reaches timeout s u
prepend st here = next here st
prepend st (next r k) = next (prepend st r) k

-- A handler that has stored a claim has the write behind it still to make.
abbrev IsPoised : Race → Type 0
IsPoised s =
    s.entered ≡ true → (k : Call) × (ks : List Call) × (s.handler ≡ k ∷ ks) × (claims k ≡ true)

Step-IsPoised : (timeout : List Call) (s t : Race) → Step timeout s t → IsPoised s → IsPoised t
Step-IsPoised timeout s t (enters k ks o e c n f) p = rw f (λ h. (k, ks, e, c))
Step-IsPoised timeout s t (handles k ks o e n f) p = rw f (λ h. cc)
Step-IsPoised timeout s t (claims_write o a b f) p = rw f p
Step-IsPoised timeout s t (comes_late o a b f) p = rw f p
Step-IsPoised timeout s t (answers k ks o e f) p = rw f p
Step-IsPoised timeout s t (returns o e a b f) p = rw f p
Step-IsPoised timeout s t (panics o e a f) p = rw f p

Reachable-IsPoised :
    (timeout handler : List Call) (faulty : Bool) (s : Race)
    → Reachable timeout handler faulty s
    → IsPoised s
Reachable-IsPoised timeout handler faulty s here = λ h. cc
Reachable-IsPoised timeout handler faulty s (next r st) =
    Step-IsPoised timeout _ s st (Reachable-IsPoised timeout handler faulty _ r)

-- What is left of a handler that panics, between two of its calls, can be run to the end.
crash_ahead :
    (timeout ks : List Call) (s : Race)
    → s.handler ≡ ks
    → s.faulty ≡ true
    → s.progress ≡ running
    → s.entered ≡ false
    → (t : Race) × Reaches timeout s t × (t.progress ≡ crashed)
crash_ahead timeout [] s e h o n = (_, next here (panics o e h refl), refl)
crash_ahead timeout (k ∷ ks) s e h o n = elim (Bool-cases (claims k)) [
  | inl c ↦
      let held : Race = record s { claimed = true; entered = true } in
      let t : Race = record held {
        client = client_call k s.client;
        entered = false;
        handler = ks;
      } in
      let rest = crash_ahead timeout ks t refl h o refl in
      (
        rest.0,
        prepend (enters k ks o e c n refl) (prepend (handles k ks o e (sym c) refl) rest.1),
        rest.2,
      )
  | inr c ↦
      let t : Race = record s { client = client_call k s.client; entered = false; handler = ks } in
      let rest = crash_ahead timeout ks t refl h o refl in
      (rest.0, prepend (handles k ks o e (n ∙ sym c) refl) rest.1, rest.2)
]

-- The same of one that may be behind a claim.
crash_poised :
    (timeout : List Call) (s : Race)
    → IsPoised s
    → s.faulty ≡ true
    → s.progress ≡ running
    → (t : Race) × Reaches timeout s t × (t.progress ≡ crashed)
crash_poised timeout s p h o = elim (Bool-cases s.entered) [
  | inr n ↦ crash_ahead timeout s.handler s refl h o n
  | inl n ↦
      let (k, ks, e, c) = p n in
      let t : Race = record s { client = client_call k s.client; entered = false; handler = ks } in
      let rest = crash_ahead timeout ks t refl h o refl in
      (rest.0, prepend (handles k ks o e (n ∙ sym c) refl) rest.1, rest.2)
]

Reachable-unreturned :
    (timeout handler : List Call) (s : Race)
    → Reachable timeout handler true s
    → s.progress ≢ returned
Reachable-unreturned timeout handler s here = λ q. cc
Reachable-unreturned timeout handler s (next r st) =
    Step-unreturned timeout _ s st (Reachable-faulty timeout handler true _ r)

Progress-cases : (p : Progress) → (p ≡ running) ⊎ (p ≡ returned) ⊎ (p ≡ crashed)
Progress-cases running = inl refl
Progress-cases returned = inr (inl refl)
Progress-cases crashed = inr (inr refl)

-- A handler that panics brings the process down: however it and the deadline interleave, `Deadline` does
-- not return, and from every state on the way the process can end in the panic.
pub deadline_panics :
    (timeout handler : List Call) (s : Race)
    → Reachable timeout handler true s
    → (s.progress ≢ returned) × ((t : Race) × Reaches timeout s t × (t.progress ≡ crashed))
deadline_panics timeout handler s r =
    let never = Reachable-unreturned timeout handler s r in
    (
      never,
      elim (Progress-cases s.progress) [
        | inl e ↦
            crash_poised timeout s (Reachable-IsPoised timeout handler true s r)
              (Reachable-faulty timeout handler true s r) e
        | inr (inl e) ↦ absurd (never e)
        | inr (inr e) ↦ (s, here, e)
      ],
    )
