-- ===== src/Middleware/Deadline.antt =====
-- `Deadline` of internal/middleware/deadline.go: the handler's goroutine and the deadline write to one client.
pub mod Panic
use gateway_core.Base.{
  ℕ, ◌≡◌, ◌≢◌, ◌⊎◌, inl, inr, refl, sym, ◌∙◌, Bool, true, false, ◌||◌, List, [], ◌∷◌, ◌++◌, none,
  some,
}
use gateway_core.Base.Bytes.{Bytes}
use gateway_core.Http.{
  Call, adds_header, sets_header, drops_headers, writes_header, writes, Head, Client, new_client,
  client_call, client_write_header, client_write,
}

-- Whether `Deadline` goes on, has returned, or the process has ended in a panic that nothing recovers.
pub data Progress : Type 0 where
  running returned crashed : Progress

-- The client, whether the write is claimed, whether the handler is between a claim and the write behind
-- it, the calls that the handler has still to make and whether it
-- panics behind them, those that the deadline has, and whether it has passed.
pub record Race : Type 0 where
  pub client : Client
  pub claimed : Bool
  pub entered : Bool
  pub handler : List Call
  pub faulty : Bool
  pub deadline : List Call
  pub fired : Bool
  pub progress : Progress

-- The calls on a `deadlineWriter` that claim the write.
abbrev pub claims : Call → Bool
claims (writes_header code) = true
claims (writes b) = true
claims _ = false

-- One atomic action of either side (a call of the handler that claims the write first stores the claim,
-- and then writes), or the deadline's passing with `timeout` as the calls of its answer.
pub data Step (timeout : List Call) (s : Race) : Race → Type 0 where
  enters :
      {t : Race} (k : Call) (ks : List Call)
      → s.progress ≡ running
      → s.handler ≡ k ∷ ks
      → claims k ≡ true
      → s.entered ≡ false
      → t ≡ record s { claimed = true; entered = true }
      → Step timeout s t
  handles :
      {t : Race} (k : Call) (ks : List Call)
      → s.progress ≡ running
      → s.handler ≡ k ∷ ks
      → s.entered ≡ claims k
      → t ≡ record s { client = client_call k s.client; entered = false; handler = ks }
      → Step timeout s t
  claims_write :
      {t : Race}
      → s.progress ≡ running
      → s.fired ≡ false
      → s.claimed ≡ false
      → t ≡ record s { claimed = true; fired = true; deadline = timeout }
      → Step timeout s t
  comes_late :
      {t : Race}
      → s.progress ≡ running
      → s.fired ≡ false
      → s.claimed ≡ true
      → t ≡ record s { fired = true }
      → Step timeout s t
  answers :
      {t : Race} (k : Call) (ks : List Call)
      → s.progress ≡ running
      → s.deadline ≡ k ∷ ks
      → t ≡ record s { client = client_call k s.client; deadline = ks }
      → Step timeout s t
  -- Both are done, or the deadline has not passed and has nothing to say.
  returns :
      {t : Race}
      → s.progress ≡ running
      → s.handler ≡ []
      → s.faulty ≡ false
      → s.deadline ≡ []
      → t ≡ record s { progress = returned }
      → Step timeout s t
  -- The handler panics in its own goroutine, which has no recover.
  panics :
      {t : Race}
      → s.progress ≡ running
      → s.handler ≡ []
      → s.faulty ≡ true
      → t ≡ record s { progress = crashed }
      → Step timeout s t

pub data Reaches (timeout : List Call) (s : Race) : Race → Type 0 where
  here : Reaches timeout s s
  next : {t u : Race} → Reaches timeout s t → Step timeout t u → Reaches timeout s u

abbrev pub begun : (handler : List Call) → (faulty : Bool) → Race
begun handler faulty = record {
  client = new_client;
  claimed = false;
  entered = false;
  handler = handler;
  faulty = faulty;
  deadline = [];
  fired = false;
  progress = running;
}

abbrev pub Reachable : (timeout handler : List Call) → (faulty : Bool) → Race → Type 0
Reachable timeout handler faulty s = Reaches timeout (begun handler faulty) s

-- While the write is not claimed, nothing has been sent, and the deadline has nothing to say; the
-- handler writes only behind its claim.
record IsQuiet (s : Race) : Type 0 where
  unsent : s.claimed ≡ false → s.client.sent ≡ none
  empty : s.claimed ≡ false → s.client.body ≡ []
  silent : s.claimed ≡ false → s.deadline ≡ []
  held : s.entered ≡ true → s.claimed ≡ true

Step-IsQuiet : (timeout : List Call) (s t : Race) → Step timeout s t → IsQuiet s → IsQuiet t
unfolding client_call
Step-IsQuiet timeout s t (enters k ks o e c n f) q =
    rw f (record { unsent = λ h. cc; empty = λ h. cc; silent = λ h. cc; held = λ h. refl })
Step-IsQuiet timeout s t (handles (adds_header k v) ks o e n f) q =
    rw f (record { unsent = q.unsent; empty = q.empty; silent = q.silent; held = λ h. cc })
Step-IsQuiet timeout s t (handles (sets_header k v) ks o e n f) q =
    rw f (record { unsent = q.unsent; empty = q.empty; silent = q.silent; held = λ h. cc })
Step-IsQuiet timeout s t (handles (drops_headers p) ks o e n f) q =
    rw f (record { unsent = q.unsent; empty = q.empty; silent = q.silent; held = λ h. cc })
Step-IsQuiet timeout s t (handles (writes_header c) ks o e n f) q = rw f (record {
  unsent = λ h. cc (sym (q.held n) ∙ h);
  empty = λ h. cc (sym (q.held n) ∙ h);
  silent = q.silent;
  held = λ h. cc;
})
Step-IsQuiet timeout s t (handles (writes b) ks o e n f) q = rw f (record {
  unsent = λ h. cc (sym (q.held n) ∙ h);
  empty = λ h. cc (sym (q.held n) ∙ h);
  silent = q.silent;
  held = λ h. cc;
})
Step-IsQuiet timeout s t (claims_write o a b f) q =
    rw f (record { unsent = λ h. cc; empty = λ h. cc; silent = λ h. cc; held = λ h. refl })
Step-IsQuiet timeout s t (comes_late o a b f) q =
    rw f (record { unsent = q.unsent; empty = q.empty; silent = q.silent; held = q.held })
Step-IsQuiet timeout s t (answers k ks o e f) q = rw f (record {
  unsent = λ h. cc (sym e ∙ q.silent h);
  empty = λ h. cc (sym e ∙ q.silent h);
  silent = λ h. cc (sym e ∙ q.silent h);
  held = q.held;
})
Step-IsQuiet timeout s t (returns o e a b f) q =
    rw f (record { unsent = q.unsent; empty = q.empty; silent = q.silent; held = q.held })
Step-IsQuiet timeout s t (panics o e a f) q =
    rw f (record { unsent = q.unsent; empty = q.empty; silent = q.silent; held = q.held })

Reachable-IsQuiet :
    (timeout handler : List Call) (faulty : Bool) (s : Race)
    → Reachable timeout handler faulty s
    → IsQuiet s
Reachable-IsQuiet timeout handler faulty s here = record {
  unsent = λ h. refl;
  empty = λ h. refl;
  silent = λ h. refl;
  held = λ h. cc;
}
Reachable-IsQuiet timeout handler faulty s (next r st) =
    Step-IsQuiet timeout _ s st (Reachable-IsQuiet timeout handler faulty _ r)

-- Only its claim gives the deadline calls to make.
Step-claim :
    (timeout : List Call) (s t : Race)
    → Step timeout s t
    → s.deadline ≡ []
    → t.deadline ≢ []
    → (s.fired ≡ false) × (s.claimed ≡ false)
Step-claim timeout s t (enters k ks o e c n f) d a = absurd (a (rw f d))
Step-claim timeout s t (handles k ks o e n f) d a = absurd (a (rw f d))
Step-claim timeout s t (claims_write o x y f) d a = (x, y)
Step-claim timeout s t (comes_late o x y f) d a = absurd (a (rw f d))
Step-claim timeout s t (answers k ks o e f) d a = cc (sym d ∙ e)
Step-claim timeout s t (returns o e x y f) d a = absurd (a (rw f d))
Step-claim timeout s t (panics o e x f) d a = absurd (a (rw f d))

-- However the handler and the deadline interleave, the deadline turns to its answer only while no status
-- and no byte have gone to the client, and only the first time that it has passed.
pub deadline_claims_unsent :
    (timeout handler : List Call) (faulty : Bool) (s t : Race)
    → Reachable timeout handler faulty s
    → Step timeout s t
    → s.deadline ≡ []
    → t.deadline ≢ []
    → (s.fired ≡ false) × (s.client.sent ≡ none) × (s.client.body ≡ [])
deadline_claims_unsent timeout handler faulty s t r st d a =
    let q = Reachable-IsQuiet timeout handler faulty s r in
    let (first, h) = Step-claim timeout s t st d a in (first, q.unsent h, q.empty h)

-- The calls of a whole answer, and of one that only starts behind the deadline's.
abbrev whole : (k v : Bytes) (code : ℕ) (b : Bytes) → List Call
whole k v code b = sets_header k v ∷ writes_header code ∷ writes b ∷ []

-- The deadline's claim does not stop the handler: when a handler that answers with `code` and `b` goes
-- on after the deadline has answered with 504, the client is left with the status 504 and a body in
-- which `b` follows the deadline's.
pub deadline_mixes :
    (k v b504 b : Bytes) (code : ℕ)
    → (s : Race) × Reachable (whole k v 504 b504) (writes_header code ∷ writes b ∷ []) false s
      × (s.handler ≡ [])
      × (s.client.body ≡ b504 ++ b)
      × ((h : Head) × (s.client.sent ≡ some h) × (h.status ≡ 504))
unfolding client_call client_write client_write_header
deadline_mixes k v b504 b code =
    let fired = next here (claims_write refl refl refl refl) in
    let answered =
      next (next (next fired (answers _ _ refl refl refl)) (answers _ _ refl refl refl))
        (answers _ _ refl refl refl) in
    let first =
      next (next answered (enters _ _ refl refl refl refl refl))
        (handles _ _ refl refl refl refl) in
    let late =
      next (next first (enters _ _ refl refl refl refl refl)) (handles _ _ refl refl refl refl) in
    (_, late, refl, refl, (_, refl, refl))
