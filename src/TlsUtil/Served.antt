-- ===== src/TlsUtil/Served.antt =====
-- The certificates that a `CertLoader` serves: which they are, and when they are those of the files.
use mathlib.Core.Option.{some-injective}
use mathlib.Core.List.{Mem, mem-cons_self, mem-cons_of_mem}
use gateway_core.Base.{
  ◌⊎◌, inl, inr, ◌≡◌, refl, sym, ap, ◌∙◌, Bool, true, false, ◌&&◌, List, [], ◌∷◌, ◌++◌, Option,
  none, some, All, All-take_out, All-implies, IsSingle, IsSingle-take_out, arith,
}
use gateway_core.TlsUtil.{
  CertLoader, load_cert, new, get_certificate, is_empty, Rotation, Step, writes, replaces,
  reads_event, ignores, runs_out, asks, reads_files, installs, stops, returns, closes, Reachable,
  start, next,
}

-- No reload is due: every event has been read, no timer is pending, no reload has still to read the
-- files, which have not changed unseen, and no two loads have overlapped.
pub record IsSettled {F C : Type 0} (w : Rotation F C) : Type 0 where
  pub watched : w.stopped ≡ false
  pub seen : w.unseen ≡ false
  pub read : w.unread ≡ 0
  pub quiet : w.debounce ≡ false
  pub idle : w.starting ≡ 0
  pub orderly : w.alone ≡ true

module _ {F C : Type 0} (load : F → Option C) where
  -- The certificate is that of the files if they are a pair, or the load of just these is under way.
  abbrev Serves : F → List F → C → Type 0
  Serves f [] c = (d : C) → load f ≡ some d → c ≡ d
  Serves f (g ∷ gs) c = g ≡ f

  record IsValid (w : Rotation F C) : Type 0 where
    served : (f : F) × Mem f w.contents × (load f ≡ some w.loader.cert)
    held : Mem w.files w.contents
    known : All (λ f. Mem f w.contents) w.loading
    single : w.alone ≡ true → IsSingle w.loading
    current : IsSettled w → Serves w.files w.loading w.loader.cert

  load_cert-served :
      (f g : F) (cl : CertLoader C) (c : Option C)
      → load g ≡ some cl.cert
      → load f ≡ c
      → (h : F) × ((h ≡ f) ⊎ (h ≡ g)) × (load h ≡ some (load_cert c cl).0.cert)
  unfolding load_cert
  load_cert-served f g cl (some c) e k = (f, inl refl, k)
  load_cert-served f g cl none e k = (g, inr refl, e)

  load_cert-current :
      (cl : CertLoader C) (c : Option C) (d : C) → c ≡ some d → (load_cert c cl).0.cert ≡ d
  unfolding load_cert
  load_cert-current cl (some c) d e = some-injective c d e
  load_cert-current cl none d e = cc

  older :
      (w : Rotation F C) (f : F)
      → All (λ g. Mem g w.contents) w.loading
      → All (λ g. Mem g (f ∷ w.contents)) w.loading
  older w f = All-implies _ _ w.loading (λ g m. mem-cons_of_mem f m)

  reads-IsSingle :
      (alone : Bool) (fs : List F) (f : F) → (alone && is_empty fs) ≡ true → IsSingle (f ∷ fs)
  reads-IsSingle alone [] f h = tt
  reads-IsSingle true (g ∷ gs) f h = absurd cc
  reads-IsSingle false (g ∷ gs) f h = absurd cc

  taken_current :
      (files f : F) (before after : List F) (c : C)
      → before ≡ []
      → Serves files (before ++ f ∷ after) c
      → f ≡ files
  taken_current files f [] after c e h = h
  taken_current files f (g ∷ gs) after c e h = cc

  installs-IsValid :
      (w : Rotation F C) (before after : List F) (f : F)
      → w.loading ≡ before ++ f ∷ after
      → IsValid w
      → IsValid (record w { loader = (load_cert (load f) w.loader).0; loading = before ++ after })
  installs-IsValid w before after f e v =
      let taken = All-take_out (λ g. Mem g w.contents) before after f (rw (← e) v.known) in
      let rest : w.alone ≡ true → (before ≡ []) × (after ≡ []) =
        λ h. IsSingle-take_out before after f (rw (← e) (v.single h)) in
      let l = load_cert-served f v.served.0 w.loader (load f) v.served.2 refl in
      record {
        served = elim l.1 [
          | inl q ↦ (l.0, rw q taken.0, l.2)
          | inr q ↦ (l.0, rw q v.served.1, l.2)
        ];
        held = v.held;
        known = taken.1;
        single = λ h. let z = rest h in rw (z.0, z.1) tt;
        current = λ s.
            let z = rest s.orderly in
            let settled : IsSettled w = record {
              watched = s.watched;
              seen = s.seen;
              read = s.read;
              quiet = s.quiet;
              idle = s.idle;
              orderly = s.orderly;
            } in
            let now =
              taken_current w.files f before after w.loader.cert z.0
                (rw (← e) (v.current settled)) in
            rw (z.0, z.1) (λ d q. load_cert-current w.loader (load f) d (rw now q));
      }

  Step-IsValid : {v w : Rotation F C} → Step load v w → IsValid v → IsValid w
  Step-IsValid (writes w f) v = record {
    served = (v.served.0, mem-cons_of_mem f v.served.1, v.served.2);
    held = mem-cons_self;
    known = older w f v.known;
    single = v.single;
    current = λ s. absurd (omega arith);
  }
  Step-IsValid (replaces w f) v = record {
    served = (v.served.0, mem-cons_of_mem f v.served.1, v.served.2);
    held = mem-cons_self;
    known = older w f v.known;
    single = v.single;
    current = λ s. absurd cc;
  }
  Step-IsValid (reads_event w n l e) v = record {
    served = v.served;
    held = v.held;
    known = v.known;
    single = v.single;
    current = λ s. absurd cc;
  }
  Step-IsValid (ignores w l) v = v
  Step-IsValid (runs_out w e) v = record {
    served = v.served;
    held = v.held;
    known = v.known;
    single = v.single;
    current = λ s. absurd cc;
  }
  Step-IsValid (asks w) v = record {
    served = v.served;
    held = v.held;
    known = v.known;
    single = v.single;
    current = λ s. absurd cc;
  }
  Step-IsValid (reads_files w n e) v = record {
    served = v.served;
    held = v.held;
    known = (v.held, v.known);
    single = λ h. reads-IsSingle w.alone w.loading w.files h;
    current = λ s. refl;
  }
  Step-IsValid (installs w before after f e) v = installs-IsValid w before after f e v
  Step-IsValid (stops w e) v = record {
    served = v.served;
    held = v.held;
    known = v.known;
    single = v.single;
    current = λ s. absurd cc;
  }
  Step-IsValid (returns w e l) v = record {
    served = v.served;
    held = v.held;
    known = v.known;
    single = v.single;
    current = λ s. absurd cc;
  }
  Step-IsValid (closes w e l) v = record {
    served = v.served;
    held = v.held;
    known = v.known;
    single = v.single;
    current = λ s. absurd cc;
  }

  new-served : (c : Option C) (cl : CertLoader C) → new c true ≡ some cl → c ≡ some cl.cert
  unfolding new
  new-served (some c) cl e = ap (λ l. some l.cert) (some-injective (record { cert = c }) cl e)
  new-served none cl e = cc

  Reachable-IsValid : {w : Rotation F C} → Reachable load w → IsValid w
  Reachable-IsValid (start f cl e) =
      let fresh = new-served (load f) cl e in
      record {
        served = (f, mem-cons_self, fresh);
        held = mem-cons_self;
        known = tt;
        single = λ h. tt;
        current = λ s d q. some-injective cl.cert d (sym fresh ∙ q);
      }
  Reachable-IsValid (next r s) = Step-IsValid s (Reachable-IsValid r)

  settled-Serves :
      (files : F) (fs : List F) (c : C)
      → fs ≡ []
      → Serves files fs c
      → (d : C) → load files ≡ some d
      → c ≡ d
  settled-Serves files [] c e h d q = h d q
  settled-Serves files (f ∷ fs) c e h d q = cc

  -- However the files change and reloads overlap, fail or follow Stop, the certificate that is served is
  -- that of contents which both files have had; and once no reload is due or under way, the loader is not
  -- stopped, no two loads have overlapped and the last change was seen, it is that of the files as they
  -- are, if these are a pair.
  pub rotation_served :
      (w : Rotation F C)
      → Reachable load w
      → ((f : F) × Mem f w.contents × (load f ≡ some (get_certificate w.loader)))
        × (IsSettled w
            → w.loading ≡ []
            → (c : C) → load w.files ≡ some c
            → get_certificate w.loader ≡ c)
  rotation_served w r =
      let v = Reachable-IsValid r in
      (v.served, λ s e c h. settled-Serves w.files w.loading w.loader.cert e (v.current s) c h)
