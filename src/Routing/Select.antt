-- ===== src/Routing/Select.antt =====
-- `matchRoute` of internal/proxy/proxy.go: the first match of the routes as `New` sorts them.
use mathlib.Core.List.{Mem, mem-cons, mem-cons_self, mem-cons_of_mem, not-mem-nil}
use mathlib.Core.Logic.Or
use mathlib.Core.Option.{some-injective}
use mathlib.Core.HLevel.{⊥_prop}
use native.Mathlib.Bridge.{le_prop}
use gateway_core.Base.{
  ℕ, ◌≡◌, ◌≢◌, inl, inr, sym, ap, ◌∙◌, subst, ◌≤◌, Bool, true, false, List, [], ◌∷◌, arith,
  if◌then◌else◌, length, Option, none, some, All, Bool-cases,
}
use gateway_core.Base.Bytes.{Bytes}
use gateway_core.Config.Types.{RouteConfig}
use gateway_core.Routing.Match.{matches_prefix}

module _ {F : Type 0} where
  abbrev pub matches : Bytes → RouteConfig F → Bool
  matches path r = matches_prefix path r.path_prefix

  abbrev pub prefix_length : RouteConfig F → ℕ
  prefix_length r = length r.path_prefix

  unfoldable pub match_route : Bytes → List (RouteConfig F) → Option (RouteConfig F)
  match_route path [] = none
  match_route path (r ∷ rs) = if matches path r then some r else match_route path rs

  -- Longest prefixes first, as `sort.Slice` leaves the routes.
  abbrev pub IsDescending : List (RouteConfig F) → Type 0
  IsDescending [] = Unit
  IsDescending (r ∷ rs) = All (λ q. prefix_length q ≤ prefix_length r) rs × IsDescending rs

  All-mem-le :
      (n : ℕ) (rs : List (RouteConfig F)) {q : RouteConfig F}
      → All (λ r. prefix_length r ≤ n) rs
      → Mem q rs
      → prefix_length q ≤ n
  All-mem-le n [] h m = absurd (not-mem-nil m)
  All-mem-le n (r ∷ rs) h m = Or.elim le_prop (mem-cons.0 m) (λ e. rw e h.0) (All-mem-le n rs h.1)

  -- A route of the list that matches, and no route of the list with a longer prefix does.
  abbrev pub IsLongest : Bytes → List (RouteConfig F) → RouteConfig F → Type 0
  IsLongest path rs r =
      Mem r rs
      × (matches path r ≡ true)
      × ((q : RouteConfig F) → Mem q rs → matches path q ≡ true → prefix_length q ≤ prefix_length r)

  -- The first match among sorted routes is a longest one.
  pub match_route-some :
      (path : Bytes) (rs : List (RouteConfig F)) (r : RouteConfig F)
      → IsDescending rs
      → match_route path rs ≡ some r
      → IsLongest path rs r
  unfolding match_route
  match_route-some path [] r d e = cc
  match_route-some path (x ∷ rs) r d e = elim (Bool-cases (matches path x)) [
    | inl t ↦ subst (IsLongest path (x ∷ rs)) (some-injective x r (rw (t, match_route) at e)) (
      mem-cons_self,
      t,
      λ q m h. Or.elim le_prop (mem-cons.0 m) (λ same. rw same (omega arith)) (All-mem-le _ rs d.0),
    )
    | inr f ↦
        let (mem, hit, longest) = match_route-some path rs r d.1 (rw (f, match_route) at e) in
        (
          mem-cons_of_mem x mem,
          hit,
          λ q m h.
              Or.elim le_prop (mem-cons.0 m) (λ same. absurd (other f same h)) (λ k. longest q k h),
        )
  ]
    where
      other : {q : RouteConfig F} → matches path x ≡ false → q ≡ x → matches path q ≡ true → ⊥
      other f same h = cc (sym f ∙ sym (ap (matches path) same) ∙ h)

  pub match_route-none :
      (path : Bytes) (rs : List (RouteConfig F))
      → match_route path rs ≡ none
      → (q : RouteConfig F) → Mem q rs
      → matches path q ≢ true
  unfolding match_route
  match_route-none path [] e q m h = not-mem-nil m
  match_route-none path (x ∷ rs) e q m h = elim (Bool-cases (matches path x)) [
    | inl t ↦ cc (rw (t, match_route) at e)
    | inr f ↦
        Or.elim ⊥_prop (mem-cons.0 m) (λ same. cc (sym f ∙ sym (ap (matches path) same) ∙ h))
          (λ k. match_route-none path rs (rw (f, match_route) at e) q k h)
  ]
