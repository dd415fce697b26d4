-- ===== src/Envelope/Dampener/Exact.antt =====
-- What the dampener defers and rejects, and which proposals an applied one concerns.
use gateway_core.Base.{◌≡◌, sym, ◌∙◌, ◌↔◌, false, ◌&&◌, Option, none, some, arith}
use gateway_core.Base.Int.{ℤ, pos, negsuc, ◌<ℤ◌, ◌≤ℤ◌, ◌+ℤ◌, ◌-ℤ◌, wrap, sub_time, max_int64}
use gateway_core.Base.Float.{Float}
use gateway_core.Base.Bytes.{same_bytes}
use gateway_core.Envelope.Proposal.{Proposal, same_kind}
use gateway_core.Envelope.Dampener.{
  DampenerRegistry, DampenerOutcome, DampenerState, cooldown_active, cooldown_for, check_hysteresis,
  evaluate_since, evaluate_dampener, record_applied,
}

abbrev pub IsCooling : Option DampenerOutcome → Type 0
IsCooling none = ⊥
IsCooling (some o) = o.code ≡ cooldown_active

-- Of an elapsed time that neither ends: how long until the cooldown has passed.
remaining_exact :
    (now applied c : ℤ)
    → applied ≤ℤ now
    → pos 0 <ℤ c
    → c ≤ℤ max_int64
    → sub_time now applied <ℤ c
    → now +ℤ wrap (c -ℤ sub_time now applied) ≡ applied +ℤ c
unfolding sub_time wrap ◌-ℤ◌ ◌+ℤ◌
remaining_exact now applied (negsuc c) le c0 c1 h = absurd (omega arith)
remaining_exact (pos a) (pos b) (pos c) le c0 c1 h = ground arith
remaining_exact (pos a) (negsuc b) (pos c) le c0 c1 h = ground arith
remaining_exact (negsuc a) (pos b) (pos c) le c0 c1 h = absurd (omega arith)
remaining_exact (negsuc a) (negsuc b) (pos c) le c0 c1 h = ground arith

elapsed_before :
    (now applied c : ℤ)
    → applied ≤ℤ now
    → pos 0 <ℤ c
    → c ≤ℤ max_int64
    → (sub_time now applied <ℤ c) ↔ (now <ℤ applied +ℤ c)
unfolding sub_time ◌-ℤ◌ ◌+ℤ◌
elapsed_before (pos a) (pos b) c le c0 c1 = ground arith
elapsed_before (pos a) (negsuc b) c le c0 c1 = ground arith
elapsed_before (negsuc a) (pos b) c le c0 c1 = absurd (omega arith)
elapsed_before (negsuc a) (negsuc b) c le c0 c1 = ground arith

module _ {F : Type 0} ⦃fl : Float F⦄ where
  check_hysteresis-IsCooling :
      (r : DampenerRegistry F) (p : Proposal F) (prev : DampenerState F)
      → ¬ IsCooling (check_hysteresis r p prev)
  unfolding check_hysteresis
  check_hysteresis-IsCooling r p prev h = ground arith

  IsCooling-evaluate_since :
      (r : DampenerRegistry F) (p : Proposal F) (now c : ℤ) (prev : DampenerState F)
      → prev.applied_at ≤ℤ now
      → pos 0 <ℤ c
      → c ≤ℤ max_int64
      → IsCooling (evaluate_since r p now c prev) ↔ (now <ℤ prev.applied_at +ℤ c)
  unfolding evaluate_since
  IsCooling-evaluate_since r p now c prev le c0 c1 =
      let e = elapsed_before now prev.applied_at c le c0 c1 in
      let n = check_hysteresis-IsCooling r p prev in ground arith

  evaluate_dampener-some :
      (r : DampenerRegistry F) (p : Proposal F) (now c : ℤ) (prev : DampenerState F)
      → cooldown_for r p.kind ≡ some c
      → r.state p.kind p.target ≡ some prev
      → evaluate_dampener r p now ≡ evaluate_since r p now c prev
  unfolding evaluate_dampener
  evaluate_dampener-some r p now c prev ec ep = ground arith

  evaluate_since-retry_after :
      (r : DampenerRegistry F) (p : Proposal F) (now c : ℤ) (prev : DampenerState F)
      (o : DampenerOutcome)
      → evaluate_since r p now c prev ≡ some o
      → o.code ≡ cooldown_active
      → (sub_time now prev.applied_at <ℤ c)
        × (o.retry_after ≡ wrap (c -ℤ sub_time now prev.applied_at))
  unfolding evaluate_since
  evaluate_since-retry_after r p now c prev o e code =
      let n = check_hysteresis-IsCooling r p prev in ground arith

  -- The retry time of a deferral is exact: where a proposal is deferred at `now` by a cooldown `c`,
  -- the same proposal is deferred by the cooldown at a time `t` from the last application on exactly
  -- if `t` is before `now` plus the retry time. The cooldown is a positive int64 and the clock has
  -- not fallen behind the last application.
  pub retry_after_exact :
      (r : DampenerRegistry F) (p : Proposal F) (now t c : ℤ) (prev : DampenerState F)
      (o : DampenerOutcome)
      → cooldown_for r p.kind ≡ some c
      → pos 0 <ℤ c
      → c ≤ℤ max_int64
      → r.state p.kind p.target ≡ some prev
      → prev.applied_at ≤ℤ now
      → prev.applied_at ≤ℤ t
      → evaluate_dampener r p now ≡ some o
      → o.code ≡ cooldown_active
      → IsCooling (evaluate_dampener r p t) ↔ (t <ℤ now +ℤ o.retry_after)
  retry_after_exact r p now t c prev o ec c0 c1 ep le lt eo code =
      let at_now = evaluate_dampener-some r p now c prev ec ep in
      let at_t = evaluate_dampener-some r p t c prev ec ep in
      let cooling = IsCooling-evaluate_since r p t c prev lt c0 c1 in
      let (h, retry) = evaluate_since-retry_after r p now c prev o (sym at_now ∙ eo) code in
      let exact = remaining_exact now prev.applied_at c le c0 c1 h in
      rw (at_t, retry, exact) cooling

  -- What was applied to one kind and target leaves the proposals to every other as they were.
  pub evaluate_dampener-record_applied :
      (r : DampenerRegistry F) (p q : Proposal F) (at now : ℤ)
      → (same_kind p.kind q.kind && same_bytes p.target q.target) ≡ false
      → evaluate_dampener (record_applied r q at) p now ≡ evaluate_dampener r p now
  unfolding evaluate_dampener record_applied evaluate_since cooldown_for check_hysteresis
  evaluate_dampener-record_applied r p q at now h = ground arith
