-- ===== src/Envelope/Tests.antt =====
-- Runs of the envelope at concrete inputs, and each of its theorems at one. Floats are thousandths.
use gateway_core.Base.{ℕ, ◌≡◌, refl, ◌↔◌, true, [], arith, none, some}
use gateway_core.Base.Float.{milli}
use gateway_core.Base.Int.{pos, ◌<ℤ◌, ◌+ℤ◌, sub_time, wrap, ◌-ℤ◌}
use gateway_core.Base.Bytes.{bytes}
use gateway_core.Envelope.Proposal.{Proposal, rate_limit, go_int}
use gateway_core.Envelope.Dampener.{
  DampenerRegistry, DampenerState, evaluate_dampener, evaluate_since, cooldown_outcome,
  cooldown_for,
}
use gateway_core.Envelope.Dampener.Exact.{IsCooling, retry_after_exact}
use gateway_core.Envelope.Shadow.{
  ShadowRegistry, ShadowVerdict, gives, set_scorer, evaluate_shadow, default_slo_scorer,
}
use gateway_core.Envelope.Shadow.Exact.{evaluate_shadow-default_slo_scorer, IsTolerated}

abbrev raise_limit : Proposal ℕ
raise_limit = record {
  kind = rate_limit;
  target = bytes "/api";
  value = go_int (pos 50);
  agent = bytes "tuner";
  reason = [];
  submitted_at = pos 0;
}

-- The limit was set at 100, and rests for 30.
abbrev resting : DampenerRegistry ℕ
resting = record {
  rate_limit_dampener = some (record { cooldown = pos 30; hysteresis = pos 5 });
  route_weight_dampener = none;
  cache_ttl_dampener = none;
  state = λ k t. some (record { applied_value = go_int (pos 40); applied_at = pos 100 });
}

abbrev set_at_100 : DampenerState ℕ
set_at_100 = record { applied_value = go_int (pos 40); applied_at = pos 100 }

deferred_at_110 :
    evaluate_dampener ⦃fl = milli⦄ resting raise_limit (pos 110)
    ≡ some (cooldown_outcome ⦃fl = milli⦄ raise_limit (pos 20))
unfolding evaluate_dampener cooldown_for evaluate_since sub_time wrap ◌-ℤ◌
deferred_at_110 = refl

rests_30 : cooldown_for resting rate_limit ≡ some (pos 30)
unfolding cooldown_for
rests_30 = refl

retry_after_exact_example :
    IsCooling (evaluate_dampener ⦃fl = milli⦄ resting raise_limit (pos 129))
    ↔ (pos 129 <ℤ pos 110 +ℤ pos 20)
retry_after_exact_example =
    retry_after_exact ⦃fl = milli⦄ resting raise_limit (pos 110) (pos 129) (pos 30) set_at_100
      (cooldown_outcome ⦃fl = milli⦄ raise_limit (pos 20)) rests_30 (omega arith) (omega arith) refl
      (omega arith) (omega arith) deferred_at_110 refl

-- The P99 latency rose from 100 to 140.
abbrev slower : ShadowVerdict ℕ
slower = record {
  samples_replayed = pos 1000;
  score = 0;
  regressions = [];
  latency = record { p50 = pos 20; p95 = pos 90; p99 = pos 140 };
  error_rate = 10;
  baseline = record {
    latency = record { p50 = pos 20; p95 = pos 80; p99 = pos 100 };
    error_rate = 10;
  };
  evaluated_at = pos 0;
}

abbrev shadowing : ShadowRegistry ℕ
shadowing = record {
  sim = λ t p. gives (some slower);
  scorer = none;
  timeout = pos 1000;
  enabled = λ k. true;
}

evaluate_shadow-default_slo_scorer_example :
    (evaluate_shadow (set_scorer shadowing (default_slo_scorer ⦃fl = milli⦄ (pos 50) 5)) raise_limit
      ≡ none)
    ↔ ((slower.regressions ≡ []) × IsTolerated ⦃fl = milli⦄ (pos 50) 5 slower)
evaluate_shadow-default_slo_scorer_example =
    evaluate_shadow-default_slo_scorer ⦃fl = milli⦄ shadowing raise_limit slower (pos 50) 5 refl
      (λ t. refl) (omega arith, omega arith) (omega arith, omega arith)
