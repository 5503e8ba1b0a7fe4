-- ===== src/Trading/Risk/Rate.antt =====
-- trading/risk_manager.go: the limit of orders per minute.
use distributed_framework.Trading.Float.{Float}
use distributed_framework.Trading.Messages.{Signal, RiskResult}
use distributed_framework.Trading.Risk.{
  RiskManager, Reasons, recent, clean_old_orders, check_size, check_risk, reject, approve,
}
use distributed_framework.Common.{
  ℕ, ◌≤◌, ◌≡◌, refl, List, [], ◌∷◌, ◌++◌, arith, length, nat_keys, string_keys, if◌then◌else◌, sym,
  ap, ◌∙◌, append-nil, append_assoc, length-append, ◌+◌, ltb,
}

-- Filtering again, later, is filtering once.
recent-recent :
    (now now' : ℕ) (ts : List ℕ) → now ≤ now' → recent now' (recent now ts) ≡ recent now' ts
unfolding recent
recent-recent now now' [] h = refl
recent-recent now now' (t ∷ ts) h = ground (arith, recent-recent now now' ts h)

recent-append : (now : ℕ) (ts us : List ℕ) → recent now (ts ++ us) ≡ recent now ts ++ recent now us
unfolding recent
recent-append now [] us = refl
recent-append now (t ∷ ts) us = ground (arith, recent-append now ts us)

length-recent : (now : ℕ) (ts : List ℕ) → length (recent now ts) ≤ length ts
unfolding recent
length-recent now [] = omega arith
length-recent now (t ∷ ts) = ground (arith, length-recent now ts)

-- How many of the times lie in the minute, in nanoseconds, that ends at `now`.
abbrev pub within_minute : ℕ → List ℕ → ℕ
within_minute now [] = 0
within_minute now (t ∷ ts) = (if ltb now (t + 60000000000) then 1 else 0) + within_minute now ts

within_minute-recent : (now : ℕ) (ts : List ℕ) → within_minute now ts ≡ length (recent now ts)
unfolding recent
within_minute-recent now [] = refl
within_minute-recent now (t ∷ ts) = ground (arith, within_minute-recent now ts)

-- The times at which signals were approved by a run of checks, and the manager after it.
module _ {F : Type 0} (fl : Float F) (texts : Reasons F) where
  abbrev pub run : RiskManager F → List (ℕ × Signal F) → RiskManager F × List ℕ
  run r [] = (r, [])
  run r ((now, s) ∷ checks) =
      let step = check_risk fl texts r now s in
      let rest = run step.0 checks in (rest.0, if step.1.approved then now ∷ rest.1 else rest.1)

  -- Each check's time is that of the one before, or later.
  abbrev pub InOrder : ℕ → List (ℕ × Signal F) → Type 0
  InOrder last [] = Unit
  InOrder last ((now, s) ∷ checks) = (last ≤ now) × InOrder now checks

  abbrev pub last_time : ℕ → List (ℕ × Signal F) → ℕ
  last_time last [] = last
  last_time last ((now, s) ∷ checks) = last_time now checks

  -- What one check does to the times that the manager keeps.
  record Checked (r : RiskManager F) (now : ℕ) (step : RiskManager F × RiskResult F) : Type 0 where
    config : step.0.config ≡ r.config
    bounded :
        length r.order_times ≤ r.config.max_orders_per_min
        → length step.0.order_times ≤ r.config.max_orders_per_min
    kept :
        (later : ℕ)
        → now ≤ later
        → recent later step.0.order_times
          ≡ recent later r.order_times ++ (if step.1.approved then recent later (now ∷ []) else [])

  check_risk_lem :
      (r : RiskManager F) (now : ℕ) (s : Signal F) → Checked r now (check_risk fl texts r now s)
  unfolding check_risk check_size clean_old_orders reject approve
  check_risk_lem r now s = record {
    config = ground arith;
    bounded = λ h. ground (
      arith,
      length-recent now r.order_times,
      length-append (recent now r.order_times) (now ∷ []),
    );
    kept = λ later h. ground (
      arith,
      append-nil (recent later r.order_times),
      recent-recent now later r.order_times h,
      recent-append later (recent now r.order_times) (now ∷ []),
    );
  }

  run_lem :
      (checks : List (ℕ × Signal F)) (r : RiskManager F) (last : ℕ) (now : ℕ)
      → InOrder last checks
      → last_time last checks ≤ now
      → length r.order_times ≤ r.config.max_orders_per_min
      → length (run r checks).0.order_times ≤ r.config.max_orders_per_min
  unfolding recent
  run_lem [] r last now o h b = b
  run_lem ((t, s) ∷ checks) r last now o h b =
      let step = check_risk_lem r t s in
      ground (
        arith,
        run_lem checks (check_risk fl texts r t s).0 t now o.1 h
            (ground (arith, step.bounded b, step.config)),
        step.config,
      )

  later_than_last :
      (checks : List (ℕ × Signal F)) (last : ℕ) → InOrder last checks → last ≤ last_time last checks
  later_than_last [] last o = omega arith
  later_than_last ((t, s) ∷ checks) last o = omega (arith, later_than_last checks t o.1, o.0)

  run-recent :
      (checks : List (ℕ × Signal F)) (r : RiskManager F) (last now : ℕ)
      → InOrder last checks
      → last_time last checks ≤ now
      → recent now (run r checks).0.order_times
        ≡ recent now r.order_times ++ recent now (run r checks).1
  unfolding recent
  run-recent [] r last now o h = sym (append-nil (recent now r.order_times))
  run-recent ((t, s) ∷ checks) r last now o h =
      let step = check_risk_lem r t s in
      run-recent checks (check_risk fl texts r t s).0 t now o.1 h
      ∙ ap (λ l. l ++ recent now (run (check_risk fl texts r t s).0 checks).1)
          (step.kept now (omega (arith, later_than_last checks t o.1, h)))
      ∙ append_assoc (recent now r.order_times)
          (if (check_risk fl texts r t s).1.approved then recent now (t ∷ []) else [])
          (recent now (run (check_risk fl texts r t s).0 checks).1)
      ∙ ap (λ l. recent now r.order_times ++ l) (ground arith)

  -- Whatever signals a risk manager that has approved none yet checks, at times that do not go
  -- back, at most MaxOrdersPerMin of them are approved within any 60 seconds that end at or after
  -- the last check.
  pub rate_limit :
      (r : RiskManager F) (checks : List (ℕ × Signal F)) (now : ℕ)
      → r.order_times ≡ []
      → InOrder 0 checks
      → last_time 0 checks ≤ now
      → within_minute now (run r checks).1 ≤ r.config.max_orders_per_min
  unfolding recent
  rate_limit r checks now empty o h = ground (
    arith,
    within_minute-recent now (run r checks).1,
    run-recent checks r 0 now o h,
    run_lem checks r 0 now o h (ground arith),
    length-recent now (run r checks).0.order_times,
  )
