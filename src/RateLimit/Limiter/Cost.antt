-- ===== src/RateLimit/Limiter/Cost.antt =====
-- The daily cost budget: what the accumulator of `record_cost` holds, and when a call is refused.
use ada_claw.Prelude.{ℕ, ◌≡◌, refl, false, not, List, [], ◌∷◌, is_ok, arith, ◌==◌, if◌then◌else◌}
use ada_claw.RateLimit.Limiter.{F64, RateLimiter, day_of, record_cost, daily_cost_usd}

module _ (f : F64) where
  open f use {Carrier, zero, add, lt, le}

  -- The calls of `record_cost` at the given readings, whatever each returns.
  unfoldable pub record_costs : List (ℕ × Carrier) → RateLimiter Carrier → RateLimiter Carrier
  record_costs [] s = s
  record_costs ((now, cost) ∷ rest) s = record_costs rest (record_cost f now cost s).0

  abbrev pub sum_from : Carrier → List (ℕ × Carrier) → Carrier
  sum_from total [] = total
  sum_from total ((now, cost) ∷ rest) = sum_from (add total cost) rest

  abbrev pub AllOn : ℕ → List (ℕ × Carrier) → Type 0
  AllOn day [] = Unit
  AllOn day ((now, cost) ∷ rest) = (day_of now ≡ day) × AllOn day rest

  record_cost_same_day :
      (now : ℕ) (cost : Carrier) (s : RateLimiter Carrier)
      → le s.config.daily_cost_budget_usd zero ≡ false
      → day_of now ≡ day_of s.daily_cost.1
      → (record_cost f now cost s).0
        ≡ record s { daily_cost = (add s.daily_cost.0 cost, s.daily_cost.1) }
  unfolding record_cost
  record_cost_same_day now cost s limited same = ground arith

  -- With a positive budget, after any calls within the day of the accumulator the accumulated cost is
  -- the sum of all their costs, those of refused calls included.
  pub daily_cost_is_sum :
      (costs : List (ℕ × Carrier)) (s : RateLimiter Carrier)
      → le s.config.daily_cost_budget_usd zero ≡ false
      → AllOn (day_of s.daily_cost.1) costs
      → daily_cost_usd f (record_costs costs s) ≡ sum_from s.daily_cost.0 costs
  unfolding record_costs
  daily_cost_is_sum [] s limited days = refl
  daily_cost_is_sum ((now, cost) ∷ rest) s limited days =
      let t : RateLimiter Carrier = record s {
        daily_cost = (add s.daily_cost.0 cost, s.daily_cost.1);
      } in
      rw (record_cost_same_day now cost s limited days.0) (daily_cost_is_sum rest t limited days.1)

  -- After those calls, one more is refused exactly when the sum with its cost is over the budget; on
  -- another day its cost alone is compared.
  pub refused_iff_over_budget :
      (costs : List (ℕ × Carrier)) (now : ℕ) (cost : Carrier) (s : RateLimiter Carrier)
      → le s.config.daily_cost_budget_usd zero ≡ false
      → AllOn (day_of s.daily_cost.1) costs
      → is_ok (record_cost f now cost (record_costs costs s)).1
        ≡ not (
            lt s.config.daily_cost_budget_usd (
              add
                (if day_of now == day_of s.daily_cost.1
                  then sum_from s.daily_cost.0 costs
                  else zero)
                cost))
  unfolding record_costs
  refused_iff_over_budget [] now cost s limited days = unfold record_cost in ground arith
  refused_iff_over_budget ((t, c) ∷ rest) now cost s limited days =
      let u : RateLimiter Carrier = record s {
        daily_cost = (add s.daily_cost.0 c, s.daily_cost.1);
      } in
      rw (record_cost_same_day t c s limited days.0)
        (refused_iff_over_budget rest now cost u limited days.1)
