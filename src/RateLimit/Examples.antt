-- ===== src/RateLimit/Examples.antt =====
-- Runs of the counters and the limiter, and the theorems at concrete inputs.
use ada_claw.Prelude.{
  ℕ, ◌+◌, ◌≤◌, ◌≡◌, refl, List, [], ◌∷◌, arith, ltb, leb, length, filter, lookup, insert, String,
}
use ada_claw.RateLimit.Window
use ada_claw.RateLimit.Window.{try_record}
use ada_claw.RateLimit.Window.Bound.{is_within}
use ada_claw.RateLimit.Limiter
use ada_claw.RateLimit.Limiter.{
  F64, RateLimitConfig, RateLimiter, Readings, minute, check_message, record_cost, daily_cost_usd,
}
use ada_claw.RateLimit.Limiter.Traffic.{Message, passed_of, user_rate_never_exceeds}

-- Millionths of a dollar.
abbrev micros : F64
micros = record { Carrier = ℕ; zero = 0; add = λ a b. a + b; lt = ltb; le = leb }

abbrev config : RateLimitConfig ℕ
config = record {
  per_user = 2;
  per_channel = 3;
  max_actions_per_hour = 0;
  daily_cost_budget_usd = 1_000_000;
}

abbrev start : RateLimiter ℕ
start = Limiter.new micros 1000 config

abbrev at_time : ℕ → Readings
at_time t = record { user = t; user_report = t; channel = t; channel_report = t }

abbrev from : String → ℕ → Message
from u t = record { readings = at_time t; sender_id = u; channel = "cli" }

abbrev burst : List Message
burst = from "ann" 1 ∷ from "ann" 2 ∷ from "ann" 3 ∷ from "bob" 4 ∷ from "bob" 5 ∷ []

ann_is_limited : passed_of "ann" burst start [] ≡ 1 ∷ 2 ∷ []
unfolding passed_of check_message try_record Limiter.new Window.new lookup insert
ann_is_limited = refl

bob_meets_the_channel_limit : passed_of "bob" burst start [] ≡ 4 ∷ []
unfolding passed_of check_message try_record Limiter.new Window.new lookup insert
bob_meets_the_channel_limit = refl

user_rate_never_exceeds_example :
    length (filter (is_within minute 5) (passed_of "ann" burst start [])) ≤ 2
user_rate_never_exceeds_example =
    user_rate_never_exceeds micros 1000 config "ann" burst 5 (omega arith) (omega arith)
      (omega arith)
