-- ===== src/RateLimit/Limiter.antt =====
-- `RateLimitConfig` and `RateLimiter` of crates/adaclaw-security/src/ratelimit.rs.
-- Each `Utc::now()` is a reading that the caller passes in. The error keeps the values that the
-- source formats into its message. `f64` is an interface: its carrier and the operations used.
pub mod Laws
pub mod Traffic
pub mod Cost
use mathlib.Core.Option.{get_or}
use ada_claw.Prelude.{
  ℕ, ◌+◌, ◌*◌, ◌/◌, String, Bool, true, false, not, Option, List, [], Result, ok, err, ltb, ◌==◌,
  if◌then◌else◌, StrMap, lookup, insert,
}
use ada_claw.RateLimit.Window
use ada_claw.RateLimit.Window.{WindowCounter, try_record, current_count}

pub record F64 : Type 1 where
  pub Carrier : Type 0
  pub zero : Carrier
  pub add : Carrier → Carrier → Carrier
  pub lt : Carrier → Carrier → Bool
  pub le : Carrier → Carrier → Bool

pub record RateLimitConfig (F : Type 0) : Type 0 where
  pub per_user : ℕ
  pub per_channel : ℕ
  pub max_actions_per_hour : ℕ
  pub daily_cost_budget_usd : F

abbrev pub default_per_user : ℕ
default_per_user = 60

abbrev pub default_per_channel : ℕ
default_per_channel = 200

abbrev pub default_max_actions : ℕ
default_max_actions = 200

abbrev pub default_config : (f : F64) → RateLimitConfig f.Carrier
default_config f = record {
  per_user = default_per_user;
  per_channel = default_per_channel;
  max_actions_per_hour = default_max_actions;
  daily_cost_budget_usd = f.zero;
}

pub record RateLimiter (F : Type 0) : Type 0 where
  pub config : RateLimitConfig F
  pub user_counters : StrMap WindowCounter
  pub channel_counters : StrMap WindowCounter
  pub action_counter : WindowCounter
  pub daily_cost : F × ℕ

-- The reasons of `Err(String)`, with the values in their texts.
pub data Denied (F : Type 0) : Type 0 where
  too_many_from_user : String → ℕ → ℕ → Denied F
  channel_too_busy : String → ℕ → ℕ → Denied F
  too_many_actions : ℕ → ℕ → Denied F
  budget_exceeded : F → F → Denied F

-- Nanoseconds.
abbrev pub minute : ℕ
minute = 60 * 1_000_000_000

abbrev pub hour : ℕ
hour = 3600 * 1_000_000_000

-- `date_naive`.
abbrev pub day_of : ℕ → ℕ
day_of t = t / (86_400 * 1_000_000_000)

unfoldable pub new : (f : F64) → ℕ → RateLimitConfig f.Carrier → RateLimiter f.Carrier
new f now config = record {
  config = config;
  user_counters = [];
  channel_counters = [];
  action_counter = Window.new hour config.max_actions_per_hour;
  daily_cost = (f.zero, now);
}

-- The clock at each place of `check_message` that reads it.
pub record Readings : Type 0 where
  pub user : ℕ
  pub user_report : ℕ
  pub channel : ℕ
  pub channel_report : ℕ

-- `entry(key).or_insert_with(…)`: the counter that the entry gives.
abbrev pub counter_at : ℕ → String → StrMap WindowCounter → WindowCounter
counter_at limit k m = get_or (lookup k m) (Window.new minute limit)

abbrev pub Outcome : Type 0 → Type 0
Outcome F = RateLimiter F × Result (Denied F) (Unit {0})

module _ {F : Type 0} where
  unfoldable pub check_user : Readings → String → RateLimiter F → Outcome F
  check_user t sender_id s =
      if ltb 0 s.config.per_user
      then (let (d, allowed) =
            try_record t.user (counter_at s.config.per_user sender_id s.user_counters) in
          (
            record s { user_counters = insert sender_id d s.user_counters },
            if allowed
                then ok tt
                else err (
                    too_many_from_user sender_id (current_count t.user_report d) s.config.per_user),
          ))
      else (s, ok tt)

  unfoldable pub check_channel : Readings → String → RateLimiter F → Outcome F
  check_channel t channel s =
      if ltb 0 s.config.per_channel
      then (let (d, allowed) =
            try_record t.channel (counter_at s.config.per_channel channel s.channel_counters) in
          (
            record s { channel_counters = insert channel d s.channel_counters },
            if allowed
                then ok tt
                else err (
                    channel_too_busy channel (current_count t.channel_report d)
                      s.config.per_channel),
          ))
      else (s, ok tt)

  -- The early return of the first check.
  abbrev pub and_then : Outcome F → (RateLimiter F → Outcome F) → Outcome F
  and_then r k = elim r.1 [ ok _ ↦ k r.0 | err e ↦ (r.0, err e) ]

  unfoldable pub check_message : Readings → String → String → RateLimiter F → Outcome F
  unfolding check_user check_channel
  check_message t sender_id channel s =
      and_then (check_user t sender_id s) (check_channel t channel)

  unfoldable pub record_action : ℕ → ℕ → RateLimiter F → Outcome F
  record_action now report s =
      if s.config.max_actions_per_hour == 0
      then (s, ok tt)
      else (let (d, allowed) = try_record now s.action_counter in
          (
            record s { action_counter = d },
            if allowed
                then ok tt
                else err (too_many_actions (current_count report d) s.config.max_actions_per_hour),
          ))

module _ (f : F64) where
  -- The accumulator, cleared when the day has changed.
  abbrev pub current_day : ℕ → f.Carrier × ℕ → f.Carrier × ℕ
  current_day now daily = if not (day_of now == day_of daily.1) then (f.zero, now) else daily

  unfoldable pub record_cost : ℕ → f.Carrier → RateLimiter f.Carrier → Outcome f.Carrier
  record_cost now cost_usd s =
      if f.le s.config.daily_cost_budget_usd f.zero
      then (s, ok tt)
      else (let (spent, start) = current_day now s.daily_cost in
          let total = f.add spent cost_usd in
          (
            record s { daily_cost = (total, start) },
            if f.lt s.config.daily_cost_budget_usd total
                then err (budget_exceeded total s.config.daily_cost_budget_usd)
                else ok tt,
          ))

  abbrev pub daily_cost_usd : RateLimiter f.Carrier → f.Carrier
  daily_cost_usd s = s.daily_cost.0
