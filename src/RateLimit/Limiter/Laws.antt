-- ===== src/RateLimit/Limiter/Laws.antt =====
-- What the limiter promises of messages and costs.
use ada_claw.Prelude.{
  ◌<◌, ◌≡◌, ◌∙◌, true, false, ◌&&◌, ok, err, is_ok, arith, if◌then◌else◌, lookup, str_eq,
  lookup-insert, eq_iff, String,
}
use ada_claw.RateLimit.Window.{WindowCounter, try_record}
use ada_claw.RateLimit.Limiter.{
  RateLimiter, Readings, counter_at, check_user, check_channel, check_message, Outcome, and_then,
}

module _ {F : Type 0} where
  abbrev pub user_counter : String → RateLimiter F → WindowCounter
  user_counter u s = counter_at s.config.per_user u s.user_counters

  abbrev pub channel_counter : String → RateLimiter F → WindowCounter
  channel_counter ch s = counter_at s.config.per_channel ch s.channel_counters

  -- What `check_message` leaves alone.
  pub record Frame (u ch : String) (s s' : RateLimiter F) : Type 0 where
    pub same_config : s'.config ≡ s.config
    pub same_actions : s'.action_counter ≡ s.action_counter
    pub same_cost : s'.daily_cost ≡ s.daily_cost
    pub other_users :
        (v : String) → str_eq u v ≡ false → lookup v s'.user_counters ≡ lookup v s.user_counters
    pub other_channels :
        (c : String)
        → str_eq ch c ≡ false
        → lookup c s'.channel_counters ≡ lookup c s.channel_counters

  check_user-Frame :
      (t : Readings) (u ch : String) (s : RateLimiter F) → Frame u ch s (check_user t u s).0
  unfolding check_user
  check_user-Frame t u ch s = record {
    same_config = ground arith;
    same_actions = ground arith;
    same_cost = ground arith;
    other_users = λ v h.
        ground (arith, lookup-insert u v (try_record t.user (user_counter u s)).0 s.user_counters);
    other_channels = λ c h. ground arith;
  }

  check_channel-Frame :
      (t : Readings) (u ch : String) (s : RateLimiter F) → Frame u ch s (check_channel t ch s).0
  unfolding check_channel
  check_channel-Frame t u ch s = record {
    same_config = ground arith;
    same_actions = ground arith;
    same_cost = ground arith;
    other_users = λ v h. ground arith;
    other_channels = λ c h. ground (
      arith,
      lookup-insert ch c (try_record t.channel (channel_counter ch s)).0 s.channel_counters,
    );
  }

  and_then-Frame :
      (u ch : String) (s : RateLimiter F) (r : Outcome F) (k : RateLimiter F → Outcome F)
      → Frame u ch s r.0
      → ((s' : RateLimiter F) → Frame u ch s' (k s').0)
      → Frame u ch s (and_then r k).0
  and_then-Frame u ch s (s₁, ok a) k h hk = record {
    same_config = (hk s₁).same_config ∙ h.same_config;
    same_actions = (hk s₁).same_actions ∙ h.same_actions;
    same_cost = (hk s₁).same_cost ∙ h.same_cost;
    other_users = λ v e. (hk s₁).other_users v e ∙ h.other_users v e;
    other_channels = λ c e. (hk s₁).other_channels c e ∙ h.other_channels c e;
  }
  and_then-Frame u ch s (s₁, err e) k h hk = h

  -- A message from `u` on `ch` leaves the counters of all other users and channels, the action
  -- counter, the cost and the configuration as they were, whether it is accepted or refused.
  pub check_message-Frame :
      (t : Readings) (u ch : String) (s : RateLimiter F) → Frame u ch s (check_message t u ch s).0
  unfolding check_message
  check_message-Frame t u ch s =
      and_then-Frame u ch s (check_user t u s) (check_channel t ch) (check_user-Frame t u ch s)
        (λ s'. check_channel-Frame t u ch s')

  -- A message passes exactly when the user's counter and the channel's both admit it, and a message
  -- that the user's counter refuses is not counted against the channel.
  pub check_message_lem :
      (t : Readings) (u ch : String) (s : RateLimiter F)
      → 0 < s.config.per_user
      → 0 < s.config.per_channel
      → let by_user = (try_record t.user (user_counter u s)).1 in
        let by_channel = (try_record t.channel (channel_counter ch s)).1 in
        (is_ok (check_message t u ch s).1 ≡ by_user && by_channel)
        × (channel_counter ch (check_message t u ch s).0 ≡ (
            if by_user
            then (try_record t.channel (channel_counter ch s)).0
            else channel_counter ch s))
  unfolding check_message
  check_message_lem t u ch s pu pc = ground (
    arith,
    lookup-insert u u (try_record t.user (user_counter u s)).0 s.user_counters,
    lookup-insert ch ch (try_record t.channel (channel_counter ch s)).0 s.channel_counters,
    eq_iff ch ch,
  )

  pub user_counter-check_message :
      (t : Readings) (v ch u : String) (s : RateLimiter F)
      → 0 < s.config.per_user
      → user_counter u (check_message t v ch s).0
        ≡ (if str_eq v u then (try_record t.user (user_counter u s)).0 else user_counter u s)
  unfolding check_message
  user_counter-check_message t v ch u s pos = ground (
    arith,
    lookup-insert v u (try_record t.user (user_counter v s)).0 s.user_counters,
    eq_iff v u,
  )

  pub allowed_of_is_ok :
      (t : Readings) (v ch : String) (s : RateLimiter F)
      → 0 < s.config.per_user
      → is_ok (check_message t v ch s).1 ≡ true
      → (try_record t.user (user_counter v s)).1 ≡ true
  unfolding check_message
  allowed_of_is_ok t v ch s pos h = ground arith
