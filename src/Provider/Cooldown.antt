-- ===== src/Provider/Cooldown.antt =====
-- `CooldownTracker` of crates/adaclaw-providers/src/reliable.rs.
-- An `Instant` is a number of nanoseconds; `elapsed` is 0 where the clock went back, as in Rust.
pub mod Breaker
use ada_claw.Prelude.{
  ℕ, ◌+◌, ◌-◌, ◌*◌, ◌^◌, ◌%◌, String, Bool, true, false, Option, none, some, [], min, max, leb, ltb,
  if◌then◌else◌, StrMap, lookup, insert, remove,
}
use mathlib.Core.Option.{get_or}

pub record CooldownTracker : Type 0 where
  -- When the breaker opened, and for how long.
  pub cooldowns : StrMap (ℕ × ℕ)
  pub failure_counts : StrMap ℕ

unfoldable pub new : CooldownTracker
new = record { cooldowns = []; failure_counts = [] }

abbrev pub cooldown_base_secs : ℕ
cooldown_base_secs = 60

abbrev pub cooldown_max_secs : ℕ
cooldown_max_secs = 3_600

-- Seconds. The source computes in `f64`, which is exact here: the exponent is 0, 1, 2 or 3.
unfoldable pub calculate_cooldown : ℕ → ℕ
calculate_cooldown failure_count =
    min (cooldown_base_secs * 5 ^ min (max failure_count 1 - 1) 3) cooldown_max_secs

abbrev pub nanos : ℕ → ℕ
nanos secs = secs * 1_000_000_000

abbrev pub forget : String → CooldownTracker → CooldownTracker
forget name t = record t {
  cooldowns = remove name t.cooldowns;
  failure_counts = remove name t.failure_counts;
}

unfoldable pub check_entry : ℕ → String → CooldownTracker → Option (ℕ × ℕ) → CooldownTracker × Bool
check_entry now name t none = (t, false)
check_entry now name t (some entry) =
    if leb entry.1 (now - entry.0) then (forget name t, false) else (t, true)

unfoldable pub is_in_cooldown : ℕ → String → CooldownTracker → CooldownTracker × Bool
unfolding check_entry
is_in_cooldown now name t = check_entry now name t (lookup name t.cooldowns)

abbrev pub remaining_of : ℕ → Option (ℕ × ℕ) → ℕ
remaining_of now none = 0
remaining_of now (some entry) = if ltb (now - entry.0) entry.1 then entry.1 - (now - entry.0) else 0

unfoldable pub cooldown_remaining : ℕ → String → CooldownTracker → ℕ
cooldown_remaining now name t = remaining_of now (lookup name t.cooldowns)

-- `u32`, which wraps in a release build.
abbrev pub next_count : String → CooldownTracker → ℕ
next_count name t = (get_or (lookup name t.failure_counts) 0 + 1) % 2 ^ 32

unfoldable pub record_failure : ℕ → String → CooldownTracker → CooldownTracker
record_failure now name t = record t {
  failure_counts = insert name (next_count name t) t.failure_counts;
  cooldowns = insert name (now, nanos (calculate_cooldown (next_count name t))) t.cooldowns;
}

unfoldable pub record_success : String → CooldownTracker → CooldownTracker
record_success name t = forget name t
