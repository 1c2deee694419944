-- ===== src/RateLimit/Window.antt =====
-- `WindowCounter` of crates/adaclaw-security/src/ratelimit.rs.
-- A `DateTime<Utc>` is a number of nanoseconds since the epoch. Rust's `t > now - window` is read
-- as `now < t + window`, which is the same over the integers and needs no negative date.
pub mod Bound
use ada_claw.Prelude.{
  ℕ, ◌+◌, ◌%◌, ◌^◌, Bool, true, false, List, [], ◌∷◌, ◌++◌, ltb, leb, ◌==◌, if◌then◌else◌, length,
  filter,
}

-- `as u32`.
abbrev pub u32 : ℕ → ℕ
u32 n = n % 2 ^ 32

pub record WindowCounter : Type 0 where
  pub events : List ℕ
  pub window : ℕ
  pub limit : ℕ

unfoldable pub new : ℕ → ℕ → WindowCounter
new window limit = record { events = []; window = window; limit = limit }

-- The test `t > cutoff` at the reading `now`.
abbrev pub is_fresh : ℕ → ℕ → ℕ → Bool
is_fresh window now t = ltb now (t + window)

unfoldable pub evict : ℕ → WindowCounter → WindowCounter
evict now c = record c { events = filter (is_fresh c.window now) c.events }

unfoldable pub try_record : ℕ → WindowCounter → WindowCounter × Bool
unfolding evict
try_record now c =
    if c.limit == 0
    then (c, true)
    else (let d = evict now c in
        if leb d.limit (u32 (length d.events))
        then (d, false)
        else (record d { events = d.events ++ now ∷ [] }, true))

unfoldable pub current_count : ℕ → WindowCounter → ℕ
current_count now c = u32 (length (filter (is_fresh c.window now) c.events))
