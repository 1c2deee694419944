-- ===== src/Provider/Cooldown/Breaker.antt =====
-- How long a breaker stays open: the table of cooldowns, and the tracker after repeated failures.
use mathlib.Core.Option.{get_or}
use ada_claw.Prelude.{
  ℕ, ◌+◌, ◌-◌, ◌*◌, ◌^◌, ◌≤◌, ◌<◌, ◌≡◌, refl, String, false, none, List, [], ◌∷◌, length, lookup,
  lookup-insert, lookup-remove, str_eq, str_eq_refl, Option-cases, inl, inr, zero, suc, ltb, leb,
  arith, if◌then◌else◌, min, max,
}
use ada_claw.Provider.Cooldown.{
  CooldownTracker, calculate_cooldown, nanos, is_in_cooldown, check_entry, next_count,
  record_failure, record_success,
}

calculate_cooldown_table :
    (n : ℕ)
    → calculate_cooldown n
      ≡ (if leb n 1 then 60 else if leb n 2 then 300 else if leb n 3 then 1_500 else 3_600)
unfolding calculate_cooldown
calculate_cooldown_table zero = refl
calculate_cooldown_table (suc zero) = refl
calculate_cooldown_table (suc (suc zero)) = refl
calculate_cooldown_table (suc (suc (suc n))) =
    let three : min (max (suc (suc (suc n))) 1 - 1) 3 ≡ (if leb n 0 then 2 else 3) = ground arith in
    rw three (ground arith)

-- The cooldown after more failures is never shorter, is at least a minute, and at most an hour.
pub cooldown_grows_within_bounds :
    (m n : ℕ)
    → m ≤ n
    → (60 ≤ calculate_cooldown m)
      × (calculate_cooldown m ≤ calculate_cooldown n)
      × (calculate_cooldown n ≤ 3_600)
cooldown_grows_within_bounds m n h =
    rw (calculate_cooldown_table m, calculate_cooldown_table n) (ground arith)

-- The failures of one provider at these times, in order.
unfoldable pub fail_at : List ℕ → String → CooldownTracker → CooldownTracker
fail_at [] name t = t
fail_at (now ∷ rest) name t = fail_at rest name (record_failure now name t)

abbrev pub failures : String → CooldownTracker → ℕ
failures name t = get_or (lookup name t.failure_counts) 0

failures-record_failure :
    (now : ℕ) (name : String) (t : CooldownTracker)
    → failures name t + 1 < 2 ^ 32
    → failures name (record_failure now name t) ≡ failures name t + 1
unfolding record_failure
failures-record_failure now name t h =
    rw (lookup-insert name name (next_count name t) t.failure_counts, str_eq_refl name)
      (omega arith)

failures-fail_at :
    (times : List ℕ) (name : String) (t : CooldownTracker)
    → failures name t + length times < 2 ^ 32
    → failures name (fail_at times name t) ≡ failures name t + length times
unfolding fail_at
failures-fail_at [] name t h = omega arith
failures-fail_at (now ∷ rest) name t h =
    let one = failures-record_failure now name t (omega arith) in
    let more = failures-fail_at rest name (record_failure now name t) (rw one (omega arith)) in
    omega arith

-- The documented table: the minutes that the breaker is open after so many failures.
abbrev pub documented_minutes : ℕ → ℕ
documented_minutes zero = 0
documented_minutes (suc zero) = 1
documented_minutes (suc (suc zero)) = 5
documented_minutes (suc (suc (suc zero))) = 25
documented_minutes (suc (suc (suc (suc n)))) = 60

calculate_cooldown_documented :
    (n : ℕ) → nanos (calculate_cooldown (suc n)) ≡ documented_minutes (suc n) * 60_000_000_000
calculate_cooldown_documented zero = rw (calculate_cooldown_table 1) refl
calculate_cooldown_documented (suc zero) = rw (calculate_cooldown_table 2) refl
calculate_cooldown_documented (suc (suc zero)) = rw (calculate_cooldown_table 3) refl
calculate_cooldown_documented (suc (suc (suc n))) =
    rw (calculate_cooldown_table (suc (suc (suc (suc n))))) (ground arith)

-- After a provider without failures has failed at the given times and then at `last`, fewer than
-- 2 ^ 32 times in all, its breaker is open until exactly so long after `last`: a minute for one
-- failure, 5 for two, 25 for three, and 60 for more.
pub open_until_cooldown_passed :
    (times : List ℕ) (last waited : ℕ) (name : String) (t : CooldownTracker)
    → lookup name t.failure_counts ≡ none
    → length times + 1 < 2 ^ 32
    → (is_in_cooldown (last + waited) name (record_failure last name (fail_at times name t))).1
      ≡ ltb waited (documented_minutes (suc (length times)) * 60_000_000_000)
unfolding is_in_cooldown check_entry record_failure
open_until_cooldown_passed times last waited name t fresh h =
    let u = fail_at times name t in
    let none_yet : failures name t ≡ 0 = rw fresh refl in
    let before = failures-fail_at times name t (rw none_yet (omega arith)) in
    let count : next_count name u ≡ suc (length times) = rw (before, none_yet) (omega arith) in
    rw
      (
        lookup-insert name name (last, nanos (calculate_cooldown (next_count name u))) u.cooldowns,
        str_eq_refl name,
        count,
        calculate_cooldown_documented (length times),
      )
      (ground arith)

-- A breaker found closed has no entry left, and its failures are counted from none again unless it
-- had no entry before: it is found closed at every later time.
pub closed_is_reset :
    (now later : ℕ) (name : String) (t : CooldownTracker)
    → (is_in_cooldown now name t).1 ≡ false
    → (lookup name (is_in_cooldown now name t).0.cooldowns ≡ none)
      × (is_in_cooldown later name (is_in_cooldown now name t).0
          ≡ ((is_in_cooldown now name t).0, false))
unfolding is_in_cooldown check_entry
closed_is_reset now later name t closed = elim (Option-cases (lookup name t.cooldowns)) [
  | inl no_entry ↦ ground (arith, no_entry)
  | inr (entry, e) ↦ ground (arith, e, lookup-remove name name t.cooldowns, str_eq_refl name)
]

-- Nothing that the tracker does for one provider changes what it holds of another.
pub others_unchanged :
    (now : ℕ) (name another : String) (t : CooldownTracker)
    → str_eq name another ≡ false
    → (lookup another (record_failure now name t).cooldowns ≡ lookup another t.cooldowns)
      × (lookup another (record_success name t).cooldowns ≡ lookup another t.cooldowns)
      × (lookup another (is_in_cooldown now name t).0.cooldowns ≡ lookup another t.cooldowns)
      × (lookup another (record_failure now name t).failure_counts
          ≡ lookup another t.failure_counts)
      × (lookup another (record_success name t).failure_counts ≡ lookup another t.failure_counts)
      × (lookup another (is_in_cooldown now name t).0.failure_counts
          ≡ lookup another t.failure_counts)
unfolding record_failure record_success is_in_cooldown check_entry
others_unchanged now name another t other = ground (
  arith,
  lookup-insert name another (next_count name t) t.failure_counts,
  lookup-insert name another (now, nanos (calculate_cooldown (next_count name t))) t.cooldowns,
  lookup-remove name another t.cooldowns,
  lookup-remove name another t.failure_counts,
)
