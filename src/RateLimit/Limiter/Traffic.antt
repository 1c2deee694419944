-- ===== src/RateLimit/Limiter/Traffic.antt =====
-- The limiter over a stream of messages from many senders on many channels.
use ada_claw.Prelude.{
  ℕ, ◌^◌, ◌≤◌, ◌<◌, ◌≡◌, refl, ap, ◌∙◌, Bool, true, false, ◌&&◌, inl, inr, List, [], ◌∷◌, ◌++◌,
  is_ok, arith, if◌then◌else◌, length, filter, filter-append, length-append, Bool-cases, lookup,
  str_eq, eq_iff, String,
}
use mathlib.Core.Path.{subst}
use ada_claw.RateLimit.Window.{try_record}
use ada_claw.RateLimit.Window.Bound.{record_all, IsMonotone, is_within, window_never_exceeds_limit}
use ada_claw.RateLimit.Limiter
use ada_claw.RateLimit.Limiter.{F64, RateLimitConfig, RateLimiter, Readings, minute, check_message}
use ada_claw.RateLimit.Limiter.Laws.{
  user_counter, user_counter-check_message, allowed_of_is_ok, check_message-Frame,
}

pub record Message : Type 0 where
  pub readings : Readings
  pub sender_id : String
  pub channel : String

-- When the messages of `u` reach the user's counter.
abbrev pub times_of : String → List Message → List ℕ
times_of u [] = []
times_of u (m ∷ ms) =
    let rest = times_of u ms in if str_eq m.sender_id u then m.readings.user ∷ rest else rest

filter-grow :
    (p : ℕ → Bool) (t : ℕ) (passed admitted : List ℕ) (a b : Bool)
    → (a ≡ true → b ≡ true)
    → length (filter p passed) ≤ length (filter p admitted)
    → length (filter p (if a then passed ++ t ∷ [] else passed))
      ≤ length (filter p (if b then admitted ++ t ∷ [] else admitted))
filter-grow p t passed admitted true b imp h = rw (imp refl) (
    rw (filter-append p passed, filter-append p admitted)
      (omega (
        arith,
        length-append (filter p passed) (filter p (t ∷ [])),
        length-append (filter p admitted) (filter p (t ∷ [])),
      )))
filter-grow p t passed admitted false true imp h =
    rw (filter-append p admitted)
      (omega (arith, length-append (filter p admitted) (filter p (t ∷ []))))
filter-grow p t passed admitted false false imp h = h

module _ {F : Type 0} where
  -- The times of the messages of `u` that `check_message` lets through, one call after another.
  unfoldable pub passed_of : String → List Message → RateLimiter F → List ℕ → List ℕ
  passed_of u [] s passed = passed
  passed_of u (m ∷ ms) s passed =
      let (s', r) = check_message m.readings m.sender_id m.channel s in
      passed_of u ms s'
        (if str_eq m.sender_id u && is_ok r then passed ++ m.readings.user ∷ [] else passed)

  admitted_of_passed :
      (t : Readings) (v ch u : String) (s : RateLimiter F)
      → 0 < s.config.per_user
      → str_eq v u ≡ true
      → is_ok (check_message t v ch s).1 ≡ true
      → (try_record t.user (user_counter u s)).1 ≡ true
  admitted_of_passed t v ch u s pos e h =
      let same : v ≡ u = (eq_iff v u).0 e in rw same at (allowed_of_is_ok t v ch s pos h)

  same_per_user :
      (t : Readings) (v ch : String) (s : RateLimiter F)
      → 0 < s.config.per_user
      → 0 < (check_message t v ch s).0.config.per_user
  same_per_user t v ch s pos = rw (check_message-Frame t v ch s).same_config pos

  -- One message of `u`: what passed is among what the counter admitted.
  passed-le-admitted :
      (p : ℕ → Bool) (u : String) (ms : List Message) (s : RateLimiter F) (passed admitted : List ℕ)
      → 0 < s.config.per_user
      → length (filter p passed) ≤ length (filter p admitted)
      → length (filter p (passed_of u ms s passed))
        ≤ length (filter p (record_all (times_of u ms) (user_counter u s) admitted).1)
  unfolding passed_of record_all
  passed-le-admitted p u [] s passed admitted pos h = h
  passed-le-admitted p u (m ∷ ms) s passed admitted pos h =
      let t = m.readings in
      let (s', r) = check_message t m.sender_id m.channel s in
      let (c, allowed) = try_record t.user (user_counter u s) in
      let after = user_counter-check_message t m.sender_id m.channel u s pos in
      let pos' = same_per_user t m.sender_id m.channel s pos in
      elim (Bool-cases (str_eq m.sender_id u)) [
        | inl mine ↦ rw mine (
            subst
              (λ d.
                length
                  (filter p (passed_of u ms s' (if is_ok r then passed ++ t.user ∷ [] else passed)))
                ≤ length (
                    filter p
                      (record_all (times_of u ms) d
                        (if allowed then admitted ++ t.user ∷ [] else admitted)).1))
              (after ∙ ap (λ b. if b then c else user_counter u s) mine)
              (passed-le-admitted p u ms s' (if is_ok r then passed ++ t.user ∷ [] else passed)
                (if allowed then admitted ++ t.user ∷ [] else admitted) pos'
                (filter-grow p t.user passed admitted (is_ok r) allowed
                  (admitted_of_passed t m.sender_id m.channel u s pos mine) h)))
        | inr other ↦ rw other (
            subst
              (λ d.
                length (filter p (passed_of u ms s' passed))
                ≤ length (filter p (record_all (times_of u ms) d admitted).1))
              (after ∙ ap (λ b. if b then c else user_counter u s) other)
              (passed-le-admitted p u ms s' passed admitted pos' h))
      ]

-- Whatever other users and channels send, the messages of one user that a new limiter lets through
-- in any minute, wherever the minute ends, are at most `per_user`, if that is not 0 (unlimited).
-- The readings of the clock for this user's messages do not fall.
pub user_rate_never_exceeds :
    (f : F64) (now : ℕ) (config : RateLimitConfig f.Carrier) (u : String) (ms : List Message)
    (at : ℕ)
    → 0 < config.per_user
    → config.per_user < 2 ^ 32
    → IsMonotone 0 (times_of u ms)
    → length (filter (is_within minute at) (passed_of u ms (Limiter.new f now config) []))
      ≤ config.per_user
unfolding Limiter.new lookup
user_rate_never_exceeds f now config u ms at pos fits mono = omega (
  arith,
  passed-le-admitted (is_within minute at) u ms (Limiter.new f now config) [] [] pos (omega arith),
  window_never_exceeds_limit config.per_user minute pos fits (times_of u ms) mono at,
)
