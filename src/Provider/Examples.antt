-- ===== src/Provider/Examples.antt =====
-- Runs of the provider chain, and the theorems about it at concrete inputs.
use ada_claw.Prelude.{
  ℕ, zero, suc, ◌+◌, ◌*◌, ◌≤◌, ◌≡◌, refl, false, none, List, [], ◌∷◌, length, Result, ok, err,
  arith, if◌then◌else◌, any, filter, lookup, insert, remove, to_lower, ltb,
}
use ada_claw.Provider.Errors.{
  Error, other, provider_error, classify_error, classify_text, from_status, rate_limit, timeout,
  auth_error, unknown,
}
use ada_claw.Provider.Cooldown
use ada_claw.Provider.Cooldown.{
  CooldownTracker, calculate_cooldown, nanos, is_in_cooldown, record_failure, record_success,
}
use ada_claw.Provider.Cooldown.Breaker.{open_until_cooldown_passed, fail_at}
use ada_claw.Provider.Chain
use ada_claw.Provider.Chain.{
  Provider, ProviderCapabilities, ReliabilityChain, ChainState, Event, called, slept, Verdict,
  attempts, after_error, note_failure, note_success, chat_inner, no_providers, all_in_cooldown,
  max_backoff_ms,
}
use ada_claw.Provider.Chain.Retry.{attempts_lem, made, last_reply, verdict_of, after_last}
use ada_claw.Provider.Chain.Recovery.{fresh, request, cooldown_stays_at_a_minute}
use ada_claw.Provider.Chain.Bounds.{chat_inner-Spent, calls_of, slept_of}
use ada_claw.Provider.Chain.Failover.{chat_inner_answer, first_answer, closed}

abbrev plain : ProviderCapabilities
plain = record { native_tool_calling = false; vision = false; streaming = false }

abbrev failed_with : ℕ → Result Error ℕ
failed_with status = err (provider_error (from_status status "" none))

-- Answers at its third attempt, after two server errors.
abbrev flaky_reply : ℕ → Result Error ℕ
flaky_reply zero = failed_with 500
flaky_reply (suc zero) = failed_with 503
flaky_reply (suc (suc _)) = ok 7

abbrev flaky : Provider ℕ
flaky = record { name = "flaky"; capabilities = plain; reply = flaky_reply }

abbrev unauthorized : Provider ℕ
unauthorized = record { name = "unauthorized"; capabilities = plain; reply = λ _. failed_with 401 }

abbrev limited : Provider ℕ
limited = record { name = "limited"; capabilities = plain; reply = λ _. failed_with 429 }

abbrev clock : ℕ → ℕ
clock reading = 1_000 + reading

abbrev chain : ReliabilityChain ℕ
chain = Chain.new (limited ∷ unauthorized ∷ flaky ∷ [])

answer : (chat_inner clock chain).1 ≡ ok 7
unfolding chat_inner Chain.new from_status is_in_cooldown lookup Cooldown.new after_error
    classify_error note_failure record_failure insert note_success
answer = refl

trace :
    (chat_inner clock chain).0.state.trace
    ≡ called "limited" 0
      ∷ called "unauthorized" 0
      ∷ called "flaky" 0
      ∷ slept 1_000
      ∷ called "flaky" 1
      ∷ slept 2_000
      ∷ called "flaky" 2
      ∷ []
unfolding chat_inner Chain.new from_status is_in_cooldown lookup Cooldown.new after_error
    classify_error note_failure record_failure insert note_success
trace = refl

classified :
    (classify_error (other "HTTP 429: Rate Limit") ≡ rate_limit)
    × (classify_error (other "Request timed out") ≡ timeout)
    × (classify_error (other "quota problem") ≡ unknown)
    × (classify_error (other "Token has EXPIRED") ≡ auth_error)
unfolding classify_error classify_text to_lower
classified = (refl, refl, refl, refl)

abbrev one_time : List ℕ
one_time = 100 ∷ []

open_until_cooldown_passed_example :
    (is_in_cooldown
      (900 + 250)
      "limited"
      (record_failure 900 "limited" (fail_at one_time "limited" Cooldown.new))).1
    ≡ ltb 250 (5 * 60_000_000_000)
unfolding Cooldown.new lookup
open_until_cooldown_passed_example =
    open_until_cooldown_passed one_time 900 250 "limited" Cooldown.new refl (omega arith)

abbrev one_failure : CooldownTracker
one_failure = record_failure 0 "limited" Cooldown.new

attempts_lem_example : attempts clock flaky 3 0 1_000 (chain.state) ≡ (
  after_last clock flaky 1_000 (made flaky 3 0) 0 (last_reply flaky 3 0) chain.state,
  verdict_of (last_reply flaky 3 0),
)
attempts_lem_example = attempts_lem clock flaky 1_000 3 0 1_000 chain.state refl

chat_inner-Spent_example :
    (calls_of (chat_inner clock chain).0.state.trace
      ≤ calls_of chain.state.trace + length chain.providers * suc chain.max_retries)
    × (slept_of (chat_inner clock chain).0.state.trace
        ≤ slept_of chain.state.trace
          + length chain.providers * (chain.max_retries * max_backoff_ms))
chat_inner-Spent_example = chat_inner-Spent clock chain

chat_inner_answer_example : (chat_inner clock chain).1 ≡ (
    if any (closed chain.state.tracker) chain.providers
    then first_answer chain.max_retries
        (filter (closed chain.state.tracker) chain.providers)
        no_providers
    else err all_in_cooldown)
unfolding Chain.new Cooldown.new lookup
chat_inner_answer_example =
    chat_inner_answer clock chain ((refl, (refl, tt)), ((refl, tt), (tt, tt))) (tt, (tt, (tt, tt)))

-- The second request comes after the cooldown of the first.
abbrev much_later : ℕ → ℕ
much_later reading = 61_000_000_000 + reading

abbrev served_twice : ReliabilityChain ℕ
served_twice = (chat_inner much_later (chat_inner clock chain).0).0

cooldown_stays_at_a_minute_example : 60_000_000_000 ≡ nanos 60
unfolding chat_inner Chain.new from_status is_in_cooldown lookup remove Cooldown.new after_error
    classify_error note_failure record_failure insert note_success record_success calculate_cooldown
cooldown_stays_at_a_minute_example =
    cooldown_stays_at_a_minute served_twice.state "limited" 61_000_000_007 60_000_000_000
      (request much_later (chat_inner clock chain).0
        (request clock chain (fresh (limited ∷ unauthorized ∷ flaky ∷ []))))
      refl
