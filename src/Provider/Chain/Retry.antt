-- ===== src/Provider/Chain/Retry.antt =====
-- The attempts at one provider: how many, with which sleeps, and what the breaker learns.
use ada_claw.Prelude.{
  ℕ, zero, suc, ◌+◌, ◌*◌, ◌≡◌, refl, String, Bool, true, false, ◌⊎◌, inl, inr, List, [], ◌∷◌, ◌++◌,
  Result, ok, err, min, arith, if◌then◌else◌, Bool-cases,
}
use mathlib.Core.List.{append_assoc, append-nil}
use ada_claw.Provider.Errors.{
  ProviderErrorKind, Error, classify_error, is_retryable, counts_as_circuit_failure, rate_limit,
  billing, auth_error, bad_request, server_error, timeout, unknown,
}
use ada_claw.Provider.Cooldown.{CooldownTracker, record_failure, record_success}
use ada_claw.Provider.Chain.{
  Event, called, slept, Provider, ChainState, Verdict, answered, moved_on, max_backoff_ms,
  note_success, back_off, note_failure, after_error, after_reply, give_up, attempts,
}

module _ {A : Type 0} where
  abbrev pub to_retry : Result Error A → Bool
  to_retry (ok _) = false
  to_retry (err e) = is_retryable (classify_error e)

  -- The number of attempts: up to the first reply that is not an error to retry.
  unfoldable pub made : Provider A → (left attempt : ℕ) → ℕ
  made p zero attempt = 1
  made p (suc left) attempt =
      let more = made p left (suc attempt) in if to_retry (p.reply attempt) then suc more else 1

  -- The reply to the last of them.
  unfoldable pub last_reply : Provider A → (left attempt : ℕ) → Result Error A
  last_reply p zero attempt = p.reply attempt
  last_reply p (suc left) attempt =
      let later = last_reply p left (suc attempt) in
      if to_retry (p.reply attempt) then later else p.reply attempt

  abbrev pub verdict_of : Result Error A → Verdict A
  verdict_of (ok response) = answered response
  verdict_of (err e) = moved_on e

  -- What the breaker learns of the last reply, at a reading of the clock.
  abbrev pub settle : ℕ → String → Result Error A → CooldownTracker → CooldownTracker
  settle now name (ok _) t = record_success name t
  settle now name (err e) t =
      if counts_as_circuit_failure (classify_error e) then record_failure now name t else t

  abbrev pub readings_of : Result Error A → ℕ
  readings_of (ok _) = 0
  readings_of (err e) = if counts_as_circuit_failure (classify_error e) then 1 else 0

abbrev pub doubled : ℕ → ℕ → ℕ
doubled initial zero = initial
doubled initial (suc j) = doubled initial j * 2

-- Nothing before the first attempt; before the others the initial backoff, doubled each time, and
-- at most half a minute.
unfoldable pub pause : ℕ → ℕ → List Event
pause initial zero = []
pause initial (suc j) = slept (min (doubled initial j) max_backoff_ms) ∷ []

unfoldable pub events : String → ℕ → (count attempt : ℕ) → List Event
unfolding pause
events name initial zero attempt = []
events name initial (suc n) attempt =
    pause initial attempt ++ (called name attempt ∷ events name initial n (suc attempt))

module _ {A : Type 0} (clock : ℕ → ℕ) where
  after_error_lem :
      (kind : ProviderErrorKind) (p : Provider A) (e : Error) (s : ChainState)
      (retried : ChainState × Verdict A)
      → after_error clock kind p e s retried ≡ (
          if is_retryable kind then retried else (
            if counts_as_circuit_failure kind then note_failure clock p.name s else s,
            moved_on e,
          ))
  unfolding after_error is_retryable counts_as_circuit_failure
  after_error_lem rate_limit p e s r = refl
  after_error_lem billing p e s r = refl
  after_error_lem auth_error p e s r = refl
  after_error_lem bad_request p e s r = refl
  after_error_lem server_error p e s r = refl
  after_error_lem timeout p e s r = refl
  after_error_lem unknown p e s r = refl

retryable_counts :
    (kind : ProviderErrorKind) → is_retryable kind ≡ true → counts_as_circuit_failure kind ≡ true
unfolding is_retryable counts_as_circuit_failure
retryable_counts rate_limit h = refl
retryable_counts billing h = refl
retryable_counts auth_error h = h
retryable_counts bad_request h = h
retryable_counts server_error h = refl
retryable_counts timeout h = refl
retryable_counts unknown h = refl

abbrev due : ℕ → ℕ → ℕ
due initial zero = initial
due initial (suc j) = doubled initial j

-- The backoff kept by the loop, as far as a sleep can see it.
abbrev pub SameBackoff : (initial attempt backoff_ms : ℕ) → Type 0
SameBackoff initial attempt backoff_ms =
    min backoff_ms max_backoff_ms ≡ min (due initial attempt) max_backoff_ms

back_off_lem :
    (initial attempt backoff_ms : ℕ) (s : ChainState)
    → SameBackoff initial attempt backoff_ms
    → (back_off attempt backoff_ms s).0 ≡ record s { trace = s.trace ++ pause initial attempt }
unfolding back_off pause
back_off_lem initial zero b s h = rw (append-nil s.trace) refl
back_off_lem initial (suc j) b s h = rw h refl

back_off_next :
    (initial attempt backoff_ms : ℕ) (s : ChainState)
    → SameBackoff initial attempt backoff_ms
    → SameBackoff initial (suc attempt) (back_off attempt backoff_ms s).1
unfolding back_off
back_off_next initial zero b s h = h
back_off_next initial (suc j) b s h = omega arith

pub reply_cases :
    {A : Type 0} (r : Result Error A)
    → ((response : A) × (r ≡ ok response)) ⊎ ((e : Error) × (r ≡ err e))
reply_cases (ok response) = inl (response, refl)
reply_cases (err e) = inr (e, refl)

module _ {A : Type 0} (clock : ℕ → ℕ) where
  -- The state that the attempts leave, from their number and the last reply.
  abbrev pub after_last :
      Provider A → ℕ → (count attempt : ℕ) → Result Error A → ChainState → ChainState
  after_last p initial n attempt reply s = record {
    tracker = settle (clock s.readings) p.name reply s.tracker;
    readings = s.readings + readings_of reply;
    trace = s.trace ++ events p.name initial n attempt;
  }

  -- The attempts at one provider from any attempt on, where the loop holds the backoff that is due
  -- there (as at the first attempt, where it is the initial one), are those up to the first reply that
  -- is not an error to retry, or as many as are allowed; the answer is the last reply; before each
  -- attempt but the first there is a sleep, of the initial backoff at first, doubled each time and at
  -- most half a minute; and the breaker records a success, or a failure exactly if the last error is
  -- of a kind that counts.
  pub attempts_lem :
      (p : Provider A) (initial left attempt backoff_ms : ℕ) (s : ChainState)
      → SameBackoff initial attempt backoff_ms
      → attempts clock p left attempt backoff_ms s ≡ (
        after_last p initial (made p left attempt) attempt (last_reply p left attempt) s,
        verdict_of (last_reply p left attempt),
      )
  unfolding attempts after_reply give_up made last_reply events note_success note_failure
  attempts_lem p initial zero attempt b s h =
      let u : ChainState = record s {
        trace = s.trace ++ (pause initial attempt ++ (called p.name attempt ∷ []));
      } in
      rw
        (
          back_off_lem initial attempt b s h,
          append_assoc s.trace (pause initial attempt) (called p.name attempt ∷ []),
        )
        (elim (reply_cases (p.reply attempt)) [
          | inl (response, same) ↦ rw same (ground arith)
          | inr (e, same) ↦ rw same (
              rw
                (after_error_lem clock (classify_error e) p e u
                  (note_failure clock p.name u, moved_on e))
                (ground (arith, retryable_counts (classify_error e))))
        ])
  attempts_lem p initial (suc left) attempt b s h =
      let u : ChainState = record s {
        trace = s.trace ++ (pause initial attempt ++ (called p.name attempt ∷ []));
      } in
      let c = (back_off attempt b s).1 in
      let later =
        attempts_lem p initial left (suc attempt) c u (back_off_next initial attempt b s h) in
      rw
        (
          back_off_lem initial attempt b s h,
          append_assoc s.trace (pause initial attempt) (called p.name attempt ∷ []),
          later,
        )
        (elim (reply_cases (p.reply attempt)) [
          | inl (response, same) ↦ rw same (ground arith)
          | inr (e, same) ↦ rw same (
              rw
                (after_error_lem clock (classify_error e) p e u (
                  after_last p initial (made p left (suc attempt)) (suc attempt)
                      (last_reply p left (suc attempt)) u,
                  verdict_of (last_reply p left (suc attempt)),
                ))
                (elim (Bool-cases (is_retryable (classify_error e))) [
                  | inl again ↦ rw again (
                      rw
                        (
                          append_assoc s.trace
                              (pause initial attempt ++ (called p.name attempt ∷ []))
                              (events p.name initial (made p left (suc attempt)) (suc attempt)),
                          append_assoc (pause initial attempt) (called p.name attempt ∷ [])
                              (events p.name initial (made p left (suc attempt)) (suc attempt)),
                        )
                        refl)
                  | inr final ↦ rw final (ground arith)
                ]))
        ])
