-- ===== src/Agents/Turn/Calls.antt =====
-- How often a turn of src/agents/engine.rs asks the provider, and what its loop appends.
use ada_claw.Prelude.{
  true, false, not, ◌&&◌, codes, trim, if◌then◌else◌, ◌||◌, ℕ, zero, suc, ◌+◌, ◌*◌, ◌≤◌, ◌≡◌, ap,
  String, Bool, Option, none, some, List, [], ◌∷◌, ◌++◌, Result, ok, err, arith, Bool-cases, inl,
  inr,
}
use ada_claw.Agents.Message.{plain, ChatMessage}
use ada_claw.Agents.Compact.{summary_requests}
use ada_claw.Agents.Engine.{
  needs_reflection_tier1, MessageEntry, default_max_iterations, force_compress_messages,
  detect_context_window_error,
}
use mathlib.Core.Option.{get_or}
use ada_claw.Agents.Turn.{intent_requests, Input, start_of, scoped_history, run_tool_loop}
use ada_claw.Agents.Dispatch.Told.{results, some_failed}
use ada_claw.Agents.Dispatch.Results.{run_calls_lem}
use ada_claw.Agents.Parser.{PendingCall}
use ada_claw.Agents.Loop.{
  final_response, tiered_reflect, after_check, corrected, ChatResponse, World, LoopState, Step,
  done, next, Reply, retry_if, request, is_yes, check_prompt, fix_prompt, pending_calls,
  run_pending, after_pending, after_reply, after_compact, iterate, iterations,
}

either_le : (b : Bool) (x y : String × ℕ) → x.1 ≤ 2 → y.1 ≤ 2 → (if b then x else y).1 ≤ 2
either_le true x y h k = h
either_le false x y h k = k

intent_requests_le : (i : Input) → intent_requests i ≤ 1
unfolding intent_requests
intent_requests_le i = ground arith

module _ (w : World) where
  retry_if-calls :
      (reply : Result String ChatResponse) (messages : List ChatMessage) (calls bound : ℕ)
      (retried : Reply)
      → calls ≤ bound
      → retried.2 ≤ bound
      → (retry_if w reply messages calls retried).2 ≤ bound
  retry_if-calls (ok response) messages calls bound retried h k = h
  retry_if-calls (err e) messages calls bound retried h k =
      elim (Bool-cases (detect_context_window_error e)) [ inl c ↦ rw c k | inr c ↦ rw c h ]

  request-calls :
      (left : ℕ) (messages : List ChatMessage) (calls : ℕ)
      → (request w left messages calls).2 ≤ calls + left + 1
  unfolding request
  request-calls zero messages calls = omega arith
  request-calls (suc left) messages calls =
      retry_if-calls (w.respond calls messages) messages (suc calls) (calls + suc left + 1) _
        (omega arith)
        (omega (arith, request-calls left (force_compress_messages messages) (suc calls)))

  requests_for_le :
      (history : List ChatMessage) (tokens : Option ℕ) → summary_requests history tokens ≤ 1
  unfolding summary_requests
  requests_for_le history tokens = ground arith

  after_check-requests :
      (candidate : String) (reply : Result String String) (fixed : String)
      → (after_check w candidate reply fixed).1 ≤ 2
  after_check-requests candidate (err e) fixed = omega arith
  after_check-requests candidate (ok reply) fixed =
      either_le (is_yes (trim (codes reply))) (candidate, 1) (fixed, 2) (omega arith) (omega arith)

  tiered_reflect-requests :
      (input candidate : String) (messages : List ChatMessage)
      → (tiered_reflect w input candidate messages).1 ≤ 2
  unfolding tiered_reflect
  tiered_reflect-requests input candidate messages =
      after_check-requests candidate (w.check (check_prompt w input candidate)) (
        corrected w candidate
          (w.correct (messages ++ plain "user" (fix_prompt w input candidate) ∷ [])))

  final_response-requests :
      (input content : String) (had_error : Bool) (iteration : ℕ) (messages : List ChatMessage)
      → (final_response w input content had_error iteration messages).1 ≤ 2
  unfolding final_response
  final_response-requests input content had_error iteration messages =
      let scrubbed = w.scrub_credentials content in
      either_le (not w.streaming && needs_reflection_tier1 input scrubbed had_error iteration)
        (tiered_reflect w input scrubbed messages) (scrubbed, 0)
        (tiered_reflect-requests input scrubbed messages) (omega arith)

  -- The requests that a step has made, and where the turn goes on two more: those of the reflection.
  abbrev reserve : Step → ℕ
  reserve (done result calls) = calls
  reserve (next st) = st.calls + 2

  after_pending-reserve :
      (input : String) (iteration : ℕ) (st : LoopState) (response : ChatResponse)
      (pending : List PendingCall)
      → reserve (after_pending w input iteration st response pending) ≤ st.calls + 2
  unfolding after_pending run_pending
  after_pending-reserve input iteration st response [] = omega (
    arith,
    final_response-requests input response.content st.had_tool_error iteration st.messages,
  )
  after_pending-reserve input iteration st response (pc ∷ rest) = omega arith

  after_reply-reserve :
      (input : String) (iteration : ℕ) (had_error : Bool) (reply : Reply)
      → reserve (after_reply w input iteration had_error reply) ≤ reply.2 + 2
  unfolding after_reply
  after_reply-reserve input iteration had_error (err e, messages, calls) = omega arith
  after_reply-reserve input iteration had_error (ok response, messages, calls) =
      after_pending-reserve input iteration _ response (pending_calls w response)

  after_compact-reserve :
      (input : String) (iteration : ℕ) (st : LoopState) (compacted : Option (List ChatMessage))
      → reserve (after_compact w input iteration st compacted) ≤ st.calls + 6
  unfolding after_compact
  after_compact-reserve input iteration st none = omega arith
  after_compact-reserve input iteration st (some messages) =
      let asked = st.calls + summary_requests st.messages st.last_prompt_tokens in
      omega (
        arith,
        after_reply-reserve input iteration st.had_tool_error (request w 2 messages asked),
        request-calls 2 messages asked,
        requests_for_le st.messages st.last_prompt_tokens,
      )

  iterate-reserve :
      (input : String) (iteration : ℕ) (st : LoopState)
      → reserve (iterate w input iteration st) ≤ st.calls + 6
  unfolding iterate
  iterate-reserve input iteration st = after_compact-reserve input iteration st _

  iterations-calls :
      (left iteration : ℕ) (input : String) (step : Step)
      → (iterations w left iteration input step).1 ≤ reserve step + 4 * left
  unfolding iterations
  iterations-calls left iteration input (done result calls) = omega arith
  iterations-calls zero iteration input (next st) = omega arith
  iterations-calls (suc left) iteration input (next st) = omega (
    arith,
    iterations-calls left (suc iteration) input (iterate w input iteration st),
    iterate-reserve input iteration st,
  )

  -- A turn ends, and makes at most four requests to the provider for each of its iterations, and three
  -- more: the request for the intent, those for summaries, the answers with their retries, and those
  -- of the reflection are counted.
  pub run_tool_loop-calls :
      (i : Input) (history : List MessageEntry)
      → (run_tool_loop w i history).1 ≤ 4 * get_or i.max_iterations default_max_iterations + 3
  unfolding run_tool_loop start_of intent_requests
  run_tool_loop-calls i history = omega (
    arith,
    iterations-calls (get_or i.max_iterations default_max_iterations) 0 i.text
        (next (start_of i (scoped_history i history))),
    intent_requests_le i,
  )

  -- The tools of an iteration add one message for each call, in the order of the calls, and nothing
  -- else: a native call gets a result with its id, and a call of the text a line with its name. Its
  -- content is what the first tool of that name gives, or says that the tool failed or is not found;
  -- the turn remembers whether any call did not succeed.
  pub run_pending_lem :
      (iteration : ℕ) (st : LoopState) (pending : List PendingCall)
      → run_pending w iteration st pending ≡ record st {
        messages = st.messages ++ results w.tools iteration 0 pending;
        had_tool_error = st.had_tool_error || some_failed w.tools iteration 0 pending;
      }
  unfolding run_pending
  run_pending_lem iteration st pending =
      ap (λ r. record st { messages = st.messages ++ r.0; had_tool_error = r.1 })
        (run_calls_lem w.tools iteration pending st.had_tool_error)
