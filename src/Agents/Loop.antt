-- ===== src/Agents/Loop.antt =====
-- `run_tool_loop_with_options` of src/agents/engine.rs. The providers, the tools and the topic manager
-- are the environment. Writes to the session store and the memory are fire-and-forget, and are left
-- out. `panicked` stands for the panic of a compaction.
use ada_claw.Prelude.{
  ◌+◌, ℕ, zero, suc, String, Bool, false, not, ◌&&◌, ◌||◌, Option, none, some, List, [], ◌∷◌, ◌++◌,
  Result, ok, err, ◌==◌, if◌then◌else◌, map, concat, take_chars, codes, trim, Codes,
}
use ada_claw.Agents.Message.{ToolCall, ChatMessage, plain, assistant_tool_calls}
use ada_claw.Agents.Parser.{Json, PendingCall, collect_text_tool_calls}
use ada_claw.Agents.Dispatch.{Tool, run_calls}
use ada_claw.Agents.Compact.{auto_compact_history, summary_requests}
use ada_claw.Agents.Engine.{
  detect_context_window_error, force_compress_messages, needs_reflection_tier1,
}

pub record ChatResponse : Type 0 where
  pub content : String
  pub tool_calls : List ToolCall
  pub prompt_tokens : Option ℕ

pub data TopicSwitch : Type 0 where
  same_topic partial_drift : TopicSwitch
  switched : String → TopicSwitch

-- The reply of the provider depends on the number of requests before it, of any kind, and on the
-- messages.
pub record World : Type 0 where
  pub respond : ℕ → List ChatMessage → Result String ChatResponse
  pub summarise : String → String → String → Result String String
  pub json : Json
  pub scrub_credentials : String → String
  pub check : String → Result String String
  pub correct : List ChatMessage → Result String String
  pub tools : List Tool
  pub model : String
  pub streaming : Bool

pub data TurnResult : Type 0 where
  answered failed : String → TurnResult
  exceeded : ℕ → TurnResult
  panicked : TurnResult

-- A turn that has ended, and one that goes on.
pub record LoopState : Type 0 where
  pub messages : List ChatMessage
  pub had_tool_error : Bool
  pub last_prompt_tokens : Option ℕ
  pub calls : ℕ

pub data Step : Type 0 where
  done : TurnResult → ℕ → Step
  next : LoopState → Step

abbrev pub Reply : Type 0
Reply = Result String ChatResponse × List ChatMessage × ℕ

-- A native call, or one found in the text.
abbrev pub of_native : ToolCall → PendingCall
of_native c = record { id = some c.id; name = c.name; args = c.arguments }

abbrev pub is_yes : Codes → Bool
is_yes (y ∷ e ∷ s ∷ rest) =
    (y == b'y' || y == b'Y') && (e == b'e' || e == b'E') && (s == b's' || s == b'S' || s == 0x17F)
is_yes _ = false

module _ (w : World) where
  abbrev pub retry_if : Result String ChatResponse → List ChatMessage → ℕ → Reply → Reply
  retry_if (ok response) messages calls retried = (ok response, messages, calls)
  retry_if (err e) messages calls retried =
      if detect_context_window_error e then retried else (err e, messages, calls)

  -- The inner loop, with the retries that are left.
  unfoldable pub request : ℕ → List ChatMessage → ℕ → Reply
  unfolding detect_context_window_error force_compress_messages
  request zero messages calls = (w.respond calls messages, messages, suc calls)
  request (suc left) messages calls =
      let retried = request left (force_compress_messages messages) (suc calls) in
      retry_if (w.respond calls messages) messages (suc calls) retried

  unfoldable pub pending_calls : ChatResponse → List PendingCall
  unfolding collect_text_tool_calls
  pending_calls response = elim response.tool_calls [
    | [] ↦ collect_text_tool_calls w.json response.content
    | c ∷ rest ↦ map of_native (c ∷ rest)
  ]

  -- `assistant_tool_calls` of no calls is the plain message.
  abbrev pub assistant_message : ChatResponse → ChatMessage
  assistant_message response = assistant_tool_calls response.content response.tool_calls

  abbrev pub fix_prompt : String → String → String
  fix_prompt user_input candidate = concat (
      "Your previous response to the user's request may be incomplete or incorrect.\n\nUser request: \""
      ∷ take_chars 300 user_input
      ∷ "\"\n\nYour previous response:\n"
      ∷ take_chars 500 candidate
      ∷ "\n\nPlease provide a complete and correct response, addressing any gaps or errors."
      ∷ [])

  abbrev pub check_prompt : String → String → String
  check_prompt user_input candidate = concat (
      "User request: \""
      ∷ take_chars 400 user_input
      ∷ "\"\n\nAssistant response:\n"
      ∷ take_chars 600 candidate
      ∷ "\n\nWas the task fully completed?"
      ∷ [])

  abbrev pub corrected : String → Result String String → String
  corrected candidate (ok content) = w.scrub_credentials content
  corrected candidate (err e) = candidate

  -- A reply with the number of requests.
  abbrev pub after_check : String → Result String String → String → String × ℕ
  after_check candidate (err e) fixed = (candidate, 1)
  after_check candidate (ok reply) fixed =
      if is_yes (trim (codes reply)) then (candidate, 1) else (fixed, 2)

  unfoldable pub tiered_reflect : String → String → List ChatMessage → String × ℕ
  unfolding concat take_chars trim
  tiered_reflect user_input candidate messages =
      after_check candidate (w.check (check_prompt user_input candidate)) (
        corrected candidate
          (w.correct (messages ++ plain "user" (fix_prompt user_input candidate) ∷ [])))

  unfoldable pub final_response : String → String → Bool → ℕ → List ChatMessage → String × ℕ
  unfolding tiered_reflect needs_reflection_tier1
  final_response input content had_tool_error iteration messages =
      let scrubbed = w.scrub_credentials content in
      let reflected = tiered_reflect input scrubbed messages in
      if not w.streaming && needs_reflection_tier1 input scrubbed had_tool_error iteration
      then reflected
      else (scrubbed, 0)

  -- The calls are run, and their results appended in the order of the calls.
  unfoldable pub run_pending : ℕ → LoopState → List PendingCall → LoopState
  unfolding run_calls
  run_pending iteration st pending =
      let (results, had_error) = run_calls w.tools iteration pending st.had_tool_error in
      record st { messages = st.messages ++ results; had_tool_error = had_error }

  abbrev pub answer_with : ℕ → String × ℕ → Step
  answer_with calls (response, requests) = done (answered response) (calls + requests)

  unfoldable pub after_pending : String → ℕ → LoopState → ChatResponse → List PendingCall → Step
  unfolding final_response run_pending
  after_pending input iteration st response [] =
      answer_with st.calls
        (final_response input response.content st.had_tool_error iteration st.messages)
  after_pending input iteration st response (pc ∷ rest) =
      next (run_pending iteration st (pc ∷ rest))

  abbrev pub answer_state : Bool → ChatResponse → List ChatMessage → ℕ → LoopState
  answer_state had_error response messages calls = record {
    messages = messages ++ assistant_message response ∷ [];
    had_tool_error = had_error;
    last_prompt_tokens = response.prompt_tokens;
    calls = calls;
  }

  unfoldable pub after_reply : String → ℕ → Bool → Reply → Step
  unfolding pending_calls after_pending
  after_reply input iteration had_error (err e, messages, calls) = done (failed e) calls
  after_reply input iteration had_error (ok response, messages, calls) =
      after_pending input iteration (answer_state had_error response messages calls) response
        (pending_calls response)

  unfoldable pub after_compact : String → ℕ → LoopState → Option (List ChatMessage) → Step
  unfolding request after_reply summary_requests
  after_compact input iteration st none = done panicked st.calls
  after_compact input iteration st (some messages) =
      after_reply input iteration st.had_tool_error
        (request 2 messages (st.calls + summary_requests st.messages st.last_prompt_tokens))

  -- One iteration.
  unfoldable pub iterate : String → ℕ → LoopState → Step
  unfolding after_compact auto_compact_history
  iterate input iteration st =
      after_compact input iteration st
        (auto_compact_history w.summarise st.messages w.model st.last_prompt_tokens)

  -- The iterations that are left, and the number of those before.
  unfoldable pub iterations : ℕ → ℕ → String → Step → TurnResult × ℕ
  unfolding iterate
  iterations left iteration input (done result calls) = (result, calls)
  iterations zero iteration input (next st) = (exceeded iteration, st.calls)
  iterations (suc left) iteration input (next st) =
      iterations left (suc iteration) input (iterate input iteration st)
