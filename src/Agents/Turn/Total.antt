-- ===== src/Agents/Turn/Total.antt =====
-- No turn of src/agents/engine.rs reaches the panic of a compaction.
use ada_claw.Prelude.{
  ℕ, zero, suc, ◌+◌, ◌-◌, ◌/◌, ◌≤◌, ◌≡◌, refl, String, Bool, true, false, ◌&&◌, Option, none, some,
  List, [], ◌∷◌, Result, ok, err, arith, Bool-cases, Option-cases, inl, inr, length, length-append,
  length-drop, ltb, leb, take, drop,
}
use mathlib.Core.Option.{get_or}
use ada_claw.Agents.Dispatch.{run_calls}
use ada_claw.Agents.Message.{ChatMessage}
use ada_claw.Agents.Compact.{
  auto_compact_history, rolling_compact, summarise, over_tokens, summary_requests,
}
use ada_claw.Agents.Compact.Shape.{auto_compact_history_panics_iff, auto_compact_history-Kept, kept}
use ada_claw.Agents.Engine.{
  MessageEntry, visible_messages, default_max_iterations, force_compress_messages,
  detect_context_window_error, conv_start_of,
}
use ada_claw.Agents.Engine.Compress.{force_compress_messages-drain}
use ada_claw.Agents.Turn.{Input, user_message, start_of, scoped_history, run_tool_loop}
use ada_claw.Agents.Parser.{PendingCall}
use ada_claw.Agents.Loop.{
  ChatResponse, World, TurnResult, answered, failed, exceeded, panicked, LoopState, Step, done,
  next, Reply, retry_if, request, pending_calls, run_pending, after_compact, assistant_message,
  after_pending, after_reply, iterate, iterations,
}

abbrev pub is_panicked : TurnResult → Bool
is_panicked panicked = true
is_panicked (answered reply) = false
is_panicked (failed e) = false
is_panicked (exceeded n) = false

-- The compaction of this state does not panic.
abbrev Compacts : List ChatMessage → Option ℕ → Type 0
Compacts messages tokens =
    (1 ≤ length messages) × ((over_tokens tokens && ltb (length messages) 2) ≡ false)

abbrev Safe : Step → Type 0
Safe (done result calls) = is_panicked result ≡ false
Safe (next st) = Compacts st.messages st.last_prompt_tokens

long_enough : (n : ℕ) (tokens : Option ℕ) → 2 ≤ n → (over_tokens tokens && ltb n 2) ≡ false
long_enough n tokens h = ground arith

kept-length :
    (history middle : List ChatMessage) (from : ℕ)
    → 1 ≤ length history
    → 1 ≤ length (kept history middle from)
kept-length [] middle from h = absurd (omega arith)
kept-length (x ∷ rest) middle from h = omega arith

force_compress_messages-length :
    (messages : List ChatMessage)
    → 1 ≤ length messages
    → 1 ≤ length (force_compress_messages messages)
unfolding force_compress_messages
force_compress_messages-length messages h = elim (Bool-cases (leb (length messages) 4)) [
  | inl small ↦ rw small h
  | inr large ↦
      let start = conv_start_of messages in
      let dropped = (length messages - (start + 1)) / 2 in
      let (same, inside, some_dropped) = force_compress_messages-drain messages (ground arith) in
      rw same (
        omega (
          arith,
          length-append (take start messages) (drop (start + dropped) messages),
          length-drop (start + dropped) messages,
        ))
]

module _ (w : World) where
  auto_compact_history-length :
      (messages compacted : List ChatMessage) (tokens : Option ℕ)
      → 1 ≤ length messages
      → auto_compact_history w.summarise messages w.model tokens ≡ some compacted
      → 1 ≤ length compacted
  unfolding auto_compact_history rolling_compact summarise
  auto_compact_history-length [] compacted tokens h k = absurd (omega arith)
  auto_compact_history-length (x ∷ []) compacted tokens h k =
      elim (Bool-cases (over_tokens tokens)) [
        | inl over ↦
            let panics : auto_compact_history w.summarise (x ∷ []) w.model tokens ≡ none =
              rw over refl in
            absurd (cc)
        | inr under ↦
            let same : auto_compact_history w.summarise (x ∷ []) w.model tokens ≡ some (x ∷ []) =
              rw under refl in
            let known : compacted ≡ x ∷ [] = cc in rw known (omega arith)
      ]
  auto_compact_history-length (x ∷ y ∷ rest) compacted tokens h k =
      let (middle, from, same, one, tail, short) =
        auto_compact_history-Kept w.summarise (x ∷ y ∷ rest) w.model tokens (omega arith) in
      let known : compacted ≡ kept (x ∷ y ∷ rest) middle from = cc in rw known (omega arith)

  retry_if-length :
      (reply : Result String ChatResponse) (messages : List ChatMessage) (calls : ℕ)
      (retried : Reply)
      → 1 ≤ length messages
      → 1 ≤ length retried.1
      → 1 ≤ length (retry_if w reply messages calls retried).1
  retry_if-length (ok response) messages calls retried h k = h
  retry_if-length (err e) messages calls retried h k =
      elim (Bool-cases (detect_context_window_error e)) [ inl c ↦ rw c k | inr c ↦ rw c h ]

  request-length :
      (left : ℕ) (messages : List ChatMessage) (calls : ℕ)
      → 1 ≤ length messages
      → 1 ≤ length (request w left messages calls).1
  unfolding request
  request-length zero messages calls h = h
  request-length (suc left) messages calls h =
      retry_if-length (w.respond calls messages) messages (suc calls) _ h (
        request-length left (force_compress_messages messages) (suc calls)
          (force_compress_messages-length messages h))

  after_pending-Safe :
      (input : String) (iteration : ℕ) (st : LoopState) (response : ChatResponse)
      (pending : List PendingCall)
      → 2 ≤ length st.messages
      → Safe (after_pending w input iteration st response pending)
  unfolding after_pending run_pending
  after_pending-Safe input iteration st response [] h = refl
  after_pending-Safe input iteration st response (pc ∷ rest) h =
      let more =
        length-append st.messages ((run_calls w.tools iteration (pc ∷ rest) st.had_tool_error).0) in
      (omega (arith, more), long_enough _ st.last_prompt_tokens (omega (arith, more)))

  after_reply-Safe :
      (input : String) (iteration : ℕ) (had_error : Bool) (reply : Reply)
      → 1 ≤ length reply.1
      → Safe (after_reply w input iteration had_error reply)
  unfolding after_reply
  after_reply-Safe input iteration had_error (err e, messages, calls) h = refl
  after_reply-Safe input iteration had_error (ok response, messages, calls) h =
      after_pending-Safe input iteration _ response (pending_calls w response)
        (omega (arith, length-append messages (assistant_message w response ∷ [])))

  after_compact-Safe :
      (input : String) (iteration : ℕ) (st : LoopState) (messages : List ChatMessage)
      → 1 ≤ length messages
      → Safe (after_compact w input iteration st (some messages))
  unfolding after_compact
  after_compact-Safe input iteration st messages h =
      let asked = st.calls + summary_requests st.messages st.last_prompt_tokens in
      after_reply-Safe input iteration st.had_tool_error (request w 2 messages asked)
        (request-length 2 messages asked h)

  iterate-Safe :
      (input : String) (iteration : ℕ) (st : LoopState)
      → Compacts st.messages st.last_prompt_tokens
      → Safe (iterate w input iteration st)
  unfolding iterate
  iterate-Safe input iteration st (h, k) =
      let never =
        auto_compact_history_panics_iff w.summarise st.messages w.model st.last_prompt_tokens in
      elim (Option-cases
        (auto_compact_history w.summarise st.messages w.model st.last_prompt_tokens)) [
          | inl gone ↦ absurd (ground (arith, never, gone, k))
          | inr (messages, same) ↦ rw same (
              after_compact-Safe input iteration st messages
                (auto_compact_history-length st.messages messages st.last_prompt_tokens h same))
        ]

  iterations-Safe :
      (left iteration : ℕ) (input : String) (step : Step)
      → Safe step
      → is_panicked ((iterations w left iteration input step).0) ≡ false
  unfolding iterations
  iterations-Safe left iteration input (done result calls) safe = safe
  iterations-Safe zero iteration input (next st) safe = refl
  iterations-Safe (suc left) iteration input (next st) safe =
      iterations-Safe left (suc iteration) input (iterate w input iteration st)
        (iterate-Safe input iteration st safe)

  -- No turn meets the panic of a compaction, whatever the history, the provider, the tools and the
  -- reported tokens are.
  pub run_tool_loop_never_panics :
      (i : Input) (history : List MessageEntry)
      → is_panicked ((run_tool_loop w i history).0) ≡ false
  unfolding run_tool_loop start_of
  run_tool_loop_never_panics i history =
      iterations-Safe (get_or i.max_iterations default_max_iterations) 0 i.text
        (next (start_of i (scoped_history i history)))
        (
          omega (
            arith,
            length-append (visible_messages (scoped_history i history))
                (user_message i.text i.images ∷ []),
          ),
          refl,
        )
