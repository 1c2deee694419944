-- ===== src/Agents/Compact/Cases.antt =====
-- The cases of a compaction of src/agents/compact.rs, by the size of the history and the model's reply.
use ada_claw.Prelude.{
  ◌++◌, ◌==◌, none, starts_with, codes, any, ℕ, ◌-◌, ◌≤◌, ◌<◌, ◌≡◌, String, Bool, true, false, ◌&&◌,
  ◌||◌, Option, List, [], ◌∷◌, Result, ok, err, leb, length, take, drop, max, concat,
}
use mathlib.Core.Option.{get_or}
use ada_claw.Agents.Message.{ChatMessage}
use ada_claw.Agents.Compact.{summary_system, summary_prompt}

-- The messages behind the first one, except the last fifteen, and one of them at least.
abbrev pub old_messages : List ChatMessage → List ChatMessage
old_messages history = take (max (length history - 15) 2 - 1) (drop 1 history)

-- The history has 30 messages, or the last request was reported with 24000 tokens.
abbrev pub is_due : List ChatMessage → Option ℕ → Bool
is_due history tokens = leb 30 (length history) || leb 24_000 (get_or tokens 0)

-- There is one old message alone, and it is a summary.
abbrev pub is_summarised : List ChatMessage → Bool
is_summarised history =
    length (old_messages history) == 1
    && any (λ m. starts_with (codes "[Conversation summary]") (codes m.content))
        (old_messages history)

-- The reply of the model to the request for a summary of the old messages.
abbrev pub reply_on :
    {E : Type 0}
    → (String → String → String → Result E String)
    → String
    → List ChatMessage
    → Result E String
reply_on chat model history = chat summary_system (summary_prompt (old_messages history)) model

-- From a history of at least two messages: what is left of it, and the number of requests made.
pub data Compaction {E : Type 0} (chat : String → String → String → Result E String)
    (history : List ChatMessage) (model : String) (tokens : Option ℕ)
    : List ChatMessage → ℕ → Type 0 where
  not_due : is_due history tokens ≡ false → Compaction chat history model tokens history 0
  only_a_summary : is_summarised history ≡ true → Compaction chat history model tokens history 0
  summarised :
      (summary : String)
      → is_due history tokens ≡ true
      → is_summarised history ≡ false
      → reply_on chat model history ≡ ok summary
      → Compaction chat history model tokens
          (take 1 history
            ++ record {
              role = "system";
              content = concat ("[Conversation summary]: " ∷ summary ∷ []);
              tool_calls = [];
              tool_call_id = none;
              images = [];
            }
              ∷ drop (max (length history - 15) 2) history)
          1
  unanswered :
      (e : E)
      → is_due history tokens ≡ true
      → reply_on chat model history ≡ err e
      → length history ≤ 60
      → Compaction chat history model tokens history 1
  trimmed :
      (e : E)
      → is_due history tokens ≡ true
      → reply_on chat model history ≡ err e
      → 60 < length history
      → Compaction chat history model tokens
          (take 1 history ++ drop (length history - 20) history)
          1
