-- ===== src/Agents/Compact.antt =====
-- src/agents/compact.rs. `none` stands for a panic: a slice whose end lies behind the history. The
-- call of the model is a parameter; its temperature is the constant of the source.
pub mod Shape
pub mod Cases
pub mod Outcome
use ada_claw.Prelude.{
  ℕ, zero, suc, ◌+◌, ◌-◌, ◌≤◌, String, Bool, true, false, not, ◌&&◌, ◌||◌, Option, none, some, List,
  [], ◌∷◌, ◌++◌, Result, ok, err, leb, ltb, ◌==◌, if◌then◌else◌, length, take, drop, max, concat,
  codes, starts_with, map,
}
use ada_claw.Agents.Message.{ChatMessage, plain}

abbrev pub hard_max_history : ℕ
hard_max_history = 60

abbrev pub rolling_threshold : ℕ
rolling_threshold = 30

abbrev pub rolling_token_threshold : ℕ
rolling_token_threshold = 24_000

abbrev pub rolling_keep : ℕ
rolling_keep = 15

abbrev pub hard_keep_recent : ℕ
hard_keep_recent = 20

-- `drain(1..end)`, for an end within the history.
abbrev pub drain_from_1 : ℕ → List ChatMessage → List ChatMessage
drain_from_1 end history = take 1 history ++ drop end history

unfoldable pub trim_history : List ChatMessage → List ChatMessage
trim_history history =
    let drain_end = length history - hard_keep_recent in
    if ltb hard_max_history (length history) && ltb 1 drain_end
    then drain_from_1 drain_end history
    else history

abbrev pub over_tokens : Option ℕ → Bool
over_tokens none = false
over_tokens (some t) = leb rolling_token_threshold t

abbrev pub sum_end_of : List ChatMessage → ℕ
sum_end_of history = max (length history - rolling_keep) 2

-- `&history[1..end]`.
abbrev pub slice_from_1 : ℕ → List ChatMessage → Option (List ChatMessage)
slice_from_1 end history =
    if leb end (length history) then some (take (end - 1) (drop 1 history)) else none

abbrev pub is_old_summary : List ChatMessage → Bool
is_old_summary [] = false
is_old_summary (m ∷ []) = starts_with (codes "[Conversation summary]") (codes m.content)
is_old_summary (m ∷ _ ∷ _) = false

abbrev join_lines : List String → List String
join_lines [] = []
join_lines (line ∷ []) = line ∷ []
join_lines (line ∷ next ∷ rest) = line ∷ "\n" ∷ join_lines (next ∷ rest)

abbrev line_of : ChatMessage → String
line_of m = concat ("[" ∷ m.role ∷ "]: " ∷ m.content ∷ [])

unfoldable pub summary_prompt : List ChatMessage → String
unfolding concat
summary_prompt to_summarise = concat (
    "Summarise the following conversation history concisely. Preserve all key facts, decisions, tool results, and context that may be needed later. Be brief but complete.\n\n"
    ∷ join_lines (map line_of to_summarise))

abbrev pub summary_system : String
summary_system =
    "You are a precise conversation archivist. Produce a dense, structured summary that captures everything important."

abbrev pub summary_message : String → ChatMessage
summary_message summary = plain "system" (concat ("[Conversation summary]: " ∷ summary ∷ []))

-- `history.insert(1, …)`.
abbrev pub insert_at_1 : ChatMessage → List ChatMessage → List ChatMessage
insert_at_1 m history = take 1 history ++ (m ∷ drop 1 history)

module _ {E : Type 0} (chat_with_system : String → String → String → Result E String) where
  unfoldable pub replace_old : ℕ → List ChatMessage → Result E String → List ChatMessage
  unfolding trim_history
  replace_old sum_end history (ok summary) =
      insert_at_1 (summary_message summary) (drain_from_1 sum_end history)
  replace_old sum_end history (err e) = trim_history history

  unfoldable pub summarise :
      String → ℕ → List ChatMessage → Option (List ChatMessage) → Option (List ChatMessage)
  unfolding replace_old summary_prompt
  summarise model sum_end history none = none
  summarise model sum_end history (some to_summarise) =
      if is_old_summary to_summarise
      then some history
      else some (
          replace_old sum_end history
            (chat_with_system summary_system (summary_prompt to_summarise) model))

  unfoldable pub rolling_compact : List ChatMessage → String → Option ℕ → Option (List ChatMessage)
  unfolding summarise
  rolling_compact history model prompt_tokens =
      let sum_end = sum_end_of history in
      if not (leb rolling_threshold (length history)) && not (over_tokens prompt_tokens)
      then some history
      else if leb sum_end 1
      then some history
      else summarise model sum_end history (slice_from_1 sum_end history)

  abbrev pub trim_if_over : Option (List ChatMessage) → Option (List ChatMessage)
  trim_if_over none = none
  trim_if_over (some history) =
      if ltb hard_max_history (length history) then some (trim_history history) else some history

  unfoldable pub auto_compact_history :
      List ChatMessage → String → Option ℕ → Option (List ChatMessage)
  unfolding rolling_compact trim_history
  auto_compact_history history model prompt_tokens =
      trim_if_over (rolling_compact history model prompt_tokens)

-- The requests of `rolling_compact`: one if there is something to summarise.
abbrev requests_for : Option (List ChatMessage) → ℕ
requests_for none = 0
requests_for (some to_summarise) = if is_old_summary to_summarise then 0 else 1

unfoldable pub summary_requests : List ChatMessage → Option ℕ → ℕ
summary_requests history prompt_tokens =
    let sum_end = sum_end_of history in
    if not (leb rolling_threshold (length history)) && not (over_tokens prompt_tokens)
    then 0
    else if leb sum_end 1
    then 0
    else requests_for (slice_from_1 sum_end history)
