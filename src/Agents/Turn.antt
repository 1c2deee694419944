-- ===== src/Agents/Turn.antt =====
-- A turn of `AgentEngine`: the steps around the loop of `run_tool_loop_with_options`, from
-- src/agents/engine.rs.
pub mod Calls
pub mod Total
use ada_claw.Prelude.{
  ℕ, String, Bool, true, false, Option, none, some, List, [], ◌∷◌, ◌++◌, if◌then◌else◌,
}
use mathlib.Core.Option.{get_or}
use ada_claw.Agents.Message.{ImageData, ChatMessage, plain, user_with_images}
use ada_claw.Agents.Engine.{
  MessageEntry, new_entry, default_max_iterations, push_history, visible_messages,
  prune_history_for_topic_switch, detect_clean_intent,
}
use ada_claw.Agents.Loop.{
  World, TopicSwitch, same_topic, partial_drift, switched, TurnResult, answered, failed, exceeded,
  panicked, LoopState, Step, next, iterations,
}

-- The history after the scope was decided: an automatic switch hides the other topics, unless the
-- model takes the message for a wish to start afresh.
abbrev pub on_switch : Bool → TopicSwitch → List MessageEntry → List MessageEntry
on_switch wants_clean (switched topic) history =
    if wants_clean then history else prune_history_for_topic_switch topic history
on_switch wants_clean same_topic history = history
on_switch wants_clean partial_drift history = history

unfoldable pub decide_scope : String → TopicSwitch → Bool → List MessageEntry → List MessageEntry
unfolding detect_clean_intent prune_history_for_topic_switch
decide_scope input topic_switch wants_clean history =
    let switched_to = on_switch wants_clean topic_switch history in
    if detect_clean_intent input then history else switched_to

abbrev pub user_message : String → List ImageData → ChatMessage
user_message input images = user_with_images input images

-- What the end of the loop adds to the history.
abbrev pub record_answer : String → TurnResult → List MessageEntry → List MessageEntry
record_answer topic (answered reply) history =
    push_history (new_entry "assistant" reply topic) history
record_answer topic (failed e) history = history
record_answer topic (exceeded n) history = history
record_answer topic panicked history = history

-- What the caller passes, and what the topic manager answers: whether the topic switched, whether
-- the model then takes the message for a wish to start afresh, and the current topic.
pub record Input : Type 0 where
  pub text : String
  pub images : List ImageData
  pub max_iterations : Option ℕ
  pub topic_switch : TopicSwitch
  pub wants_clean : Bool
  pub current_topic : String

abbrev pub drifted : TopicSwitch → Bool
drifted same_topic = false
drifted partial_drift = true
drifted (switched topic) = true

-- The request that asks the model for the intent.
unfoldable pub intent_requests : Input → ℕ
unfolding detect_clean_intent
intent_requests i =
    if detect_clean_intent i.text then 0 else if drifted i.topic_switch then 1 else 0

unfoldable pub start_of : Input → List MessageEntry → LoopState
unfolding intent_requests visible_messages
start_of i scoped = record {
  messages = visible_messages scoped ++ user_message i.text i.images ∷ [];
  had_tool_error = false;
  last_prompt_tokens = none;
  calls = intent_requests i;
}

abbrev pub scoped_history : Input → List MessageEntry → List MessageEntry
scoped_history i history = decide_scope i.text i.topic_switch i.wants_clean history

-- The result, the number of requests to the provider, and the history.
unfoldable pub run_tool_loop :
    World → Input → List MessageEntry → TurnResult × ℕ × List MessageEntry
unfolding decide_scope visible_messages iterations start_of
run_tool_loop w i history =
    let scoped = scoped_history i history in
    let (result, calls) =
      iterations w (get_or i.max_iterations default_max_iterations) 0 i.text
        (next (start_of i scoped)) in
    (
      result,
      calls,
      record_answer i.current_topic result
          (push_history (new_entry "user" i.text i.current_topic) scoped),
    )
