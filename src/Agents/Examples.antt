-- ===== src/Agents/Examples.antt =====
-- Runs of the compaction and of turns of the engine, and the theorems at concrete inputs.
use ada_claw.Prelude.{
  concat, codes, codes_eq, Bool, false, true, ℕ, zero, suc, ◌≡◌, refl, String, not, ◌&&◌, Option,
  none, some, List, [], ◌∷◌, Result, ok, err, arith, length, is_some, ltb, ◌+◌, ◌*◌, ◌≤◌, true,
  false, drop,
}
use ada_claw.Agents.Engine.{
  MessageEntry, new_entry, visible_messages, prune_history_for_topic_switch,
  force_compress_messages,
}
use ada_claw.Agents.Engine.Topics.{visible_messages_back}
use ada_claw.Agents.Engine.Compress.{force_compress_messages_lem}
use ada_claw.Agents.Parser.{Json, PendingCall}
use ada_claw.Agents.Loop.{ChatResponse, World, LoopState, run_pending, same_topic, answered}
use ada_claw.Agents.Turn.Total.{is_panicked, run_tool_loop_never_panics}
use ada_claw.Agents.Turn.{Input, run_tool_loop}
use ada_claw.Agents.Turn.Calls.{run_tool_loop-calls, run_pending_lem}
use ada_claw.Agents.Message.{ToolCall, assistant_tool_calls, tool_result, ChatMessage, plain}
use ada_claw.Agents.Compact.{auto_compact_history, over_tokens, summary_requests}
use ada_claw.Agents.Compact.Shape.{auto_compact_history_panics_iff}
use ada_claw.Agents.Compact.Cases.{Compaction}
use ada_claw.Agents.Compact.Outcome.{auto_compact_history-Compaction}
use ada_claw.Agents.Dispatch.{finished}

abbrev chat : String → String → String → Result String String
chat system prompt model = ok "they greeted each other"

abbrev failing : String → String → String → Result String String
failing system prompt model = err "no connection"

abbrev message : ChatMessage
message = plain "user" "hello"

abbrev repeated : ℕ → List ChatMessage
repeated zero = []
repeated (suc n) = message ∷ repeated n

abbrev length_of : Option (List ChatMessage) → ℕ
length_of none = 0
length_of (some history) = length history

lengths :
    (length_of (auto_compact_history chat (repeated 40) "m" none) ≡ 17)
    × (length_of (auto_compact_history failing (repeated 61) "m" none) ≡ 21)
    × (length_of (auto_compact_history chat (repeated 29) "m" none) ≡ 29)
    × (auto_compact_history chat (repeated 1) "m" (some 24_000) ≡ none)
unfolding auto_compact_history
lengths = (refl, refl, refl, refl)

auto_compact_history-Compaction_example :
    (after : List ChatMessage) × (auto_compact_history chat (repeated 40) "m" (some 9) ≡ some after)
    × Compaction chat (repeated 40) "m" (some 9) after (summary_requests (repeated 40) (some 9))
    × (length after ≤ 60)
auto_compact_history-Compaction_example =
    auto_compact_history-Compaction chat (repeated 40) "m" (some 9) (omega arith)

-- One request for a summary of forty messages, and none for twenty.
asked : (summary_requests (repeated 40) none ≡ 1) × (summary_requests (repeated 20) none ≡ 0)
unfolding summary_requests
asked = (refl, refl)

auto_compact_history_panics_iff_example :
    is_some (auto_compact_history chat (repeated 1) "m" (some 24_000))
    ≡ not (over_tokens (some 24_000) && ltb (length (repeated 1)) 2)
auto_compact_history_panics_iff_example =
    auto_compact_history_panics_iff chat (repeated 1) "m" (some 24_000)

-- A provider that asks for a tool once, with a window that is too small at first.
abbrev ping : ToolCall
ping = record { id = "a1"; name = "ping"; arguments = "{}" }

abbrev reply_to : ℕ → List ChatMessage → Result String ChatResponse
reply_to zero messages = err "Maximum CONTEXT reached"
reply_to (suc zero) messages =
    ok (record { content = ""; tool_calls = ping ∷ []; prompt_tokens = some 120 })
reply_to (suc (suc n)) messages =
    ok (record { content = "pong"; tool_calls = []; prompt_tokens = none })

-- A reader of two texts.
abbrev ping_text : String
ping_text = "{\"name\":\"ping\",\"arguments\":{}}"

abbrev of_codes : Bool → Option String
of_codes true = some ping_text
of_codes false = none

abbrev json : Json
json = record {
  from_str = λ text. of_codes (codes_eq text (codes ping_text));
  name_of = λ val. some "ping";
  arguments_of = λ val. none;
  call_of = λ name args. args;
}

abbrev world : World
world = record {
  respond = reply_to;
  summarise = λ system prompt model. err "no summary";
  json = json;
  scrub_credentials = λ text. text;
  check = λ prompt. err "no check";
  correct = λ messages. err "no correction";
  tools =
      record {
        name = "ping";
        execute = λ iteration idx args. finished true "pong from the tool" none;
      }
      ∷ record { name = "fail"; execute = λ iteration idx args. finished false "" (some "no") }
      ∷ [];
  model = "m";
  streaming = false;
}

abbrev input : Input
input = record {
  text = "is it up?";
  images = [];
  max_iterations = some 4;
  topic_switch = same_topic;
  wants_clean = false;
  current_topic = "t";
}

turn :
    run_tool_loop world input []
    ≡ (answered "pong", 3, new_entry "user" "is it up?" "t" ∷ new_entry "assistant" "pong" "t" ∷ [])
unfolding run_tool_loop
turn = refl

-- A wish to check the answer costs one request more.
checked : (run_tool_loop world (record input { text = "verify: is it up?" }) []).1 ≡ 4
unfolding run_tool_loop
checked = refl

run_tool_loop-calls_example : (run_tool_loop world input []).1 ≤ 4 * 4 + 3
run_tool_loop-calls_example = run_tool_loop-calls world input []

abbrev begun : LoopState
begun = record {
  messages = plain "user" "is it up?" ∷ [];
  had_tool_error = false;
  last_prompt_tokens = none;
  calls = 2;
}

abbrev named : Option String → String → PendingCall
named id name = record { id = id; name = name; args = "{}" }

-- A tool that fails, one that is not there, and one that answers.
abbrev three : List PendingCall
three = named (some "a1") "fail" ∷ named none "gone" ∷ named (some "a2") "ping" ∷ []

run_pending_lem_example : run_pending world 0 begun three ≡ record begun {
  messages =
      plain "user" "is it up?"
      ∷ tool_result "a1" "Error: no"
      ∷ plain "tool" "[gone]: Error: tool 'gone' not found"
      ∷ tool_result "a2" "pong from the tool"
      ∷ [];
  had_tool_error = true;
}
unfolding concat
run_pending_lem_example = run_pending_lem world 0 begun three

abbrev entries : List MessageEntry
entries = new_entry "user" "old" "rust" ∷ new_entry "user" "new" "cooking" ∷ []

visible_messages_back_example :
    visible_messages
      (prune_history_for_topic_switch "rust" (prune_history_for_topic_switch "cooking" entries))
    ≡ []
visible_messages_back_example = visible_messages_back "rust" "cooking" entries refl

abbrev six : List ChatMessage
six =
    plain "user" "1"
    ∷ assistant_tool_calls "" (ping ∷ [])
    ∷ tool_result "a1" "pong"
    ∷ plain "assistant" "up"
    ∷ plain "user" "2"
    ∷ []

-- The compression can keep the result of a call that it has dropped.
orphan :
    force_compress_messages six
    ≡ tool_result "a1" "pong" ∷ plain "assistant" "up" ∷ plain "user" "2" ∷ []
unfolding force_compress_messages
orphan = refl

force_compress_messages_lem_example :
    force_compress_messages (plain "system" "be brief" ∷ six)
    ≡ plain "system" "be brief" ∷ drop 2 six
force_compress_messages_lem_example = force_compress_messages_lem (plain "system" "be brief") six

run_tool_loop_never_panics_example : is_panicked ((run_tool_loop world input entries).0) ≡ false
run_tool_loop_never_panics_example = run_tool_loop_never_panics world input entries
