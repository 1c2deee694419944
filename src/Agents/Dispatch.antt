-- ===== src/Agents/Dispatch.antt =====
-- The calls of an iteration of src/agents/engine.rs: `run_tool_loop_with_options` starts the tools that
-- it knows, waits for all of them, and puts the results in slots in the order of the calls.
pub mod Told
pub mod Results
use ada_claw.Prelude.{
  ℕ, zero, suc, String, Bool, true, false, not, ◌||◌, Option, none, some, List, [], ◌∷◌, ◌++◌, find,
  map, concat, str_eq,
}
use mathlib.Core.Option.{get_or}
use ada_claw.Agents.Message.{ChatMessage, plain, tool_result}
use ada_claw.Agents.Parser.{PendingCall}

-- What `execute` gives: a result with its flag, output and error, or a failure.
pub data Outcome : Type 0 where
  finished : Bool → String → Option String → Outcome
  raised : String → Outcome

-- A tool, with what it gives for the call at a place of an iteration and the text of the arguments.
pub record Tool : Type 0 where
  pub name : String
  pub execute : ℕ → ℕ → String → Outcome

abbrev pub Slot : Type 0
Slot = Option (String × String)

-- A tool that was started, with the place of its call.
pub record Future : Type 0 where
  pub idx : ℕ
  pub name : String
  pub outcome : Outcome

pub record Running : Type 0 where
  pub slots : List Slot
  pub futures : List Future
  pub had_tool_error : Bool

unfoldable pub set_slot : ℕ → String × String → List Slot → List Slot
set_slot i v [] = []
set_slot zero v (slot ∷ rest) = some v ∷ rest
set_slot (suc i) v (slot ∷ rest) = slot ∷ set_slot i v rest

unfoldable pub start : ℕ → ℕ → PendingCall → Option Tool → Running → Running
unfolding set_slot concat
start iteration idx pc (some tool) r = record r {
  futures =
      r.futures
      ++ record { idx = idx; name = pc.name; outcome = tool.execute iteration idx pc.args } ∷ [];
}
start iteration idx pc none r = record r {
  slots = set_slot idx (pc.name, concat ("Error: tool '" ∷ pc.name ∷ "' not found" ∷ [])) r.slots;
  had_tool_error = true;
}

-- The first loop, from the place of the first of the calls.
unfoldable pub start_all : List Tool → ℕ → ℕ → List PendingCall → Running → Running
unfolding start
start_all tools iteration idx [] r = r
start_all tools iteration idx (pc ∷ rest) r =
    start_all tools iteration (suc idx) rest
      (start iteration idx pc (find (λ t. str_eq t.name pc.name) tools) r)

unfoldable pub outcome_text : Outcome → String × Bool
unfolding concat
outcome_text (finished true output error) = (output, true)
outcome_text (finished false output error) =
    (concat ("Error: " ∷ get_or error "unknown error" ∷ []), false)
outcome_text (raised e) = (concat ("Error executing tool: " ∷ e ∷ []), false)

-- The second loop, over what `join_all` gives.
unfoldable pub finish_all : List Future → Running → Running
unfolding outcome_text set_slot
finish_all [] r = r
finish_all (f ∷ rest) r =
    let (content, success) = outcome_text f.outcome in
    finish_all rest (record r {
      slots = set_slot f.idx (f.name, content) r.slots;
      had_tool_error = r.had_tool_error || not success;
    })

abbrev pub result_message : Option String → String → String → ChatMessage
result_message (some id) name content = tool_result id content
result_message none name content = plain "tool" (concat ("[" ∷ name ∷ "]: " ∷ content ∷ []))

-- The third loop, over the calls and their slots.
unfoldable pub stitch : List PendingCall → List Slot → List ChatMessage
unfolding concat
stitch [] slots = []
stitch (pc ∷ rest) [] = []
stitch (pc ∷ rest) (none ∷ slots) = stitch rest slots
stitch (pc ∷ rest) (some (name, content) ∷ slots) =
    result_message pc.id name content ∷ stitch rest slots

abbrev pub started : List Tool → ℕ → List PendingCall → Bool → Running
started tools iteration pending had_tool_error =
    start_all tools iteration 0 pending
      (record { slots = map (λ pc. none) pending; futures = []; had_tool_error = had_tool_error })

abbrev pub finished_all : Running → Running
finished_all r = finish_all r.futures r

-- The messages of the results, and whether a tool has failed so far.
unfoldable pub run_calls : List Tool → ℕ → List PendingCall → Bool → List ChatMessage × Bool
unfolding start_all finish_all stitch
run_calls tools iteration pending had_tool_error =
    let r = finished_all (started tools iteration pending had_tool_error) in
    (stitch pending r.slots, r.had_tool_error)
