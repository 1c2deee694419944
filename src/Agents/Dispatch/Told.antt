-- ===== src/Agents/Dispatch/Told.antt =====
-- What each call of an iteration of src/agents/engine.rs is meant to give.
use ada_claw.Prelude.{
  ℕ, suc, String, Bool, true, false, not, ◌||◌, Option, none, some, List, [], ◌∷◌, find, concat,
  str_eq,
}
use ada_claw.Agents.Message.{ChatMessage}
use ada_claw.Agents.Parser.{PendingCall}
use ada_claw.Agents.Dispatch.{Outcome, finished, raised, Tool}

-- What the model is told of an outcome, and whether it is a success.
abbrev pub told : Outcome → String × Bool
told (finished true output error) = (output, true)
told (finished false output (some e)) = (concat ("Error: " ∷ e ∷ []), false)
told (finished false output none) = ("Error: unknown error", false)
told (raised e) = (concat ("Error executing tool: " ∷ e ∷ []), false)

abbrev pub told_by : ℕ → ℕ → PendingCall → Option Tool → String × Bool
told_by iteration idx pc none = (concat ("Error: tool '" ∷ pc.name ∷ "' not found" ∷ []), false)
told_by iteration idx pc (some tool) = told (tool.execute iteration idx pc.args)

-- The result of the call at a place: that of the first tool of its name.
abbrev pub result_at : List Tool → ℕ → ℕ → PendingCall → String × Bool
result_at tools iteration idx pc =
    told_by iteration idx pc (find (λ t. str_eq t.name pc.name) tools)

-- A native call gets a result with its id, and one of the text a line with its name.
abbrev pub as_message : PendingCall → Option String → String → ChatMessage
as_message pc (some id) content = record {
  role = "tool";
  content = content;
  tool_calls = [];
  tool_call_id = some id;
  images = [];
}
as_message pc none content = record {
  role = "tool";
  content = concat ("[" ∷ pc.name ∷ "]: " ∷ content ∷ []);
  tool_calls = [];
  tool_call_id = none;
  images = [];
}

abbrev pub results : List Tool → ℕ → ℕ → List PendingCall → List ChatMessage
results tools iteration idx [] = []
results tools iteration idx (pc ∷ rest) =
    as_message pc pc.id ((result_at tools iteration idx pc).0)
    ∷ results tools iteration (suc idx) rest

abbrev pub some_failed : List Tool → ℕ → ℕ → List PendingCall → Bool
some_failed tools iteration idx [] = false
some_failed tools iteration idx (pc ∷ rest) =
    not ((result_at tools iteration idx pc).1) || some_failed tools iteration (suc idx) rest
