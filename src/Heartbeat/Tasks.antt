-- ===== src/Heartbeat/Tasks.antt =====
-- The tasks written in HEARTBEAT.md, from src/cron/scheduler.rs.
-- Texts are lists of code points.
use ada_claw.Prelude.{
  Option, none, some, List, [], ◌∷◌, if◌then◌else◌, Codes, codes, strip_prefix, starts_with, trim,
  to_lower, lines,
}
use mathlib.Core.Option

pub data TaskKind : Type 0 where
  quick spawn : TaskKind

pub record HeartbeatTask : Type 0 where
  pub description : Codes
  pub kind : TaskKind

abbrev pub new_task : TaskKind → Codes → HeartbeatTask
new_task current_kind desc = record { description = desc; kind = current_kind }

abbrev or_else {ℓ} : {A : Type ℓ} → Option A → Option A → Option A
or_else (some a) other = some a
or_else none other = other

abbrev pub unless_empty : Codes → Option Codes
unless_empty [] = none
unless_empty (c ∷ s) = some (c ∷ s)

-- The text after the mark of a pending task.
unfoldable pub after_mark : Codes → Option Codes
unfolding strip_prefix
after_mark trimmed =
    or_else (strip_prefix (codes "- [ ] ") trimmed) (strip_prefix (codes "* [ ] ") trimmed)

abbrev pub trimmed_task : Option Codes → Option Codes
trimmed_task none = none
trimmed_task (some rest) = unless_empty (trim rest)

-- The closure of `filter_map`.
unfoldable pub task_of_line : Codes → Option Codes
unfolding trim
task_of_line line = trimmed_task (after_mark (trim line))

abbrev pub keep_some {ℓ} : {A : Type ℓ} → Option A → List A → List A
keep_some none rest = rest
keep_some (some a) rest = a ∷ rest

abbrev pub filter_map {ℓ} : {A B : Type ℓ} → (A → Option B) → List A → List B
filter_map f [] = []
filter_map f (a ∷ rest) = keep_some (f a) (filter_map f rest)

unfoldable pub parse_heartbeat_tasks : Codes → List Codes
unfolding task_of_line lines
parse_heartbeat_tasks content = filter_map task_of_line (lines content)

unfoldable pub kind_of_header : Codes → TaskKind
unfolding trim to_lower starts_with
kind_of_header header_rest =
    if starts_with (codes "long") (to_lower (trim header_rest)) then spawn else quick

-- `.map(str::trim).filter(|t| !t.is_empty())`.
abbrev pub nonempty : Option Codes → Option Codes
nonempty none = none
nonempty (some []) = none
nonempty (some (c ∷ s)) = some (c ∷ s)

unfoldable pub typed_description : Codes → Option Codes
unfolding after_mark trim
typed_description trimmed = nonempty (Option.map trim (after_mark trimmed))

-- One turn of the loop on a trimmed line that has, or has not, the mark of a section: the kind from
-- there on, and the task that is pushed.
unfoldable pub on_line : TaskKind → Codes → Option Codes → TaskKind × Option HeartbeatTask
unfolding kind_of_header typed_description starts_with
on_line current_kind trimmed (some header_rest) = (kind_of_header header_rest, none)
on_line current_kind trimmed none =
    if starts_with (codes "# ") trimmed
    then (current_kind, none)
    else (current_kind, Option.map (new_task current_kind) (typed_description trimmed))

unfoldable pub line_step : TaskKind → Codes → TaskKind × Option HeartbeatTask
unfolding on_line strip_prefix
line_step current_kind trimmed = on_line current_kind trimmed (strip_prefix (codes "## ") trimmed)

unfoldable pub typed_loop : TaskKind → List Codes → List HeartbeatTask
unfolding line_step trim
typed_loop current_kind [] = []
typed_loop current_kind (line ∷ rest) =
    let turn = line_step current_kind (trim line) in keep_some (turn.1) (typed_loop (turn.0) rest)

unfoldable pub parse_heartbeat_tasks_typed : Codes → List HeartbeatTask
unfolding typed_loop lines
parse_heartbeat_tasks_typed content = typed_loop quick (lines content)
