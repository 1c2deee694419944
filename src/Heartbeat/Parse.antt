-- ===== src/Heartbeat/Parse.antt =====
-- The two parsers of HEARTBEAT.md find the same tasks, and read back a list that is written out.
use ada_claw.Prelude.{
  ◌≡◌, refl, ◌∙◌, true, Option, none, some, List, [], ◌∷◌, Codes, codes, strip_prefix, starts_with,
  trim, lines, map, arith, Option-cases, Bool-cases, inl, inr,
}
use mathlib.Core.Option
use ada_claw.Heartbeat.Tasks.{
  TaskKind, quick, HeartbeatTask, new_task, unless_empty, nonempty, trimmed_task, after_mark,
  task_of_line, keep_some, filter_map, parse_heartbeat_tasks, typed_description, on_line, line_step,
  typed_loop, parse_heartbeat_tasks_typed,
}

-- A line with the mark of a section has no task.
after_mark-header :
    (trimmed header : Codes)
    → strip_prefix (codes "## ") trimmed ≡ some header
    → after_mark trimmed ≡ none
unfolding after_mark strip_prefix
after_mark-header [] header h = refl
after_mark-header (c ∷ s) header h = ground arith

after_mark-title :
    (trimmed : Codes) → starts_with (codes "# ") trimmed ≡ true → after_mark trimmed ≡ none
unfolding after_mark strip_prefix starts_with
after_mark-title [] h = refl
after_mark-title (c ∷ s) h = ground arith

nonempty_lem : (text : Codes) → nonempty (some text) ≡ unless_empty text
nonempty_lem [] = refl
nonempty_lem (c ∷ s) = refl

nonempty-trim : (trimmed : Codes) → typed_description trimmed ≡ trimmed_task (after_mark trimmed)
unfolding typed_description
nonempty-trim trimmed = elim (Option-cases (after_mark trimmed)) [
  | inl e ↦ rw e refl
  | inr (rest, e) ↦ rw e (nonempty_lem (trim rest))
]

map-description :
    (kind : TaskKind) (text : Option Codes)
    → Option.map (λ task. task.description) (Option.map (new_task kind) text) ≡ text
map-description kind none = refl
map-description kind (some t) = refl

on_line-description :
    (kind : TaskKind) (trimmed : Codes)
    → Option.map (λ task. task.description) ((on_line kind trimmed none).1)
      ≡ typed_description trimmed
unfolding on_line
on_line-description kind trimmed = elim (Bool-cases (starts_with (codes "# ") trimmed)) [
  | inl e ↦ rw (e, nonempty-trim trimmed, after_mark-title trimmed e) refl
  | inr e ↦ rw e (map-description kind (typed_description trimmed))
]

line_step-description :
    (kind : TaskKind) (trimmed : Codes)
    → Option.map (λ task. task.description) ((line_step kind trimmed).1) ≡ typed_description trimmed
unfolding line_step
line_step-description kind trimmed = elim (Option-cases (strip_prefix (codes "## ") trimmed)) [
  | inl e ↦ rw e (on_line-description kind trimmed)
  | inr (header, e) ↦ rw (e, nonempty-trim trimmed, after_mark-header trimmed header e) refl
]

keep_some-descriptions :
    (task : Option HeartbeatTask) (rest : List HeartbeatTask)
    → map (λ task. task.description) (keep_some task rest)
      ≡ keep_some (Option.map (λ task. task.description) task) (map (λ task. task.description) rest)
keep_some-descriptions none rest = refl
keep_some-descriptions (some task) rest = refl

typed_loop-descriptions :
    (kind : TaskKind) (content : List Codes)
    → map (λ task. task.description) (typed_loop kind content) ≡ filter_map task_of_line content
unfolding typed_loop task_of_line
typed_loop-descriptions kind [] = refl
typed_loop-descriptions kind (line ∷ rest) =
    let turn = line_step kind (trim line) in
    keep_some-descriptions (turn.1) (typed_loop (turn.0) rest)
    ∙ (rw
        (
          line_step-description kind (trim line),
          nonempty-trim (trim line),
          typed_loop-descriptions (turn.0) rest,
        )
        refl)

-- The typed parser finds the tasks of the plain one, in the same order.
pub parse_heartbeat_tasks_typed-descriptions :
    (content : Codes)
    → map (λ task. task.description) (parse_heartbeat_tasks_typed content)
      ≡ parse_heartbeat_tasks content
unfolding parse_heartbeat_tasks_typed parse_heartbeat_tasks
parse_heartbeat_tasks_typed-descriptions content = typed_loop-descriptions quick (lines content)
