-- ===== src/Heartbeat/RoundTrip.antt =====
-- A list of tasks that is written as a file of HEARTBEAT.md's form is read back by src/cron/scheduler.rs.
use ada_claw.Prelude.{
  ◌≡◌, refl, sym, ap, ◌∙◌, Bool, true, false, not, ◌&&◌, Option, none, some, List, [], ◌∷◌, ◌++◌,
  Codes, codes, any, is_whitespace, trim_start, trim, lines, breaks_line, lines-append, &&_true,
  arith,
}
use mathlib.Core.List.{reverse, reverse-append, reverse-reverse, append-nil}
use mathlib.Core.Option
use ada_claw.Heartbeat.Tasks.{
  nonempty, keep_some, TaskKind, quick, spawn, HeartbeatTask, new_task, line_step, typed_loop,
  parse_heartbeat_tasks_typed,
}

abbrev pub starts_dark : Codes → Bool
starts_dark [] = false
starts_dark (c ∷ s) = not (is_whitespace c)

-- A text of one line that neither begins nor ends with white space.
abbrev pub is_description : Codes → Bool
is_description text = starts_dark text && starts_dark (reverse text) && not (any breaks_line text)

abbrev pub all_descriptions : List HeartbeatTask → Bool
all_descriptions [] = true
all_descriptions (task ∷ rest) = is_description task.description && all_descriptions rest

abbrev mark : Codes
mark = codes "- [ ] "

abbrev section_line : TaskKind → Codes
section_line quick = codes "## Quick Tasks"
section_line spawn = codes "## Long Tasks"

-- A section of its own for every task.
unfoldable pub write_tasks : List HeartbeatTask → Codes
write_tasks [] = []
write_tasks (task ∷ rest) =
    section_line task.kind ++ 10 ∷ ((mark ++ task.description) ++ 10 ∷ write_tasks rest)

both_ends :
    (text : Codes)
    → is_description text ≡ true
    → (starts_dark text ≡ true) × (starts_dark (reverse text) ≡ true)
both_ends text h = ground arith

unbroken : (text : Codes) → is_description text ≡ true → any breaks_line (mark ++ text) ≡ false
unbroken text h = ground arith

trim_start-append :
    (text rest : Codes) → starts_dark text ≡ true → trim_start (text ++ rest) ≡ text ++ rest
unfolding trim_start
trim_start-append [] rest h = cc
trim_start-append (c ∷ text) rest h = ground arith

starts_dark-append :
    (text rest : Codes) → starts_dark text ≡ true → starts_dark (text ++ rest) ≡ true
starts_dark-append [] rest h = cc
starts_dark-append (c ∷ text) rest h = h

trim_lem :
    (text : Codes) → starts_dark text ≡ true → starts_dark (reverse text) ≡ true → trim text ≡ text
unfolding trim
trim_lem text h k =
    let front : trim_start text ≡ text =
      sym (ap trim_start (append-nil text)) ∙ trim_start-append text [] h ∙ append-nil text in
    let back : trim_start (reverse text) ≡ reverse text =
      sym (ap trim_start (append-nil (reverse text)))
      ∙ trim_start-append (reverse text) [] k
      ∙ append-nil (reverse text) in
    rw (front, back) (reverse-reverse text)

trim-mark : (text : Codes) → starts_dark (reverse text) ≡ true → trim (mark ++ text) ≡ mark ++ text
unfolding is_whitespace
trim-mark text k =
    trim_lem (mark ++ text) refl (
      ap starts_dark (reverse-append mark text)
      ∙ starts_dark-append (reverse text) (reverse mark) k)

line_step-section_line :
    (kind next : TaskKind) → line_step kind (trim (section_line next)) ≡ (next, none)
unfolding line_step
line_step-section_line kind quick = refl
line_step-section_line kind spawn = refl

line_step-mark :
    (kind : TaskKind) (text : Codes)
    → is_description text ≡ true
    → line_step kind (trim (mark ++ text)) ≡ (kind, some (new_task kind text))
unfolding line_step
line_step-mark kind [] h = cc
line_step-mark kind (c ∷ text) h =
    let (dark, back) = both_ends (c ∷ text) h in
    ap (line_step kind) (trim-mark (c ∷ text) back)
    ∙ ap (λ t. (kind, Option.map (new_task kind) (nonempty (some t))))
        (trim_lem (c ∷ text) dark back)

section_line-unbroken : (kind : TaskKind) → any breaks_line (section_line kind) ≡ false
section_line-unbroken quick = refl
section_line-unbroken spawn = refl

typed_loop-line :
    (kind next : TaskKind) (line : Codes) (found : Option HeartbeatTask) (rest : List Codes)
    → line_step kind (trim line) ≡ (next, found)
    → typed_loop kind (line ∷ rest) ≡ keep_some found (typed_loop next rest)
unfolding typed_loop
typed_loop-line kind next line found rest h =
    ap (λ turn. keep_some (turn.1) (typed_loop (turn.0) rest)) h

typed_loop-task :
    (kind : TaskKind) (task : HeartbeatTask) (rest : Codes)
    → is_description task.description ≡ true
    → typed_loop kind
        (lines (section_line task.kind ++ 10 ∷ ((mark ++ task.description) ++ 10 ∷ rest)))
      ≡ task ∷ typed_loop task.kind (lines rest)
typed_loop-task kind task rest h =
    ap (typed_loop kind) (
      lines-append (section_line task.kind) _ (section_line-unbroken task.kind)
      ∙ ap (λ more. section_line task.kind ∷ more)
          (lines-append (mark ++ task.description) rest (unbroken task.description h)))
    ∙ typed_loop-line kind task.kind _ none _ (line_step-section_line kind task.kind)
    ∙ typed_loop-line task.kind task.kind _ (some task) _
        (line_step-mark task.kind task.description h)

typed_loop-write_tasks :
    (kind : TaskKind) (tasks : List HeartbeatTask)
    → all_descriptions tasks ≡ true
    → typed_loop kind (lines (write_tasks tasks)) ≡ tasks
unfolding write_tasks typed_loop lines
typed_loop-write_tasks kind [] h = refl
typed_loop-write_tasks kind (task ∷ rest) h =
    let (good, later) = &&_true (is_description task.description) (all_descriptions rest) h in
    typed_loop-task kind task (write_tasks rest) good
    ∙ ap (λ more. task ∷ more) (typed_loop-write_tasks task.kind rest later)

-- Tasks whose descriptions are single lines without white space at their ends, written with a
-- section of its own for each, are read back by the typed parser with their kinds, in order.
pub parse_heartbeat_tasks_typed-write_tasks :
    (tasks : List HeartbeatTask)
    → all_descriptions tasks ≡ true
    → parse_heartbeat_tasks_typed (write_tasks tasks) ≡ tasks
unfolding parse_heartbeat_tasks_typed
parse_heartbeat_tasks_typed-write_tasks tasks h = typed_loop-write_tasks quick tasks h
