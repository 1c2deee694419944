-- ===== src/Agents/Dispatch/Results.antt =====
-- The slots of the calls hold what each call is meant to give.
use ada_claw.Prelude.{
  ℕ, suc, ◌≡◌, refl, sym, ap, ◌∙◌, String, Bool, true, false, not, ◌||◌, Option, none, some, List,
  [], ◌∷◌, ◌++◌, find, map, concat, str_eq, length, arith, length-append,
}
use mathlib.Core.Path.{subst}
use mathlib.Core.List.{append_assoc, append-nil}
use ada_claw.Agents.Parser.{PendingCall}
use ada_claw.Agents.Dispatch.Told.{told, told_by, result_at, as_message, results, some_failed}
use ada_claw.Agents.Dispatch.{
  Outcome, finished, raised, Tool, Slot, Future, Running, set_slot, start, start_all, outcome_text,
  finish_all, result_message, stitch, finished_all, run_calls,
}

set_slot-append :
    (pre : List Slot) (v : String × String) (slot : Slot) (rest : List Slot)
    → set_slot (length pre) v (pre ++ slot ∷ rest) ≡ pre ++ some v ∷ rest
unfolding set_slot
set_slot-append [] v slot rest = refl
set_slot-append (p ∷ pre) v slot rest = ap (λ l. p ∷ l) (set_slot-append pre v slot rest)

-- The slot, the future and the flags of a call once it is started.
abbrev slot_of : PendingCall → Option Tool → Slot
slot_of pc none = some (pc.name, concat ("Error: tool '" ∷ pc.name ∷ "' not found" ∷ []))
slot_of pc (some tool) = none

abbrev future_of : ℕ → ℕ → PendingCall → Option Tool → List Future
future_of iteration idx pc none = []
future_of iteration idx pc (some tool) =
    record { idx = idx; name = pc.name; outcome = tool.execute iteration idx pc.args } ∷ []

abbrev is_unknown : Option Tool → Bool
is_unknown none = true
is_unknown (some tool) = false

abbrev has_failed : ℕ → ℕ → PendingCall → Option Tool → Bool
has_failed iteration idx pc none = false
has_failed iteration idx pc (some tool) = not ((told (tool.execute iteration idx pc.args)).1)

or_false : (b : Bool) → (b || false) ≡ b
or_false true = refl
or_false false = refl

or_true : (b : Bool) → true ≡ (b || true)
or_true true = refl
or_true false = refl

or_assoc : (a b c : Bool) → ((a || b) || c) ≡ (a || (b || c))
or_assoc true b c = refl
or_assoc false b c = refl

outcome_text_lem : (o : Outcome) → outcome_text o ≡ told o
unfolding outcome_text concat
outcome_text_lem (finished true output error) = refl
outcome_text_lem (finished false output (some e)) = refl
outcome_text_lem (finished false output none) = refl
outcome_text_lem (raised e) = refl

abbrev running : List Slot → List Future → Bool → Running
running slots futures had = record { slots = slots; futures = futures; had_tool_error = had }

start_lem :
    (iteration : ℕ) (pc : PendingCall) (found : Option Tool) (pre rest : List Slot)
    (fs : List Future) (h : Bool)
    → start iteration (length pre) pc found (running (pre ++ none ∷ rest) fs h)
      ≡ running
          (pre ++ slot_of pc found ∷ rest)
          (fs ++ future_of iteration (length pre) pc found)
          (h || is_unknown found)
unfolding start
start_lem iteration pc (some tool) pre rest fs h = rw (or_false h) refl
start_lem iteration pc none pre rest fs h =
    ap (λ l. running l fs true) (set_slot-append pre (pc.name, _) none rest)
    ∙ ap (λ l. running (pre ++ slot_of pc none ∷ rest) l true) (sym (append-nil fs))
    ∙ ap (λ b. running (pre ++ slot_of pc none ∷ rest) (fs ++ []) b) (or_true h)

finish_lem :
    (iteration : ℕ) (pc : PendingCall) (found : Option Tool) (pre rest : List Slot)
    (more fs : List Future) (h : Bool)
    → finish_all
        (future_of iteration (length pre) pc found ++ more)
        (running (pre ++ slot_of pc found ∷ rest) fs h)
      ≡ finish_all more (
          running
            (pre ++ some (pc.name, (told_by iteration (length pre) pc found).0) ∷ rest)
            fs
            (h || has_failed iteration (length pre) pc found))
unfolding finish_all
finish_lem iteration pc none pre rest more fs h =
    ap (λ b. finish_all more (running (pre ++ slot_of pc none ∷ rest) fs b)) (sym (or_false h))
finish_lem iteration pc (some tool) pre rest more fs h =
    let o = tool.execute iteration (length pre) pc.args in
    ap
      (λ t.
        finish_all more
          (running (set_slot (length pre) (pc.name, t.0) (pre ++ none ∷ rest)) fs (h || not t.1)))
      (outcome_text_lem o)
    ∙ ap (λ l. finish_all more (running l fs (h || not (told o).1)))
        (set_slot-append pre (pc.name, (told o).0) none rest)

module _ (tools : List Tool) (iteration : ℕ) where
  abbrev tool_of : PendingCall → Option Tool
  tool_of pc = find (λ t. str_eq t.name pc.name) tools

  abbrev reserved : List PendingCall → List Slot
  reserved [] = []
  reserved (pc ∷ rest) = slot_of pc (tool_of pc) ∷ reserved rest

  abbrev futures_of : ℕ → List PendingCall → List Future
  futures_of idx [] = []
  futures_of idx (pc ∷ rest) = future_of iteration idx pc (tool_of pc) ++ futures_of (suc idx) rest

  abbrev unknown : List PendingCall → Bool
  unknown [] = false
  unknown (pc ∷ rest) = is_unknown (tool_of pc) || unknown rest

  abbrev failures : ℕ → List PendingCall → Bool
  failures idx [] = false
  failures idx (pc ∷ rest) = has_failed iteration idx pc (tool_of pc) || failures (suc idx) rest

  abbrev filled : ℕ → List PendingCall → List Slot
  filled idx [] = []
  filled idx (pc ∷ rest) =
      some (pc.name, (result_at tools iteration idx pc).0) ∷ filled (suc idx) rest

  snoc_length :
      (pre : List Slot) (slot : Slot) (idx : ℕ)
      → length pre ≡ idx
      → length (pre ++ slot ∷ []) ≡ suc idx
  snoc_length pre slot idx e = omega (arith, e, length-append pre (slot ∷ []))

  start_all_lem :
      (pending : List PendingCall) (idx : ℕ) (pre : List Slot) (fs : List Future) (h : Bool)
      → length pre ≡ idx
      → start_all tools iteration idx pending (running (pre ++ map (λ pc. none) pending) fs h)
        ≡ running (pre ++ reserved pending) (fs ++ futures_of idx pending) (h || unknown pending)
  unfolding start_all
  start_all_lem [] idx pre fs h e = rw (append-nil fs, or_false h) refl
  start_all_lem (pc ∷ rest) idx pre fs h e =
      let t = tool_of pc in
      let s = slot_of pc t in
      let f = future_of iteration idx pc t in
      let h' = h || is_unknown t in
      let left : List Slot = map (λ pc. none) rest in
      ap (start_all tools iteration (suc idx) rest) (
        subst
          (λ i.
            start iteration i pc t (running (pre ++ none ∷ left) fs h)
            ≡ running (pre ++ s ∷ left) (fs ++ future_of iteration i pc t) h')
          e (start_lem iteration pc t pre left fs h))
      ∙ ap (λ l. start_all tools iteration (suc idx) rest (running l (fs ++ f) h'))
          (sym (append_assoc pre (s ∷ []) left))
      ∙ start_all_lem rest (suc idx) (pre ++ s ∷ []) (fs ++ f) h' (snoc_length pre s idx e)
      ∙ rw
          (
            append_assoc pre (s ∷ []) (reserved rest),
            append_assoc fs f (futures_of (suc idx) rest),
            or_assoc h (is_unknown t) (unknown rest),
          )
          refl

  finish_all_lem :
      (pending : List PendingCall) (idx : ℕ) (pre : List Slot) (fs : List Future) (h : Bool)
      → length pre ≡ idx
      → finish_all (futures_of idx pending) (running (pre ++ reserved pending) fs h)
        ≡ running (pre ++ filled idx pending) fs (h || failures idx pending)
  unfolding finish_all
  finish_all_lem [] idx pre fs h e = rw (or_false h) refl
  finish_all_lem (pc ∷ rest) idx pre fs h e =
      let t = tool_of pc in
      let more = futures_of (suc idx) rest in
      let s : Slot = some (pc.name, (result_at tools iteration idx pc).0) in
      let h' = h || has_failed iteration idx pc t in
      subst
        (λ i.
          finish_all (future_of iteration i pc t ++ more)
            (running (pre ++ slot_of pc t ∷ reserved rest) fs h)
          ≡ finish_all more (
              running (pre ++ some (pc.name, (told_by iteration i pc t).0) ∷ reserved rest) fs
                (h || has_failed iteration i pc t)))
        e (finish_lem iteration pc t pre (reserved rest) more fs h)
      ∙ ap (λ l. finish_all more (running l fs h'))
          (sym (append_assoc pre (s ∷ []) (reserved rest)))
      ∙ finish_all_lem rest (suc idx) (pre ++ s ∷ []) fs h' (snoc_length pre s idx e)
      ∙ rw
          (
            append_assoc pre (s ∷ []) (filled (suc idx) rest),
            or_assoc h (has_failed iteration idx pc t) (failures (suc idx) rest),
          )
          refl

  as_message_lem :
      (pc : PendingCall) (id : Option String) (content : String)
      → result_message id pc.name content ≡ as_message pc id content
  as_message_lem pc (some id) content = refl
  as_message_lem pc none content = refl

  stitch-filled :
      (pending : List PendingCall) (idx : ℕ)
      → stitch pending (filled idx pending) ≡ results tools iteration idx pending
  unfolding stitch
  stitch-filled [] idx = refl
  stitch-filled (pc ∷ rest) idx =
      ap (λ m. m ∷ stitch rest (filled (suc idx) rest))
        (as_message_lem pc pc.id ((result_at tools iteration idx pc).0))
      ∙ ap (λ l. as_message pc pc.id ((result_at tools iteration idx pc).0) ∷ l)
          (stitch-filled rest (suc idx))

  not_ok :
      (idx : ℕ) (pc : PendingCall) (found : Option Tool)
      → (is_unknown found || has_failed iteration idx pc found)
        ≡ not ((told_by iteration idx pc found).1)
  not_ok idx pc none = refl
  not_ok idx pc (some tool) = refl

  regroup : (a b c d : Bool) → ((a || b) || (c || d)) ≡ ((a || c) || (b || d))
  regroup true b c d = refl
  regroup false true true d = refl
  regroup false true false d = refl
  regroup false false c d = refl

  some_failed_lem :
      (pending : List PendingCall) (idx : ℕ)
      → (unknown pending || failures idx pending) ≡ some_failed tools iteration idx pending
  some_failed_lem [] idx = refl
  some_failed_lem (pc ∷ rest) idx =
      regroup (is_unknown (tool_of pc)) (unknown rest) (has_failed iteration idx pc (tool_of pc))
        (failures (suc idx) rest)
      ∙ ap (λ b. b || (unknown rest || failures (suc idx) rest)) (not_ok idx pc (tool_of pc))
      ∙ ap (λ b. not ((result_at tools iteration idx pc).1) || b) (some_failed_lem rest (suc idx))

  -- The calls give one message each, in their order: what the first tool of the name gives, or that
  -- there is none. The flag is set by an unknown tool, and by a tool that fails or raises.
  pub run_calls_lem :
      (pending : List PendingCall) (had_tool_error : Bool)
      → run_calls tools iteration pending had_tool_error ≡ (
        results tools iteration 0 pending,
        had_tool_error || some_failed tools iteration 0 pending,
      )
  unfolding run_calls
  run_calls_lem pending h =
      ap (λ r. (stitch pending (finished_all r).slots, (finished_all r).had_tool_error))
        (start_all_lem pending 0 [] [] h refl)
      ∙ ap (λ r. (stitch pending r.slots, r.had_tool_error))
          (finish_all_lem pending 0 [] (futures_of 0 pending) (h || unknown pending) refl)
      ∙ ap (λ l. (l, (h || unknown pending) || failures 0 pending)) (stitch-filled pending 0)
      ∙ ap (λ b. (results tools iteration 0 pending, b))
          (or_assoc h (unknown pending) (failures 0 pending)
            ∙ ap (λ b. h || b) (some_failed_lem pending 0))
