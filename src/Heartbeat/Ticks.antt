-- ===== src/Heartbeat/Ticks.antt =====
-- What a tick of src/cron/scheduler.rs sends, and where.
use ada_claw.Prelude.{
  ℕ, ◌≡◌, refl, ap, ◌∙◌, ◌==◌, Bool, true, false, not, ◌&&◌, ◌||◌, Option, none, some, List, [],
  ◌∷◌, if◌then◌else◌, any, map, Codes, codes, codes_eq, starts_with, before, ok, arith, Bool-cases,
  inl, inr,
}
use ada_claw.State.Manager.{DaemonState}
use ada_claw.State.Tracking.{track}
use ada_claw.Heartbeat.Tasks.{
  TaskKind, quick, spawn, HeartbeatTask, parse_heartbeat_tasks, parse_heartbeat_tasks_typed,
}
use ada_claw.Heartbeat.Parse.{parse_heartbeat_tasks_typed-descriptions}
use ada_claw.Heartbeat.Target.{
  is_internal_channel, is_empty, fallback, of_session, resolve_target, session_of,
}
use ada_claw.Heartbeat.Scheduler.{
  HeartbeatScheduler, Effect, send_inbound, spawn_long_task, by_kind, dispatch, dispatch_all, tick,
}

abbrev pub task_text : Effect → Codes
task_text (send_inbound channel session_id sender_id task) = task
task_text (spawn_long_task task channel session_id) = task

abbrev pub target_of : Effect → Codes × Codes
target_of (send_inbound channel session_id sender_id task) = (channel, session_id)
target_of (spawn_long_task task channel session_id) = (channel, session_id)

abbrev pub spawns : Effect → Bool
spawns (send_inbound channel session_id sender_id task) = false
spawns (spawn_long_task task channel session_id) = true

task_text-by_kind :
    (self : HeartbeatScheduler) (kind : TaskKind) (text channel session_id : Codes)
    → task_text (by_kind self kind text channel session_id) ≡ text
unfolding by_kind
task_text-by_kind self quick text channel session_id = refl
task_text-by_kind self spawn text channel session_id = ground arith

task_text-dispatch :
    (self : HeartbeatScheduler) (target : Codes × Codes) (task : HeartbeatTask)
    → task_text (dispatch self target task) ≡ task.description
unfolding dispatch
task_text-dispatch self (channel, session_id) task =
    task_text-by_kind self task.kind task.description channel session_id

task_text-dispatch_all :
    (self : HeartbeatScheduler) (target : Codes × Codes) (tasks : List HeartbeatTask)
    → map task_text (dispatch_all self target tasks) ≡ map (λ task. task.description) tasks
task_text-dispatch_all self target [] = refl
task_text-dispatch_all self target (task ∷ rest) =
    rw (task_text-dispatch self target task, task_text-dispatch_all self target rest) refl

-- A tick hands on every pending task of the file, as the plain parser finds them, once and in
-- order.
pub task_text-tick :
    (self : HeartbeatScheduler) (content : Codes)
    → map task_text (tick self (ok content)) ≡ parse_heartbeat_tasks content
unfolding tick
task_text-tick self content =
    task_text-dispatch_all self _ (parse_heartbeat_tasks_typed content)
    ∙ parse_heartbeat_tasks_typed-descriptions content

any_sep-before : (sep : ℕ) (s : Codes) → any (λ c. c == sep) (before sep s) ≡ false
unfolding before
any_sep-before sep [] = refl
any_sep-before sep (c ∷ s) = ground (arith, any_sep-before sep s)

starts_with-none :
    (sep : ℕ) (p t : Codes)
    → any (λ c. c == sep) p ≡ true
    → any (λ c. c == sep) t ≡ false
    → starts_with p t ≡ false
unfolding starts_with
starts_with-none sep [] t h k = cc
starts_with-none sep (a ∷ p) [] h k = refl
starts_with-none sep (a ∷ p) (c ∷ t) h k = ground (arith, starts_with-none sep p t)

or_three : (a b c : Bool) → (a || b || c || false) ≡ (a || (b || (c || false)))
or_three true b c = refl
or_three false true c = refl
or_three false false c = refl

-- The part of a session before its colon is internal just when it is one of the three names: no part
-- has the prefix `system:`.
pub is_internal_channel-before :
    (session : Codes)
    → is_internal_channel (before b':' session)
      ≡ any (codes_eq (before b':' session)) (codes "system" ∷ codes "cli" ∷ codes "heartbeat" ∷ [])
unfolding is_internal_channel
is_internal_channel-before session =
    let part = before b':' session in
    ap
      (λ d.
        codes_eq part (codes "system")
        || codes_eq part (codes "cli")
        || codes_eq part (codes "heartbeat")
        || d)
      (starts_with-none b':' (codes "system:") part refl (any_sep-before b':' session))
    ∙ or_three (codes_eq part (codes "system")) (codes_eq part (codes "cli"))
        (codes_eq part (codes "heartbeat"))

-- What a guard on the first part lets through is not internal.
guarded :
    (internal : Codes → Bool) (b : Bool) (part session : Codes)
    → internal (if not (internal part) && b then (part, session) else fallback).0 ≡ true
    → (if not (internal part) && b then (part, session) else fallback) ≡ fallback
guarded internal b part session h = ground arith

of_session-fallback :
    (session : Option Codes)
    → is_internal_channel (of_session session).0 ≡ true
    → of_session session ≡ fallback
unfolding of_session
of_session-fallback none h = refl
of_session-fallback (some session) h =
    guarded is_internal_channel (not (is_empty (before b':' session))) (before b':' session) session
      h

-- Without a configured channel, a target on an internal channel is the fallback.
pub resolve_target-fallback :
    (state : Option DaemonState)
    → is_internal_channel (resolve_target none state).0 ≡ true
    → resolve_target none state ≡ fallback
unfolding resolve_target
resolve_target-fallback state h = of_session-fallback (session_of state) h

abbrev pub track_effect : ℕ → DaemonState → Effect → DaemonState
track_effect now state (send_inbound channel session_id sender_id task) =
    track now channel session_id sender_id state
track_effect now state (spawn_long_task task channel session_id) = state

abbrev pub track_all : ℕ → DaemonState → List Effect → DaemonState
track_all now state [] = state
track_all now state (effect ∷ rest) = track_all now (track_effect now state effect) rest

same_if {ℓ} : {A : Type ℓ} (b : Bool) (x : A) → (if b then x else x) ≡ x
same_if true x = refl
same_if false x = refl

track-heartbeat :
    (now : ℕ) (channel session_id : Codes) (state : DaemonState)
    → track now channel session_id (codes "heartbeat") state ≡ state
unfolding track
track-heartbeat now channel session_id state = same_if (codes_eq channel (codes "system")) state

track_effect-by_kind :
    (now : ℕ) (state : DaemonState) (self : HeartbeatScheduler) (kind : TaskKind)
    (text channel session_id : Codes)
    → track_effect now state (by_kind self kind text channel session_id) ≡ state
unfolding by_kind
track_effect-by_kind now state self quick text channel session_id =
    track-heartbeat now channel session_id state
track_effect-by_kind now state self spawn text channel session_id =
    elim (Bool-cases (self.registry && self.spawn_bus)) [
      | inl e ↦ rw e refl
      | inr e ↦ rw e (track-heartbeat now channel session_id state)
    ]

track_all-dispatch_all :
    (now : ℕ) (state : DaemonState) (self : HeartbeatScheduler) (target : Codes × Codes)
    (tasks : List HeartbeatTask)
    → track_all now state (dispatch_all self target tasks) ≡ state
unfolding dispatch
track_all-dispatch_all now state self target [] = refl
track_all-dispatch_all now state self target (task ∷ rest) =
    ap (λ s. track_all now s (dispatch_all self target rest))
      (track_effect-by_kind now state self task.kind task.description (target.0) (target.1))
    ∙ track_all-dispatch_all now state self target rest

-- The messages of a tick are not recorded as the last activity: the dispatch loop leaves the state as
-- it is.
pub track_all-tick :
    (now : ℕ) (state : DaemonState) (self : HeartbeatScheduler) (content : Codes)
    → track_all now state (tick self (ok content)) ≡ state
unfolding tick
track_all-tick now state self content =
    track_all-dispatch_all now state self _ (parse_heartbeat_tasks_typed content)
