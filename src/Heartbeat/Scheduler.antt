-- ===== src/Heartbeat/Scheduler.antt =====
-- `HeartbeatScheduler` of src/cron/scheduler.rs: its settings, and what a tick does.
-- The bus, the registry and the run of an agent are the environment: whether they are there, whether
-- the bus takes a message, and how the run ends.
use ada_claw.Prelude.{
  ℕ, ◌*◌, max, Bool, true, false, ◌&&◌, Option, none, some, List, [], ◌∷◌, ◌++◌, Result, ok, err,
  ltb, if◌then◌else◌, Codes, codes, byte_length, trim,
}
use ada_claw.State.Manager.{DaemonState, ReadError, not_found, other}
use ada_claw.Heartbeat.Tasks.{TaskKind, quick, spawn, HeartbeatTask, parse_heartbeat_tasks_typed}
use ada_claw.Heartbeat.Target.{resolve_target}

pub record HeartbeatConfig : Type 0 where
  pub enabled : Bool
  pub interval_minutes : ℕ
  pub target_channel : Option Codes
  pub heartbeat_file : Option Codes

-- The registry and the bus of the spawned tasks are there or not.
pub record HeartbeatScheduler : Type 0 where
  pub config : HeartbeatConfig
  pub state : Option DaemonState
  pub registry : Bool
  pub spawn_bus : Bool

abbrev pub new : HeartbeatConfig → HeartbeatScheduler
new config = record { config = config; state = none; registry = false; spawn_bus = false }

abbrev pub with_state : DaemonState → HeartbeatScheduler → HeartbeatScheduler
with_state state self = record self { state = some state }

abbrev pub with_registry : HeartbeatScheduler → HeartbeatScheduler
with_registry self = record self { registry = true }

abbrev pub with_spawn_bus : HeartbeatScheduler → HeartbeatScheduler
with_spawn_bus self = record self { spawn_bus = true }

abbrev pub interval_secs : HeartbeatConfig → ℕ
interval_secs config = max config.interval_minutes 5 * 60

-- The message that `dispatch_task` sends, and the task that `spawn_long_task` starts.
pub data Effect : Type 0 where
  send_inbound : Codes → Codes → Codes → Codes → Effect
  spawn_long_task : Codes → Codes → Codes → Effect

unfoldable pub dispatch_task : Codes → Codes → Codes → Effect
dispatch_task task channel session_id = send_inbound channel session_id (codes "heartbeat") task

-- The `match` on the kind of a task.
unfoldable pub by_kind : HeartbeatScheduler → TaskKind → Codes → Codes → Codes → Effect
unfolding dispatch_task
by_kind self quick description channel session_id = dispatch_task description channel session_id
by_kind self spawn description channel session_id =
    if self.registry && self.spawn_bus
    then spawn_long_task description channel session_id
    else dispatch_task description channel session_id

-- One turn of the loop over the tasks.
unfoldable pub dispatch : HeartbeatScheduler → Codes × Codes → HeartbeatTask → Effect
unfolding by_kind
dispatch self (channel, session_id) task =
    by_kind self task.kind task.description channel session_id

abbrev pub dispatch_all : HeartbeatScheduler → Codes × Codes → List HeartbeatTask → List Effect
dispatch_all self target [] = []
dispatch_all self target (task ∷ rest) = dispatch self target task ∷ dispatch_all self target rest

-- The body of the loop, after the file was read.
unfoldable pub tick : HeartbeatScheduler → Result ReadError Codes → List Effect
unfolding dispatch parse_heartbeat_tasks_typed resolve_target
tick self (err not_found) = []
tick self (err other) = []
tick self (ok content) =
    dispatch_all self (resolve_target self.config.target_channel self.state)
      (parse_heartbeat_tasks_typed content)

-- The ticks, each with the state of that time and the file as it is read then. A disabled scheduler
-- has none.
unfoldable pub start :
    HeartbeatScheduler → List (Option DaemonState × Result ReadError Codes) → List (List Effect)
unfolding tick
start self [] = []
start self ((state, file) ∷ rest) =
    let more = start self rest in
    if self.config.enabled then tick (record self { state = state }) file ∷ more else []

-- How a run of the agent under the timeout ends.
pub data RunResult : Type 0 where
  answered : Codes → RunResult
  failed : Codes → RunResult
  timed_out : RunResult

-- What is sent to the user afterwards.
unfoldable pub final_text : RunResult → Option Codes
unfolding trim
final_text (answered resp) = if ltb 20 (byte_length (trim resp)) then some resp else none
final_text (failed e) = some (codes "❌ Background task failed: " ++ e)
final_text timed_out = some (codes "⏰ Background task timed out after 5 minutes.")
