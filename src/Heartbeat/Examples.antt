-- ===== src/Heartbeat/Examples.antt =====
-- Runs of the heartbeat, and the theorems about it at concrete inputs.
use ada_claw.Prelude.{
  ◌≡◌, refl, true, is_whitespace, none, some, List, [], ◌∷◌, ◌++◌, map, Codes, codes, ok, pos,
}
use ada_claw.State.Manager.{DaemonState}
use ada_claw.State.Tracking.{track}
use ada_claw.Heartbeat.Tasks.{
  quick, spawn, HeartbeatTask, new_task, parse_heartbeat_tasks, parse_heartbeat_tasks_typed,
}
use ada_claw.Heartbeat.RoundTrip.{write_tasks, parse_heartbeat_tasks_typed-write_tasks}
use ada_claw.Heartbeat.Target.{resolve_target}
use ada_claw.Heartbeat.Scheduler.{
  HeartbeatScheduler, tick, new, final_text, answered, with_registry, with_spawn_bus, send_inbound,
  spawn_long_task,
}
use ada_claw.Heartbeat.Ticks.{task_text, task_text-tick}
use ada_claw.Heartbeat.Follow.{resolve_target-track}

abbrev line_end : Codes
line_end = 10 ∷ []

abbrev file : Codes
file =
    codes "# Tasks"
    ++ line_end
    ++ codes "- [ ] Greet"
    ++ line_end
    ++ codes "## LONG ones"
    ++ line_end
    ++ codes "  * [ ] Read the mail  "
    ++ line_end
    ++ codes "- [x] Done"
    ++ line_end
    ++ codes "## Other"
    ++ line_end
    ++ codes "- [ ] "

abbrev two_tasks : List HeartbeatTask
two_tasks = new_task quick (codes "Greet") ∷ new_task spawn (codes "Read the mail") ∷ []

parses : parse_heartbeat_tasks_typed file ≡ two_tasks
unfolding parse_heartbeat_tasks_typed
parses = refl

parse_heartbeat_tasks_typed-write_tasks_example :
    parse_heartbeat_tasks_typed (write_tasks two_tasks) ≡ two_tasks
unfolding is_whitespace
parse_heartbeat_tasks_typed-write_tasks_example =
    parse_heartbeat_tasks_typed-write_tasks two_tasks refl

abbrev scheduler : HeartbeatScheduler
scheduler = with_spawn_bus (
    with_registry (
      new (record {
        enabled = true;
        interval_minutes = 30;
        target_channel = none;
        heartbeat_file = none;
      })))

ticks :
    tick scheduler (ok file)
    ≡ send_inbound
        (codes "system:heartbeat")
        (codes "heartbeat:fallback")
        (codes "heartbeat")
        (codes "Greet")
      ∷ spawn_long_task
          (codes "Read the mail")
          (codes "system:heartbeat")
          (codes "heartbeat:fallback")
      ∷ []
unfolding tick
ticks = refl

brief : final_text (answered (codes "  done  ")) ≡ none
unfolding final_text
brief = refl

task_text-tick_example : map task_text (tick scheduler (ok file)) ≡ parse_heartbeat_tasks file
task_text-tick_example = task_text-tick scheduler file

abbrev at_console : DaemonState
at_console = record {
  last_channel = some (codes "cli");
  last_session_id = some (codes "cli:1");
  updated_at = pos 5;
}

-- A channel whose name only begins like an internal one is a target.
systemd :
    resolve_target none (some (record at_console { last_session_id = some (codes "systemd:1") }))
    ≡ (codes "systemd", codes "systemd:1")
unfolding resolve_target
systemd = refl

resolve_target-track_example :
    resolve_target none (
      some (
        track 9 (codes "telegram") (codes "telegram" ++ b':' ∷ codes "42") (codes "42") at_console))
    ≡ (codes "telegram", codes "telegram" ++ b':' ∷ codes "42")
unfolding resolve_target
resolve_target-track_example =
    resolve_target-track 9 (codes "telegram") (codes "42") (codes "42") at_console refl refl refl
      refl
