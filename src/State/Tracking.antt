-- ===== src/State/Tracking.antt =====
-- Which messages the dispatch loop of src/daemon/run.rs records as the last activity.
use ada_claw.Prelude.{ℕ, not, ◌&&◌, if◌then◌else◌, Codes, codes, codes_eq, starts_with}
use ada_claw.State.Manager.{DaemonState, update_last_active}

-- The channel, the session and the sender of a message.
unfoldable pub track : ℕ → Codes → Codes → Codes → DaemonState → DaemonState
unfolding update_last_active starts_with
track now channel session_id sender_id state =
    let updated = update_last_active now channel session_id state in
    if codes_eq channel (codes "system")
    then state
    else if not (codes_eq sender_id (codes "heartbeat"))
        && not (starts_with (codes "system:") channel)
        && not (codes_eq channel (codes "system"))
    then updated.0
    else state
