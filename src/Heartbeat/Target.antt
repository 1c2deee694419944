-- ===== src/Heartbeat/Target.antt =====
-- Where the results of heartbeats go, from src/cron/scheduler.rs.
use ada_claw.Prelude.{
  Bool, true, false, not, ◌&&◌, ◌||◌, Option, none, some, [], ◌∷◌, ◌++◌, if◌then◌else◌, Codes,
  codes, codes_eq, starts_with, before,
}
use ada_claw.State.Manager.{DaemonState, get_last_session_id}

abbrev pub is_empty : Codes → Bool
is_empty [] = true
is_empty (c ∷ s) = false

unfoldable pub is_internal_channel : Codes → Bool
unfolding starts_with
is_internal_channel channel =
    codes_eq channel (codes "system")
    || codes_eq channel (codes "cli")
    || codes_eq channel (codes "heartbeat")
    || starts_with (codes "system:") channel

abbrev pub fallback : Codes × Codes
fallback = (codes "system:heartbeat", codes "heartbeat:fallback")

-- The session is taken when the part before its first colon is a channel.
unfoldable pub of_session : Option Codes → Codes × Codes
unfolding is_internal_channel before
of_session none = fallback
of_session (some last_session) =
    let channel_part = before b':' last_session in
    if not (is_internal_channel channel_part) && not (is_empty channel_part)
    then (channel_part, last_session)
    else fallback

-- The session that the state manager, where there is one, holds.
abbrev pub session_of : Option DaemonState → Option Codes
session_of none = none
session_of (some state) = get_last_session_id state

-- The channel and the session.
unfoldable pub resolve_target : Option Codes → Option DaemonState → Codes × Codes
unfolding of_session
resolve_target (some ch) state = (ch, ch ++ codes ":heartbeat")
resolve_target none state = of_session (session_of state)
