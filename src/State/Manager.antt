-- ===== src/State/Manager.antt =====
-- `DaemonState` and the operations of `StateManager` on it, from src/state/mod.rs.
-- serde_json is an interface; the lock is the state that the operations take and return.
use ada_claw.Prelude.{
  ℕ, ◌≡◌, Bool, false, ◌&&◌, Option, none, some, if◌then◌else◌, ltb, ◌^◌, ◌-◌, Codes, codes_eq, ℤ,
  pos, negsuc, Result, ok, err,
}

pub record DaemonState : Type 0 where
  pub last_channel : Option Codes
  pub last_session_id : Option Codes
  pub updated_at : ℤ

-- `DaemonState::default()`.
abbrev pub default_state : DaemonState
default_state = record { last_channel = none; last_session_id = none; updated_at = pos 0 }

-- What the code uses of serde_json. The laws: a state that was written reads back, and the empty
-- text is no state.
pub record Json : Type 1 where
  pub Text : Type 0
  pub empty : Text
  pub to_string_pretty : DaemonState → Text
  pub from_str : Text → Option DaemonState
  pub from-to : (s : DaemonState) → from_str (to_string_pretty s) ≡ some s
  pub from-empty : from_str empty ≡ none

pub data ReadError : Type 0 where
  not_found other : ReadError

-- The state that a text gives.
abbrev pub or_default : Option DaemonState → DaemonState
or_default (some state) = state
or_default none = default_state

unfoldable pub load_from_disk : (j : Json) → Result ReadError j.Text → DaemonState
load_from_disk j (ok content) = or_default (j.from_str content)
load_from_disk j (err not_found) = default_state
load_from_disk j (err other) = default_state

-- `as_secs() as i64`.
abbrev pub as_i64 : ℕ → ℤ
as_i64 secs = if ltb secs (2 ^ 63) then pos secs else negsuc (2 ^ 64 - 1 - secs)

-- `as_deref() == Some(text)`.
abbrev pub is_text : Option Codes → Codes → Bool
is_text none text = false
is_text (some held) text = codes_eq held text

-- The state after the call, and the snapshot that the spawned task saves, if any.
unfoldable pub update_last_active :
    ℕ → Codes → Codes → DaemonState → DaemonState × Option DaemonState
update_last_active now channel session_id state =
    let new_state : DaemonState = record {
      last_channel = some channel;
      last_session_id = some session_id;
      updated_at = as_i64 now;
    } in
    if is_text state.last_channel channel && is_text state.last_session_id session_id
    then (state, none)
    else (new_state, some new_state)

abbrev pub get_last_channel : DaemonState → Option Codes
get_last_channel state = state.last_channel

abbrev pub get_last_session_id : DaemonState → Option Codes
get_last_session_id state = state.last_session_id
