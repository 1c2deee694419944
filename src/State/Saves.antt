-- ===== src/State/Saves.antt =====
-- What a restart of the daemon finds, from src/state/mod.rs: after saves that run one at a time, after a
-- crash in the middle of one, and after saves that overlap.
use ada_claw.Prelude.{
  ℕ, ◌<◌, ◌≡◌, refl, ap, ◌&&◌, ◌⊎◌, true, Option, none, some, List, [], ◌∷◌, if◌then◌else◌, Codes,
  arith, Bool-cases, inl, inr,
}
use ada_claw.State.Manager.{is_text, as_i64, or_default, DaemonState, Json, update_last_active}
use ada_claw.State.Disk.{Disk, Daemon, Event, message, save, run, new, put}

abbrev pub Message : Type 0
Message = ℕ × Codes × Codes

abbrev pub sent : Message → Event
sent (now, channel, session_id) = message now channel session_id

-- The three calls of the task at the head of the list.
abbrev whole_save : ℕ → List Event → List Event
whole_save k rest = save k true ∷ save k true ∷ save k true ∷ rest

-- Every message is saved before the next one arrives.
unfoldable pub one_at_a_time : List Message → List Event
one_at_a_time [] = []
one_at_a_time (m ∷ rest) = sent m ∷ whole_save 0 (one_at_a_time rest)

abbrev pub InUse : ℕ → Option ℕ → Type 0
InUse n none = Unit
InUse n (some i) = i < n

-- No task runs, no temporary file is left, and a restart would find the state.
abbrev pub IsSaved : (j : Json) → Daemon j.Text → Type 0
IsSaved j daemon =
    (daemon.saves ≡ [])
    × (daemon.disk.tmp ≡ none)
    × InUse daemon.disk.inodes daemon.disk.file
    × (new j daemon.disk ≡ daemon.state)

-- A message changes nothing, or its state is the one to save.
pub update_cases :
    (now : ℕ) (channel session_id : Codes) (state : DaemonState)
    → (update_last_active now channel session_id state ≡ (state, none))
      ⊎ ((new_state : DaemonState) × (update_last_active now channel session_id state
            ≡ (new_state, some new_state)))
unfolding update_last_active
update_cases now channel session_id state =
    let new_state : DaemonState = record {
      last_channel = some channel;
      last_session_id = some session_id;
      updated_at = as_i64 now;
    } in
    elim (Bool-cases
      (is_text state.last_channel channel && is_text state.last_session_id session_id)) [
        | inl e ↦ inl (ap (λ b. if b then (state, none) else (new_state, some new_state)) e)
        | inr e ↦
            inr (new_state, ap (λ b. if b then (state, none) else (new_state, some new_state)) e)
      ]

-- What was put at an inode twice reads as the second.
pub written_back :
    (j : Json) (state : DaemonState) (disk : Disk j.Text)
    → or_default (
        j.from_str (
          put disk.inodes
            (j.to_string_pretty state)
            (put disk.inodes j.empty disk.contents)
            disk.inodes))
      ≡ state
written_back j state disk = ground (arith, j.from-to state)

message-whole_save :
    (j : Json) (m : Message) (daemon : Daemon j.Text)
    → IsSaved j daemon
    → IsSaved j (run j (sent m ∷ whole_save 0 []) daemon)
unfolding run new
message-whole_save j (now, channel, session_id) daemon (idle, clean, used, same) =
    elim (update_cases now channel session_id daemon.state) [
      | inl e ↦ rw (e, idle) (refl, clean, used, same)
      | inr (new_state, e) ↦
          rw (e, idle, clean)
            (refl, refl, omega arith, rw clean (written_back j new_state daemon.disk))
    ]

-- Messages that are each saved before the next one arrives leave a daemon whose state a restart finds.
pub one_at_a_time-IsSaved :
    (j : Json) (messages : List Message) (daemon : Daemon j.Text)
    → IsSaved j daemon
    → IsSaved j (run j (one_at_a_time messages) daemon)
unfolding run one_at_a_time
one_at_a_time-IsSaved j [] daemon h = h
one_at_a_time-IsSaved j (m ∷ rest) daemon h =
    one_at_a_time-IsSaved j rest (run j (sent m ∷ whole_save 0 []) daemon)
      (message-whole_save j m daemon h)
