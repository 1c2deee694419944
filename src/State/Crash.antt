-- ===== src/State/Crash.antt =====
-- What a restart finds when the daemon stops between the calls of the saves of src/state/mod.rs, or
-- when two saves overlap.
use ada_claw.Prelude.{
  ℕ, zero, suc, ◌<◌, ◌≡◌, refl, ap, ◌∙◌, true, Option, none, some, List, [], ◌∷◌, ◌++◌, arith, inl,
  inr,
}
use ada_claw.State.Manager.{load_from_disk, DaemonState, Json, default_state, update_last_active}
use ada_claw.State.Disk.{
  Disk, Save, Daemon, Event, save, run, spawned, new, put, queued, read_to_string,
}
use ada_claw.State.Saves.{Message, sent, InUse, IsSaved, update_cases}

abbrev calls : ℕ → ℕ → List Event
calls k zero = []
calls k (suc n) = save k true ∷ calls k n

-- The first calls of the save that a message starts, and then the end of the process.
unfoldable pub cut_save : Message → ℕ → List Event
cut_save m n = sent m ∷ calls 0 n

-- A write to an inode that the file does not name is not seen.
read-put :
    (j : Json) (disk : Disk j.Text) (text : j.Text) (file : Option ℕ)
    → InUse disk.inodes file
    → read_to_string (record disk { contents = put disk.inodes text disk.contents }) file
      ≡ read_to_string disk file
read-put j disk text none h = refl
read-put j disk text (some i) h = ground arith

abbrev one_save : {T : Type 0} → DaemonState → Disk T → Daemon T
one_save state disk = record { state = state; saves = queued state ∷ []; disk = disk }

unfinished :
    (j : Json) (state : DaemonState) (n : ℕ) (disk : Disk j.Text)
    → InUse disk.inodes disk.file
    → n < 3
    → new j (run j (calls 0 n) (one_save state (record disk { tmp = none }))).disk ≡ new j disk
unfolding run new
unfinished j state zero disk used h = refl
unfinished j state (suc zero) disk used h =
    ap (load_from_disk j) (read-put j disk j.empty disk.file used)
unfinished j state (suc (suc zero)) disk used h = ap (load_from_disk j) (
    read-put j (record disk { contents = put disk.inodes j.empty disk.contents })
      (j.to_string_pretty state) disk.file used
    ∙ read-put j disk j.empty disk.file used)
unfinished j state (suc (suc (suc n))) disk used h = absurd (omega arith)

idle_calls :
    (j : Json) (n : ℕ) (state : DaemonState) (disk : Disk j.Text)
    → (run j (calls 0 n) (record { state = state; saves = []; disk = disk })).disk ≡ disk
unfolding run
idle_calls j zero state disk = refl
idle_calls j (suc n) state disk = idle_calls j n state disk

abbrev started : {T : Type 0} → List Save → Disk T → DaemonState × Option DaemonState → Daemon T
started saves disk (state, snapshot) = record {
  state = state;
  saves = saves ++ spawned snapshot;
  disk = disk;
}

begin :
    (j : Json) (n : ℕ) (m : Message) (daemon : Daemon j.Text)
    (turn : DaemonState × Option DaemonState)
    → daemon.saves ≡ []
    → update_last_active (m.0) (m.1) (m.2) daemon.state ≡ turn
    → new j (run j (cut_save m n) daemon).disk
      ≡ new j (run j (calls 0 n) (started [] daemon.disk turn)).disk
unfolding run cut_save
begin j n m daemon turn idle e =
    ap (λ t. new j (run j (calls 0 n) (started daemon.saves daemon.disk t)).disk) e
    ∙ ap (λ saves. new j (run j (calls 0 n) (started saves daemon.disk turn)).disk) idle

-- The save of one message has made at most its first two calls: a restart finds the state from before
-- the message.
pub new-cut_save :
    (j : Json) (m : Message) (n : ℕ) (daemon : Daemon j.Text)
    → IsSaved j daemon
    → n < 3
    → new j (run j (cut_save m n) daemon).disk ≡ daemon.state
unfolding run new cut_save
new-cut_save j (now, channel, session_id) n daemon (idle, clean, used, same) h =
    elim (update_cases now channel session_id daemon.state) [
      | inl e ↦
          begin j n (now, channel, session_id) daemon (daemon.state, none) idle e
          ∙ ap (new j) (idle_calls j n daemon.state daemon.disk)
          ∙ same
      | inr (new_state, e) ↦
          begin j n (now, channel, session_id) daemon (new_state, some new_state) idle e
          ∙ ap
              (λ t.
                new j
                  (run j (calls 0 n) (one_save new_state (record daemon.disk { tmp = t }))).disk)
              clean
          ∙ unfinished j new_state n daemon.disk used h
          ∙ same
    ]

abbrev pub changed : Message → DaemonState → DaemonState
changed (now, channel, session_id) state = (update_last_active now channel session_id state).0

abbrev Changes : Message → DaemonState → Type 0
Changes (now, channel, session_id) state =
    (update_last_active now channel session_id state).1
    ≡ some (update_last_active now channel session_id state).0

-- The save of the second message runs before that of the first.
abbrev pub opposite : Message → Message → List Event
opposite m m' = sent m ∷ sent m' ∷ (calls 1 3 ++ calls 0 3)

-- The first save has written the temporary file when the second opens it, and then renames it.
abbrev pub overlapping : Message → Message → List Event
overlapping m m' = sent m ∷ sent m' ∷ (calls 0 2 ++ (calls 1 1 ++ calls 0 1))

abbrev two_saves : {T : Type 0} → DaemonState → DaemonState → DaemonState → Disk T → Daemon T
two_saves state first second disk = record {
  state = state;
  saves = queued first ∷ queued second ∷ [];
  disk = disk;
}

abbrev without_tmp : {T : Type 0} → Disk T → Disk T
without_tmp disk = record disk { tmp = none }

new-backwards :
    (j : Json) (state first second : DaemonState) (disk : Disk j.Text)
    → new j (run j (calls 1 3 ++ calls 0 3) (two_saves state first second (without_tmp disk))).disk
      ≡ first
unfolding run new
new-backwards j state first second disk = ground (arith, j.from-to first)

new-truncated :
    (j : Json) (state first second : DaemonState) (disk : Disk j.Text)
    → new j
        (run j
          (calls 0 2 ++ (calls 1 1 ++ calls 0 1))
          (two_saves state first second (without_tmp disk))).disk
      ≡ default_state
unfolding run new
new-truncated j state first second disk = ground (arith, j.from-empty)

-- The two messages leave two tasks.
run-messages :
    (j : Json) (m m' : Message) (events : List Event) (daemon : Daemon j.Text)
    → IsSaved j daemon
    → Changes m daemon.state
    → Changes m' (changed m daemon.state)
    → run j (sent m ∷ sent m' ∷ events) daemon
      ≡ run j events (
          two_saves
            (changed m' (changed m daemon.state))
            (changed m daemon.state)
            (changed m' (changed m daemon.state))
            (without_tmp daemon.disk))
unfolding run
run-messages j m m' events daemon (idle, clean, used, same) h h' =
    rw (idle, h, h')
      (ap
        (λ t. run j events (
          two_saves (changed m' (changed m daemon.state)) (changed m daemon.state)
            (changed m' (changed m daemon.state)) (record daemon.disk { tmp = t })))
        clean)

-- Two messages change the state, and their saves run in the opposite order: a restart finds the state
-- of the first message.
pub new-opposite :
    (j : Json) (m m' : Message) (daemon : Daemon j.Text)
    → IsSaved j daemon
    → Changes m daemon.state
    → Changes m' (changed m daemon.state)
    → new j (run j (opposite m m') daemon).disk ≡ changed m daemon.state
new-opposite j m m' daemon h k k' =
    ap (λ d. new j d.disk) (run-messages j m m' _ daemon h k k')
    ∙ new-backwards j _ (changed m daemon.state) (changed m' (changed m daemon.state)) daemon.disk

-- Two messages change a state that is saved, and the second save opens the temporary file between the
-- write and the rename of the first. A restart before its write finds the default state.
pub new-overlapping :
    (j : Json) (m m' : Message) (daemon : Daemon j.Text)
    → IsSaved j daemon
    → Changes m daemon.state
    → Changes m' (changed m daemon.state)
    → new j (run j (overlapping m m') daemon).disk ≡ default_state
new-overlapping j m m' daemon h k k' =
    ap (λ d. new j d.disk) (run-messages j m m' _ daemon h k k')
    ∙ new-truncated j _ (changed m daemon.state) (changed m' (changed m daemon.state)) daemon.disk
