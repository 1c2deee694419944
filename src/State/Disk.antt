-- ===== src/State/Disk.antt =====
-- The file of `StateManager` and the tasks that save to it, from src/state/mod.rs.
-- A directory entry names an inode, and a task that has opened the temporary file keeps the inode:
-- all saves of a process share one temporary name. A run is a sequence of messages and of steps of
-- the tasks, in any order.
use ada_claw.Prelude.{
  ℕ, zero, suc, Bool, true, false, Option, none, some, List, [], ◌∷◌, ◌++◌, if◌then◌else◌, ◌==◌,
  Codes, Result, ok, err,
}
use ada_claw.State.Manager.{
  DaemonState, Json, ReadError, not_found, load_from_disk, update_last_active,
}

pub record Disk (T : Type 0) : Type 0 where
  pub contents : ℕ → T
  pub inodes : ℕ
  pub tmp : Option ℕ
  pub file : Option ℕ

-- A call of `save_to_disk`: before the temporary file is opened, with its inode open, and written.
pub data Save : Type 0 where
  queued : DaemonState → Save
  writing : ℕ → DaemonState → Save
  written : Save

abbrev pub put {ℓ} : {A : Type ℓ} → ℕ → A → (ℕ → A) → ℕ → A
put i text contents k = if k == i then text else contents k

-- `fs::write` opens the file, which truncates it or makes it.
abbrev pub open_tmp : (j : Json) → DaemonState → Disk j.Text → Option ℕ → Option Save × Disk j.Text
open_tmp j state disk (some i) =
    (some (writing i state), record disk { contents = put i j.empty disk.contents })
open_tmp j state disk none = (
  some (writing disk.inodes state),
  record disk {
    contents = put disk.inodes j.empty disk.contents;
    inodes = suc disk.inodes;
    tmp = some disk.inodes;
  },
)

-- `fs::rename`, which replaces the entry of the file.
abbrev pub rename : {T : Type 0} → Disk T → Option ℕ → Disk T
rename disk (some i) = record disk { tmp = none; file = some i }
rename disk none = disk

-- The next call that a task makes of the file system, and whether it works.
unfoldable pub advance : (j : Json) → Bool → Save → Disk j.Text → Option Save × Disk j.Text
advance j true (queued state) disk = open_tmp j state disk disk.tmp
advance j true (writing i state) disk =
    (some written, record disk { contents = put i (j.to_string_pretty state) disk.contents })
advance j true written disk = (none, rename disk disk.tmp)
advance j false (queued state) disk = (none, disk)
advance j false (writing i state) disk = (none, disk)
advance j false written disk = (none, record disk { tmp = none })

pub record Daemon (T : Type 0) : Type 0 where
  pub state : DaemonState
  pub saves : List Save
  pub disk : Disk T

pub data Event : Type 0 where
  message : ℕ → Codes → Codes → Event
  save : ℕ → Bool → Event

abbrev pub spawned : Option DaemonState → List Save
spawned none = []
spawned (some snapshot) = queued snapshot ∷ []

abbrev pub back_in : Option Save → List Save → List Save
back_in none saves = saves
back_in (some task) saves = task ∷ saves

-- The task at an index makes its next call.
unfoldable pub advance_at :
    (j : Json) → ℕ → Bool → List Save → Disk j.Text → List Save × Disk j.Text
unfolding advance
advance_at j k works [] disk = ([], disk)
advance_at j zero works (task ∷ saves) disk =
    let (left, disk') = advance j works task disk in (back_in left saves, disk')
advance_at j (suc k) works (task ∷ saves) disk =
    let (saves', disk') = advance_at j k works saves disk in (task ∷ saves', disk')

unfoldable pub step : (j : Json) → Event → Daemon j.Text → Daemon j.Text
unfolding update_last_active advance_at
step j (message now channel session_id) daemon =
    let (state', snapshot) = update_last_active now channel session_id daemon.state in
    record daemon { state = state'; saves = daemon.saves ++ spawned snapshot }
step j (save k works) daemon =
    let (saves', disk') = advance_at j k works daemon.saves daemon.disk in
    record daemon { saves = saves'; disk = disk' }

unfoldable pub run : (j : Json) → List Event → Daemon j.Text → Daemon j.Text
unfolding step
run j [] daemon = daemon
run j (event ∷ rest) daemon = run j rest (step j event daemon)

abbrev pub read_to_string : {T : Type 0} → Disk T → Option ℕ → Result ReadError T
read_to_string disk none = err not_found
read_to_string disk (some i) = ok (disk.contents i)

-- `StateManager::new` on the file that a run left.
unfoldable pub new : (j : Json) → Disk j.Text → DaemonState
unfolding load_from_disk
new j disk = load_from_disk j (read_to_string disk disk.file)
