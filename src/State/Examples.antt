-- ===== src/State/Examples.antt =====
-- Runs of the saves, and the theorems about them at concrete inputs. The interface is filled by a
-- format whose texts are the states themselves, or nothing.
use ada_claw.Prelude.{◌≡◌, refl, none, some, Option, [], ◌∷◌, codes}
use ada_claw.State.Manager.{DaemonState, Json, default_state}
use ada_claw.State.Disk.{Daemon, run, new}
use ada_claw.State.Saves.{Message, IsSaved, one_at_a_time, one_at_a_time-IsSaved}
use ada_claw.State.Crash.{overlapping, new-overlapping}

abbrev plain : Json
plain = record {
  Text = Option DaemonState;
  empty = none;
  to_string_pretty = some;
  from_str = λ text. text;
  from-to = λ s. refl;
  from-empty = refl;
}

abbrev first_start : Daemon (Option DaemonState)
first_start = record {
  state = default_state;
  saves = [];
  disk = record { contents = λ i. none; inodes = 0; tmp = none; file = none };
}

first_start-IsSaved : IsSaved plain first_start
unfolding new
first_start-IsSaved = (refl, refl, tt, refl)

abbrev hello : Message
hello = (7, codes "telegram", codes "telegram:1")

abbrev again : Message
again = (8, codes "slack", codes "slack:2")

one_at_a_time-IsSaved_example :
    IsSaved plain (run plain (one_at_a_time (hello ∷ again ∷ [])) first_start)
one_at_a_time-IsSaved_example =
    one_at_a_time-IsSaved plain (hello ∷ again ∷ []) first_start first_start-IsSaved

new-overlapping_example :
    new plain (run plain (overlapping hello again) first_start).disk ≡ default_state
unfolding run
new-overlapping_example =
    new-overlapping plain hello again first_start first_start-IsSaved refl refl
