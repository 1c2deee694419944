-- ===== src/Config/Migration.antt =====
-- `migrate` of src/config/migration.rs. A note is its constructor.
use ada_claw.Prelude.{ℕ, List, [], ◌∷◌, Result, ok, err, ltb, ◌==◌, if◌then◌else◌}
use ada_claw.Config.Schema.{Floats, Config}

abbrev pub current_version : ℕ
current_version = 1

pub data Note : Type 0 where
  treated_as_version_0 : Note

pub data MigrationError : Type 0 where
  newer_version : ℕ → MigrationError

unfoldable pub migrate : (f : Floats) → Config f → Result MigrationError (Config f × List Note)
migrate f cfg =
    if ltb current_version cfg.config_version
    then err (newer_version cfg.config_version)
    else if cfg.config_version == 0
    then ok (record cfg { config_version = 1 }, treated_as_version_0 ∷ [])
    else ok (cfg, [])
