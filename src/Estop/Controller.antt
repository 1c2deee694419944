-- ===== src/Estop/Controller.antt =====
-- `EstopLevel`, `EstopState` and `EstopController` of crates/adaclaw-security/src/estop.rs.
-- The lock is the state of a record, the file at `state_path` is a text or nothing, and the broadcast
-- channel is the list of levels sent on it. serde_json and chrono are an interface; the outcome of
-- writing the file is an argument.
pub mod Persistence
pub mod Domains
use ada_claw.Prelude.{
  ℕ, ◌≡◌, String, Bool, true, false, not, ◌&&◌, ◌||◌, Option, none, some, List, [], ◌∷◌, ◌++◌,
  Result, ok, err, if◌then◌else◌, any, codes, codes_eq, ends_with, concat, starts_with,
}

pub data EstopLevel : Type 0 where
  tool_freeze : EstopLevel
  domain_block : List String → EstopLevel
  network_kill : EstopLevel
  kill_all : EstopLevel

-- `domains.join(",")`.
join : List String → String
join [] = ""
join (d ∷ []) = d
join (d ∷ ds) = concat (d ∷ "," ∷ join ds ∷ [])

-- `Display`.
unfoldable pub to_string : EstopLevel → String
unfolding join concat
to_string kill_all = "KillAll"
to_string network_kill = "NetworkKill"
to_string (domain_block domains) = concat ("DomainBlock(" ∷ join domains ∷ ")" ∷ [])
to_string tool_freeze = "ToolFreeze"

pub record EstopState : Type 0 where
  pub active : Bool
  pub level : Option EstopLevel
  pub triggered_at : Option String
  pub reason : Option String
  pub require_otp : Bool

-- `EstopState::default()`.
abbrev pub default_state : EstopState
default_state = record {
  active = false;
  level = none;
  triggered_at = none;
  reason = none;
  require_otp = false;
}

-- What the code uses of serde_json and chrono, over the texts of files. The law: a state that was
-- written reads back.
pub record Json : Type 1 where
  pub Text : Type 0
  pub to_string_pretty : EstopState → Text
  pub from_str : Text → Option EstopState
  pub to_rfc3339 : ℕ → String
  pub from-to : (s : EstopState) → from_str (to_string_pretty s) ≡ some s

pub record EstopController (T : Type 0) : Type 0 where
  pub state : EstopState
  pub file : Option T
  pub sent : List EstopLevel

-- How `create_dir_all` and `fs::write` end: a failed write may leave anything in the file.
pub data Disk (T : Type 0) : Type 0 where
  writes : Disk T
  no_directory : Disk T
  write_fails : Option T → Disk T

pub data EstopError : Type 0 where
  io_error otp_required : EstopError

abbrev pub Done : Type 0 → Type 0
Done T = EstopController T × Result EstopError (Unit {0})

-- The state that a file gives: the default where it is absent or does not parse.
abbrev pub load : (j : Json) → Option j.Text → EstopState
load j none = default_state
load j (some text) = elim (j.from_str text) [ none ↦ default_state | some s ↦ s ]

unfoldable pub new : (j : Json) → Option j.Text → EstopController j.Text
new j file = record { state = load j file; file = file; sent = [] }

abbrev pub is_active : {T : Type 0} → EstopController T → Bool
is_active c = c.state.active

abbrev level_killed : Option EstopLevel → Bool
level_killed (some kill_all) = true
level_killed _ = false

abbrev level_network_killed : Option EstopLevel → Bool
level_network_killed (some network_kill) = true
level_network_killed (some kill_all) = true
level_network_killed _ = false

abbrev level_tool_frozen : Option EstopLevel → Bool
level_tool_frozen (some tool_freeze) = true
level_tool_frozen (some network_kill) = true
level_tool_frozen (some kill_all) = true
level_tool_frozen _ = false

unfoldable pub is_killed : {T : Type 0} → EstopController T → Bool
is_killed c = level_killed c.state.level

unfoldable pub is_network_killed : {T : Type 0} → EstopController T → Bool
is_network_killed c = level_network_killed c.state.level

unfoldable pub is_tool_frozen : {T : Type 0} → EstopController T → Bool
is_tool_frozen c = level_tool_frozen c.state.level

-- The domain itself, or a name that ends in a dot and the domain.
unfoldable pub in_domain : String → String → Bool
in_domain domain d = codes_eq (codes domain) (codes d) || ends_with (b'.' ∷ codes d) (codes domain)

level_blocks : String → Option EstopLevel → Bool
level_blocks domain (some (domain_block domains)) = any (in_domain domain) domains
level_blocks domain (some network_kill) = true
level_blocks domain (some kill_all) = true
level_blocks domain _ = false

unfoldable pub is_domain_blocked : {T : Type 0} → String → EstopController T → Bool
unfolding level_blocks
is_domain_blocked domain c = level_blocks domain c.state.level

unfoldable pub persist : (j : Json) → Disk j.Text → EstopController j.Text → Done j.Text
persist j writes c = (record c { file = some (j.to_string_pretty c.state) }, ok tt)
persist j no_directory c = (c, err io_error)
persist j (write_fails left) c = (record c { file = left }, err io_error)

-- The level goes out only after the file has been written: `self.persist()?` returns before.
unfoldable pub engage :
    (j : Json)
    → ℕ
    → Disk j.Text
    → EstopLevel
    → Option String
    → Bool
    → EstopController j.Text
    → Done j.Text
unfolding persist
engage j now disk level reason require_otp c =
    let (c', written) = persist j disk (record c {
      state = record {
        active = true;
        level = some level;
        triggered_at = some (j.to_rfc3339 now);
        reason = reason;
        require_otp = require_otp;
      };
    }) in
    elim written [
      | ok _ ↦ (record c' { sent = c'.sent ++ level ∷ [] }, ok tt)
      | err e ↦ (c', err e)
    ]

unfoldable pub clear : (j : Json) → Disk j.Text → Bool → EstopController j.Text → Done j.Text
unfolding persist
clear j disk otp_verified c =
    if c.state.require_otp && not otp_verified
    then (c, err otp_required)
    else persist j disk (record c { state = default_state })
