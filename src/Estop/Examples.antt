-- ===== src/Estop/Examples.antt =====
-- Runs of the emergency stop, and the theorems at concrete inputs.
use ada_claw.Prelude.{
  ◌≡◌, refl, true, false, none, some, [], ◌∷◌, ◌++◌, is_ok, if◌then◌else◌, ends_with,
}
use ada_claw.Estop.Controller
use ada_claw.Estop.Controller.{
  Json, EstopController, EstopState, default_state, tool_freeze, domain_block, kill_all, writes,
  no_directory, engage, clear, otp_required, is_domain_blocked, is_killed, is_network_killed,
  is_tool_frozen,
}
use ada_claw.Estop.Controller.Persistence.{engage_lem}

-- Files that hold the state itself.
abbrev plain : Json
plain = record {
  Text = EstopState;
  to_string_pretty = λ s. s;
  from_str = λ s. some s;
  to_rfc3339 = λ t. "now";
  from-to = λ s. refl;
}

abbrev fresh : EstopController EstopState
fresh = Controller.new plain none

names : Controller.to_string (domain_block ("a.com" ∷ "b.org" ∷ [])) ≡ "DomainBlock(a.com,b.org)"
unfolding Controller.to_string
names = refl

abbrev killed : EstopController EstopState
killed = (engage plain 7 no_directory kill_all none true fresh).0

engage_lem_example :
    let (c', result) = engage plain 7 no_directory kill_all none true fresh in
    (c'.state.active ≡ true)
    × (c'.state.level ≡ some kill_all)
    × (c'.sent ≡ (if is_ok result then fresh.sent ++ kill_all ∷ [] else fresh.sent))
    × ((if is_ok result then (Controller.new plain c'.file).state else c'.state) ≡ c'.state)
engage_lem_example = engage_lem plain 7 kill_all none true no_directory fresh

abbrev blocking : EstopController EstopState
blocking = (engage plain 7 writes (domain_block ("evil.com" ∷ [])) none false fresh).0

not_a_suffix_only : is_domain_blocked "notevil.com" blocking ≡ false
unfolding is_domain_blocked engage Controller.in_domain ends_with
not_a_suffix_only = refl
