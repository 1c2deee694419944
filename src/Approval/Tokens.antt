-- ===== src/Approval/Tokens.antt =====
-- The bypass tokens over a history: no more calls pass by a token than tokens were granted.
use ada_claw.Prelude.{ℕ, ◌+◌, ◌≤◌, String, Bool, not, ◌&&◌, arith, ltb, if◌then◌else◌, contains}
use ada_claw.Approval.Types.{Chrono}
use ada_claw.Approval.Manager.{
  ApprovalManager, is_supervised, grant_non_cli_session, revoke_non_cli_session,
  grant_non_cli_allow_all_once, consume_non_cli_allow_all_once, apply_auto_approve,
  apply_auto_approve_revoke,
}
use ada_claw.Approval.Pending.{
  create_pending_request, confirm_pending_request, reject_pending_request, has_pending_request,
  list_pending_requests, clear_pending_for_tool,
}
use ada_claw.Approval.Decide.Matrix.{approve_tool-token}
use ada_claw.Approval.History.{
  Step, Reach, here, next, approve, create, confirm, reject, look, list, clear, grant_session,
  revoke_session, grant_once, consume, auto, auto_revoke,
}

-- The call is one that a token decides.
abbrev pub by_token : String → ApprovalManager → Bool
by_token tool m =
    is_supervised m.level
    && not (contains m.auto_approve tool)
    && not (contains m.always_ask tool)
    && ltb 0 m.non_cli_allow_all_once

abbrev count_if : Bool → ℕ
count_if b = if b then 1 else 0

abbrev pub spent_by : {ch : Chrono} {m m' : ApprovalManager} → Step ch m m' → ℕ
spent_by {m = m} (approve env tool args who d n h) = count_if (by_token tool m)
spent_by {m = m} consume = count_if (ltb 0 m.non_cli_allow_all_once)
spent_by _ = 0

abbrev pub granted_by : {ch : Chrono} {m m' : ApprovalManager} → Step ch m m' → ℕ
granted_by grant_once = 1
granted_by _ = 0

-- Tokens spent and granted along a history.
abbrev pub spent : {ch : Chrono} {m m' : ApprovalManager} → Reach ch m m' → ℕ
spent here = 0
spent (next r s) = spent r + spent_by s

abbrev pub granted : {ch : Chrono} {m m' : ApprovalManager} → Reach ch m m' → ℕ
granted here = 0
granted (next r s) = granted r + granted_by s

step_budget :
    {ch : Chrono} {m m' : ApprovalManager} (s : Step ch m m')
    → spent_by s + m'.non_cli_allow_all_once ≤ m.non_cli_allow_all_once + granted_by s
unfolding grant_non_cli_session revoke_non_cli_session grant_non_cli_allow_all_once
    consume_non_cli_allow_all_once apply_auto_approve apply_auto_approve_revoke has_pending_request
    list_pending_requests clear_pending_for_tool confirm_pending_request reject_pending_request
    create_pending_request
step_budget {ch} {m} (approve env tool args who d n h) =
    ground (arith, approve_tool-token ch env tool args who m n d h)
step_budget (create pruned now random tool args who req n h) = ground arith
step_budget (confirm pruned now id who) = ground arith
step_budget (reject pruned now id who) = ground arith
step_budget (look pruned id) = omega arith
step_budget (list pruned by channel) = omega arith
step_budget (clear tool) = omega arith
step_budget (grant_session tool) = omega arith
step_budget (revoke_session tool) = omega arith
step_budget grant_once = ground arith
step_budget consume = ground arith
step_budget (auto tool) = omega arith
step_budget (auto_revoke tool) = omega arith

-- Along any history, the calls that a token let pass and the tokens that are left number no more than
-- the tokens at the start and those granted on the way.
pub token_budget :
    {ch : Chrono} {m m' : ApprovalManager} (r : Reach ch m m')
    → spent r + m'.non_cli_allow_all_once ≤ m.non_cli_allow_all_once + granted r
token_budget here = omega arith
token_budget (next r s) = omega (arith, token_budget r, step_budget s)
