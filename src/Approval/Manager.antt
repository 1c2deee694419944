-- ===== src/Approval/Manager.antt =====
-- `ApprovalManager` of crates/adaclaw-security/src/approval.rs: its state behind one lock for each
-- field, the builders, the allowlists, the bypass tokens and the audit log.
use Prim.Native.String.{count}
use ada_claw.Prelude.{
  ℕ, ◌+◌, ◌-◌, ◌^◌, String, Bool, true, false, List, [], ◌∷◌, ◌++◌, ℤ, pos, ltb, leb, ◌==◌,
  if◌then◌else◌, length, drop, StrMap, contains, set_insert, set_remove, set_extend, take_chars,
  concat,
}
use ada_claw.Approval.Types.{
  AutonomyLevel, supervised, from_str, ApprovalLogEntry, PendingApprovalRequest, Chrono,
}

pub record ApprovalManager : Type 0 where
  pub level : AutonomyLevel
  pub interactive : Bool
  pub auto_approve : List String
  pub always_ask : List String
  pub session_allowlist : List String
  pub non_cli_session_allowlist : List String
  pub non_cli_allow_all_once : ℕ  -- u32
  pub pending_requests : StrMap PendingApprovalRequest
  pub approval_timeout_minutes : ℤ  -- i64
  pub audit_log : List ApprovalLogEntry

unfoldable pub new : AutonomyLevel → Bool → ApprovalManager
new level interactive = record {
  level = level;
  interactive = interactive;
  auto_approve = [];
  always_ask = [];
  session_allowlist = [];
  non_cli_session_allowlist = [];
  non_cli_allow_all_once = 0;
  pending_requests = [];
  approval_timeout_minutes = pos 30;
  audit_log = [];
}

unfoldable pub from_config_str : String → Bool → ApprovalManager
unfolding new from_str
from_config_str level_str interactive = new (from_str level_str) interactive

unfoldable pub with_auto_approve : List String → ApprovalManager → ApprovalManager
with_auto_approve tools m = record m { auto_approve = set_extend m.auto_approve tools }

unfoldable pub with_always_ask : List String → ApprovalManager → ApprovalManager
with_always_ask tools m = record m { always_ask = set_extend m.always_ask tools }

unfoldable pub with_timeout_minutes : ℤ → ApprovalManager → ApprovalManager
with_timeout_minutes minutes m = record m { approval_timeout_minutes = minutes }

abbrev pub is_supervised : AutonomyLevel → Bool
is_supervised supervised = true
is_supervised _ = false

unfoldable pub needs_approval : String → ApprovalManager → Bool
needs_approval tool_name m =
    if is_supervised m.level
    then if contains m.always_ask tool_name
      then true
      else if contains m.auto_approve tool_name
      then false
      else if contains m.session_allowlist tool_name
      then false
      else true
    else false

unfoldable pub grant_non_cli_session : String → ApprovalManager → ApprovalManager
grant_non_cli_session tool_name m = record m {
  non_cli_session_allowlist = set_insert tool_name m.non_cli_session_allowlist;
}

unfoldable pub revoke_non_cli_session : String → ApprovalManager → ApprovalManager × Bool
revoke_non_cli_session tool_name m = (
  record m { non_cli_session_allowlist = set_remove tool_name m.non_cli_session_allowlist },
  contains m.non_cli_session_allowlist tool_name,
)

abbrev pub is_non_cli_session_granted : String → ApprovalManager → Bool
is_non_cli_session_granted tool_name m = contains m.non_cli_session_allowlist tool_name

-- `u32::saturating_add(1)`.
abbrev pub saturating_suc : ℕ → ℕ
saturating_suc n = if ltb n (2 ^ 32 - 1) then n + 1 else n

unfoldable pub grant_non_cli_allow_all_once : ApprovalManager → ApprovalManager × ℕ
grant_non_cli_allow_all_once m =
    let remaining = saturating_suc m.non_cli_allow_all_once in
    (record m { non_cli_allow_all_once = remaining }, remaining)

unfoldable pub consume_non_cli_allow_all_once : ApprovalManager → ApprovalManager × Bool
consume_non_cli_allow_all_once m =
    if m.non_cli_allow_all_once == 0
    then (m, false)
    else (record m { non_cli_allow_all_once = m.non_cli_allow_all_once - 1 }, true)

abbrev pub non_cli_allow_all_once_remaining : ApprovalManager → ℕ
non_cli_allow_all_once_remaining m = m.non_cli_allow_all_once

unfoldable pub apply_auto_approve : String → ApprovalManager → ApprovalManager
apply_auto_approve tool_name m = record m {
  auto_approve = set_insert tool_name m.auto_approve;
  always_ask = set_remove tool_name m.always_ask;
}

unfoldable pub apply_auto_approve_revoke : String → ApprovalManager → ApprovalManager × Bool
apply_auto_approve_revoke tool_name m = (
  record m { auto_approve = set_remove tool_name m.auto_approve },
  contains m.auto_approve tool_name,
)

unfoldable pub summarize_args : String → ℕ → String
summarize_args args max =
    if leb (count args) max then args else concat (take_chars max args ∷ "…" ∷ [])

-- The bounded log: at 10 000 entries the oldest 1 000 go first.
unfoldable pub push_bounded : ApprovalLogEntry → List ApprovalLogEntry → List ApprovalLogEntry
push_bounded entry log = (if leb 10_000 (length log) then drop 1_000 log else log) ++ entry ∷ []

-- `now` is the reading of `Utc::now()`.
unfoldable pub record_decision_str :
    Chrono → ℕ → String → String → Bool → String → ApprovalManager → ApprovalManager
record_decision_str ch now tool_name args_preview approved channel m = record m {
  audit_log =
      push_bounded
        (record {
          timestamp = ch.to_rfc3339 now;
          tool_name = tool_name;
          arguments_summary = summarize_args args_preview 80;
          approved = approved;
          channel = channel;
        })
        m.audit_log;
}
