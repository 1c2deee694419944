-- ===== src/Approval/Types.antt =====
-- The types of crates/adaclaw-security/src/approval.rs, and the date functions that it takes from
-- the crate chrono.
use ada_claw.Prelude.{
  ◌≤◌, ℕ, ◌+◌, ◌*◌, ◌≡◌, String, Bool, true, false, ◌||◌, Option, none, some, ℤ, pos, codes,
  codes_eq, trim, to_lower, if◌then◌else◌,
}

-- `DateTime<Utc>` in nanoseconds, and what the code uses of chrono. The law is documented: the text
-- of a date reads back as the date.
pub record Chrono : Type 0 where
  pub to_rfc3339 : ℕ → String
  pub parse_from_rfc3339 : String → Option ℕ
  -- `now + Duration::minutes(m)`.
  pub add_minutes : ℕ → ℤ → ℕ
  -- Up to here a date is read back, and a sum of minutes does not overflow.
  pub last : ℕ
  pub parse-to_rfc3339 : (t : ℕ) → t ≤ last → parse_from_rfc3339 (to_rfc3339 t) ≡ some t
  pub add_minutes_pos :
      (t m : ℕ) → t + m * 60_000_000_000 ≤ last → add_minutes t (pos m) ≡ t + m * 60_000_000_000

pub data AutonomyLevel : Type 0 where
  read_only supervised full : AutonomyLevel

-- `FromStr`.
unfoldable pub from_str : String → AutonomyLevel
unfolding trim to_lower
from_str s =
    let word = to_lower (trim (codes s)) in
    if codes_eq word (codes "readonly")
      || codes_eq word (codes "read_only")
      || codes_eq word (codes "read-only")
    then read_only
    else if codes_eq word (codes "full")
    then full
    else supervised

abbrev pub description : AutonomyLevel → String
description read_only = "ReadOnly — tools disabled, observation only"
description supervised = "Supervised — human approval required per tool call"
description full = "Full — all tools execute automatically (no confirmation)"

-- `Display`.
abbrev pub to_string : AutonomyLevel → String
to_string read_only = "ReadOnly"
to_string supervised = "Supervised"
to_string full = "Full"

pub data ApprovalDecision : Type 0 where
  approved : ApprovalDecision
  denied : String → ApprovalDecision

abbrev pub is_approved : ApprovalDecision → Bool
is_approved approved = true
is_approved (denied reason) = false

abbrev pub denial_reason : ApprovalDecision → Option String
denial_reason approved = none
denial_reason (denied reason) = some reason

pub record ApprovalLogEntry : Type 0 where
  pub timestamp : String
  pub tool_name : String
  pub arguments_summary : String
  pub approved : Bool
  pub channel : String

pub record PendingApprovalRequest : Type 0 where
  pub request_id : String
  pub tool_name : String
  pub args_preview : String
  pub requested_by : String
  pub requested_channel : String
  pub requested_reply_target : String
  pub created_at : String
  pub expires_at : String

pub data PendingApprovalError : Type 0 where
  not_found expired requester_mismatch : PendingApprovalError

-- `Display`.
abbrev pub error_to_string : PendingApprovalError → String
error_to_string not_found = "Approval request not found"
error_to_string expired = "Approval request has expired"
error_to_string requester_mismatch = "Approval request sender/channel mismatch"
