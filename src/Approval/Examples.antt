-- ===== src/Approval/Examples.antt =====
-- Runs of the approval manager, and the theorems at concrete inputs.
mod Requests
use Prim.Native.String
use ada_claw.Prelude.{
  ℕ, zero, suc, ◌+◌, ◌-◌, ◌*◌, ◌≤◌, ◌≡◌, refl, ap, String, Bool, true, false, not, ◌&&◌, ◌↔◌, leb,
  length, ◌<◌, Option, none, some, List, [], ◌∷◌, ok, err, ℤ, pos, negsuc, arith, str_eq, lookup,
  insert, remove, retain, contains, set_insert, set_remove, set_extend, concat, take_chars, trim,
  if◌then◌else◌,
}
use ada_claw.Approval.Types.{
  Chrono, supervised, full, read_only, approved, denied, ApprovalDecision, is_approved,
  PendingApprovalRequest, not_found, requester_mismatch, from_str,
}
use ada_claw.Approval.Manager.{
  ApprovalManager, new, with_auto_approve, with_always_ask, needs_approval, record_decision_str,
  push_bounded, summarize_args, is_supervised,
}
use ada_claw.Approval.Decide.Matrix.{
  allows, decided_by, approve_tool-matrix, approve_tool-token, approve_tool-lists,
  approve_tool-audit,
}
use ada_claw.Approval.Decide.Preview.{is_read_only, both_lists_approved}
use ada_claw.Approval.Pending.{
  Requester, asked_by, is_expired, prune_expired, fresh_id, new_request, create_pending_request,
  confirm_pending_request, reject_pending_request, generate_request_id,
}
use ada_claw.Approval.Pending.Valid.{IsValid, create-IsValid, pending_at}
use ada_claw.Approval.Pending.SingleUse.{
  confirm_ok_iff, confirm_once, mismatch_keeps, confirm-IsValid,
}
use ada_claw.Approval.Pending.Creation.{Distinct, fresh_id_total, create_again, request_lifetime}
use ada_claw.Approval.History.{
  Inv, Step, Reach, here, next, grant_once, approve, consume, create, new-Inv, Reach-Inv,
}
use ada_claw.Approval.Tokens.{spent, granted, token_budget}
use ada_claw.Approval.Decide.{Environment, approve_tool_internal}

-- A date written in tally marks.
tally : ℕ → String
tally zero = ""
tally (suc n) = String.◌∷◌ "x" (tally n)

marks : String → ℕ
marks String.[] = 0
marks (String.◌∷◌ c s) = suc (marks s)

marks-tally : (t : ℕ) → marks (tally t) ≡ t
unfolding tally marks
marks-tally zero = refl
marks-tally (suc n) = ap suc (marks-tally n)

advance : ℕ → ℤ → ℕ
advance t (pos m) = t + m * 60_000_000_000
advance t (negsuc m) = t - suc m * 60_000_000_000

advance_pos : (t m : ℕ) → advance t (pos m) ≡ t + m * 60_000_000_000
unfolding advance
advance_pos t m = refl

abbrev tallies : Chrono
tallies = record {
  to_rfc3339 = tally;
  parse_from_rfc3339 = λ s. some (marks s);
  add_minutes = advance;
  last = 4_000_000_000_000_000_000;
  parse-to_rfc3339 = λ t in_range. ap some (marks-tally t);
  add_minutes_pos = λ t m in_range. advance_pos t m;
}

abbrev manager : ApprovalManager
manager =
    with_always_ask ("shell" ∷ [])
      (with_auto_approve ("file_read" ∷ "shell" ∷ []) (new supervised false))

abbrev ann : Requester
ann = record { sender = "ann"; channel = "telegram"; reply_target = "42" }

abbrev bob : Requester
bob = record { sender = "bob"; channel = "telegram"; reply_target = "42" }

abbrev env : Environment
env = record {
  now = 5;
  pruned = 5;
  created = 6;
  random = (0 ∷ 1 ∷ 2 ∷ 0xAB ∷ 0xFF ∷ []) ∷ [];
  input = ok " Always ";
}

an_id : generate_request_id (0 ∷ 1 ∷ 2 ∷ 0xAB ∷ 0xFF ∷ []) ≡ "apr-000102abff"
unfolding generate_request_id
an_id = refl

levels :
    (from_str " Read-Only " ≡ read_only)
    × (from_str "FULL" ≡ full)
    × (from_str "fully" ≡ supervised)
unfolding from_str
levels = (refl, refl, refl)

abbrev logged : ApprovalManager
logged = record_decision_str tallies 5 "shell" "ls" true "auto_approve" manager

shell_runs : approve_tool_internal tallies env "shell" "ls" none manager ≡ some (logged, approved)
unfolding approve_tool_internal new with_auto_approve with_always_ask contains set_extend
shell_runs = refl

approve_tool-matrix_example : is_approved approved ≡ allows manager.level "shell" env.input manager
approve_tool-matrix_example =
    approve_tool-matrix tallies env "shell" "ls" none manager logged approved shell_runs
