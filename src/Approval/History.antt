-- ===== src/Approval/History.antt =====
-- What holds of an `ApprovalManager` after any operations, in any order, with any readings of the
-- clock, the random generator and the standard input.
use ada_claw.Prelude.{
  ℕ, ◌≤◌, ◌≡◌, String, Bool, not, Option, none, some, List, arith, leb, length, length-append,
  length-drop, lookup, ◌⊎◌, inl, inr, Option-cases, Bool-cases, str_eq,
}
use ada_claw.Approval.Types.{
  AutonomyLevel, ApprovalDecision, ApprovalLogEntry, Chrono, PendingApprovalRequest,
}
use ada_claw.Approval.Manager.{
  ApprovalManager, new, push_bounded, grant_non_cli_session, revoke_non_cli_session,
  grant_non_cli_allow_all_once, consume_non_cli_allow_all_once, apply_auto_approve,
  apply_auto_approve_revoke, record_decision_str,
}
use ada_claw.Approval.Pending.{
  Requester, create_pending_request, confirm_pending_request, reject_pending_request,
  has_pending_request, list_pending_requests, clear_pending_for_tool,
}
use ada_claw.Approval.Pending.Valid.{IsValid, create-IsValid, prune-IsValid, retain-IsValid}
use ada_claw.Approval.Pending.SingleUse.{confirm-IsValid, reject-eq-confirm}
use ada_claw.Approval.Decide.{Environment, prompt_interactive, approve_tool_internal}
use ada_claw.Approval.Decide.Matrix.{approve_tool-audit}

-- One call of a method that takes a lock for writing.
pub data Step (ch : Chrono) (m : ApprovalManager) : ApprovalManager → Type 0 where
  approve :
      (env : Environment) (tool args : String) (who : Option Requester) (d : ApprovalDecision)
      (m' : ApprovalManager)
      → approve_tool_internal ch env tool args who m ≡ some (m', d)
      → Step ch m m'
  create :
      (pruned now : ℕ) (random : List (List ℕ)) (tool args : String) (who : Requester)
      (req : PendingApprovalRequest) (m' : ApprovalManager)
      → create_pending_request ch pruned now random tool args who m ≡ some (m', req)
      → Step ch m m'
  confirm :
      (pruned now : ℕ) (id : String) (who : Requester)
      → Step ch m (confirm_pending_request ch pruned now id who m).0
  reject :
      (pruned now : ℕ) (id : String) (who : Requester)
      → Step ch m (reject_pending_request ch pruned now id who m).0
  look : (pruned : ℕ) (id : String) → Step ch m (has_pending_request ch pruned id m).0
  list :
      (pruned : ℕ) (by channel : Option String)
      → Step ch m (list_pending_requests ch pruned by channel m).0
  clear : (tool : String) → Step ch m (clear_pending_for_tool tool m).0
  grant_session : (tool : String) → Step ch m (grant_non_cli_session tool m)
  revoke_session : (tool : String) → Step ch m (revoke_non_cli_session tool m).0
  grant_once : Step ch m (grant_non_cli_allow_all_once m).0
  consume : Step ch m (consume_non_cli_allow_all_once m).0
  auto : (tool : String) → Step ch m (apply_auto_approve tool m)
  auto_revoke : (tool : String) → Step ch m (apply_auto_approve_revoke tool m).0

pub data Reach (ch : Chrono) (m : ApprovalManager) : ApprovalManager → Type 0 where
  here : Reach ch m m
  next : {s t : ApprovalManager} → Reach ch m s → Step ch s t → Reach ch m t

length-push_bounded :
    (e : ApprovalLogEntry) (log : List ApprovalLogEntry)
    → length log ≤ 10_000
    → length (push_bounded e log) ≤ 10_000
unfolding push_bounded
length-push_bounded e log h = elim (Bool-cases (leb 10_000 (length log))) [
  | inl full ↦ rw full (rw length-append (omega (arith, length-drop 1_000 log)))
  | inr room ↦ rw room (rw length-append (ground arith))
]

-- The requests are valid, and the log keeps its bound.
pub record Inv (m : ApprovalManager) : Type 0 where
  pub requests : IsValid m.pending_requests
  pub log : length m.audit_log ≤ 10_000

-- A decision leaves the requests as they were, or as a creation left them.
approve-requests :
    (ch : Chrono) (env : Environment) (tool args : String) (who : Option Requester)
    (m m' : ApprovalManager) (d : ApprovalDecision)
    → approve_tool_internal ch env tool args who m ≡ some (m', d)
    → IsValid m.pending_requests
    → IsValid m'.pending_requests
unfolding approve_tool_internal prompt_interactive consume_non_cli_allow_all_once
    record_decision_str
approve-requests ch env tool args none m m' d h v =
    let same : m'.pending_requests ≡ m.pending_requests = ground arith in rw same v
approve-requests ch env tool args (some who) m m' d h v =
    elim (Option-cases
      (create_pending_request ch env.pruned env.created env.random tool args who m)) [
        | inl e ↦ let same : m'.pending_requests ≡ m.pending_requests = ground arith in rw same v
        | inr ((m'', req), e) ↦
            let cases : (m'.pending_requests ≡ m.pending_requests)
                ⊎ (m'.pending_requests ≡ m''.pending_requests) =
              ground arith in
            elim cases [
              | inl same ↦ rw same v
              | inr filed ↦
                  rw filed (
                    create-IsValid ch env.pruned env.created env.random tool args who m m'' req v e)
            ]
      ]

create-log :
    (ch : Chrono) (pruned now : ℕ) (random : List (List ℕ)) (tool args : String) (who : Requester)
    (m m' : ApprovalManager) (req : PendingApprovalRequest)
    → create_pending_request ch pruned now random tool args who m ≡ some (m', req)
    → m'.audit_log ≡ m.audit_log
unfolding create_pending_request
create-log ch pruned now random tool args who m m' req h = ground arith

confirm-log :
    (ch : Chrono) (pruned now : ℕ) (id : String) (who : Requester) (m : ApprovalManager)
    → (confirm_pending_request ch pruned now id who m).0.audit_log ≡ m.audit_log
unfolding confirm_pending_request
confirm-log ch pruned now id who m = ground arith

Step-Inv : {ch : Chrono} {m m' : ApprovalManager} → Step ch m m' → Inv m → Inv m'
unfolding grant_non_cli_session revoke_non_cli_session grant_non_cli_allow_all_once
    consume_non_cli_allow_all_once apply_auto_approve apply_auto_approve_revoke has_pending_request
    list_pending_requests clear_pending_for_tool
Step-Inv {ch} {m} {m'} (approve env tool args who d n h) i = record {
  requests = approve-requests ch env tool args who m n d h i.requests;
  log =
      rw (approve_tool-audit ch env tool args who m n d h)
        (length-push_bounded _ m.audit_log i.log);
}
Step-Inv {ch} {m} (create pruned now random tool args who req n h) i = record {
  requests = create-IsValid ch pruned now random tool args who m n req i.requests h;
  log = rw (create-log ch pruned now random tool args who m n req h) i.log;
}
Step-Inv {ch} {m} (confirm pruned now id who) i = record {
  requests = confirm-IsValid ch pruned now id who m i.requests;
  log = rw confirm-log i.log;
}
Step-Inv {ch} {m} (reject pruned now id who) i = rw reject-eq-confirm (record {
  requests = confirm-IsValid ch pruned now id who m i.requests;
  log = rw confirm-log i.log;
})
Step-Inv {ch} {m} (look pruned id) i = record {
  requests = prune-IsValid ch pruned i.requests;
  log = i.log;
}
Step-Inv {ch} {m} (list pruned by channel) i = record {
  requests = prune-IsValid ch pruned i.requests;
  log = i.log;
}
Step-Inv (clear tool) i = record {
  requests = retain-IsValid (λ r. not (str_eq r.tool_name tool)) i.requests;
  log = i.log;
}
Step-Inv (grant_session tool) i = record { requests = i.requests; log = i.log }
Step-Inv (revoke_session tool) i = record { requests = i.requests; log = i.log }
Step-Inv grant_once i = record { requests = i.requests; log = i.log }
Step-Inv {m = m} consume i =
    let kept : (consume_non_cli_allow_all_once m).0.pending_requests ≡ m.pending_requests =
      ground arith in
    let logged : (consume_non_cli_allow_all_once m).0.audit_log ≡ m.audit_log = ground arith in
    record { requests = rw kept i.requests; log = rw logged i.log }
Step-Inv (auto tool) i = record { requests = i.requests; log = i.log }
Step-Inv (auto_revoke tool) i = record { requests = i.requests; log = i.log }

-- After any operations the requests are filed under their own ids, one for each context, and the audit
-- log holds at most 10 000 entries.
pub Reach-Inv : {ch : Chrono} {m m' : ApprovalManager} → Inv m → Reach ch m m' → Inv m'
Reach-Inv i here = i
Reach-Inv i (next r s) = Step-Inv s (Reach-Inv i r)

pub new-Inv : (level : AutonomyLevel) (interactive : Bool) → Inv (new level interactive)
unfolding new lookup
new-Inv level interactive = record {
  requests = record { unique = tt; keyed = λ k r e. cc; one_each = λ j k r q e f c. cc };
  log = omega arith;
}
