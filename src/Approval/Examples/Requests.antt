-- ===== src/Approval/Examples/Requests.antt =====
-- The theorems on pending requests and on histories, at concrete inputs.
use ada_claw.Prelude.{
  ℕ, ◌+◌, ◌≤◌, ◌≡◌, refl, true, false, ◌↔◌, none, some, false, List, [], ◌∷◌, ok, err, arith,
  lookup, insert, retain, contains,
}
use mathlib.Core.Option
use ada_claw.Approval.Types.{
  supervised, approved, is_approved, PendingApprovalRequest, requester_mismatch,
}
use ada_claw.Approval.Manager.{
  ApprovalManager, grant_non_cli_allow_all_once, consume_non_cli_allow_all_once,
  record_decision_str, new, with_auto_approve, with_always_ask,
}
use ada_claw.Approval.Decide.{approve_tool_internal}
use ada_claw.Approval.Pending.{
  asked_by, is_expired, prune_expired, fresh_id, new_request, create_pending_request,
  confirm_pending_request, generate_request_id,
}
use ada_claw.Approval.Pending.Valid.{IsValid, create-IsValid, pending_at}
use ada_claw.Approval.Pending.SingleUse.{confirm_ok_iff}
use ada_claw.Approval.Pending.Creation.{Distinct, request_lifetime}
use ada_claw.Approval.History.{Inv, Reach, here, next, approve, grant_once, new-Inv, Reach-Inv}
use ada_claw.Approval.Tokens.{spent, granted, token_budget}
use ada_claw.Approval.Examples.{tallies, manager, ann, bob, env, logged, shell_runs}

abbrev plain : ApprovalManager
plain = new supervised false

abbrev an_ask : PendingApprovalRequest
an_ask = new_request tallies 6 "apr-000102abff" "shell" "ls" ann plain

abbrev asked : ApprovalManager
asked = record plain { pending_requests = insert "apr-000102abff" an_ask [] }

plain-IsValid : IsValid plain.pending_requests
plain-IsValid = (new-Inv supervised false).requests

ask_files :
    create_pending_request tallies 5 6 env.random "shell" "ls" ann plain ≡ some (asked, an_ask)
unfolding create_pending_request prune_expired retain fresh_id generate_request_id lookup new
ask_files = refl

asked-IsValid : IsValid asked.pending_requests
asked-IsValid =
    create-IsValid tallies 5 6 env.random "shell" "ls" ann plain asked an_ask plain-IsValid
      ask_files

alive : is_expired tallies 7 an_ask ≡ false
alive =
    request_lifetime tallies "shell" ann 5 6 7 30 env.random "ls" plain asked an_ask
      (unfold new in refl) (omega arith) (unfold prune_expired retain new in refl) ask_files

there : lookup "apr-000102abff" asked.pending_requests ≡ some an_ask
unfolding lookup insert
there = refl

confirm_ok_iff_example :
    ((confirm_pending_request tallies 7 7 "apr-000102abff" ann asked).1 ≡ ok an_ask) ↔ (
      (lookup "apr-000102abff" asked.pending_requests ≡ some an_ask)
      × (is_expired tallies 7 an_ask ≡ false)
      × (is_expired tallies 7 an_ask ≡ false)
      × (asked_by ann an_ask ≡ true))
confirm_ok_iff_example = confirm_ok_iff tallies 7 7 "apr-000102abff" ann asked an_ask asked-IsValid

bob_is_refused :
    (confirm_pending_request tallies 7 7 "apr-000102abff" bob asked).1 ≡ err requester_mismatch
unfolding confirm_pending_request
bob_is_refused = ground (arith, still_there, alive)
  where
    still_there : lookup "apr-000102abff" (pending_at tallies 7 asked) ≡ some an_ask
    still_there = unfold lookup insert prune_expired retain in ground (arith, alive)

abbrev draws : List (List ℕ)
draws = (0 ∷ 1 ∷ 2 ∷ 0xAB ∷ 0xFF ∷ []) ∷ (0 ∷ 0 ∷ 0 ∷ 0 ∷ 1 ∷ []) ∷ []

draws-Distinct : Distinct draws
unfolding generate_request_id contains
draws-Distinct = (refl, (refl, tt))

abbrev steps : Reach tallies manager logged
steps = next here (approve env "shell" "ls" none approved logged shell_runs)

Reach-Inv_example : Inv logged
Reach-Inv_example = Reach-Inv manager-Inv steps
  where
    manager-Inv : Inv manager
    manager-Inv =
        unfold with_auto_approve with_always_ask in
        record { requests = plain-IsValid; log = (new-Inv supervised false).log }

-- A token is granted, and lets one call pass.
abbrev granted_one : ApprovalManager
granted_one = (grant_non_cli_allow_all_once plain).0

abbrev spent_one : ApprovalManager
spent_one = record_decision_str tallies 5 "shell" "ls" true "allow_all_once" plain

token_taken :
    approve_tool_internal tallies env "shell" "ls" (some ann) granted_one
    ≡ some (spent_one, approved)
unfolding approve_tool_internal new grant_non_cli_allow_all_once contains
    consume_non_cli_allow_all_once record_decision_str
token_taken = refl

-- The next call, which may be one of the same turn, waits for a confirmation.
next_call :
    Option.map
      (λ x. is_approved x.1)
      (approve_tool_internal tallies env "file_write" "a" (some ann) spent_one)
    ≡ some false
unfolding approve_tool_internal new contains consume_non_cli_allow_all_once record_decision_str
    create_pending_request prune_expired retain fresh_id generate_request_id lookup
next_call = refl

abbrev with_token : Reach tallies plain spent_one
with_token =
    next (next here grant_once) (approve env "shell" "ls" (some ann) approved spent_one token_taken)

both_counted : (spent with_token ≡ 1) × (granted with_token ≡ 1)
unfolding new grant_non_cli_allow_all_once contains
both_counted = (refl, refl)

token_budget_example :
    spent with_token + spent_one.non_cli_allow_all_once
    ≤ plain.non_cli_allow_all_once + granted with_token
token_budget_example = token_budget with_token
