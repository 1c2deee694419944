-- ===== src/Approval/Decide.antt =====
-- `approve_tool` and `approve_tool_supervised` of crates/adaclaw-security/src/approval.rs, with the
-- prompt that they fall back to. What the prompt prints and the warnings are not modelled; the line
-- that the user types, or the failure to read it, is an argument. The three optional context arguments
-- are one option here: the two callers give all of them or none.
pub mod Matrix
pub mod Preview
use ada_claw.Prelude.{
  ℕ, String, Bool, true, false, ◌||◌, Option, none, some, List, [], ◌∷◌, Result, ok, err, codes,
  codes_eq, trim, to_lower, concat, contains, set_insert, if◌then◌else◌,
}
use ada_claw.Approval.Types.{
  AutonomyLevel, read_only, supervised, full, ApprovalDecision, approved, denied, is_approved,
  Chrono, PendingApprovalRequest,
}
use ada_claw.Approval.Manager.{ApprovalManager, consume_non_cli_allow_all_once, record_decision_str}
use ada_claw.Approval.Pending.{Requester, create_pending_request}

-- `read_line`: the line, or an error.
abbrev pub Line : Type 0
Line = Result (Unit {0}) String

-- What one call reads from outside: the clock for the log, for the pruning and for the creation of a
-- request, the bytes of the random generator, and the standard input.
pub record Environment : Type 0 where
  pub now : ℕ
  pub pruned : ℕ
  pub created : ℕ
  pub random : List (List ℕ)
  pub input : Line

abbrev pub says : List String → String → Bool
says [] input = false
says (w ∷ words) input = codes_eq (to_lower (trim (codes input))) (codes w) || says words input

unfoldable pub prompt_interactive :
    String → Line → ApprovalManager → ApprovalManager × ApprovalDecision
prompt_interactive tool_name (ok input) m =
    if says ("y" ∷ "yes" ∷ []) input
    then (m, approved)
    else if says ("a" ∷ "always" ∷ []) input
    then (record m { session_allowlist = set_insert tool_name m.session_allowlist }, approved)
    else (m, denied (concat ("Tool '" ∷ tool_name ∷ "' was denied by the user." ∷ [])))
prompt_interactive tool_name (err e) m = (m, denied "Failed to read approval input from stdin.")

abbrev pub Decided : Type 0
Decided = Option (ApprovalManager × ApprovalDecision)

abbrev read_only_reason : String
read_only_reason =
    "ReadOnly mode: tool execution is not permitted. Change `security.autonomy_level` to 'supervised' or 'full' to enable tools."

sent_reason : String → String → String
sent_reason tool_name id = concat (
    "Supervised mode: tool '" ∷ tool_name
    ∷ "' requires human confirmation. Approval request sent (ID: " ∷ id
    ∷ "). Press ✅ Approve in the chat or run `/approve-allow " ∷ id
    ∷ "` to authorize, then retry your request." ∷ [])

no_context_reason : String → String
no_context_reason tool_name = concat (
    "Supervised mode: tool '" ∷ tool_name
    ∷ "' requires human confirmation, but this channel doesn't support interactive prompts. Switch to CLI or set autonomy_level = 'full' to allow automatic execution."
    ∷ [])

module _ (ch : Chrono) (env : Environment) (tool_name args_preview : String) where
  abbrev log_as : Bool → String → ApprovalManager → ApprovalManager
  log_as ok' channel = record_decision_str ch env.now tool_name args_preview ok' channel

  abbrev approve_as : String → ApprovalManager → Decided
  approve_as channel m = some (log_as true channel m, approved)

  -- Step 3, on the command line.
  on_prompt : ApprovalManager → Decided
  on_prompt m =
      let (m', decision) = prompt_interactive tool_name env.input m in
      some (log_as (is_approved decision) "cli" m', decision)

  -- Step 4, elsewhere: a pending request if the call came with its context.
  on_request : Option Requester → ApprovalManager → Decided
  unfolding sent_reason no_context_reason
  on_request (some who) m =
      elim (create_pending_request ch env.pruned env.created env.random tool_name args_preview who
        m) [
          | none ↦ none
          | some (m', req) ↦
              some (log_as false who.channel m', denied (sent_reason tool_name req.request_id))
        ]
  on_request none m = some (log_as false "unknown" m, denied (no_context_reason tool_name))

  ask : Option Requester → ApprovalManager → Decided
  unfolding on_prompt on_request
  ask who m = if m.interactive then on_prompt m else on_request who m

  -- Step 2: the token, then the allowlists.
  by_allowlist : Option Requester → ApprovalManager → Decided
  unfolding ask
  by_allowlist who m =
      let (m', consumed) = consume_non_cli_allow_all_once m in
      if consumed
      then approve_as "allow_all_once" m'
      else if contains m.session_allowlist tool_name
      then approve_as "session_allowlist" m
      else if contains m.non_cli_session_allowlist tool_name
      then approve_as "non_cli_session" m
      else ask who m

  on_supervised : Option Requester → ApprovalManager → Decided
  unfolding by_allowlist
  on_supervised who m =
      if contains m.auto_approve tool_name
      then approve_as "auto_approve" m
      else if contains m.always_ask tool_name
      then ask who m
      else by_allowlist who m

  at_level : AutonomyLevel → Option Requester → ApprovalManager → Decided
  unfolding on_supervised
  at_level read_only who m = some (log_as false "system" m, denied read_only_reason)
  at_level full who m = approve_as "system" m
  at_level supervised who m = on_supervised who m

  unfoldable pub approve_tool_internal : Option Requester → ApprovalManager → Decided
  unfolding at_level
  approve_tool_internal who m = at_level m.level who m

  abbrev pub approve_tool : ApprovalManager → Decided
  approve_tool m = approve_tool_internal none m

  abbrev pub approve_tool_supervised : Requester → ApprovalManager → Decided
  approve_tool_supervised who m = approve_tool_internal (some who) m
