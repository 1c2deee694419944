-- ===== src/Approval/Decide/Matrix.antt =====
-- The decision matrix of `approve_tool`: which calls are approved, what each call changes, and what
-- it writes to the audit log.
use ada_claw.Prelude.{
  ◌-◌, ◌≡◌, String, Bool, true, false, not, ◌&&◌, ◌||◌, Option, none, some, [], ◌∷◌, ok, err, ltb,
  arith, contains, if◌then◌else◌, str_eq, contains-set_insert,
}
use ada_claw.Approval.Types.{
  AutonomyLevel, read_only, supervised, full, ApprovalDecision, is_approved, Chrono,
}
use ada_claw.Approval.Manager.{
  ApprovalManager, is_supervised, push_bounded, summarize_args, record_decision_str,
  consume_non_cli_allow_all_once,
}
use ada_claw.Approval.Pending.{Requester, create_pending_request}
use ada_claw.Approval.Decide.{Line, Environment, says, prompt_interactive, approve_tool_internal}

-- The user answered the prompt with yes, or with always.
abbrev pub consents : Line → Bool
consents (ok input) = says ("y" ∷ "yes" ∷ "a" ∷ "always" ∷ []) input
consents (err e) = false

-- A grant stands: a bypass token, or the tool on one of the two session lists.
abbrev pub is_granted : String → ApprovalManager → Bool
is_granted tool m =
    ltb 0 m.non_cli_allow_all_once
    || contains m.session_allowlist tool
    || contains m.non_cli_session_allowlist tool

-- The matrix, read off the level, the lists, the grants and the answer.
abbrev pub allows : AutonomyLevel → String → Line → ApprovalManager → Bool
allows read_only tool input m = false
allows full tool input m = true
allows supervised tool input m =
    contains m.auto_approve tool
    || not (contains m.always_ask tool) && is_granted tool m
    || m.interactive && consents input

abbrev asked_at : Option Requester → ApprovalManager → String
asked_at none m = if m.interactive then "cli" else "unknown"
asked_at (some who) m = if m.interactive then "cli" else who.channel

-- The rule or the channel that decides, as the audit log names it.
abbrev pub decided_by : AutonomyLevel → String → Option Requester → ApprovalManager → String
decided_by read_only tool who m = "system"
decided_by full tool who m = "system"
decided_by supervised tool who m =
    if contains m.auto_approve tool
    then "auto_approve"
    else if contains m.always_ask tool
    then asked_at who m
    else if ltb 0 m.non_cli_allow_all_once
    then "allow_all_once"
    else if contains m.session_allowlist tool
    then "session_allowlist"
    else if contains m.non_cli_session_allowlist tool
    then "non_cli_session"
    else asked_at who m

module _ (ch : Chrono) (env : Environment) (tool args : String) where
  module _ (who : Option Requester) (m m' : ApprovalManager) (d : ApprovalDecision) where
    -- A call that returns is approved exactly where the matrix says so: in Full mode; never in ReadOnly
    -- mode; in Supervised mode for a tool on `auto_approve`, for a tool that is not on `always_ask` while
    -- a token or a session grant stands, and on a prompt that the user answers with yes or always.
    pub approve_tool-matrix :
        approve_tool_internal ch env tool args who m ≡ some (m', d)
        → is_approved d ≡ allows m.level tool env.input m
    unfolding approve_tool_internal prompt_interactive consume_non_cli_allow_all_once
    approve_tool-matrix h = ground arith

    -- The call takes a token exactly when it is a Supervised one for a tool on neither configured list
    -- and a token is left; it then takes one. No other call changes the count.
    pub approve_tool-token :
        approve_tool_internal ch env tool args who m ≡ some (m', d)
        → m'.non_cli_allow_all_once ≡ (
            if is_supervised m.level
              && not (contains m.auto_approve tool)
              && not (contains m.always_ask tool)
            then m.non_cli_allow_all_once - 1
            else m.non_cli_allow_all_once)
    unfolding approve_tool_internal prompt_interactive consume_non_cli_allow_all_once
        create_pending_request record_decision_str
    approve_tool-token h = ground arith

    -- The configuration and the session grants of other channels stay, and the session allowlist grows
    -- by at most this tool, at a prompt.
    pub approve_tool-lists :
        approve_tool_internal ch env tool args who m ≡ some (m', d)
        → (m'.level ≡ m.level)
          × (m'.auto_approve ≡ m.auto_approve)
          × (m'.always_ask ≡ m.always_ask)
          × (m'.non_cli_session_allowlist ≡ m.non_cli_session_allowlist)
    unfolding approve_tool_internal prompt_interactive consume_non_cli_allow_all_once
        create_pending_request record_decision_str
    approve_tool-lists h = (ground arith, ground arith, ground arith, ground arith)

    pub approve_tool-session :
        (other : String)
        → approve_tool_internal ch env tool args who m ≡ some (m', d)
        → str_eq tool other ≡ false
        → contains m'.session_allowlist other ≡ contains m.session_allowlist other
    unfolding approve_tool_internal prompt_interactive consume_non_cli_allow_all_once
        create_pending_request record_decision_str
    approve_tool-session other h =
        ground (arith, contains-set_insert tool other m.session_allowlist)

    -- Each call that returns appends one entry to the bounded audit log, about this tool, with the
    -- decision, and under the rule or the channel that decided.
    pub approve_tool-audit :
        approve_tool_internal ch env tool args who m ≡ some (m', d)
        → m'.audit_log
          ≡ push_bounded
              (record {
                timestamp = ch.to_rfc3339 env.now;
                tool_name = tool;
                arguments_summary = summarize_args args 80;
                approved = allows m.level tool env.input m;
                channel = decided_by m.level tool who m;
              })
              m.audit_log
    unfolding approve_tool_internal prompt_interactive consume_non_cli_allow_all_once
        create_pending_request record_decision_str
    approve_tool-audit h = ground arith
