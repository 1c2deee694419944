-- ===== src/Approval/Decide/Preview.antt =====
-- `needs_approval`, the preview of `approve_tool`, against what the call itself decides.
use ada_claw.Prelude.{◌≡◌, String, Bool, true, false, not, Option, some, arith, contains}
use ada_claw.Approval.Types.{AutonomyLevel, read_only, ApprovalDecision, is_approved, Chrono}
use ada_claw.Approval.Manager.{ApprovalManager, is_supervised, needs_approval}
use ada_claw.Approval.Pending.{Requester}
use ada_claw.Approval.Decide.{Environment, approve_tool_internal}
use ada_claw.Approval.Decide.Matrix.{approve_tool-matrix}

abbrev pub is_read_only : AutonomyLevel → Bool
is_read_only read_only = true
is_read_only _ = false

module _ (ch : Chrono) (env : Environment) (tool args : String) where
  module _ (who : Option Requester) (m m' : ApprovalManager) (d : ApprovalDecision) where
    -- Where `needs_approval` says no, a call that returns is approved, unless the level is ReadOnly.
    pub needs_approval_sound :
        approve_tool_internal ch env tool args who m ≡ some (m', d)
        → needs_approval tool m ≡ false
        → is_approved d ≡ not (is_read_only m.level)
    unfolding needs_approval
    needs_approval_sound h no_need =
        ground (arith, approve_tool-matrix ch env tool args who m m' d h)

    -- A tool on both configured lists is said to need approval, and yet in Supervised mode each call of
    -- it that returns is approved, whoever asks.
    pub both_lists_approved :
        approve_tool_internal ch env tool args who m ≡ some (m', d)
        → is_supervised m.level ≡ true
        → contains m.auto_approve tool ≡ true
        → contains m.always_ask tool ≡ true
        → (needs_approval tool m ≡ true) × (is_approved d ≡ true)
    unfolding needs_approval
    both_lists_approved h level auto always =
        (ground arith, ground (arith, approve_tool-matrix ch env tool args who m m' d h))
