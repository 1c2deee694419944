-- ===== src/Approval/Pending.antt =====
-- The pending requests of `ApprovalManager` in crates/adaclaw-security/src/approval.rs.
-- The clock is read at each `Utc::now()`: the caller passes a reading for the pruning of a call
-- (one for all entries) and one for each later test. The random generator gives the bytes of the
-- successive request ids; `none` means that the given bytes ran out, which the program never meets.
pub mod Valid
pub mod SingleUse
pub mod Creation
use Prim.Native.String.{compare}
use text.Mathlib.Text.{is_le}
use ada_claw.Prelude.{
  ℕ, ◌-◌, ◌/◌, ◌%◌, ◌≡◌, String, Bool, true, false, not, ◌&&◌, ◌||◌, Option, none, some, List, [],
  ◌∷◌, Result, ok, err, leb, if◌then◌else◌, length, filter, find, get_elem_or, StrMap, lookup,
  insert, remove, retain, contains_key, values, str_eq, concat,
}
use ada_claw.Approval.Types.{
  Chrono, PendingApprovalRequest, PendingApprovalError, not_found, expired, requester_mismatch,
}
use ada_claw.Approval.Manager.{ApprovalManager, summarize_args}

-- `{:x}` of a digit, and `{:02x}` of a byte.
abbrev hex_digit : ℕ → String
hex_digit n = get_elem_or "" n (
    "0" ∷ "1" ∷ "2" ∷ "3" ∷ "4" ∷ "5" ∷ "6" ∷ "7" ∷ "8" ∷ "9" ∷ "a" ∷ "b" ∷ "c" ∷ "d" ∷ "e" ∷ "f"
    ∷ [])

hex_bytes : List ℕ → String
hex_bytes [] = ""
hex_bytes (b ∷ rest) = concat (hex_digit (b / 16) ∷ hex_digit (b % 16) ∷ hex_bytes rest ∷ [])

unfoldable pub generate_request_id : List ℕ → String
unfolding hex_bytes concat
generate_request_id bytes = concat ("apr-" ∷ hex_bytes bytes ∷ [])

module _ (ch : Chrono) where
  unfoldable pub is_expired : ℕ → PendingApprovalRequest → Bool
  is_expired now req = elim (ch.parse_from_rfc3339 req.expires_at) [
    | none ↦ true
    | some t ↦ leb t now
  ]

  unfoldable pub prune_expired : ℕ → StrMap PendingApprovalRequest → StrMap PendingApprovalRequest
  prune_expired now = retain (λ req. not (is_expired now req))

-- Who asks, or who answers: the fields that a confirmation has to match.
pub record Requester : Type 0 where
  pub sender : String
  pub channel : String
  pub reply_target : String

abbrev pub asked_by : Requester → PendingApprovalRequest → Bool
asked_by who req =
    str_eq req.requested_by who.sender
    && str_eq req.requested_channel who.channel
    && str_eq req.requested_reply_target who.reply_target

-- `while pending.contains_key(&request_id)`.
unfoldable pub fresh_id : List (List ℕ) → StrMap PendingApprovalRequest → Option String
fresh_id [] pending = none
fresh_id (bytes ∷ rest) pending =
    let id = generate_request_id bytes in
    let later = fresh_id rest pending in if contains_key id pending then later else some id

module _ (ch : Chrono) where
  -- The request that `create_pending_request` files under `id`.
  abbrev pub new_request :
      ℕ → String → String → String → Requester → ApprovalManager → PendingApprovalRequest
  new_request now id tool_name args_preview who m = record {
    request_id = id;
    tool_name = tool_name;
    args_preview = summarize_args args_preview 100;
    requested_by = who.sender;
    requested_channel = who.channel;
    requested_reply_target = who.reply_target;
    created_at = ch.to_rfc3339 now;
    expires_at = ch.to_rfc3339 (ch.add_minutes now m.approval_timeout_minutes);
  }

  abbrev Created : Type 0
  Created = Option (ApprovalManager × PendingApprovalRequest)

  -- `pruned` and `now` are the readings of the pruning and of the creation.
  unfoldable pub create_pending_request :
      ℕ
      → ℕ
      → List (List ℕ)
      → String
      → String
      → Requester
      → ApprovalManager
      → Option (ApprovalManager × PendingApprovalRequest)
  create_pending_request pruned now random tool_name args_preview who m =
      let pending = prune_expired ch pruned m.pending_requests in
      elim (find (λ req. str_eq req.tool_name tool_name && asked_by who req) (values pending)) [
        | some existing ↦ some (record m { pending_requests = pending }, existing)
        | none ↦ elim (fresh_id random pending) [
          | none ↦ none
          | some id ↦
              let req = new_request now id tool_name args_preview who m in
              some (record m { pending_requests = insert id req pending }, req)
        ]
      ]

  abbrev pub Answered : Type 0
  Answered = ApprovalManager × Result PendingApprovalError PendingApprovalRequest

  -- `now` is the reading of the second test of expiry.
  unfoldable pub confirm_pending_request : ℕ → ℕ → String → Requester → ApprovalManager → Answered
  confirm_pending_request pruned now request_id who m =
      let pending = prune_expired ch pruned m.pending_requests in
      elim (lookup request_id pending) [
        | none ↦ (record m { pending_requests = pending }, err not_found)
        | some req ↦
            let taken = remove request_id pending in
            if is_expired ch now req
            then (record m { pending_requests = taken }, err expired)
            else if not (asked_by who req)
            then (
              record m { pending_requests = insert req.request_id req taken },
              err requester_mismatch,
            )
            else (record m { pending_requests = taken }, ok req)
      ]

  -- The body of `reject_pending_request` is that of `confirm_pending_request`.
  unfoldable pub reject_pending_request : ℕ → ℕ → String → Requester → ApprovalManager → Answered
  reject_pending_request pruned now request_id who m =
      let pending = prune_expired ch pruned m.pending_requests in
      elim (lookup request_id pending) [
        | none ↦ (record m { pending_requests = pending }, err not_found)
        | some req ↦
            let taken = remove request_id pending in
            if is_expired ch now req
            then (record m { pending_requests = taken }, err expired)
            else if not (asked_by who req)
            then (
              record m { pending_requests = insert req.request_id req taken },
              err requester_mismatch,
            )
            else (record m { pending_requests = taken }, ok req)
      ]

  unfoldable pub has_pending_request : ℕ → String → ApprovalManager → ApprovalManager × Bool
  has_pending_request pruned request_id m =
      let pending = prune_expired ch pruned m.pending_requests in
      (record m { pending_requests = pending }, contains_key request_id pending)

  abbrev pub is_none_or : Option String → String → Bool
  is_none_or none s = true
  is_none_or (some t) s = str_eq s t

  -- `sort_by` on the creation text is stable: a row stays ahead of later rows with an equal text.
  insert_row : PendingApprovalRequest → List PendingApprovalRequest → List PendingApprovalRequest
  insert_row r [] = r ∷ []
  insert_row r (q ∷ rows) =
      let later = insert_row r rows in
      if is_le (compare r.created_at q.created_at) then r ∷ q ∷ rows else q ∷ later

  sort_rows : List PendingApprovalRequest → List PendingApprovalRequest
  unfolding insert_row
  sort_rows [] = []
  sort_rows (r ∷ rows) = insert_row r (sort_rows rows)

  unfoldable pub list_pending_requests :
      ℕ
      → Option String
      → Option String
      → ApprovalManager
      → ApprovalManager × List PendingApprovalRequest
  unfolding sort_rows
  list_pending_requests pruned requested_by requested_channel m =
      let pending = prune_expired ch pruned m.pending_requests in
      (
        record m { pending_requests = pending },
        sort_rows (
            filter
              (λ req.
                is_none_or requested_by req.requested_by
                && is_none_or requested_channel req.requested_channel)
              (values pending)),
      )

unfoldable pub clear_pending_for_tool : String → ApprovalManager → ApprovalManager × ℕ
clear_pending_for_tool tool_name m =
    let pending = retain (λ req. not (str_eq req.tool_name tool_name)) m.pending_requests in
    (record m { pending_requests = pending }, length m.pending_requests - length pending)
