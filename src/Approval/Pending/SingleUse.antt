-- ===== src/Approval/Pending/SingleUse.antt =====
-- Answering a pending request: who may, what it returns, and that an answer uses the request up.
use ada_claw.Prelude.{
  ℕ, ◌≡◌, refl, String, true, false, not, ◌↔◌, none, some, ok, err, arith, StrMap, lookup, insert,
  remove, eq_iff, lookup-insert, lookup-remove, lookup-retain, lookup-retain-none,
  insert-UniqueKeys, remove-UniqueKeys, ◌⊎◌, inl, inr, Bool-cases, Option-cases,
}
use ada_claw.Approval.Types.{Chrono, PendingApprovalRequest, not_found, requester_mismatch}
use ada_claw.Approval.Manager.{ApprovalManager}
use ada_claw.Approval.Pending.{
  Requester, asked_by, prune_expired, is_expired, confirm_pending_request, reject_pending_request,
}
use ada_claw.Approval.Pending.Valid.{
  IsValid, pending_at, prune-IsValid, remove-IsValid, sub-IsValid,
}

-- `reject_pending_request` has the body of `confirm_pending_request`.
pub reject-eq-confirm :
    (ch : Chrono) (pruned now : ℕ) (id : String) (who : Requester) (m : ApprovalManager)
    → reject_pending_request ch pruned now id who m ≡ confirm_pending_request ch pruned now id who m
unfolding reject_pending_request confirm_pending_request
reject-eq-confirm ch pruned now id who m = refl

module _ (ch : Chrono) (pruned now : ℕ) (id : String) (who : Requester) (m : ApprovalManager) where
  -- A confirmation succeeds, and returns `req`, exactly when `req` is pending under the id, has not
  -- expired at either reading of the clock, and was asked for by the one who confirms.
  pub confirm_ok_iff :
      (req : PendingApprovalRequest)
      → IsValid m.pending_requests
      → ((confirm_pending_request ch pruned now id who m).1 ≡ ok req) ↔ (
          (lookup id m.pending_requests ≡ some req)
          × (is_expired ch pruned req ≡ false)
          × (is_expired ch now req ≡ false)
          × (asked_by who req ≡ true))
  unfolding confirm_pending_request prune_expired
  confirm_ok_iff req v =
      let at_id =
        lookup-retain (λ r. not (is_expired ch pruned r)) id m.pending_requests v.unique in
      (λ h. ground (arith, at_id), λ h. ground (arith, at_id))

  -- Putting a request back under its id: every entry is one that was there.
  put_back-IsValid :
      (req : PendingApprovalRequest) (p : StrMap PendingApprovalRequest)
      → IsValid p
      → lookup id p ≡ some req
      → IsValid (insert req.request_id req (remove id p))
  put_back-IsValid req p v e =
      sub-IsValid v
        (insert-UniqueKeys req.request_id req (remove id p) (remove-UniqueKeys id p v.unique))
        (λ k r f. ground (
          arith,
          v.keyed id req e,
          lookup-insert req.request_id k req (remove id p),
          lookup-remove id k p,
          eq_iff id k,
        ))

  -- What a confirmation leaves pending.
  confirm-leaves :
      let left = (confirm_pending_request ch pruned now id who m).0.pending_requests in
      (left ≡ pending_at ch pruned m)
      ⊎ (left ≡ remove id (pending_at ch pruned m))
      ⊎ ((req : PendingApprovalRequest) × (lookup id (pending_at ch pruned m) ≡ some req)
          × (left ≡ insert req.request_id req (remove id (pending_at ch pruned m))))
  unfolding confirm_pending_request
  confirm-leaves = elim (Option-cases (lookup id (pending_at ch pruned m))) [
    | inl e ↦ inl (ground arith)
    | inr (req, e) ↦ elim (Bool-cases (is_expired ch now req)) [
      | inl late ↦ inr (inl (ground arith))
      | inr early ↦ elim (Bool-cases (asked_by who req)) [
        | inl same ↦ inr (inl (ground arith))
        | inr other ↦ inr (inr (req, e, ground arith))
      ]
    ]
  ]

  -- An answer, whatever its result, keeps the map of requests valid.
  pub confirm-IsValid :
      IsValid m.pending_requests
      → IsValid (confirm_pending_request ch pruned now id who m).0.pending_requests
  confirm-IsValid v =
      let w = prune-IsValid ch pruned v in
      elim confirm-leaves [
        | inl all ↦ rw all w
        | inr (inl taken) ↦ rw taken (remove-IsValid id w)
        | inr (inr (req, e, back)) ↦ rw back (put_back-IsValid req (pending_at ch pruned m) w e)
      ]

  -- An attempt by someone else leaves every request that has not expired where it was.
  pub mismatch_keeps :
      IsValid m.pending_requests
      → (confirm_pending_request ch pruned now id who m).1 ≡ err requester_mismatch
      → (k : String)
      → lookup k (confirm_pending_request ch pruned now id who m).0.pending_requests
        ≡ lookup k (pending_at ch pruned m)
  unfolding confirm_pending_request
  mismatch_keeps v h k = elim (Option-cases (lookup id (pending_at ch pruned m))) [
    | inl e ↦ ground arith
    | inr (req, e) ↦ ground (
      arith,
      (prune-IsValid ch pruned v).keyed id req e,
      lookup-insert req.request_id k req (remove id (pending_at ch pruned m)),
      lookup-remove id k (pending_at ch pruned m),
      eq_iff id k,
    )
  ]

  -- Once a confirmation has succeeded, every later answer to the same id, whoever sends it and whenever,
  -- finds nothing.
  pub confirm_once :
      (req : PendingApprovalRequest) (pruned' now' : ℕ) (who' : Requester)
      → (confirm_pending_request ch pruned now id who m).1 ≡ ok req
      → let m' = (confirm_pending_request ch pruned now id who m).0 in
        ((confirm_pending_request ch pruned' now' id who' m').1 ≡ err not_found)
        × ((reject_pending_request ch pruned' now' id who' m').1 ≡ err not_found)
  unfolding confirm_pending_request reject_pending_request prune_expired
  confirm_once req pruned' now' who' h =
      let gone : lookup id (remove id (pending_at ch pruned m)) ≡ none =
        ground (arith, lookup-remove id id (pending_at ch pruned m), eq_iff id id) in
      let still =
        lookup-retain-none (λ r. not (is_expired ch pruned' r)) id
          (remove id (pending_at ch pruned m)) gone in
      elim (Option-cases (lookup id (pending_at ch pruned m))) [
        | inl e ↦ (ground (arith, still), ground (arith, still))
        | inr (r, e) ↦ (ground (arith, still), ground (arith, still))
      ]
