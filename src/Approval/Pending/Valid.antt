-- ===== src/Approval/Pending/Valid.antt =====
-- The map of pending requests: one entry for each id, filed under its own id, and at most one for
-- each tool, sender, channel and reply target. Every operation keeps this.
use ada_claw.Prelude.{
  ℕ, ◌≡◌, sym, ◌∙◌, String, Bool, true, not, ◌&&◌, Option, none, some, List, arith, StrMap, lookup,
  insert, remove, retain, keep, values, str_eq, find, eq_iff, UniqueKeys, lookup-insert,
  lookup-remove, lookup-retain, insert-UniqueKeys, remove-UniqueKeys, retain-UniqueKeys, find-none,
  ◌⊎◌, inl, inr, Option-cases,
}
use ada_claw.Approval.Types.{Chrono, PendingApprovalRequest}
use ada_claw.Approval.Manager.{ApprovalManager}
use ada_claw.Approval.Pending.{
  Requester, asked_by, prune_expired, is_expired, fresh_id, new_request, create_pending_request,
}

abbrev Requests : Type 0
Requests = StrMap PendingApprovalRequest

abbrev pub SameContext : PendingApprovalRequest → PendingApprovalRequest → Type 0
SameContext r q =
    (r.tool_name ≡ q.tool_name)
    × (r.requested_by ≡ q.requested_by)
    × (r.requested_channel ≡ q.requested_channel)
    × (r.requested_reply_target ≡ q.requested_reply_target)

pub record IsValid (p : StrMap PendingApprovalRequest) : Type 0 where
  pub unique : UniqueKeys p
  pub keyed : (k : String) (r : PendingApprovalRequest) → lookup k p ≡ some r → r.request_id ≡ k
  pub one_each :
      (j k : String) (r q : PendingApprovalRequest)
      → lookup j p ≡ some r
      → lookup k p ≡ some q
      → SameContext r q
      → j ≡ k

-- A map whose entries are among those of a valid one is valid.
pub sub-IsValid :
    {p q : StrMap PendingApprovalRequest}
    → IsValid p
    → UniqueKeys q
    → ((k : String) (r : PendingApprovalRequest) → lookup k q ≡ some r → lookup k p ≡ some r)
    → IsValid q
sub-IsValid v u among = record {
  unique = u;
  keyed = λ k r e. v.keyed k r (among k r e);
  one_each = λ j k r q e f s. v.one_each j k r q (among j r e) (among k q f) s;
}

some_of_keep : {V : Type 0} (p : V → Bool) (o : Option V) (v : V) → keep p o ≡ some v → o ≡ some v
some_of_keep p none v h = h
some_of_keep p (some w) v h = ground arith

pub retain-IsValid :
    (t : PendingApprovalRequest → Bool) {p : StrMap PendingApprovalRequest}
    → IsValid p
    → IsValid (retain t p)
retain-IsValid t {p} v =
    sub-IsValid v (retain-UniqueKeys t p v.unique)
      (λ k r e. some_of_keep t (lookup k p) r (sym (lookup-retain t k p v.unique) ∙ e))

pub remove-IsValid :
    (k : String) {p : StrMap PendingApprovalRequest} → IsValid p → IsValid (remove k p)
remove-IsValid k {p} v =
    sub-IsValid v (remove-UniqueKeys k p v.unique) (λ j r e. ground (arith, lookup-remove k j p))

pub prune-IsValid :
    (ch : Chrono) (now : ℕ) {p : StrMap PendingApprovalRequest}
    → IsValid p
    → IsValid (prune_expired ch now p)
unfolding prune_expired
prune-IsValid ch now v = retain-IsValid (λ req. not (is_expired ch now req)) v

SameContext-symm : (r q : PendingApprovalRequest) → SameContext r q → SameContext q r
SameContext-symm r q (a, b, c, d) = (sym a, sym b, sym c, sym d)

-- What a key of the grown map holds: the new request under the new id, or an old one.
inserted :
    (id k : String) (r q : PendingApprovalRequest) (p : StrMap PendingApprovalRequest)
    → lookup k (insert id r p) ≡ some q
    → ((id ≡ k) × (r ≡ q)) ⊎ (lookup k p ≡ some q)
inserted id k r q p e = ground (arith, lookup-insert id k r p, eq_iff id k)

-- A new context under a new id.
insert-IsValid :
    (id : String) (r : PendingApprovalRequest) (p : StrMap PendingApprovalRequest)
    → IsValid p
    → r.request_id ≡ id
    → ((k : String) (q : PendingApprovalRequest) → lookup k p ≡ some q → ¬ SameContext r q)
    → IsValid (insert id r p)
insert-IsValid id r p v named fresh = record {
  unique = insert-UniqueKeys id r p v.unique;
  keyed = λ k q e. ground (arith, lookup-insert id k r p, eq_iff id k, v.keyed k q);
  one_each = λ j k q s e f c. elim (inserted id j r q p e) [
    | inl (at_j, is_q) ↦ elim (inserted id k r s p f) [
      | inl (at_k, _) ↦ sym at_j ∙ at_k
      | inr old ↦ absurd (fresh k s old (rw is_q c))
    ]
    | inr old_j ↦ elim (inserted id k r s p f) [
      | inl (at_k, is_s) ↦ absurd (fresh j q old_j (rw is_s (SameContext-symm q s c)))
      | inr old_k ↦ v.one_each j k q s old_j old_k c
    ]
  ];
}

abbrev pub matches : String → Requester → PendingApprovalRequest → Bool
matches tool who req = str_eq req.tool_name tool && asked_by who req

abbrev pub pending_at : Chrono → ℕ → ApprovalManager → StrMap PendingApprovalRequest
pending_at ch pruned m = prune_expired ch pruned m.pending_requests

abbrev pub found_at :
    Chrono → ℕ → String → Requester → ApprovalManager → Option PendingApprovalRequest
found_at ch pruned tool who m = find (matches tool who) (values (pending_at ch pruned m))

module _ (ch : Chrono) (pruned now : ℕ) where
  module _ (random : List (List ℕ)) (tool args : String) (who : Requester) where
    -- A creation that returns: the request that was there, or a new one under a fresh id.
    pub data Creation (m m' : ApprovalManager) (req : PendingApprovalRequest) : Type 0 where
      reused :
          found_at ch pruned tool who m ≡ some req
          → m' ≡ record m { pending_requests = pending_at ch pruned m }
          → Creation m m' req
      filed :
          (id : String)
          → found_at ch pruned tool who m ≡ none
          → fresh_id random (pending_at ch pruned m) ≡ some id
          → req ≡ new_request ch now id tool args who m
          → m' ≡ record m { pending_requests = insert id req (pending_at ch pruned m) }
          → Creation m m' req

    pub create-Creation :
        (m m' : ApprovalManager) (req : PendingApprovalRequest)
        → create_pending_request ch pruned now random tool args who m ≡ some (m', req)
        → Creation m m' req
    unfolding create_pending_request
    create-Creation m m' req h = elim (Option-cases (found_at ch pruned tool who m)) [
      | inr (old, e) ↦ reused (ground arith) (ground arith)
      | inl e ↦ elim (Option-cases (fresh_id random (pending_at ch pruned m))) [
        | inl f ↦ absurd (ground arith)
        | inr (id, f) ↦ filed id e f (ground arith) (ground arith)
      ]
    ]

  -- Creating a request keeps the map valid, whether it files a new one or returns the one that is there.
  pub create-IsValid :
      (random : List (List ℕ)) (tool args : String) (who : Requester) (m m' : ApprovalManager)
      (req : PendingApprovalRequest)
      → IsValid m.pending_requests
      → create_pending_request ch pruned now random tool args who m ≡ some (m', req)
      → IsValid m'.pending_requests
  create-IsValid random tool args who m m' req v h =
      go (create-Creation random tool args who m m' req h)
    where
      pruned-IsValid : IsValid (prune_expired ch pruned m.pending_requests)
      pruned-IsValid = prune-IsValid ch pruned v

      new_context_found :
          (q : PendingApprovalRequest)
          → SameContext (new_request ch now "" tool args who m) q
          → matches tool who q ≡ true
      new_context_found q c = ground (
        arith,
        eq_iff q.tool_name tool,
        eq_iff q.requested_by who.sender,
        eq_iff q.requested_channel who.channel,
        eq_iff q.requested_reply_target who.reply_target,
      )

      go : Creation random tool args who m m' req → IsValid m'.pending_requests
      go (reused e s) = rw s pruned-IsValid
      go (filed id e f r s) = rw s (
          insert-IsValid id req (pending_at ch pruned m) pruned-IsValid (ground arith)
            (λ k q old same. cc (
              find-none (matches tool who) (pending_at ch pruned m) k q e old,
              new_context_found q (rw r at same),
            )))
