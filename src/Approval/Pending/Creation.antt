-- ===== src/Approval/Pending/Creation.antt =====
-- Creating a pending request: the search for a fresh id ends, and the same request is not filed twice.
use ada_claw.Prelude.{
  ℕ, ◌+◌, ◌*◌, ◌≤◌, ◌<◌, leb, pos, ◌≡◌, refl, ◌∙◌, String, true, false, not, none, some, List, [],
  ◌∷◌, map, arith, length, StrMap, lookup, remove, contains, eq_iff, lookup-insert, lookup-remove,
  lookup-retain, find-none, find-some, length-remove-lt, inl, inr, Option-cases,
}
use ada_claw.Approval.Types.{Chrono, PendingApprovalRequest}
use ada_claw.Approval.Manager.{ApprovalManager}
use ada_claw.Approval.Pending.{
  Requester, prune_expired, is_expired, generate_request_id, fresh_id, create_pending_request,
}
use ada_claw.Approval.Pending.Valid.{
  IsValid, SameContext, matches, pending_at, found_at, Creation, reused, filed, create-Creation,
  create-IsValid, prune-IsValid,
}

-- No id is drawn twice.
abbrev pub Distinct : List (List ℕ) → Type 0
Distinct [] = Unit
Distinct (bytes ∷ rest) =
    (contains (map generate_request_id rest) (generate_request_id bytes) ≡ false) × Distinct rest

fresh_id-remove :
    (id : String) (random : List (List ℕ)) (p : StrMap PendingApprovalRequest)
    → contains (map generate_request_id random) id ≡ false
    → fresh_id random (remove id p) ≡ fresh_id random p
unfolding fresh_id contains
fresh_id-remove id [] p h = refl
fresh_id-remove id (bytes ∷ rest) p h = ground (
  arith,
  fresh_id-remove id rest p,
  lookup-remove id (generate_request_id bytes) p,
  eq_iff id (generate_request_id bytes),
  eq_iff (generate_request_id bytes) id,
)

all_taken-le :
    (random : List (List ℕ)) (p : StrMap PendingApprovalRequest)
    → Distinct random
    → fresh_id random p ≡ none
    → length random ≤ length p
unfolding fresh_id
all_taken-le [] p d h = omega arith
all_taken-le (bytes ∷ rest) p d h =
    let id = generate_request_id bytes in
    elim (Option-cases (lookup id p)) [
      | inl free ↦ absurd (ground arith)
      | inr (r, taken) ↦
          let none_left : fresh_id rest p ≡ none = ground arith in
          omega (
            arith,
            length-remove-lt id p taken,
            all_taken-le rest (remove id p) d.1 (fresh_id-remove id rest p d.0 ∙ none_left),
          )
    ]

pub fresh_id_unused :
    (random : List (List ℕ)) (p : StrMap PendingApprovalRequest) (id : String)
    → fresh_id random p ≡ some id
    → lookup id p ≡ none
unfolding fresh_id
fresh_id_unused [] p id e = cc
fresh_id_unused (bytes ∷ rest) p id e =
    ground (arith, fresh_id_unused rest p id, Option-cases (lookup (generate_request_id bytes) p))

-- The search finds an id that is not in use, once it has drawn one more distinct id than there are
-- requests: the loop of `create_pending_request` ends.
pub fresh_id_total :
    (random : List (List ℕ)) (p : StrMap PendingApprovalRequest)
    → Distinct random
    → length p < length random
    → (id : String) × (fresh_id random p ≡ some id) × (lookup id p ≡ none)
fresh_id_total random p d h = elim (Option-cases (fresh_id random p)) [
  | inl e ↦ absurd (omega (arith, all_taken-le random p d e))
  | inr (id, e) ↦ (id, e, fresh_id_unused random p id e)
]

-- Two requests that match one search have one context.
same_of_matches :
    (tool : String) (who : Requester) (r q : PendingApprovalRequest)
    → matches tool who r ≡ true
    → matches tool who q ≡ true
    → SameContext r q
same_of_matches tool who r q h k = (
  ground (arith, eq_iff r.tool_name tool, eq_iff q.tool_name tool),
  ground (arith, eq_iff r.requested_by who.sender, eq_iff q.requested_by who.sender),
  ground (arith, eq_iff r.requested_channel who.channel, eq_iff q.requested_channel who.channel),
  ground (
    arith,
    eq_iff r.requested_reply_target who.reply_target,
    eq_iff q.requested_reply_target who.reply_target,
  ),
)

module _ (ch : Chrono) (tool : String) (who : Requester) where
  -- In a valid map the search of `create_pending_request` finds the one request that matches.
  found_of_there :
      (pruned : ℕ) (m : ApprovalManager) (k : String) (req : PendingApprovalRequest)
      → IsValid (pending_at ch pruned m)
      → lookup k (pending_at ch pruned m) ≡ some req
      → matches tool who req ≡ true
      → found_at ch pruned tool who m ≡ some req
  found_of_there pruned m k req v there hit = elim (Option-cases (found_at ch pruned tool who m)) [
    | inl e ↦ cc (find-none (matches tool who) (pending_at ch pruned m) k req e there)
    | inr (r, e) ↦
        let (j, at_j, hit') = find-some (matches tool who) (pending_at ch pruned m) r v.unique e in
        let same = v.one_each j k r req at_j there (same_of_matches tool who r req hit' hit) in
        cc (e, at_j, there, same)
  ]

  -- The request that a creation returns is pending afterwards, and matches what was asked.
  created_there :
      (pruned now : ℕ) (random : List (List ℕ)) (args : String) (m m' : ApprovalManager)
      (req : PendingApprovalRequest)
      → IsValid m.pending_requests
      → Creation ch pruned now random tool args who m m' req
      → (k : String) × (lookup k m'.pending_requests ≡ some req) × (matches tool who req ≡ true)
  created_there pruned now random args m m' req v (reused e s) =
      let (k, at_k, hit) =
        find-some (matches tool who) (pending_at ch pruned m) req (prune-IsValid ch pruned v).unique
          e in
      (k, rw s at_k, hit)
  created_there pruned now random args m m' req v (filed id e f r s) = (
    id,
    rw s (ground (arith, lookup-insert id id req (pending_at ch pruned m), eq_iff id id)),
    rw r (
        ground (
          arith,
          eq_iff tool tool,
          eq_iff who.sender who.sender,
          eq_iff who.channel who.channel,
          eq_iff who.reply_target who.reply_target,
        )),
  )

  -- While a request has not expired, asking again for the same tool in the same context returns it,
  -- whatever the other arguments are, and draws no id.
  pub create_again :
      (pruned now pruned' now' : ℕ) (random random' : List (List ℕ)) (args args' : String)
      (m m' : ApprovalManager) (req : PendingApprovalRequest)
      → IsValid m.pending_requests
      → create_pending_request ch pruned now random tool args who m ≡ some (m', req)
      → is_expired ch pruned' req ≡ false
      → create_pending_request ch pruned' now' random' tool args' who m'
        ≡ some (record m' { pending_requests = pending_at ch pruned' m' }, req)
  create_again pruned now pruned' now' random random' args args' m m' req v h alive =
      let v' = create-IsValid ch pruned now random tool args who m m' req v h in
      let (k, at_k, hit) =
        created_there pruned now random args m m' req v
          (create-Creation ch pruned now random tool args who m m' req h) in
      let there : lookup k (pending_at ch pruned' m') ≡ some req =
        unfold prune_expired in
        ground (
          arith,
          lookup-retain (λ r. not (is_expired ch pruned' r)) k m'.pending_requests v'.unique,
        ) in
      let found = found_of_there pruned' m' k req (prune-IsValid ch pruned' v') there hit in
      unfold create_pending_request in ground arith

  -- A new request lasts for the timeout: with `approval_timeout_minutes` at `k`, a request filed at
  -- `now` has expired exactly from `now` plus `k` minutes on, if that is a date that is read back.
  pub request_lifetime :
      (pruned now later k : ℕ) (random : List (List ℕ)) (args : String) (m m' : ApprovalManager)
      (req : PendingApprovalRequest)
      → m.approval_timeout_minutes ≡ pos k
      → now + k * 60_000_000_000 ≤ ch.last
      → found_at ch pruned tool who m ≡ none
      → create_pending_request ch pruned now random tool args who m ≡ some (m', req)
      → is_expired ch later req ≡ leb (now + k * 60_000_000_000) later
  unfolding is_expired
  request_lifetime pruned now later k random args m m' req timeout in_range new h =
      elim (create-Creation ch pruned now random tool args who m m' req h) [
        | reused e s ↦ cc (e, new)
        | filed id e f r s ↦
            rw (r, timeout)
              (rw (ch.add_minutes_pos now k in_range)
                (rw (ch.parse-to_rfc3339 (now + k * 60_000_000_000) in_range, is_expired)))
      ]
