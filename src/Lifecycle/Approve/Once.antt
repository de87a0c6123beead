-- ===== src/Lifecycle/Approve/Once.antt =====
-- No approval is decided twice.
use manaai.Prelude.{
  ℕ, ◌≡◌, sym, subst, ◌⊎◌, inl, inr, some, List, [], ◌∷◌, true, false, arith, Option-cases, ==_refl,
  find, modify,
}
use manaai.Prelude.Exec.{ok, err}
use manaai.Lifecycle.Model.{ActionProposal, ApprovalRequest, ApprovalDecision}
use manaai.Lifecycle.Store.{
  Db, lookup_error, concurrent_operation, is_approval, get_proposal, apply_approval_decision,
}
use manaai.Lifecycle.Approve.{is_pending}

find-modify :
    (i : ℕ) (old new : ApprovalRequest) (rows : List ApprovalRequest)
    → is_approval i new ≡ true
    → find (is_approval i) rows ≡ some old
    → find (is_approval i) (modify (is_approval i) (λ _. new) rows) ≡ some new
find-modify i old new [] h e = cc
find-modify i old new (row ∷ rows) h e = ground (arith, find-modify i old new rows h)

-- The request that a decision wrote.
applied-found :
    (request : ApprovalRequest) (decision : ApprovalDecision) (proposal : ActionProposal) (db : Db)
    → (apply_approval_decision request decision proposal db).0 ≡ ok tt
    → find
        (is_approval request.approval_id)
        (apply_approval_decision request decision proposal db).1.approvals
      ≡ some request
unfolding apply_approval_decision
applied-found request decision proposal db e =
    elim (Option-cases (find (is_approval request.approval_id) db.approvals)) [
      | inl none_found ↦ ground (arith, none_found)
      | inr (old, f) ↦ elim (Option-cases (get_proposal proposal.proposal_id db)) [
        | inl gone ↦ ground (arith, f, gone)
        | inr (p, g) ↦
            let again =
              find-modify request.approval_id old request db.approvals (==_refl request.approval_id)
                f in
            ground (arith, f, g, again)
      ]
    ]

settled-refused :
    (request settled : ApprovalRequest) (decision : ApprovalDecision) (proposal : ActionProposal)
    (db : Db)
    → find (is_approval request.approval_id) db.approvals ≡ some settled
    → is_pending settled ≡ false
    → let (result, after) = apply_approval_decision request decision proposal db in
      ((result ≡ err concurrent_operation) ⊎ (result ≡ err lookup_error)) × (after ≡ db)
unfolding apply_approval_decision
settled-refused request settled decision proposal db f n =
    elim (Option-cases (get_proposal proposal.proposal_id db)) [
      | inl gone ↦ ground (arith, f, gone)
      | inr (p, g) ↦ ground (arith, f, g, n)
    ]

-- A decision on an approval that was written, with a status other than pending, is final: any
-- later one on the approval, for whatever proposal, is refused and changes nothing.
pub decided_once :
    (request request' : ApprovalRequest) (decision decision' : ApprovalDecision)
    (proposal proposal' : ActionProposal) (db : Db)
    → (apply_approval_decision request decision proposal db).0 ≡ ok tt
    → is_pending request ≡ false
    → request'.approval_id ≡ request.approval_id
    → let db' = (apply_approval_decision request decision proposal db).1 in
      let (result, after) = apply_approval_decision request' decision' proposal' db' in
      ((result ≡ err concurrent_operation) ⊎ (result ≡ err lookup_error)) × (after ≡ db')
decided_once request request' decision decision' proposal proposal' db e n same =
    settled-refused request' request decision' proposal' _
      (subst
        (λ i.
          find (is_approval i) (apply_approval_decision request decision proposal db).1.approvals
          ≡ some request)
        (sym same) (applied-found request decision proposal db e))
      n
