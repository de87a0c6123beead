-- ===== src/Lifecycle/Approve/Decisions.antt =====
-- What a decision on an approval takes: a write follows only a permitted, timely vote for it.
use manaai.Prelude.{
  ℕ, suc, ◌<◌, ◌≡◌, refl, ◌⊎◌, inl, inr, Option, none, some, [], ◌∷◌, ◌++◌, String, str_eq, Bool,
  true, false, not, ◌||◌, arith, Bool-cases, Option-cases,
}
use manaai.Prelude.Exec.{Result, ok, err, ret, proceed, ◌>>=◌}
use manaai.Domain.Enums.{ActionStatus, ApprovalStatus, UserRole, same_approval_status→eq}
use manaai.Domain.StateMachine.{require_action}
use manaai.Lifecycle.Model.{ActionProposal, ApprovalRequest, ApprovalDecision, AuditEventType, text}
use manaai.Lifecycle.Store.{
  LifecycleError, approval_permission, get_proposal, get_approval_for_proposal,
  apply_approval_decision,
}
use manaai.Lifecycle.Service.{Service, State, Run, require_transition_to, transact, audit}
use manaai.Lifecycle.Execute.Outcome.{Caller}
use manaai.Lifecycle.Execute.{execute_proposal}
use manaai.Lifecycle.Execute.Cleared.{execute_proposal_is_guarded}
use manaai.Lifecycle.Execute.Guards.Once.{Sends, Sends->>=, Sends-if, Sends-ensure}
use manaai.Lifecycle.Execute.Guards.Quiet.{raised-Quiet, audit-Quiet}
use manaai.Lifecycle.Approve.{
  may_decide, is_pending, pending_of, decided, result_of, expire_approval, execute_if_approved,
  apply_vote, vote, is_late, may_vote, decide_pending, decide,
}

-- A rest that only repacks the result.
Sends-map :
    {A B : Type 0} (P : Type 0) (proposal : ActionProposal) (m : Run A) (f : A → B) (s : State)
    → Sends P proposal s (m s).1
    → Sends P proposal s ((m >>= λ a. ret (f a)) s).1
Sends-map {A} {B} P proposal m f s h = go (m s).0 h
  where
    go :
        (r : Result LifecycleError A)
        → Sends P proposal s (m s).1
        → Sends P proposal s (proceed r (λ a. ret (f a)) (m s).1).1
    go (ok a) h' = h'
    go (err e) h' = h'

abbrev pub approved_proposal : ActionProposal → ActionProposal
approved_proposal proposal = record proposal { status = ActionStatus.approved }

module _ (service : Service) (caller : Caller) (P : Type 0) where
  execute_if_approved-Sends :
      (approve : Bool) (proposal : ActionProposal) (decision : ApprovalDecision) (s : State)
      → (approve ≡ true → proposal.execution_forbidden ≡ false → P)
      → Sends P proposal s (execute_if_approved service caller approve proposal decision s).1
  unfolding execute_if_approved
  execute_if_approved-Sends approve proposal decision s p =
      Sends-if P proposal (not approve || proposal.execution_forbidden)
        (ret (result_of proposal decision)) _ s (λ _. inl refl)
        (λ go.
          Sends-map P proposal (execute_proposal service caller proposal) _ s
            (elim (execute_proposal_is_guarded service caller proposal s) [
              | inl same ↦ inl same
              | inr (one, _) ↦ inr (one, p (ground (arith, go)) (ground (arith, go)))
            ]))

  -- A vote in favour.
  approve-Sends :
      (proposal : ActionProposal) (approval : ApprovalRequest) (now : ℕ) (reason : String)
      (s : State)
      → (proposal.execution_forbidden ≡ false → P)
      → Sends P
          (approved_proposal proposal)
          s
          (vote service caller proposal approval true now reason s).1
  unfolding vote apply_vote
  approve-Sends proposal approval now reason s p =
      let updated = approved_proposal proposal in
      let decision = decided approval ApprovalStatus.approved now caller.actor_id reason in
      let rest = execute_if_approved service caller true updated decision in
      let log =
        audit service caller.correlation_id updated AuditEventType.approval_decided caller.actor_id
          caller.actor_role "Action proposal approved" (("reason", text reason) ∷ []) in
      let store = transact (
        apply_approval_decision (record approval { status = ApprovalStatus.approved }) decision
          updated) in
      Sends->>= P updated (require_transition_to proposal ActionStatus.approved)
        (λ _. store >>= λ _. log >>= λ _. rest) s
        (raised-Quiet (require_action proposal.status ActionStatus.approved) s)
        (λ _ _.
          Sends->>= P updated store (λ _. log >>= λ _. rest) _ refl
            (λ _ _.
              Sends->>= P updated log (λ _. rest) _ (audit-Quiet service _ _ _ _ _ _ _ _)
                (λ _ _.
                  execute_if_approved-Sends true updated decision _
                    (λ _ executable. p executable))))

  -- A vote against sends nothing.
  reject-Sends :
      (proposal : ActionProposal) (approval : ApprovalRequest) (now : ℕ) (reason : String)
      (s : State)
      → (vote service caller proposal approval false now reason s).1.sent ≡ s.sent
  unfolding vote apply_vote execute_if_approved audit
  reject-Sends proposal approval now reason s = ground arith

  expire_approval-sent :
      (proposal : ActionProposal) (approval : ApprovalRequest) (now : ℕ) (s : State)
      → (expire_approval service caller proposal approval now s).1.sent ≡ s.sent
  unfolding expire_approval
  expire_approval-sent proposal approval now s = ground arith

  vote-Sends :
      (proposal : ActionProposal) (approval : ApprovalRequest) (approve : Bool) (now : ℕ)
      (reason : String) (s : State)
      → (approve ≡ true → proposal.execution_forbidden ≡ false → P)
      → Sends P
          (approved_proposal proposal)
          s
          (vote service caller proposal approval approve now reason s).1
  vote-Sends proposal approval true now reason s p =
      approve-Sends proposal approval now reason s (p refl)
  vote-Sends proposal approval false now reason s p =
      inl (reject-Sends proposal approval now reason s)

  decide_pending-Sends :
      (proposal : ActionProposal) (approval : ApprovalRequest) (approve : Bool) (reason : String)
      (s : State)
      → (may_vote service caller approval ≡ true
          → is_late service caller proposal approval (service.clock s.uses) ≡ false
          → approve ≡ true
          → proposal.execution_forbidden ≡ false
          → P)
      → Sends P
          (approved_proposal proposal)
          s
          (decide_pending service caller proposal approval approve reason s).1
  unfolding decide_pending
  decide_pending-Sends proposal approval approve reason s p =
      let now = service.clock s.uses in
      Sends-ensure P (approved_proposal proposal) (may_vote service caller approval)
        (approval_permission "Self-approval is disabled") _ s
        (λ may.
          Sends-if P (approved_proposal proposal) (is_late service caller proposal approval now)
            (expire_approval service caller proposal approval now)
            (vote service caller proposal approval approve now reason)
            (record s { uses = suc s.uses })
            (λ _. inl (expire_approval-sent proposal approval now _))
            (λ in_time. vote-Sends proposal approval approve now reason _ (p may in_time)))

-- What a write takes that follows a decision on `proposal_id`.
pub record IsGranted (service : Service) (caller : Caller) (proposal_id : ℕ) (approve : Bool)
    (s : State) (proposal : ActionProposal) : Type 0 where
  pub approval : ApprovalRequest
  pub stored : get_proposal proposal_id s.db ≡ some proposal
  pub requested : get_approval_for_proposal proposal_id s.db ≡ some approval
  pub pending : approval.status ≡ ApprovalStatus.pending
  pub role : (caller.actor_role ≡ UserRole.approver) ⊎ (caller.actor_role ≡ UserRole.admin)
  pub person :
      (service.allow_self_approval ≡ true) ⊎ (str_eq approval.requested_by caller.actor_id ≡ false)
  pub vote_for : approve ≡ true
  pub in_time :
      (service.clock s.uses < approval.expires_at) × (service.clock s.uses < proposal.expires_at)
  pub executable : proposal.execution_forbidden ≡ false

may_decide_roles :
    (role : UserRole)
    → may_decide role ≡ true
    → (role ≡ UserRole.approver) ⊎ (role ≡ UserRole.admin)
may_decide_roles role h = ground arith

may_vote_persons :
    (service : Service) (caller : Caller) (approval : ApprovalRequest)
    → may_vote service caller approval ≡ true
    → (service.allow_self_approval ≡ true) ⊎ (str_eq approval.requested_by caller.actor_id ≡ false)
may_vote_persons service caller approval h = ground arith

pending_of-some :
    (o : Option ApprovalRequest) (approval : ApprovalRequest)
    → pending_of o ≡ some approval
    → (o ≡ some approval) × (is_pending approval ≡ true)
pending_of-some none approval e = cc
pending_of-some (some a) approval e = elim (Bool-cases (is_pending a)) [
  | inl yes_pending ↦ ground (arith, e, yes_pending)
  | inr no_pending ↦ ground (arith, e, no_pending)
]

-- From any state `decide` asks a provider for no write, or for one: that of the proposal, then
-- approved, and only on a vote for it by an approver or an administrator, who is not the one who
-- asked unless self-approval is allowed, on a pending approval, before it and the proposal
-- expired, of a proposal that may be executed.
pub decide_is_guarded :
    (service : Service) (caller : Caller) (proposal_id : ℕ) (approve : Bool) (reason : String)
    (s : State)
    → let s' = (decide service caller proposal_id approve reason s).1 in
      (s'.sent ≡ s.sent)
      ⊎ ((proposal : ActionProposal) × (s'.sent ≡ s.sent ++ approved_proposal proposal ∷ [])
          × IsGranted service caller proposal_id approve s proposal)
unfolding decide
decide_is_guarded service caller proposal_id approve reason s =
    elim (Bool-cases (may_decide caller.actor_role)) [
      | inr low ↦ rw low (inl refl)
      | inl role ↦ elim (Option-cases (get_proposal proposal_id s.db)) [
        | inl gone ↦ rw (role, gone) (inl refl)
        | inr (proposal, e) ↦
            elim (Option-cases (pending_of (get_approval_for_proposal proposal_id s.db))) [
              | inl settled ↦ rw (role, e, settled) (inl refl)
              | inr (approval, w) ↦
                  let (requested, pending) = pending_of-some _ approval w in
                  rw (role, e, w)
                    (elim (decide_pending-Sends service caller
                      (IsGranted service caller proposal_id approve s proposal) proposal approval
                      approve reason s
                      (λ may late yes_vote executable. record {
                        approval = approval;
                        stored = e;
                        requested = requested;
                        pending =
                            same_approval_status→eq approval.status ApprovalStatus.pending pending;
                        role = may_decide_roles caller.actor_role role;
                        person = may_vote_persons service caller approval may;
                        vote_for = yes_vote;
                        in_time = (ground (arith, late), ground (arith, late));
                        executable = executable;
                      })) [
                        | inl same ↦ inl same
                        | inr (one, granted) ↦ inr (proposal, one, granted)
                      ])
            ]
      ]
    ]
