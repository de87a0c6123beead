-- ===== src/Lifecycle/Approve.antt =====
-- `decide` of action_lifecycle.py: what a decision does with an action that waits for an approval.
pub mod Decisions
pub mod Once
use manaai.Prelude.{
  ℕ, Option, none, some, List, [], ◌∷◌, String, str_eq, Bool, true, false, not, ◌&&◌, ◌||◌, leb,
  ◌==◌, if◌then◌else◌,
}
use manaai.Prelude.Exec.{Exec, Result, ok, err, ret, raise, ensure, ◌>>=◌, ◌>>◌}
use manaai.Domain.Enums.{
  ActionStatus, ApprovalStatus, PolicyDecision, ProviderMode, UserRole, same_role,
  same_action_status, same_approval_status,
}
use manaai.Lifecycle.Model.{
  JsonObject, ActionProposal, ApprovalRequest, ApprovalDecision, ActionPolicy, AuditEventType, text,
}
use manaai.Lifecycle.Store.{
  Db, approval_permission, lookup_error, get_proposal, get_approval_for_proposal,
  create_action_request, apply_approval_decision,
}
use manaai.Lifecycle.Service.{
  Service, State, Run, draw, transact, reads, required, require_transition_to, audit,
}
use manaai.Lifecycle.Execute.Outcome.{Caller, ActionLifecycleResult}
use manaai.Lifecycle.Execute.{execute_proposal, is_read_only}

abbrev pub may_decide : UserRole → Bool
may_decide role = same_role role UserRole.approver || same_role role UserRole.admin

abbrev pub is_pending : ApprovalRequest → Bool
is_pending approval = same_approval_status approval.status ApprovalStatus.pending

-- The approval that `decide` works on, if there is one to decide.
abbrev pub pending_of : Option ApprovalRequest → Option ApprovalRequest
pending_of none = none
pending_of (some approval) = if is_pending approval then some approval else none

abbrev pub required_pending : Option ApprovalRequest → Run ApprovalRequest
required_pending none = raise (approval_permission "No pending approval exists for this proposal")
required_pending (some approval) = ret approval

-- The approval was looked up by the id of the proposal, so it has that id.
abbrev pub decided : ApprovalRequest → ApprovalStatus → ℕ → String → String → ApprovalDecision
decided approval status now actor_id reason = record {
  approval_id = approval.approval_id;
  proposal_id = approval.proposal_id;
  status = status;
  decided_at = now;
  decided_by = actor_id;
  reason = reason;
}

abbrev pub result_of : ActionProposal → ApprovalDecision → ActionLifecycleResult
result_of proposal decision = record {
  proposal = proposal;
  approval_decision = some decision;
  execution = none;
  verification = none;
}

module _ (service : Service) (caller : Caller) where
  open service use {clock, allow_self_approval}
  open caller use {actor_id, actor_role, correlation_id}

  unfoldable pub expire_approval : ActionProposal → ApprovalRequest → ℕ → Run ActionLifecycleResult
  expire_approval proposal approval now = do
    require_transition_to proposal ActionStatus.expired
    let expired : ActionProposal = record proposal { status = ActionStatus.expired }
    let decision =
        decided approval ApprovalStatus.expired now actor_id "Proposal expired before the decision."
    transact (
        apply_approval_decision (record approval { status = ApprovalStatus.expired }) decision
          expired)
    ret (result_of expired decision)

  -- What follows a decision that was written.
  unfoldable pub execute_if_approved :
      Bool → ActionProposal → ApprovalDecision → Run ActionLifecycleResult
  execute_if_approved approve proposal decision =
      if not approve || proposal.execution_forbidden then ret (result_of proposal decision) else (do
        executed ← execute_proposal service caller proposal
        ret (record executed { approval_decision = some decision }))

  unfoldable pub apply_vote :
      ActionProposal
      → ApprovalRequest
      → Bool
      → ActionStatus
      → ApprovalStatus
      → String
      → ℕ
      → String
      → Run ActionLifecycleResult
  apply_vote proposal approval approve target_status approval_status value now reason = do
    require_transition_to proposal target_status
    let updated_proposal : ActionProposal = record proposal { status = target_status }
    let decision = decided approval approval_status now actor_id reason
    transact (
        apply_approval_decision (record approval { status = approval_status }) decision
          updated_proposal)
    audit service correlation_id updated_proposal AuditEventType.approval_decided actor_id
        actor_role value (("reason", text reason) ∷ [])
    execute_if_approved approve updated_proposal decision

  unfoldable pub vote :
      ActionProposal → ApprovalRequest → Bool → ℕ → String → Run ActionLifecycleResult
  vote proposal approval true now reason =
      apply_vote proposal approval true ActionStatus.approved ApprovalStatus.approved
        "Action proposal approved" now reason
  vote proposal approval false now reason =
      apply_vote proposal approval false ActionStatus.rejected ApprovalStatus.rejected
        "Action proposal rejected" now reason

  abbrev pub is_late : ActionProposal → ApprovalRequest → ℕ → Bool
  is_late proposal approval now = leb approval.expires_at now || leb proposal.expires_at now

  abbrev pub may_vote : ApprovalRequest → Bool
  may_vote approval = allow_self_approval || not (str_eq approval.requested_by actor_id)

  unfoldable pub decide_pending :
      ActionProposal → ApprovalRequest → Bool → String → Run ActionLifecycleResult
  decide_pending proposal approval approve reason = do
    ensure (may_vote approval) (approval_permission "Self-approval is disabled")
    now ← draw clock
    if is_late proposal approval now
        then expire_approval proposal approval now
        else vote proposal approval approve now reason

  unfoldable pub decide : ℕ → Bool → String → Run ActionLifecycleResult
  decide proposal_id approve reason = do
    ensure (may_decide actor_role) (approval_permission "Approver or admin role is required")
    proposal ← reads (get_proposal proposal_id) >>= required
    approval ←
        reads (get_approval_for_proposal proposal_id) >>= (λ o. required_pending (pending_of o))
    decide_pending proposal approval approve reason
