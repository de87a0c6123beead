-- ===== src/Lifecycle/Execute/Outcome.antt =====
-- `_execute_proposal_locked` of action_lifecycle.py from the dispatch on: what became of a write.
use manaai.Prelude.{
  ℕ, zero, suc, Option, none, some, List, [], ◌∷◌, ◌++◌, String, Bool, true, false, if◌then◌else◌,
}
use manaai.Prelude.Exec.{ok, ret, raise, ◌>>=◌, ◌>>◌}
use manaai.Domain.Enums.{ActionStatus, ExecutionStatus, VerificationStatus, UserRole}
use manaai.Lifecycle.Model.{
  JsonObject, ActionProposal, ApprovalDecision, ActionExecution, ActionVerification,
  ActionTargetState, ActionDispatchResult, AuditEventType, text, texts, flag,
}
use manaai.Lifecycle.Store.{action_safety, reconciliation_required, finalize_action_state}
use manaai.Lifecycle.Service.{
  Service, Executor, Reading, found, Dispatch, dispatched, rejected, uncertain, Run, draw, transact,
  audit,
}

-- Who asks, in which conversation.
pub record Caller : Type 0 where
  pub actor_id : String
  pub actor_role : UserRole
  pub correlation_id : String

pub record ActionLifecycleResult : Type 0 where
  pub proposal : ActionProposal
  pub approval_decision : Option ApprovalDecision
  pub execution : Option ActionExecution
  pub verification : Option ActionVerification

-- The one place where a provider is asked to write.
unfoldable pub send : Executor → ActionProposal → Run Dispatch
send executor proposal s = (
  ok (executor.dispatch s.uses proposal),
  record s { uses = suc s.uses; sent = s.sent ++ proposal ∷ [] },
)

-- What the attempts at a verification found: the last state, its differences, and whether the
-- last attempt raised.
pub record Observation : Type 0 where
  pub after : Option ActionTargetState
  pub differences : List String
  pub verification_error : Bool

abbrev observed : Executor → JsonObject → Reading → Observation → Observation
observed executor expected (found state) o = record {
  after = some state;
  differences = executor.differences expected state;
  verification_error = false;
}
observed executor expected _ o = record o { verification_error = true }

abbrev settled : Observation → Bool
settled o = elim o.verification_error [
  | true ↦ false
  | false ↦ elim o.differences [ [] ↦ true | _ ∷ _ ↦ false ]
]

-- The statuses by the differences that are left.
abbrev pub proposal_status : List String → ActionStatus
proposal_status [] = ActionStatus.succeeded
proposal_status (_ ∷ _) = ActionStatus.partially_applied

abbrev pub execution_status : List String → ExecutionStatus
execution_status [] = ExecutionStatus.succeeded
execution_status (_ ∷ _) = ExecutionStatus.partially_applied

abbrev verification_status : List String → VerificationStatus
verification_status [] = VerificationStatus.verified
verification_status (_ ∷ _) = VerificationStatus.mismatch

abbrev execution_summary : List String → String
execution_summary [] = "Action execution: succeeded"
execution_summary (_ ∷ _) = "Action execution: partially_applied"

abbrev verification_summary : List String → String
verification_summary [] = "Action verification: verified"
verification_summary (_ ∷ _) = "Action verification: mismatch"

module _ (service : Service) where
  open service use {clock, new_id, verification_attempts}

  unfoldable pub settle_rejected : ActionProposal → ActionExecution → Run ActionLifecycleResult
  settle_rejected executing_proposal executing = do
    completed_at ← draw clock
    transact (
        finalize_action_state (record executing_proposal { status = ActionStatus.failed })
          (record executing {
            status = ExecutionStatus.failed;
            completed_at = some completed_at;
            error_code = some "provider_permanent_error";
            error_message = some "The provider rejected the action.";
          })
          none)
    raise (action_safety "The provider rejected the action")

  unfoldable pub settle_unknown :
      Caller → ActionProposal → ActionExecution → Run ActionLifecycleResult
  settle_unknown caller executing_proposal executing = do
    transact (
        finalize_action_state executing_proposal
          (record executing {
            error_code = some "write_outcome_uncertain";
            error_message =
                some "The write outcome is uncertain; reconciliation is required before retry.";
          })
          none)
    audit service caller.correlation_id executing_proposal AuditEventType.action_executed
        caller.actor_id caller.actor_role
        "Provider write outcome is uncertain; reconciliation required"
        (("execution_status", text "executing") ∷ [])
    raise reconciliation_required

  unfoldable pub settle_reconciled :
      Caller
      → ActionProposal
      → ActionExecution
      → JsonObject
      → ActionTargetState
      → Run ActionLifecycleResult
  settle_reconciled caller executing_proposal executing expected observed = do
    completed_at ← draw clock
    let completed_proposal : ActionProposal = record executing_proposal {
      status = ActionStatus.succeeded;
    }
    let completed_execution : ActionExecution = record executing {
      status = ExecutionStatus.succeeded;
      completed_at = some completed_at;
      provider_response = ("reconciled_after_uncertain_dispatch", flag true) ∷ [];
    }
    verification_id ← draw new_id
    checked_at ← draw clock
    let verification : ActionVerification = record {
      verification_id = verification_id;
      execution_id = completed_execution.execution_id;
      status = VerificationStatus.verified;
      checked_at = checked_at;
      expected_state = expected;
      observed_state = observed.raw_safe;
      differences = [];
    }
    transact (finalize_action_state completed_proposal completed_execution (some verification))
    audit service caller.correlation_id completed_proposal AuditEventType.action_verified
        caller.actor_id caller.actor_role
        "Uncertain provider response reconciled from current state" (("differences", texts []) ∷ [])
    ret (record {
      proposal = completed_proposal;
      approval_decision = none;
      execution = some completed_execution;
      verification = some verification;
    })

  -- The state of the object after an uncertain write: only one that is as expected settles it.
  unfoldable pub reconcile :
      Caller
      → Executor
      → ActionProposal
      → ActionExecution
      → JsonObject
      → Reading
      → Run ActionLifecycleResult
  reconcile caller executor executing_proposal executing expected (found observed) =
      elim (executor.differences expected observed) [
        | [] ↦ settle_reconciled caller executing_proposal executing expected observed
        | _ ∷ _ ↦ settle_unknown caller executing_proposal executing
      ]
  reconcile caller executor executing_proposal executing expected _ =
      settle_unknown caller executing_proposal executing

  -- The loop over the attempts, less the waits; it stops at a state as expected.
  unfoldable pub observe :
      ℕ → Executor → ActionProposal → JsonObject → Observation → Run Observation
  observe zero executor proposal expected o = ret o
  observe (suc attempts) executor proposal expected o = do
    reading ← draw (λ n. executor.state_for_proposal n proposal)
    let o' = observed executor expected reading o
    let rest = observe attempts executor proposal expected o'
    if settled o' then ret o' else rest

  unfoldable pub settle_unverified :
      ActionProposal → ActionExecution → ActionDispatchResult → Run ActionLifecycleResult
  settle_unverified executing_proposal executing result = do
    transact (
        finalize_action_state executing_proposal
          (record executing {
            provider_request_id = some result.provider_request_id;
            provider_response = result.raw_safe;
            error_code = some "verification_unavailable";
            error_message =
                some "The provider accepted the action, but its resulting state is unavailable.";
          })
          none)
    raise reconciliation_required

  unfoldable pub settle_verified :
      Caller
      → ActionProposal
      → ActionExecution
      → JsonObject
      → ActionDispatchResult
      → ActionTargetState
      → List String
      → Run ActionLifecycleResult
  settle_verified caller executing_proposal executing expected result after differences = do
    completed_at ← draw clock
    let completed : ActionExecution = record executing {
      status = execution_status differences;
      completed_at = some completed_at;
      provider_request_id = some result.provider_request_id;
      provider_response = result.raw_safe;
    }
    let completed_proposal : ActionProposal = record executing_proposal {
      status = proposal_status differences;
    }
    verification_id ← draw new_id
    checked_at ← draw clock
    let verification : ActionVerification = record {
      verification_id = verification_id;
      execution_id = completed.execution_id;
      status = verification_status differences;
      checked_at = checked_at;
      expected_state = expected;
      observed_state = after.raw_safe;
      differences = differences;
    }
    transact (finalize_action_state completed_proposal completed (some verification))
    audit service caller.correlation_id completed_proposal AuditEventType.action_executed
        caller.actor_id caller.actor_role (execution_summary differences)
        (("provider_request_id", text result.provider_request_id) ∷ [])
    audit service caller.correlation_id completed_proposal AuditEventType.action_verified
        caller.actor_id caller.actor_role (verification_summary differences)
        (("differences", texts differences) ∷ [])
    ret (record {
      proposal = completed_proposal;
      approval_decision = none;
      execution = some completed;
      verification = some verification;
    })

  -- An accepted write by what was observed.
  unfoldable pub judge_observation :
      Caller
      → ActionProposal
      → ActionExecution
      → JsonObject
      → ActionDispatchResult
      → Observation
      → Run ActionLifecycleResult
  judge_observation caller executing_proposal executing expected result o = elim o.after [
    | none ↦ settle_unverified executing_proposal executing result
    | some after ↦
        if o.verification_error
        then settle_unverified executing_proposal executing result
        else settle_verified caller executing_proposal executing expected result after o.differences
  ]

  unfoldable pub settle :
      Caller
      → Executor
      → ActionProposal
      → ActionProposal
      → ActionExecution
      → JsonObject
      → Dispatch
      → Run ActionLifecycleResult
  settle caller executor proposal executing_proposal executing expected rejected =
      settle_rejected executing_proposal executing
  settle caller executor proposal executing_proposal executing expected uncertain = do
    reading ← draw (λ n. executor.state_for_proposal n proposal)
    reconcile caller executor executing_proposal executing expected reading
  settle caller executor proposal executing_proposal executing expected (dispatched result) = do
    o ←
        observe verification_attempts executor proposal expected
          (record { after = none; differences = []; verification_error = false })
    judge_observation caller executing_proposal executing expected result o
