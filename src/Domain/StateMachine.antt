-- ===== src/Domain/StateMachine.antt =====
-- app/mana_operation_ai/domain/state_machine.py: the four transition tables and the check that a
-- lifecycle change goes by them. A table is a function from a status to the statuses it allows.
pub mod Actions
pub mod Runs
use manaai.Prelude.{◌≡◌, Bool, List, [], ◌∷◌, any, if◌then◌else◌}
use manaai.Domain.Enums.{
  AgentRunStatus, ActionStatus, ApprovalStatus, ExecutionStatus, same_run_status,
  same_action_status, same_approval_status, same_execution_status,
}

pub run_transitions : AgentRunStatus → List AgentRunStatus
run_transitions AgentRunStatus.queued =
    AgentRunStatus.collecting ∷ AgentRunStatus.cancelled ∷ AgentRunStatus.failed ∷ []
run_transitions AgentRunStatus.collecting = AgentRunStatus.normalizing ∷ AgentRunStatus.failed ∷ []
run_transitions AgentRunStatus.normalizing = AgentRunStatus.analyzing ∷ AgentRunStatus.failed ∷ []
run_transitions AgentRunStatus.analyzing = AgentRunStatus.proposing ∷ AgentRunStatus.failed ∷ []
run_transitions AgentRunStatus.proposing = AgentRunStatus.policy_check ∷ AgentRunStatus.failed ∷ []
run_transitions AgentRunStatus.policy_check =
    AgentRunStatus.waiting_approval ∷ AgentRunStatus.executing ∷ AgentRunStatus.reporting
    ∷ AgentRunStatus.failed ∷ []
run_transitions AgentRunStatus.waiting_approval =
    AgentRunStatus.executing ∷ AgentRunStatus.reporting ∷ AgentRunStatus.cancelled ∷ []
run_transitions AgentRunStatus.executing =
    AgentRunStatus.verifying ∷ AgentRunStatus.reporting ∷ AgentRunStatus.failed ∷ []
run_transitions AgentRunStatus.verifying = AgentRunStatus.reporting ∷ AgentRunStatus.failed ∷ []
run_transitions AgentRunStatus.reporting = AgentRunStatus.completed ∷ AgentRunStatus.failed ∷ []
run_transitions AgentRunStatus.completed = []
run_transitions AgentRunStatus.failed = AgentRunStatus.queued ∷ []
run_transitions AgentRunStatus.cancelled = []

pub action_transitions : ActionStatus → List ActionStatus
action_transitions ActionStatus.proposed =
    ActionStatus.policy_rejected ∷ ActionStatus.awaiting_approval ∷ ActionStatus.approved
    ∷ ActionStatus.dry_run ∷ []
action_transitions ActionStatus.awaiting_approval =
    ActionStatus.approved ∷ ActionStatus.rejected ∷ ActionStatus.expired ∷ []
action_transitions ActionStatus.approved =
    ActionStatus.executing ∷ ActionStatus.dry_run ∷ ActionStatus.expired ∷ ActionStatus.cancelled
    ∷ []
action_transitions ActionStatus.executing =
    ActionStatus.succeeded ∷ ActionStatus.partially_applied ∷ ActionStatus.failed ∷ []
action_transitions ActionStatus.policy_rejected = []
action_transitions ActionStatus.rejected = []
action_transitions ActionStatus.succeeded = []
action_transitions ActionStatus.partially_applied = []
action_transitions ActionStatus.failed = []
action_transitions ActionStatus.expired = []
action_transitions ActionStatus.cancelled = []
action_transitions ActionStatus.dry_run = []

pub approval_transitions : ApprovalStatus → List ApprovalStatus
approval_transitions ApprovalStatus.pending =
    ApprovalStatus.approved ∷ ApprovalStatus.rejected ∷ ApprovalStatus.expired ∷ []
approval_transitions ApprovalStatus.approved = []
approval_transitions ApprovalStatus.rejected = []
approval_transitions ApprovalStatus.expired = []

pub execution_transitions : ExecutionStatus → List ExecutionStatus
execution_transitions ExecutionStatus.pending =
    ExecutionStatus.executing ∷ ExecutionStatus.dry_run ∷ ExecutionStatus.failed ∷ []
execution_transitions ExecutionStatus.executing =
    ExecutionStatus.succeeded ∷ ExecutionStatus.partially_applied ∷ ExecutionStatus.failed ∷ []
execution_transitions ExecutionStatus.succeeded = []
execution_transitions ExecutionStatus.partially_applied = []
execution_transitions ExecutionStatus.failed = []
execution_transitions ExecutionStatus.dry_run = []

-- The outcome of `require_transition`: it returns nothing, or raises `InvalidStateTransition`.
pub data Transition : Type 0 where
  allowed invalid : Transition

-- `require_transition`, with the equality of the status type passed in.
pub require_transition {ℓ} : {S : Type ℓ} → (S → S → Bool) → S → S → (S → List S) → Transition
require_transition same current target transitions =
    if any (same target) (transitions current) then allowed else invalid

unfoldable pub require_run : AgentRunStatus → AgentRunStatus → Transition
unfolding require_transition run_transitions
require_run current target = require_transition same_run_status current target run_transitions

unfoldable pub require_action : ActionStatus → ActionStatus → Transition
unfolding require_transition action_transitions
require_action current target =
    require_transition same_action_status current target action_transitions

unfoldable pub require_approval : ApprovalStatus → ApprovalStatus → Transition
unfolding require_transition approval_transitions
require_approval current target =
    require_transition same_approval_status current target approval_transitions

unfoldable pub require_execution : ExecutionStatus → ExecutionStatus → Transition
unfolding require_transition execution_transitions
require_execution current target =
    require_transition same_execution_status current target execution_transitions

-- A history of statuses, each change of which passes the check.
pub data Follows {ℓ} {S : Type ℓ} (check : S → S → Transition) : S → List S → S → Type ℓ where
  stay : {s : S} → Follows check s [] s
  move :
      {s u : S} {path : List S} (t : S)
      → check s t ≡ allowed
      → Follows check t path u
      → Follows check s (t ∷ path) u
