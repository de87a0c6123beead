-- ===== src/Lifecycle/Examples.antt =====
-- The lifecycle of one action: it waits for an approval, is approved, sent and verified.
use manaai.Prelude.{
  ℕ, ◌+◌, ◌≤◌, ◌≡◌, refl, ◌⊎◌, Option, none, some, List, [], ◌∷◌, ◌++◌, String, Bool, true, false,
  arith,
}
use manaai.Prelude.Exec.{ok, err}
use manaai.Domain.Enums.{
  ActionStatus, ApprovalStatus, ExecutionStatus, PolicyDecision, ProviderMode, UserRole,
}
use manaai.Lifecycle.Model.{
  ActionExecution, ActionProposal, ApprovalRequest, ActionTargetState, AgentConfiguration,
}
use manaai.Lifecycle.Store.{
  create_action_request, get_approval_for_proposal, Db, concurrent_operation, lookup_error,
  apply_approval_decision, acquire_lock, get_execution_by_idempotency,
}
use manaai.Lifecycle.Service.{Service, Executor, State, found, dispatched}
use manaai.Lifecycle.Execute.Outcome.{Caller}
use manaai.Lifecycle.Execute.{begin_execution, execute_proposal}
use manaai.Lifecycle.Execute.Repeat.{existing_execution_is_sent_again}
use manaai.Lifecycle.Execute.Cleared.{IsCleared, execute_proposal_is_guarded}
use manaai.Lifecycle.Approve.{decide, decided}
use manaai.Lifecycle.Approve.Decisions.{approved_proposal, IsGranted, decide_is_guarded}
use manaai.Lifecycle.Approve.Once.{decided_once}
use manaai.Lifecycle.Requests.{requested_once}
use manaai.Lifecycle.Locks.{lock_is_exclusive}

abbrev pausing : ActionProposal
pausing = record {
  proposal_id = 1;
  run_id = 2;
  agent_id = "marketing";
  capability_key = "growth.advertising";
  action_family = "advertising";
  provider = "fake";
  provider_mode = ProviderMode.fake_executable;
  execution_forbidden = false;
  object_type = "campaign";
  provider_object_id = "c1";
  action_type = "pause";
  parameters = [];
  status = ActionStatus.awaiting_approval;
  idempotency_key = 77;
  current_state_hash = 9;
  expires_at = 1000;
  created_at = 10;
}

abbrev request : ApprovalRequest
request = record {
  approval_id = 3;
  proposal_id = 1;
  requested_at = 10;
  expires_at = 1000;
  requested_by = "agent";
  required_role = UserRole.approver;
  status = ApprovalStatus.pending;
}

abbrev active : AgentConfiguration
active = record {
  agent_id = "marketing";
  capability_key = "growth.advertising";
  version = 1;
  values = [];
}

abbrev tables : Db
tables = record {
  proposals = pausing ∷ [];
  approvals = request ∷ [];
  decisions = [];
  executions = [];
  verifications = [];
  audit = [];
  configurations = active ∷ [];
  controls = [];
  locks = [];
}

abbrev provider_state : ActionTargetState
provider_state = record { state_hash = 9; raw_safe = [] }

abbrev provider : Executor
provider = record {
  provider_mode = ProviderMode.fake_executable;
  state_for_proposal = λ n p. found provider_state;
  state_violation = λ p state. none;
  expected_state = λ p state. [];
  differences = λ expected state. [];
  dispatch = λ n p. dispatched (record { provider_request_id = "r1"; raw_safe = [] });
}

abbrev service : Service
service = record {
  dry_run = false;
  allow_self_approval = false;
  global_kill_switch_default = false;
  lock_timeout_seconds = 60;
  verification_attempts = 2;
  clock = λ n. n + 100;
  new_id = λ n. n + 40;
  executor_for = λ family name. some provider;
  evaluate = λ n p c. some (record { decision = PolicyDecision.require_approval; reasons = [] });
}

abbrev approver : Caller
approver = record { actor_id = "eve"; actor_role = UserRole.approver; correlation_id = "x" }

abbrev start : State
start = record { db = tables; uses = 0; sent = [] }

-- The write is sent once.
approval_sends :
    (decide service approver 1 true "fine" start).1.sent ≡ approved_proposal pausing ∷ []
unfolding decide manaai.Lifecycle.Store.get_proposal
    manaai.Lifecycle.Store.get_approval_for_proposal manaai.Lifecycle.Approve.decide_pending
    manaai.Lifecycle.Approve.vote manaai.Lifecycle.Approve.apply_vote
    manaai.Domain.StateMachine.require_action apply_approval_decision manaai.Lifecycle.Service.audit
    manaai.Lifecycle.Approve.execute_if_approved execute_proposal
    manaai.Lifecycle.Execute.unless_executed manaai.Lifecycle.Store.get_execution_by_idempotency
    manaai.Lifecycle.Execute.with_lock acquire_lock manaai.Lifecycle.Execute.locked_part
    manaai.Lifecycle.Execute.execute_proposal_locked manaai.Lifecycle.Execute.execute_fresh
    manaai.Lifecycle.Approve.expire_approval manaai.Lifecycle.Execute.Outcome.judge_observation
    manaai.Lifecycle.Execute.Outcome.observe manaai.Lifecycle.Execute.Outcome.reconcile
    manaai.Lifecycle.Execute.Outcome.send manaai.Lifecycle.Execute.Outcome.settle
    manaai.Lifecycle.Execute.Outcome.settle_reconciled
    manaai.Lifecycle.Execute.Outcome.settle_rejected manaai.Lifecycle.Execute.Outcome.settle_unknown
    manaai.Lifecycle.Execute.Outcome.settle_unverified
    manaai.Lifecycle.Execute.Outcome.settle_verified manaai.Lifecycle.Execute.begin_execution
    manaai.Lifecycle.Execute.check_state manaai.Lifecycle.Execute.execute_current
    manaai.Lifecycle.Execute.expire_before_execution manaai.Lifecycle.Execute.finish_dry_run
    manaai.Lifecycle.Execute.heed_violation manaai.Lifecycle.Execute.read_and_check
    manaai.Lifecycle.Execute.refuse_write manaai.Lifecycle.Execute.run_pending
    manaai.Lifecycle.Execute.send_and_settle manaai.Lifecycle.Execute.send_write
    manaai.Lifecycle.Service.failed_execution manaai.Lifecycle.Service.require_configuration
    manaai.Lifecycle.Service.require_policy manaai.Lifecycle.Service.require_safety
    manaai.Lifecycle.Service.unless_stopped manaai.Lifecycle.Store.finalize_action_state
    manaai.Lifecycle.Store.get_control manaai.Lifecycle.Store.latest
    manaai.Lifecycle.Store.latest_configuration manaai.Lifecycle.Store.release_lock
    manaai.Lifecycle.Store.save_audit_event manaai.Lifecycle.Store.save_execution
    manaai.Lifecycle.Store.update_proposal manaai.Prelude.Dict.get
approval_sends = refl

execute_proposal_is_guarded_example :
    let s' = (execute_proposal service approver (approved_proposal pausing) start).1 in
    (s'.sent ≡ start.sent)
    ⊎ ((s'.sent ≡ start.sent ++ approved_proposal pausing ∷ [])
        × IsCleared service (approved_proposal pausing) start)
execute_proposal_is_guarded_example =
    execute_proposal_is_guarded service approver (approved_proposal pausing) start

decide_is_guarded_example :
    let s' = (decide service approver 1 true "fine" start).1 in
    (s'.sent ≡ start.sent)
    ⊎ ((proposal : ActionProposal) × (s'.sent ≡ start.sent ++ approved_proposal proposal ∷ [])
        × IsGranted service approver 1 true start proposal)
decide_is_guarded_example = decide_is_guarded service approver 1 true "fine" start

abbrev rejected_request : ApprovalRequest
rejected_request = record request { status = ApprovalStatus.rejected }

abbrev rejected_proposal : ActionProposal
rejected_proposal = record pausing { status = ActionStatus.rejected }

rejection :
    (apply_approval_decision rejected_request
      (decided request ApprovalStatus.rejected 100 "eve" "no")
      rejected_proposal
      tables).0
    ≡ ok tt
unfolding apply_approval_decision
rejection = refl

abbrev after_rejection : Db
after_rejection =
    (apply_approval_decision rejected_request
      (decided request ApprovalStatus.rejected 100 "eve" "no") rejected_proposal tables).1

decided_once_example :
    let (result, after) =
      apply_approval_decision
        (record request { status = ApprovalStatus.approved })
        (decided request ApprovalStatus.approved 101 "max" "yes")
        (approved_proposal pausing)
        after_rejection in
    ((result ≡ err concurrent_operation) ⊎ (result ≡ err lookup_error)) × (after ≡ after_rejection)
decided_once_example =
    decided_once rejected_request (record request { status = ApprovalStatus.approved })
      (decided request ApprovalStatus.rejected 100 "eve" "no")
      (decided request ApprovalStatus.approved 101 "max" "yes") rejected_proposal
      (approved_proposal pausing) tables rejection refl refl

abbrev locked : Db
locked = (acquire_lock "campaign" 5 100 200 tables).1

acquired : (acquire_lock "campaign" 5 100 200 tables).0 ≡ true
unfolding acquire_lock
acquired = refl

lock_is_exclusive_example : acquire_lock "campaign" 6 150 250 locked ≡ (false, locked)
lock_is_exclusive_example =
    lock_is_exclusive "campaign" 5 6 100 150 200 250 tables (omega arith) acquired refl
      (omega arith)

-- A second request for the pause is answered with the first.
abbrev empty : Db
empty = record tables { proposals = []; approvals = [] }

abbrev requested : Db
requested = (create_action_request pausing (some request) empty).1

requested_once_example :
    ((create_action_request pausing (some request) empty).0 ≡ ok (pausing, some request))
    × (create_action_request (record pausing { proposal_id = 8 }) none requested
        ≡ (ok (pausing, get_approval_for_proposal 1 requested), requested))
requested_once_example =
    requested_once pausing (record pausing { proposal_id = 8 }) (some request) none empty refl refl

-- The pause was executed by another request in the meantime.
abbrev executed_before : ActionExecution
executed_before = record {
  execution_id = 30;
  proposal_id = 1;
  run_id = 2;
  idempotency_key = 77;
  status = ExecutionStatus.succeeded;
  attempted_at = 50;
  completed_at = some 60;
  provider_request_id = some "r0";
  before_state = [];
  requested_change = [];
  provider_response = [];
  error_code = none;
  error_message = none;
}

abbrev overtaken : State
overtaken = record {
  db = record tables {
    proposals = approved_proposal pausing ∷ [];
    executions = executed_before ∷ [];
  };
  uses = 0;
  sent = [];
}

found_before : get_execution_by_idempotency 77 overtaken.db ≡ some executed_before
unfolding get_execution_by_idempotency
found_before = refl

existing_execution_is_sent_again_example :
    (begin_execution service approver provider
      (approved_proposal pausing)
      provider_state
      overtaken).1.sent
    ≡ approved_proposal pausing ∷ []
existing_execution_is_sent_again_example =
    existing_execution_is_sent_again service approver provider (approved_proposal pausing)
      provider_state executed_before overtaken refl refl refl found_before
