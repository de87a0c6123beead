-- ===== src/Lifecycle/Execute.antt =====
-- `execute_proposal` of action_lifecycle.py, part by part in the order in which it runs: the guards
-- before the lock, the guards under it, the pending execution, the write and what became of it.
pub mod Outcome
pub mod Guards
pub mod Cleared
pub mod Repeat
use manaai.Prelude.{
  ℕ, ◌+◌, ◌*◌, Option, none, some, List, [], ◌∷◌, String, Bool, true, false, not, ◌&&◌, ◌||◌, leb,
  ◌==◌, if◌then◌else◌, is_some,
}
use manaai.Prelude.Exec.{Exec, Result, ok, err, ret, raise, asks, ensure, ◌>>=◌, ◌>>◌}
use manaai.Domain.Enums.{ActionStatus, ExecutionStatus, ProviderMode, same_action_status}
use manaai.Lifecycle.Model.{
  ActionProposal, ActionExecution, ActionTargetState, AuditEventType, text, flag,
}
use manaai.Lifecycle.Store.{
  action_safety, stale_proposal, write_forbidden, unexpected, update_proposal,
  get_execution_by_idempotency, save_execution, finalize_action_state, acquire_lock, release_lock,
}
use manaai.Lifecycle.Service.{
  Service, Executor, Reading, found, not_found, permanent, transient, other, State, Run, draw,
  transact, commit, write, reads, required, require_transition_to, lock_key, audit, require_safety,
  failed_execution,
}
use manaai.Lifecycle.Execute.Outcome.{Caller, ActionLifecycleResult, settle, send}

abbrev pub is_read_only : ProviderMode → Bool
is_read_only ProviderMode.live_read_only = true
is_read_only ProviderMode.fake_executable = false

abbrev pub is_forbidden : Executor → ActionProposal → Bool
is_forbidden executor proposal = proposal.execution_forbidden || is_read_only executor.provider_mode

abbrev pub is_approved : ActionProposal → Bool
is_approved proposal = same_action_status proposal.status ActionStatus.approved

abbrev pub returned : ActionProposal → ActionExecution → ActionLifecycleResult
returned proposal execution = record {
  proposal = proposal;
  approval_decision = none;
  execution = some execution;
  verification = none;
}

abbrev pub executing_proposal : ActionProposal → ActionProposal
executing_proposal proposal = record proposal { status = ActionStatus.executing }

abbrev pub executing_execution : ActionExecution → ActionExecution
executing_execution pending = record pending { status = ExecutionStatus.executing }

abbrev pub pending_execution : ActionProposal → ActionTargetState → ℕ → ℕ → ActionExecution
pending_execution proposal before now execution_id = record {
  execution_id = execution_id;
  proposal_id = proposal.proposal_id;
  run_id = proposal.run_id;
  idempotency_key = proposal.idempotency_key;
  status = ExecutionStatus.pending;
  attempted_at = now;
  completed_at = none;
  provider_request_id = none;
  before_state = before.raw_safe;
  requested_change = proposal.parameters;
  provider_response = [];
  error_code = none;
  error_message = none;
}

-- An execution with the key of the proposal is returned as it is.
unfoldable pub unless_executed :
    ActionProposal → Option ActionExecution → Run ActionLifecycleResult → Run ActionLifecycleResult
unless_executed proposal none rest = rest
unless_executed proposal (some previous) rest = ret (returned proposal previous)

module _ (service : Service) where
  open service use {dry_run, lock_timeout_seconds, clock, new_id, executor_for}

  -- A dry run ends here.
  unfoldable pub finish_dry_run :
      Caller → ActionProposal → ActionExecution → ℕ → Run ActionLifecycleResult
  finish_dry_run caller proposal pending now = do
    require_transition_to proposal ActionStatus.dry_run
    let dry_proposal : ActionProposal = record proposal { status = ActionStatus.dry_run }
    let dry_execution : ActionExecution = record pending {
      status = ExecutionStatus.dry_run;
      completed_at = some now;
    }
    transact (finalize_action_state dry_proposal dry_execution none)
    audit service caller.correlation_id dry_proposal AuditEventType.action_executed caller.actor_id
        caller.actor_role "Action completed as a dry run; provider state was not changed"
        (("execution_status", text "dry_run") ∷ [])
    ret (returned dry_proposal dry_execution)

  -- The write, once the tables say that it is under way.
  unfoldable pub send_and_settle :
      Caller
      → Executor
      → ActionProposal
      → ActionExecution
      → ActionTargetState
      → Run ActionLifecycleResult
  send_and_settle caller executor proposal pending before = do
    let expected = executor.expected_state proposal before
    answer ← send executor proposal
    settle service caller executor proposal (executing_proposal proposal)
        (executing_execution pending) expected answer

  unfoldable pub send_write :
      Caller
      → Executor
      → ActionProposal
      → ActionExecution
      → ActionTargetState
      → Run ActionLifecycleResult
  send_write caller executor proposal pending before = do
    require_transition_to proposal ActionStatus.executing
    transact
        (finalize_action_state (executing_proposal proposal) (executing_execution pending) none)
    send_and_settle caller executor proposal pending before

  unfoldable pub run_pending :
      Caller
      → Executor
      → ActionProposal
      → ActionTargetState
      → ℕ
      → ActionExecution
      → Run ActionLifecycleResult
  run_pending caller executor proposal before now pending =
      if dry_run
      then finish_dry_run caller proposal pending now
      else send_write caller executor proposal pending before

  -- From the pending execution on.
  unfoldable pub begin_execution :
      Caller → Executor → ActionProposal → ActionTargetState → Run ActionLifecycleResult
  begin_execution caller executor proposal before = do
    now ← draw clock
    execution_id ← draw new_id
    pending ← transact (save_execution (pending_execution proposal before now execution_id))
    run_pending caller executor proposal before now pending

  -- The executor's own objection to the state.
  unfoldable pub heed_violation :
      Caller
      → Executor
      → ActionProposal
      → ActionTargetState
      → Option String
      → Run ActionLifecycleResult
  heed_violation caller executor proposal before none =
      begin_execution caller executor proposal before
  heed_violation caller executor proposal before (some violation) = do
    failed_execution service proposal (some before) violation "provider_state_not_executable"
    raise (stale_proposal violation)

  -- The state of the provider object before the write.
  unfoldable pub check_state :
      Caller → Executor → ActionProposal → Reading → Run ActionLifecycleResult
  check_state caller executor proposal not_found = do
    failed_execution service proposal none
        "The provider object no longer exists or is inaccessible." "provider_object_not_found"
    raise (stale_proposal "The provider object no longer exists or is inaccessible.")
  check_state caller executor proposal permanent = do
    failed_execution service proposal none "The provider rejected the pre-execution state check."
        "provider_permanent_error"
    raise (action_safety "The provider rejected the pre-execution state check.")
  check_state caller executor proposal transient = raise (
      action_safety
        "The provider state is temporarily unavailable; the approved action was not sent")
  check_state caller executor proposal other = raise unexpected
  check_state caller executor proposal (found before) =
      if before.state_hash == proposal.current_state_hash
      then heed_violation caller executor proposal before (executor.state_violation proposal before)
      else (do
        failed_execution service proposal (some before)
            "The provider object changed after the proposal was created." "stale_proposal"
        raise (stale_proposal "The provider object changed after the proposal was created."))

  unfoldable pub expire_before_execution : Caller → ActionProposal → Run ActionLifecycleResult
  expire_before_execution caller proposal = do
    require_transition_to proposal ActionStatus.expired
    let expired : ActionProposal = record proposal { status = ActionStatus.expired }
    transact (update_proposal expired)
    audit service caller.correlation_id expired AuditEventType.action_executed caller.actor_id
        caller.actor_role "Approved action expired before provider execution"
        (("execution_status", text "not_executed") ∷ [])
    raise (action_safety "The proposal has expired")

  -- The provider object is read once the current safeguards let the proposal pass.
  unfoldable pub read_and_check : Caller → Executor → ActionProposal → Run ActionLifecycleResult
  read_and_check caller executor proposal = do
    reading ← draw (λ n. executor.state_for_proposal n proposal)
    check_state caller executor proposal reading

  unfoldable pub execute_current : Caller → Executor → ActionProposal → Run ActionLifecycleResult
  execute_current caller executor proposal = do
    require_safety service proposal
    read_and_check caller executor proposal

  -- Under the lock, once no execution with the key was found.
  unfoldable pub execute_fresh : Caller → Executor → ActionProposal → Run ActionLifecycleResult
  execute_fresh caller executor proposal = do
    now ← draw clock
    if leb proposal.expires_at now
        then expire_before_execution caller proposal
        else execute_current caller executor proposal

  -- `_execute_proposal_locked`.
  unfoldable pub execute_proposal_locked : Caller → ActionProposal → Run ActionLifecycleResult
  execute_proposal_locked caller proposal = do
    executor ← required (executor_for proposal.action_family proposal.provider)
    ensure (not (is_forbidden executor proposal)) write_forbidden
    ensure (is_approved proposal) (action_safety "Only approved proposals can be executed")
    previous ← reads (get_execution_by_idempotency proposal.idempotency_key)
    unless_executed proposal previous (execute_fresh caller executor proposal)

  -- `try ... finally` around the locked part.
  unfoldable pub locked_part : Caller → ActionProposal → ℕ → Run ActionLifecycleResult
  locked_part caller proposal owner_id s =
      let (r, s') = execute_proposal_locked caller proposal s in
      (r, record s' { db = release_lock (lock_key proposal) owner_id s'.db })

  unfoldable pub with_lock : Caller → ActionProposal → Run ActionLifecycleResult
  with_lock caller proposal = do
    owner_id ← draw new_id
    now ← draw clock
    acquired ←
        commit
          (acquire_lock (lock_key proposal) owner_id now (now + lock_timeout_seconds * 1000000))
    ensure acquired
        (action_safety "Another approved action is already executing for this provider object")
    locked_part caller proposal owner_id

  unfoldable pub refuse_write : Caller → ActionProposal → Run ActionLifecycleResult
  refuse_write caller proposal = do
    audit service caller.correlation_id proposal AuditEventType.write_forbidden caller.actor_id
        caller.actor_role "LIVE Meta write attempt blocked before provider dispatch"
        (("provider_mode", text "live_read_only")
          ∷ ("action_type", text proposal.action_type)
          ∷ ("provider_request_sent", flag false)
          ∷ [])
    raise write_forbidden

  unfoldable pub execute_proposal : Caller → ActionProposal → Run ActionLifecycleResult
  execute_proposal caller proposal = do
    executor ← required (executor_for proposal.action_family proposal.provider)
    if is_forbidden executor proposal then refuse_write caller proposal else (do
      ensure (is_approved proposal) (action_safety "Only approved proposals can be executed")
      previous ← reads (get_execution_by_idempotency proposal.idempotency_key)
      unless_executed proposal previous (with_lock caller proposal))
