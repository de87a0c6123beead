-- ===== src/Runs/RunNow.antt =====
-- `validate_run`, `_fail_unfinished_run` and `run_now` of agent_service.py.
use manaai.Prelude.{
  ℕ, suc, ◌+◌, ◌*◌, Option, none, some, [], ◌∷◌, ◌++◌, String, str_eq, Bool, true, false, not,
  if◌then◌else◌, any,
}
use manaai.Prelude.Exec.{ok, ret, raise, asks, ensure, ◌>>=◌, ◌>>◌}
use manaai.Prelude.Dict.{get}
use manaai.Domain.Enums.{AgentRunStatus}
use manaai.Lifecycle.Model.{AgentConfiguration}
use manaai.Lifecycle.Store.{get_control, latest_configuration, acquire_lock, release_lock}
use manaai.Lifecycle.Service.{agent_kill_switch, capability_kill_switch}
use manaai.Runs.{
  AgentStatus, is_enabled, AgentRun, AgentRunResult, Tables, unknown_agent, agent_error,
  unavailable, locked, timed_out, cancelled_error,
}
use manaai.Runs.Registry.{canonical_id, agent_of}
use manaai.Runs.Store.{create_run, get_run}
use manaai.Runs.Service.{
  Outcome, returned, expired, raised, cancelled, Agent, Service, Run, draw, transact, required,
  move_run, Request, text_or, has_status, is_settled, result_of, requeued, failed_run, run_lock,
  given,
}

abbrev pub enabled_agent : Option AgentStatus → Bool
enabled_agent none = false
enabled_agent (some status) = is_enabled status

module _ (service : Service) where
  open service use {
    registry, job_timeout_seconds, global_kill_switch_default, clock, new_id, run_key,
  }

  -- The kill switches, as the tables have them.
  unfoldable pub is_stopped : String → String → Tables → Bool
  unfolding get_control
  is_stopped agent_id capability_key tables =
      if get_control "global_kill_switch" global_kill_switch_default tables.ops
      then true
      else if get_control (agent_kill_switch agent_id) false tables.ops
      then true
      else get_control (capability_kill_switch agent_id capability_key) false tables.ops

  -- The tests of `validate_run` in their order, on what it reads.
  abbrev pub ready_or_unavailable :
      Bool → Bool → Bool → Option AgentConfiguration → Run AgentConfiguration
  ready_or_unavailable is_loaded is_persisted stopped configuration = do
    ensure is_loaded unavailable
    ensure is_persisted unavailable
    ensure (not stopped) unavailable
    required unavailable configuration

  -- `validate_run` for an agent of the registry, under the id that `validate_run` resolved.
  unfoldable pub require_ready : String → String → Agent → Run AgentConfiguration
  require_ready agent_id capability_key agent s =
      ready_or_unavailable (any (λ key. str_eq key capability_key) agent.capability_keys)
        (enabled_agent (get agent_id s.tables.agents)) (is_stopped agent_id capability_key s.tables)
        (latest_configuration agent_id capability_key s.tables.ops) s

  unfoldable pub fail_unfinished : Option AgentRun → String → String → Run (Unit {0})
  fail_unfinished none error_code error_message = ret tt
  fail_unfinished (some persisted) error_code error_message =
      if is_settled persisted.status
      then ret tt
      else draw clock >>= λ now.
          move_run persisted.status (failed_run persisted now error_code error_message)

  -- `_fail_unfinished_run`.
  unfoldable pub fail_unfinished_run : ℕ → String → String → Run (Unit {0})
  fail_unfinished_run run_id error_code error_message = do
    persisted ← asks (λ s. get_run run_id s.tables)
    fail_unfinished persisted error_code error_message

  -- What becomes of a run after the agent.
  unfoldable pub conclude_run : AgentRun → Outcome → Run AgentRunResult
  conclude_run run (returned result) = ret result
  conclude_run run expired = do
    fail_unfinished_run run.run_id "job_timeout" "The agent job exceeded its configured timeout."
    raise timed_out
  conclude_run run raised = do
    fail_unfinished_run run.run_id "unexpected_run_error"
        "The agent job failed before reaching a terminal state."
    raise agent_error
  conclude_run run cancelled = raise cancelled_error

  -- `agent.execute` under its timeout.
  unfoldable pub call_agent : Agent → AgentRun → String → String → AgentConfiguration → Run Outcome
  call_agent agent run capability_key job_type configuration s =
      let (outcome, tables) =
        agent.execute s.uses run capability_key job_type configuration s.tables in
      (
        ok outcome,
        record { tables = tables; uses = suc s.uses; executed = s.executed ++ run.run_id ∷ [] },
      )

  unfoldable pub execute_run :
      Agent → AgentRun → String → String → AgentConfiguration → Run AgentRunResult
  execute_run agent run capability_key job_type configuration = do
    outcome ← call_agent agent run capability_key job_type configuration
    conclude_run run outcome

  abbrev pub unlock : String → ℕ → Tables → Tables
  unlock key owner_id tables = record tables { ops = release_lock key owner_id tables.ops }

  abbrev pub lock : String → ℕ → ℕ → Tables → Bool × Tables
  lock key owner_id now tables =
      let (acquired, ops) =
        acquire_lock key owner_id now (now + job_timeout_seconds * 1000000) tables.ops in
      (acquired, record tables { ops = ops })

  abbrev pub take_lock : String → ℕ → ℕ → Run Bool
  take_lock key owner_id now s =
      let (acquired, tables) = lock key owner_id now s.tables in
      (ok acquired, record s { tables = tables })

  -- `try ... finally` around the execution.
  unfoldable pub locked_run :
      Agent → AgentRun → String → String → AgentConfiguration → String → ℕ → Run AgentRunResult
  locked_run agent run capability_key job_type configuration key owner_id s =
      let (r, s') = execute_run agent run capability_key job_type configuration s in
      (r, record s' { tables = unlock key owner_id s'.tables })

  unfoldable pub run_under_lock :
      Agent → AgentRun → String → String → String → AgentConfiguration → ℕ → Run AgentRunResult
  run_under_lock agent run agent_id capability_key job_type configuration now = do
    owner_id ← draw new_id
    acquired ← take_lock (run_lock agent_id capability_key) owner_id now
    ensure acquired locked
    locked_run agent run capability_key job_type configuration (run_lock agent_id capability_key)
        owner_id

  -- A failed run is queued again.
  unfoldable pub requeue : AgentRun → ℕ → Run AgentRun
  requeue run now =
      if has_status AgentRunStatus.failed run
      then (move_run run.status (requeued run now) >>= λ _. ret (requeued run now))
      else ret run

  -- From the persisted run on.
  unfoldable pub continue_run :
      Agent → AgentRun → String → String → String → AgentConfiguration → ℕ → Run AgentRunResult
  continue_run agent run agent_id capability_key job_type configuration now =
      if has_status AgentRunStatus.queued run
      then run_under_lock agent run agent_id capability_key job_type configuration now
      else ret (result_of run)

  abbrev pub fresh_run : Request → String → String → AgentConfiguration → ℕ → ℕ → ℕ → AgentRun
  fresh_run request agent_id capability_key configuration now run_id correlation_id = record {
    run_id = run_id;
    agent_id = agent_id;
    capability_key = capability_key;
    correlation_id = correlation_id;
    trigger = request.trigger;
    initiated_by = request.actor_id;
    status = AgentRunStatus.queued;
    configuration_version = configuration.version;
    idempotency_key =
        text_or request.idempotency_key (run_key agent_id capability_key request.job_type now);
    started_at = now;
    updated_at = now;
    completed_at = none;
    error_code = none;
    error_message = none;
    retry_count = 0;
  }

  abbrev pub correlate : Option ℕ → Run ℕ
  correlate none = draw new_id
  correlate (some correlation_id) = ret correlation_id

  -- With the run that `create_run` returned.
  unfoldable pub resume_run :
      Request → String → String → Agent → AgentConfiguration → ℕ → AgentRun → Run AgentRunResult
  resume_run request agent_id capability_key agent configuration now persisted =
      requeue persisted now >>= λ run.
      continue_run agent run agent_id capability_key request.job_type configuration now

  unfoldable pub persist_run :
      Request → String → String → Agent → AgentConfiguration → ℕ → ℕ → ℕ → Run AgentRunResult
  persist_run request agent_id capability_key agent configuration now run_id correlation_id =
      transact (
        create_run
          (fresh_run request agent_id capability_key configuration now run_id correlation_id))
      >>= resume_run request agent_id capability_key agent configuration now

  -- `run_now` after the validation.
  unfoldable pub start_run :
      Request → String → String → Agent → AgentConfiguration → Run AgentRunResult
  start_run request agent_id capability_key agent configuration = do
    now ← draw clock
    run_id ← draw new_id
    correlate request.correlation_id
        >>= persist_run request agent_id capability_key agent configuration now run_id

  -- `capability_key or default_capability_key(canonical_agent_id)`, for a key that is given.
  unfoldable pub key_or_default : Option String → String → Run String
  key_or_default none agent_id = required unknown_agent (agent_of registry agent_id) >>= λ agent.
      ret agent.default_capability_key
  key_or_default (some capability_key) agent_id = ret capability_key

  -- `validate_run`, which resolves the id that it is given once more.
  unfoldable pub validate_run : String → String → Run (Agent × AgentConfiguration)
  validate_run agent_id capability_key =
      let canonical = canonical_id registry agent_id in
      required unknown_agent (agent_of registry canonical) >>= λ agent.
      require_ready canonical (text_or (some capability_key) agent.default_capability_key) agent
      >>= λ configuration. ret (agent, configuration)

  unfoldable pub run_now : Request → Run AgentRunResult
  run_now request =
      let agent_id = canonical_id registry request.agent_id in
      key_or_default (given request.capability_key) agent_id >>= λ capability_key.
      validate_run agent_id capability_key >>= λ checked.
      start_run request agent_id capability_key checked.0 checked.1
