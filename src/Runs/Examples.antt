-- ===== src/Runs/Examples.antt =====
-- An agent that completes a run, and one that takes too long.
use manaai.Prelude.{
  ℕ, ◌+◌, ◌≡◌, refl, ◌⊎◌, Option, none, some, List, [], ◌∷◌, ◌++◌, String, str_eq, Bool, true,
  false, any, find, if◌then◌else◌,
}
use manaai.Prelude.Dict.{get}
use manaai.Prelude.Exec.{ok}
use manaai.Domain.Enums.{AgentRunStatus}
use manaai.Lifecycle.Model.{AgentConfiguration}
use manaai.Lifecycle.Store.{Db}
use manaai.Runs.{enabled, api, AgentRun, AgentRunResult, Tables, duplicate_agent}
use manaai.Runs.Registry.{AgentRegistry, register, agent_of, registered_is_found}
use manaai.Runs.Store.{update_run}
use manaai.Runs.Service.{returned, expired, Agent, Service, State, Request, result_of}
use manaai.Runs.RunNow.{run_now, start_run, continue_run, locked_run, lock}
use manaai.Runs.Guards.{run_now_is_guarded}
use manaai.Runs.Guards.Checks.{IsReady}
use manaai.Runs.Unfinished.{is_held_by, Concludes, locked_run_ends}
use manaai.Runs.Repeated.{requested_run_is_reported, stale_run_is_executed}

abbrev completed_run : AgentRun → AgentRun
completed_run run = record run { status = AgentRunStatus.completed }

abbrev quick : Agent
quick = record {
  default_capability_key = "growth";
  capability_keys = "growth" ∷ [];
  execute = λ n run capability_key job_type configuration tables.
      (returned (result_of (completed_run run)), (update_run (completed_run run) tables).1);
}

abbrev slow : Agent
slow = record quick {
  execute = λ n run capability_key job_type configuration tables. (expired, tables);
}

abbrev configuration : AgentConfiguration
configuration = record {
  agent_id = "marketing";
  capability_key = "growth";
  version = 3;
  values = [];
}

abbrev ops : Db
ops = record {
  proposals = [];
  approvals = [];
  decisions = [];
  executions = [];
  verifications = [];
  audit = [];
  configurations = configuration ∷ [];
  controls = [];
  locks = [];
}

abbrev agents : AgentRegistry Agent
agents = record { agents = ("marketing", quick) ∷ []; aliases = ("ads", "marketing") ∷ [] }

abbrev service : Service
service = record {
  registry = agents;
  job_timeout_seconds = 60;
  global_kill_switch_default = false;
  clock = λ n. n + 100;
  new_id = λ n. n + 40;
  run_key = λ a c j n. "key";
}

abbrev request : Request
request = record {
  agent_id = "ads";
  capability_key = none;
  job_type = "daily";
  trigger = api;
  actor_id = "eve";
  correlation_id = none;
  idempotency_key = some "monday";
}

abbrev start : State
start = record {
  tables = record { agents = ("marketing", enabled) ∷ []; runs = []; ops = ops };
  uses = 0;
  executed = [];
}

-- The run that the request makes, as it is queued.
abbrev queued_run : AgentRun
queued_run = record {
  run_id = 41;
  agent_id = "marketing";
  capability_key = "growth";
  correlation_id = 42;
  trigger = api;
  initiated_by = "eve";
  status = AgentRunStatus.queued;
  configuration_version = 3;
  idempotency_key = "monday";
  started_at = 100;
  updated_at = 100;
  completed_at = none;
  error_code = none;
  error_message = none;
  retry_count = 0;
}

abbrev done : State
done = record {
  tables = record {
    agents = ("marketing", enabled) ∷ [];
    runs = completed_run queued_run ∷ [];
    ops = ops;
  };
  uses = 5;
  executed = 41 ∷ [];
}

-- The run is executed once and its lock is released.
request_completes :
    run_now service request start ≡ (ok (result_of (completed_run queued_run)), done)
unfolding run_now manaai.Runs.Registry.agent_of manaai.Runs.RunNow.key_or_default
    manaai.Runs.RunNow.validate_run manaai.Runs.RunNow.require_ready manaai.Runs.RunNow.is_stopped
    manaai.Lifecycle.Store.latest_configuration manaai.Runs.RunNow.start_run
    manaai.Runs.RunNow.persist_run manaai.Runs.Store.create_run manaai.Runs.RunNow.resume_run
    manaai.Runs.RunNow.requeue manaai.Runs.RunNow.continue_run manaai.Runs.RunNow.run_under_lock
    manaai.Lifecycle.Store.acquire_lock manaai.Runs.RunNow.locked_run manaai.Runs.RunNow.execute_run
    manaai.Lifecycle.Store.release_lock manaai.Runs.RunNow.call_agent
    manaai.Runs.RunNow.conclude_run manaai.Lifecycle.Store.get_control manaai.Lifecycle.Store.latest
    manaai.Prelude.Dict.get manaai.Runs.Registry.canonical_id manaai.Runs.Store.update_run
request_completes = refl

run_now_is_guarded_example :
    let s' = (run_now service request start).1 in
    (s'.executed ≡ start.executed)
    ⊎ (((run_id : ℕ) × (s'.executed ≡ start.executed ++ run_id ∷ []))
        × IsReady service request start.tables)
run_now_is_guarded_example = run_now_is_guarded service request start

locked_run_ends_example :
    let (r, s') =
      locked_run service slow queued_run "growth" "daily" configuration "lock" 43 done in
    (any (is_held_by 43 "lock") s'.tables.ops.locks ≡ false)
    × Concludes queued_run expired done.tables r s'.tables
locked_run_ends_example =
    locked_run_ends service slow queued_run "growth" "daily" configuration "lock" 43 done

requested_run_is_reported_example :
    let (r, s') = start_run service request "marketing" "growth" quick configuration done in
    (r ≡ ok (result_of (completed_run queued_run)))
    × (s'.tables ≡ done.tables)
    × (s'.executed ≡ done.executed)
requested_run_is_reported_example =
    requested_run_is_reported service request "marketing" "growth" quick configuration "monday"
      (completed_run queued_run) done refl refl refl refl refl

-- Another request read the run before it was completed.
lock_is_free : (lock service "capability-run:marketing:growth" 45 100 done.tables).0 ≡ true
unfolding manaai.Lifecycle.Store.acquire_lock
lock_is_free = refl

stale_run_is_executed_example :
    (continue_run service quick queued_run "marketing" "growth" "daily" configuration 100
      done).1.executed
    ≡ 41 ∷ 41 ∷ []
stale_run_is_executed_example =
    stale_run_is_executed service request "marketing" "growth" quick configuration queued_run
      "daily" 100 done refl lock_is_free

abbrev with_ads : AgentRegistry Agent
with_ads = record agents { agents = ("marketing", quick) ∷ ("ads", slow) ∷ [] }

registered_is_found_example :
    ((get "ads" agents.aliases ≡ none) × (agent_of with_ads "ads" ≡ some slow))
    ⊎ ((canonical : String) × (get "ads" agents.aliases ≡ some canonical)
        × (agent_of with_ads "ads"
            ≡ (if str_eq "ads" canonical then some slow else get canonical agents.agents)))
unfolding register
registered_is_found_example = registered_is_found "ads" slow agents with_ads refl
