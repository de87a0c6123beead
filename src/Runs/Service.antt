-- ===== src/Runs/Service.antt =====
-- `AgentService.run_now` of application/agent_service.py, with what it calls.
use manaai.Prelude.{
  ℕ, suc, Option, none, some, List, String, str_eq, Bool, true, false, if◌then◌else◌,
}
use Prim.Native.String
use manaai.Prelude.Exec.{Exec, Result, ok, ret, raise, ◌>>◌}
use manaai.Domain.Enums.{AgentRunStatus, same_run_status}
use manaai.Domain.StateMachine.{Transition, allowed, invalid, require_run}
use manaai.Lifecycle.Model.{AgentConfiguration}
use manaai.Runs.{TriggerType, AgentRun, AgentRunResult, Tables, RunError, invalid_transition}
use manaai.Runs.Registry.{AgentRegistry}
use manaai.Runs.Store.{update_run}

-- What the execution of a run comes to, within its time. A cancelled task raises `CancelledError`,
-- which `except Exception` does not catch.
pub data Outcome : Type 0 where
  returned : AgentRunResult → Outcome
  expired raised cancelled : Outcome

-- `OperationalAgent`, as far as a run needs it; `execute` changes the tables as it likes.
pub record Agent : Type 0 where
  pub default_capability_key : String
  pub capability_keys : List String
  pub execute : ℕ → AgentRun → String → String → AgentConfiguration → Tables → Outcome × Tables

-- `run_key` is the digest of its arguments.
pub record Service : Type 0 where
  pub registry : AgentRegistry Agent
  pub job_timeout_seconds : ℕ
  pub global_kill_switch_default : Bool
  pub clock : ℕ → ℕ
  pub new_id : ℕ → ℕ
  pub run_key : String → String → String → ℕ → String

-- `executed` are the ids of the runs that were given to an agent, one for each time.
pub record State : Type 0 where
  pub tables : Tables
  pub uses : ℕ
  pub executed : List ℕ

abbrev pub Run : Type 0 → Type 0
Run A = Exec RunError State A

abbrev pub draw : {A : Type 0} → (ℕ → A) → Run A
draw f s = (ok (f s.uses), record s { uses = suc s.uses })

abbrev pub transact : {A : Type 0} → (Tables → Result RunError A × Tables) → Run A
transact tx s = let (r, tables') = tx s.tables in (r, record s { tables = tables' })

abbrev pub required : {A : Type 0} → RunError → Option A → Run A
required e none = raise e
required e (some a) = ret a

abbrev pub permit : Transition → Run (Unit {0})
permit allowed = ret tt
permit invalid = raise invalid_transition

-- `update_run` of a run whose status may change so.
abbrev pub move_run : AgentRunStatus → AgentRun → Run (Unit {0})
move_run status changed =
    permit (require_run status changed.status) >> transact (update_run changed)

-- The arguments of `run_now`.
pub record Request : Type 0 where
  pub agent_id : String
  pub capability_key : Option String
  pub job_type : String
  pub trigger : TriggerType
  pub actor_id : String
  pub correlation_id : Option ℕ
  pub idempotency_key : Option String

-- `x or y` for a text.
abbrev pub text_or : Option String → String → String
text_or none y = y
text_or (some x) y = if str_eq x "" then y else x

-- A text that is given and not empty.
abbrev pub given : Option String → Option String
given none = none
given (some x) = if str_eq x "" then none else some x

abbrev pub has_status : AgentRunStatus → AgentRun → Bool
has_status status run = same_run_status run.status status

-- The statuses in which `_fail_unfinished_run` leaves a run alone.
unfoldable pub is_settled : AgentRunStatus → Bool
is_settled AgentRunStatus.completed = true
is_settled AgentRunStatus.failed = true
is_settled AgentRunStatus.cancelled = true
is_settled AgentRunStatus.waiting_approval = true
is_settled _ = false

abbrev pub result_of : AgentRun → AgentRunResult
result_of run = record { run_id = run.run_id; status = run.status }

abbrev pub requeued : AgentRun → ℕ → AgentRun
requeued run now = record run {
  status = AgentRunStatus.queued;
  updated_at = now;
  completed_at = none;
  error_code = none;
  error_message = none;
  retry_count = suc run.retry_count;
}

abbrev pub failed_run : AgentRun → ℕ → String → String → AgentRun
failed_run run now error_code error_message = record run {
  status = AgentRunStatus.failed;
  updated_at = now;
  completed_at = some now;
  error_code = some error_code;
  error_message = some error_message;
}

abbrev pub run_lock : String → String → String
run_lock agent_id capability_key =
    String.◌++◌ "capability-run:" (String.◌++◌ agent_id (String.◌++◌ ":" capability_key))
