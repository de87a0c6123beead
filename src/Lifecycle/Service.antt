-- ===== src/Lifecycle/Service.antt =====
-- app/mana_operation_ai/application/action_lifecycle.py: what `ActionLifecycleService` is made with
-- and the steps that its methods share. The executors of the providers, the policies, the clock and
-- the ids are records of functions: the n-th use of any of them yields the value at n. `sent` is
-- what the providers were asked to write, which no table shows.
use manaai.Prelude.{ℕ, suc, Option, none, some, List, [], ◌∷◌, String, Bool, false, not}
use Prim.Native.String
use manaai.Prelude.Exec.{Exec, ok, ret, raise, asks, ensure, ◌>>=◌, ◌>>◌}
use manaai.Domain.Enums.{ActionStatus, ExecutionStatus, PolicyDecision, ProviderMode, UserRole}
use manaai.Domain.StateMachine.{Transition, allowed, invalid, require_action}
use manaai.Lifecycle.Model.{
  JsonObject, ActionProposal, ActionExecution, ActionPolicy, ActionTargetState,
  ActionDispatchResult, AgentConfiguration, AuditEventType,
}
use manaai.Lifecycle.Store.{
  LifecycleError, action_safety, lookup_error, invalid_transition, Db, Tx, get_control,
  latest_configuration, finalize_action_state, save_audit_event,
}

-- What reading a provider object comes to: its state, or what is raised.
pub data Reading : Type 0 where
  found : ActionTargetState → Reading
  not_found permanent transient other : Reading

-- What sending a write comes to: `rejected` is a permanent error of the provider, `uncertain` any
-- other.
pub data Dispatch : Type 0 where
  dispatched : ActionDispatchResult → Dispatch
  rejected uncertain : Dispatch

-- `ActionExecutor`, less what only `create_proposal` asks of it; its family and its provider are the
-- keys of the registry.
pub record Executor : Type 0 where
  pub provider_mode : ProviderMode
  pub state_for_proposal : ℕ → ActionProposal → Reading
  pub state_violation : ActionProposal → ActionTargetState → Option String
  pub expected_state : ActionProposal → ActionTargetState → JsonObject
  pub differences : JsonObject → ActionTargetState → List String
  pub dispatch : ℕ → ActionProposal → Dispatch

-- `none` is a registry that has no executor, or no policy.
pub record Service : Type 0 where
  pub dry_run : Bool
  pub allow_self_approval : Bool
  pub global_kill_switch_default : Bool
  pub lock_timeout_seconds : ℕ
  pub verification_attempts : ℕ
  pub clock : ℕ → ℕ
  pub new_id : ℕ → ℕ
  pub executor_for : String → String → Option Executor
  pub evaluate : ℕ → ActionProposal → AgentConfiguration → Option ActionPolicy

pub record State : Type 0 where
  pub db : Db
  pub uses : ℕ
  pub sent : List ActionProposal

abbrev pub Run : Type 0 → Type 0
Run A = Exec LifecycleError State A

abbrev pub draw : {A : Type 0} → (ℕ → A) → Run A
draw f s = (ok (f s.uses), record s { uses = suc s.uses })

abbrev pub transact : {A : Type 0} → Tx A → Run A
transact tx s = let (r, db') = tx s.db in (r, record s { db = db' })

abbrev pub commit : {A : Type 0} → (Db → A × Db) → Run A
commit tx s = let (a, db') = tx s.db in (ok a, record s { db = db' })

abbrev pub write : (Db → Db) → Run (Unit {0})
write f s = (ok tt, record s { db = f s.db })

abbrev pub reads : {A : Type 0} → (Db → A) → Run A
reads f = asks (λ s. f s.db)

-- A registry or a table that has no such entry.
abbrev pub required : {A : Type 0} → Option A → Run A
required none = raise lookup_error
required (some a) = ret a

abbrev pub raised : Transition → Run (Unit {0})
raised allowed = ret tt
raised invalid = raise invalid_transition

abbrev pub require_transition_to : ActionProposal → ActionStatus → Run (Unit {0})
require_transition_to proposal status = raised (require_action proposal.status status)

-- The names of the controls.
abbrev pub agent_kill_switch : String → String
agent_kill_switch agent_id = String.◌++◌ "agent_kill_switch:" agent_id

abbrev pub capability_kill_switch : String → String → String
capability_kill_switch agent_id capability_key =
    String.◌++◌ "capability_kill_switch:" (String.◌++◌ agent_id (String.◌++◌ ":" capability_key))

abbrev pub lock_key : ActionProposal → String
lock_key proposal = String.◌++◌ "provider-action:" (
    String.◌++◌ proposal.provider (
      String.◌++◌ ":"
        (String.◌++◌ proposal.object_type (String.◌++◌ ":" proposal.provider_object_id))))

-- `" ".join(reasons)`.
abbrev join : List String → String
join [] = ""
join (reason ∷ []) = reason
join (reason ∷ reasons) = String.◌++◌ reason (String.◌++◌ " " (join reasons))

module _ (service : Service) where
  open service use {clock, new_id, evaluate, global_kill_switch_default}

  -- `_audit`.
  unfoldable pub audit :
      String
      → ActionProposal
      → AuditEventType
      → String
      → UserRole
      → String
      → JsonObject
      → Run (Unit {0})
  unfolding save_audit_event
  audit correlation_id proposal event_type actor_id actor_role summary details = do
    event_id ← draw new_id
    occurred_at ← draw clock
    write (
        save_audit_event (record {
          event_id = event_id;
          correlation_id = correlation_id;
          agent_id = proposal.agent_id;
          capability_key = proposal.capability_key;
          run_id = proposal.run_id;
          event_type = event_type;
          actor_id = actor_id;
          actor_role = actor_role;
          occurred_at = occurred_at;
          summary = summary;
          details = details;
        }))

  -- A denial of the current policy stops the action.
  abbrev pub heed : ActionPolicy → Run (Unit {0})
  heed policy = elim policy.decision [
    | PolicyDecision.deny ↦ raise (action_safety (join policy.reasons))
    | PolicyDecision.allow ↦ ret tt
    | PolicyDecision.require_approval ↦ ret tt
  ]

  -- `_require_safety` after the kill switches.
  unfoldable pub require_policy : ActionProposal → Option AgentConfiguration → Run (Unit {0})
  require_policy proposal none = raise (action_safety "No active configuration exists")
  require_policy proposal (some configuration) = do
    answer ← draw (λ n. evaluate n proposal configuration)
    policy ← required answer
    heed policy

  -- A switch that is on stops the action.
  unfoldable pub unless_stopped : (Db → Bool) → String → Run (Unit {0}) → Run (Unit {0})
  unless_stopped switch message rest = do
    stopped ← reads switch
    ensure (not stopped) (action_safety message)
    rest

  unfoldable pub require_configuration : ActionProposal → Run (Unit {0})
  unfolding latest_configuration
  require_configuration proposal = do
    configuration ← reads (latest_configuration proposal.agent_id proposal.capability_key)
    require_policy proposal configuration

  -- `_require_safety`.
  unfoldable pub require_safety : ActionProposal → Run (Unit {0})
  unfolding get_control
  require_safety proposal =
      unless_stopped (get_control "global_kill_switch" global_kill_switch_default)
        "The global kill switch is enabled"
        (unless_stopped (get_control (agent_kill_switch proposal.agent_id) false)
          "The agent kill switch is enabled"
          (unless_stopped
            (get_control (capability_kill_switch proposal.agent_id proposal.capability_key) false)
            "The capability kill switch is enabled" (require_configuration proposal)))

  abbrev pub raw_of : Option ActionTargetState → JsonObject
  raw_of none = []
  raw_of (some state) = state.raw_safe

  -- `_failed_execution`.
  unfoldable pub failed_execution :
      ActionProposal → Option ActionTargetState → String → String → Run ActionExecution
  unfolding finalize_action_state
  failed_execution proposal before message error_code = do
    now ← draw clock
    require_transition_to proposal ActionStatus.executing
    let executing : ActionProposal = record proposal { status = ActionStatus.executing }
    require_transition_to executing ActionStatus.failed
    execution_id ← draw new_id
    let execution : ActionExecution = record {
      execution_id = execution_id;
      proposal_id = proposal.proposal_id;
      run_id = proposal.run_id;
      idempotency_key = proposal.idempotency_key;
      status = ExecutionStatus.failed;
      attempted_at = now;
      completed_at = some now;
      provider_request_id = none;
      before_state = raw_of before;
      requested_change = proposal.parameters;
      provider_response = [];
      error_code = some error_code;
      error_message = some message;
    }
    transact
        (finalize_action_state (record executing { status = ActionStatus.failed }) execution none)
    ret execution
