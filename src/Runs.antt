-- ===== src/Runs.antt =====
-- The runs of the operation agents: app/mana_operation_ai/application/agent_service.py and
-- application/registry.py, on the run table of infrastructure/persistence/repository.py. The tables
-- of the lifecycle (configurations, controls, job locks) are a part of the state. What an agent
-- does in a run is a function that a record gives. `current_stage` of a run and the ids of what a
-- run produced, which only the agents write, are left out.
pub mod Registry
pub mod Store
pub mod Service
pub mod RunNow
pub mod Guards
pub mod Unfinished
pub mod Repeated
mod Examples
use manaai.Prelude.{ℕ, Option, List, String, Bool, true, false}
use manaai.Prelude.Dict.{Dict}
use manaai.Domain.Enums.{AgentRunStatus}
use manaai.Lifecycle.Store.{Db}

pub data AgentStatus : Type 0 where
  registered enabled disabled paused unhealthy : AgentStatus

abbrev pub is_enabled : AgentStatus → Bool
is_enabled enabled = true
is_enabled _ = false

pub data TriggerType : Type 0 where
  schedule user orchestrator api : TriggerType

pub record AgentRun : Type 0 where
  pub run_id : ℕ
  pub agent_id : String
  pub capability_key : String
  pub correlation_id : ℕ
  pub trigger : TriggerType
  pub initiated_by : String
  pub status : AgentRunStatus
  pub configuration_version : ℕ
  pub idempotency_key : String
  pub started_at : ℕ
  pub updated_at : ℕ
  pub completed_at : Option ℕ
  pub error_code : Option String
  pub error_message : Option String
  pub retry_count : ℕ

pub record AgentRunResult : Type 0 where
  pub run_id : ℕ
  pub status : AgentRunStatus

-- `agents` is the persisted status of each agent.
pub record Tables : Type 0 where
  pub agents : Dict AgentStatus
  pub runs : List AgentRun
  pub ops : Db

-- `duplicate_agent` and `unknown_agent` are the registry's; `agent_error` is whatever an agent
-- raises.
pub data RunError : Type 0 where
  duplicate_agent unknown_agent agent_error lookup_error invalid_transition integrity_error :
      RunError
  unavailable locked timed_out cancelled_error : RunError
