-- ===== src/Lifecycle/Model.antt =====
-- app/mana_operation_ai/domain/models.py: what the lifecycle of an action stores. A UUID and a
-- digest are the numbers that they spell; an instant counts microseconds. Left out are the fields
-- that the lifecycle only hands on to reports: the evidence, reasoning, confidence, risks, missing
-- data, instructions and policy of a proposal, what identifies a target state, a policy or a
-- configuration besides the fields here. `action_type` is the value of the enumeration.
use manaai.Prelude.{ℕ, Option, List, String, Bool}
use manaai.Prelude.Dict.{Dict}
use manaai.Domain.Enums.{
  ActionStatus, ApprovalStatus, ExecutionStatus, VerificationStatus, PolicyDecision, ProviderMode,
  UserRole,
}

pub data JsonValue : Type 0 where
  text : String → JsonValue
  flag : Bool → JsonValue
  texts : List String → JsonValue
  null : JsonValue

abbrev pub JsonObject : Type 0
JsonObject = Dict JsonValue

pub record ActionProposal : Type 0 where
  pub proposal_id : ℕ
  pub run_id : ℕ
  pub agent_id : String
  pub capability_key : String
  pub action_family : String
  pub provider : String
  pub provider_mode : ProviderMode
  pub execution_forbidden : Bool
  pub object_type : String
  pub provider_object_id : String
  pub action_type : String
  pub parameters : JsonObject
  pub status : ActionStatus
  pub idempotency_key : ℕ
  pub current_state_hash : ℕ
  pub expires_at : ℕ
  pub created_at : ℕ

pub record ApprovalRequest : Type 0 where
  pub approval_id : ℕ
  pub proposal_id : ℕ
  pub requested_at : ℕ
  pub expires_at : ℕ
  pub requested_by : String
  pub required_role : UserRole
  pub status : ApprovalStatus

pub record ApprovalDecision : Type 0 where
  pub approval_id : ℕ
  pub proposal_id : ℕ
  pub status : ApprovalStatus
  pub decided_at : ℕ
  pub decided_by : String
  pub reason : String

pub record ActionExecution : Type 0 where
  pub execution_id : ℕ
  pub proposal_id : ℕ
  pub run_id : ℕ
  pub idempotency_key : ℕ
  pub status : ExecutionStatus
  pub attempted_at : ℕ
  pub completed_at : Option ℕ
  pub provider_request_id : Option String
  pub before_state : JsonObject
  pub requested_change : JsonObject
  pub provider_response : JsonObject
  pub error_code : Option String
  pub error_message : Option String

pub record ActionVerification : Type 0 where
  pub verification_id : ℕ
  pub execution_id : ℕ
  pub status : VerificationStatus
  pub checked_at : ℕ
  pub expected_state : JsonObject
  pub observed_state : JsonObject
  pub differences : List String

pub data AuditEventType : Type 0 where
  action_proposed approval_decided action_executed action_verified write_forbidden : AuditEventType

pub record AuditEvent : Type 0 where
  pub event_id : ℕ
  pub correlation_id : String
  pub agent_id : String
  pub capability_key : String
  pub run_id : ℕ
  pub event_type : AuditEventType
  pub actor_id : String
  pub actor_role : UserRole
  pub occurred_at : ℕ
  pub summary : String
  pub details : JsonObject

pub record AgentConfiguration : Type 0 where
  pub agent_id : String
  pub capability_key : String
  pub version : ℕ
  pub values : JsonObject

pub record ActionPolicy : Type 0 where
  pub decision : PolicyDecision
  pub reasons : List String

pub record ActionTargetState : Type 0 where
  pub state_hash : ℕ
  pub raw_safe : JsonObject

pub record ActionDispatchResult : Type 0 where
  pub provider_request_id : String
  pub raw_safe : JsonObject

pub record JobLock : Type 0 where
  pub lock_key : String
  pub owner_id : ℕ
  pub acquired_at : ℕ
  pub expires_at : ℕ
