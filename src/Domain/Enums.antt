-- ===== src/Domain/Enums.antt =====
-- app/mana_operation_ai/domain/enums.py: the enumerations of the operation platform that the other
-- modules use. A constructor is named as the member is; equality is by the member's position.
use manaai.Prelude.{ℕ, ◌≡◌, Bool, true, arith, ◌==◌}

pub data AgentRunStatus : Type 0 where
  queued collecting normalizing analyzing proposing policy_check waiting_approval : AgentRunStatus
  executing verifying reporting completed failed cancelled : AgentRunStatus

pub data ActionStatus : Type 0 where
  proposed policy_rejected awaiting_approval approved rejected executing succeeded : ActionStatus
  partially_applied failed expired cancelled dry_run : ActionStatus

pub data PolicyDecision : Type 0 where
  allow require_approval deny : PolicyDecision

pub data ApprovalStatus : Type 0 where
  pending approved rejected expired : ApprovalStatus

pub data ExecutionStatus : Type 0 where
  pending executing succeeded partially_applied failed dry_run : ExecutionStatus

pub data VerificationStatus : Type 0 where
  verified mismatch unavailable : VerificationStatus

pub data ProviderMode : Type 0 where
  fake_executable live_read_only : ProviderMode

pub data UserRole : Type 0 where
  viewer operator approver admin : UserRole

pub data AdminUserStatus : Type 0 where
  active disabled pending revoked : AdminUserStatus

pub data OtpChallengeStatus : Type 0 where
  active consumed expired invalidated attempts_exhausted delivery_failed : OtpChallengeStatus

abbrev run_status_index : AgentRunStatus → ℕ
run_status_index AgentRunStatus.queued = 0
run_status_index AgentRunStatus.collecting = 1
run_status_index AgentRunStatus.normalizing = 2
run_status_index AgentRunStatus.analyzing = 3
run_status_index AgentRunStatus.proposing = 4
run_status_index AgentRunStatus.policy_check = 5
run_status_index AgentRunStatus.waiting_approval = 6
run_status_index AgentRunStatus.executing = 7
run_status_index AgentRunStatus.verifying = 8
run_status_index AgentRunStatus.reporting = 9
run_status_index AgentRunStatus.completed = 10
run_status_index AgentRunStatus.failed = 11
run_status_index AgentRunStatus.cancelled = 12

abbrev pub same_run_status : AgentRunStatus → AgentRunStatus → Bool
same_run_status a b = run_status_index a == run_status_index b

pub same_run_status→eq : (a b : AgentRunStatus) → same_run_status a b ≡ true → a ≡ b
same_run_status→eq a b h = ground arith

abbrev action_status_index : ActionStatus → ℕ
action_status_index ActionStatus.proposed = 0
action_status_index ActionStatus.policy_rejected = 1
action_status_index ActionStatus.awaiting_approval = 2
action_status_index ActionStatus.approved = 3
action_status_index ActionStatus.rejected = 4
action_status_index ActionStatus.executing = 5
action_status_index ActionStatus.succeeded = 6
action_status_index ActionStatus.partially_applied = 7
action_status_index ActionStatus.failed = 8
action_status_index ActionStatus.expired = 9
action_status_index ActionStatus.cancelled = 10
action_status_index ActionStatus.dry_run = 11

abbrev pub same_action_status : ActionStatus → ActionStatus → Bool
same_action_status a b = action_status_index a == action_status_index b

pub same_action_status→eq : (a b : ActionStatus) → same_action_status a b ≡ true → a ≡ b
same_action_status→eq a b h = ground arith

abbrev approval_status_index : ApprovalStatus → ℕ
approval_status_index ApprovalStatus.pending = 0
approval_status_index ApprovalStatus.approved = 1
approval_status_index ApprovalStatus.rejected = 2
approval_status_index ApprovalStatus.expired = 3

abbrev pub same_approval_status : ApprovalStatus → ApprovalStatus → Bool
same_approval_status a b = approval_status_index a == approval_status_index b

pub same_approval_status→eq : (a b : ApprovalStatus) → same_approval_status a b ≡ true → a ≡ b
same_approval_status→eq a b h = ground arith

abbrev execution_status_index : ExecutionStatus → ℕ
execution_status_index ExecutionStatus.pending = 0
execution_status_index ExecutionStatus.executing = 1
execution_status_index ExecutionStatus.succeeded = 2
execution_status_index ExecutionStatus.partially_applied = 3
execution_status_index ExecutionStatus.failed = 4
execution_status_index ExecutionStatus.dry_run = 5

abbrev pub same_execution_status : ExecutionStatus → ExecutionStatus → Bool
same_execution_status a b = execution_status_index a == execution_status_index b

pub same_execution_status→eq : (a b : ExecutionStatus) → same_execution_status a b ≡ true → a ≡ b
same_execution_status→eq a b h = ground arith

abbrev role_index : UserRole → ℕ
role_index UserRole.viewer = 0
role_index UserRole.operator = 1
role_index UserRole.approver = 2
role_index UserRole.admin = 3

abbrev pub same_role : UserRole → UserRole → Bool
same_role a b = role_index a == role_index b

pub same_role→eq : (a b : UserRole) → same_role a b ≡ true → a ≡ b
same_role→eq a b h = ground arith

abbrev user_status_index : AdminUserStatus → ℕ
user_status_index AdminUserStatus.active = 0
user_status_index AdminUserStatus.disabled = 1
user_status_index AdminUserStatus.pending = 2
user_status_index AdminUserStatus.revoked = 3

abbrev pub same_user_status : AdminUserStatus → AdminUserStatus → Bool
same_user_status a b = user_status_index a == user_status_index b

pub same_user_status→eq : (a b : AdminUserStatus) → same_user_status a b ≡ true → a ≡ b
same_user_status→eq a b h = ground arith

abbrev challenge_status_index : OtpChallengeStatus → ℕ
challenge_status_index OtpChallengeStatus.active = 0
challenge_status_index OtpChallengeStatus.consumed = 1
challenge_status_index OtpChallengeStatus.expired = 2
challenge_status_index OtpChallengeStatus.invalidated = 3
challenge_status_index OtpChallengeStatus.attempts_exhausted = 4
challenge_status_index OtpChallengeStatus.delivery_failed = 5

abbrev pub same_challenge_status : OtpChallengeStatus → OtpChallengeStatus → Bool
same_challenge_status a b = challenge_status_index a == challenge_status_index b

pub same_challenge_status→eq : (a b : OtpChallengeStatus) → same_challenge_status a b ≡ true → a ≡ b
same_challenge_status→eq a b h = ground arith
