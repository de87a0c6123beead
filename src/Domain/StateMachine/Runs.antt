-- ===== src/Domain/StateMachine/Runs.antt =====
-- What the run table of state_machine.py admits: a run ends after boundedly many changes for each
-- time that it is queued, and none is completed unchecked or unreported.
use manaai.Prelude.{
  ℕ, Bool, true, false, ◌≤◌, ◌+◌, ◌*◌, ◌≡◌, ◌⊎◌, refl, List, [], ◌∷◌, arith, length, any, count,
}
use manaai.Domain.Enums.{AgentRunStatus, same_run_status}
use manaai.Domain.StateMachine.{require_run, allowed, Follows, stay, move}

-- The place of a status in the pipeline.
stage : AgentRunStatus → ℕ
stage AgentRunStatus.queued = 0
stage AgentRunStatus.collecting = 1
stage AgentRunStatus.normalizing = 2
stage AgentRunStatus.analyzing = 3
stage AgentRunStatus.proposing = 4
stage AgentRunStatus.policy_check = 5
stage AgentRunStatus.waiting_approval = 6
stage AgentRunStatus.executing = 7
stage AgentRunStatus.verifying = 8
stage AgentRunStatus.reporting = 9
stage AgentRunStatus.completed = 10
stage AgentRunStatus.failed = 10
stage AgentRunStatus.cancelled = 10

abbrev pub is_queued : AgentRunStatus → Bool
is_queued = same_run_status AgentRunStatus.queued

stage-require_run :
    (s t : AgentRunStatus)
    → require_run s t ≡ allowed
    → (stage s + 1 ≤ stage t) ⊎ (is_queued t ≡ true) × (stage s ≤ 10)
unfolding require_run stage
stage-require_run s t h = ground arith

stage-le : (s : AgentRunStatus) → stage s ≤ 10
unfolding stage
stage-le s = ground arith

length-Follows :
    (s u : AgentRunStatus) (path : List AgentRunStatus)
    → Follows require_run s path u
    → length path + stage s ≤ stage u + 11 * count is_queued path
length-Follows s u [] stay = omega arith
length-Follows s u (t ∷ path) (move t' h f) =
    ground (arith, stage-require_run s t h, stage-le s, length-Follows t u path f)

-- A run that is queued again n times changes its status 10 + 11 n times at most.
pub run_history_bounded :
    (u : AgentRunStatus) (path : List AgentRunStatus)
    → Follows require_run AgentRunStatus.queued path u
    → length path ≤ 10 + 11 * count is_queued path
unfolding stage
run_history_bounded u path f =
    omega (arith, length-Follows AgentRunStatus.queued u path f, stage-le u)

-- The statuses that a run passes before its actions are checked against the policies.
abbrev unchecked : AgentRunStatus → Bool
unchecked AgentRunStatus.queued = true
unchecked AgentRunStatus.collecting = true
unchecked AgentRunStatus.normalizing = true
unchecked AgentRunStatus.analyzing = true
unchecked AgentRunStatus.proposing = true
unchecked AgentRunStatus.failed = true
unchecked AgentRunStatus.cancelled = true
unchecked _ = false

unchecked_step :
    (s t : AgentRunStatus)
    → unchecked s ≡ true
    → require_run s t ≡ allowed
    → (t ≡ AgentRunStatus.policy_check) ⊎ (unchecked t ≡ true)
unfolding require_run
unchecked_step s t e h = ground arith

unchecked-Follows :
    (s u : AgentRunStatus) (path : List AgentRunStatus)
    → unchecked s ≡ true
    → unchecked u ≡ false
    → Follows require_run s path u
    → any (same_run_status AgentRunStatus.policy_check) path ≡ true
unchecked-Follows s u [] e o stay = cc
unchecked-Follows s u (t ∷ path) e o (move t' h f) =
    ground
      (arith, unchecked_step s t e h, λ (w : unchecked t ≡ true). unchecked-Follows t u path w o f)

unreported_step :
    (s t : AgentRunStatus)
    → same_run_status AgentRunStatus.completed s ≡ false
    → require_run s t ≡ allowed
    → (s ≡ AgentRunStatus.reporting) ⊎ (same_run_status AgentRunStatus.completed t ≡ false)
unfolding require_run
unreported_step s t e h = ground arith

unreported-Follows :
    (s u : AgentRunStatus) (path : List AgentRunStatus)
    → same_run_status AgentRunStatus.completed s ≡ false
    → u ≡ AgentRunStatus.completed
    → Follows require_run s path u
    → any (same_run_status AgentRunStatus.reporting) (s ∷ path) ≡ true
unreported-Follows s u [] e o stay = ground arith
unreported-Follows s u (t ∷ path) e o (move t' h f) = ground (
  arith,
  unreported_step s t e h,
  λ (w : same_run_status AgentRunStatus.completed t ≡ false). unreported-Follows t u path w o f,
)

-- A run that is completed passed the policy check and the reporting stage.
pub completed_was_checked :
    (path : List AgentRunStatus)
    → Follows require_run AgentRunStatus.queued path AgentRunStatus.completed
    → (any (same_run_status AgentRunStatus.policy_check) path ≡ true)
      × (any (same_run_status AgentRunStatus.reporting) path ≡ true)
completed_was_checked path f = (
  unchecked-Follows AgentRunStatus.queued _ path refl refl f,
  unreported-Follows AgentRunStatus.queued _ path refl refl f,
)
