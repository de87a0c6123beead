-- ===== src/Domain/Examples.antt =====
-- Histories of runs and actions.
use manaai.Prelude.{◌*◌, ◌+◌, ◌≤◌, ◌≡◌, ◌⊎◌, inl, refl, List, [], ◌∷◌, true, count, length, any}
use manaai.Domain.Enums.{ActionStatus, AgentRunStatus, same_run_status}
use manaai.Domain.StateMachine.{Follows, stay, move, require_action, require_run}
use manaai.Domain.StateMachine.Actions.{action_history_bounded, outcome_history}
use manaai.Domain.StateMachine.Runs.{run_history_bounded, completed_was_checked, is_queued}

abbrev action_path : List ActionStatus
action_path = ActionStatus.approved ∷ ActionStatus.executing ∷ ActionStatus.succeeded ∷ []

action_path-Follows :
    Follows require_action ActionStatus.proposed action_path ActionStatus.succeeded
unfolding require_action
action_path-Follows =
    move ActionStatus.approved refl
      (move ActionStatus.executing refl (move ActionStatus.succeeded refl stay))

action_history_bounded_example : length action_path ≤ 4
action_history_bounded_example =
    action_history_bounded ActionStatus.succeeded action_path action_path-Follows

outcome_history_example :
    (action_path ≡ ActionStatus.approved ∷ ActionStatus.executing ∷ ActionStatus.succeeded ∷ [])
    ⊎ (action_path
        ≡ ActionStatus.awaiting_approval ∷ ActionStatus.approved ∷ ActionStatus.executing
          ∷ ActionStatus.succeeded ∷ [])
outcome_history_example =
    outcome_history ActionStatus.succeeded action_path (inl refl) action_path-Follows

abbrev run_path : List AgentRunStatus
run_path =
    AgentRunStatus.collecting ∷ AgentRunStatus.normalizing ∷ AgentRunStatus.analyzing
    ∷ AgentRunStatus.proposing ∷ AgentRunStatus.policy_check ∷ AgentRunStatus.reporting
    ∷ AgentRunStatus.completed ∷ []

run_path-Follows : Follows require_run AgentRunStatus.queued run_path AgentRunStatus.completed
unfolding require_run
run_path-Follows = move AgentRunStatus.collecting refl (
    move AgentRunStatus.normalizing refl (
      move AgentRunStatus.analyzing refl (
        move AgentRunStatus.proposing refl (
          move AgentRunStatus.policy_check refl
            (move AgentRunStatus.reporting refl (move AgentRunStatus.completed refl stay))))))

run_history_bounded_example : length run_path ≤ 10 + 11 * count is_queued run_path
run_history_bounded_example = run_history_bounded AgentRunStatus.completed run_path run_path-Follows

completed_was_checked_example :
    (any (same_run_status AgentRunStatus.policy_check) run_path ≡ true)
    × (any (same_run_status AgentRunStatus.reporting) run_path ≡ true)
completed_was_checked_example = completed_was_checked run_path run_path-Follows
