-- ===== src/Lifecycle/Execute/Guards.antt =====
-- What stands before a write: `execute_proposal` asks a provider for one only when every guard let
-- the proposal pass, and then once.
pub mod Quiet
pub mod Once
pub mod Safety
use manaai.Prelude.{
  ℕ, suc, ◌+◌, ◌<◌, ◌≡◌, ◌≢◌, refl, sym, ap, ◌∙◌, ◌⊎◌, inl, inr, Option, none, some, List, [], ◌∷◌,
  ◌++◌, String, Bool, true, false, not, subst, leb, ◌==◌, if◌then◌else◌, arith, Bool-cases,
  Option-cases, ==_iff,
}
use manaai.Prelude.Exec.{Exec, Result, ok, err, ret, raise, asks, ensure, proceed, ◌>>=◌, ◌>>◌}
use manaai.Domain.Enums.{ActionStatus, PolicyDecision}
use manaai.Domain.StateMachine.{Transition, allowed, invalid, require_action}
use manaai.Lifecycle.Model.{
  ActionProposal, ActionExecution, ActionTargetState, AgentConfiguration, ActionPolicy,
}
use manaai.Lifecycle.Store.{
  Db, LifecycleError, action_safety, get_control, latest_configuration,
  get_execution_by_idempotency, save_execution, finalize_action_state, acquire_lock,
}
use manaai.Lifecycle.Service.{
  Service, Executor, Reading, found, not_found, permanent, transient, other, State, Run, raised,
  required, require_transition_to, heed, require_safety, require_policy, unless_stopped,
  require_configuration, failed_execution, agent_kill_switch, capability_kill_switch, draw,
  transact,
}
use manaai.Lifecycle.Execute.Outcome.{Caller, ActionLifecycleResult, send, settle}
use manaai.Lifecycle.Execute.{
  is_forbidden, is_approved, finish_dry_run, send_and_settle, executing_proposal,
  executing_execution, pending_execution, run_pending, read_and_check, execute_current, locked_part,
  send_write, begin_execution, heed_violation, check_state, expire_before_execution, execute_fresh,
  unless_executed, execute_proposal_locked, with_lock, refuse_write, execute_proposal,
}
use manaai.Lifecycle.Execute.Guards.Quiet.{
  raised-Quiet, failed_execution-Quiet, settle-Quiet, finish_dry_run-Quiet, require_safety-Quiet,
  expire_before_execution-Quiet, refuse_write-Quiet,
}
use manaai.Lifecycle.Execute.Guards.Once.{Sends, Sends->>=, Sends-if, Sends-ensure, Sends-required}
use manaai.Lifecycle.Execute.Guards.Safety.{IsSafe, require_safety-ok}

-- What the executor reads is as the proposal expects.
abbrev pub IsCurrent : Executor → ActionProposal → ℕ → Type 0
IsCurrent executor proposal n =
    (before : ActionTargetState) × (executor.state_for_proposal n proposal ≡ found before)
    × (before.state_hash ≡ proposal.current_state_hash)
    × (executor.state_violation proposal before ≡ none)

module _ (service : Service) (caller : Caller) (executor : Executor) (proposal : ActionProposal)
    (P : Type 0) where
  send_and_settle-Sends :
      (pending : ActionExecution) (before : ActionTargetState) (s : State)
      → P
      → Sends P proposal s (send_and_settle service caller executor proposal pending before s).1
  unfolding send_and_settle send
  send_and_settle-Sends pending before s p = inr (
    settle-Quiet service caller executor proposal (executing_proposal proposal)
        (executing_execution pending) (executor.expected_state proposal before)
        (executor.dispatch s.uses proposal)
        (record s { uses = suc s.uses; sent = s.sent ++ proposal ∷ [] }),
    p,
  )

  send_write-Sends :
      (pending : ActionExecution) (before : ActionTargetState) (s : State)
      → P
      → Sends P proposal s (send_write service caller executor proposal pending before s).1
  unfolding send_write
  send_write-Sends pending before s p =
      let rest =
        λ (_ : Unit {0}). send_and_settle service caller executor proposal pending before in
      let mark =
        transact (
          finalize_action_state (executing_proposal proposal) (executing_execution pending) none) in
      Sends->>= P proposal (require_transition_to proposal ActionStatus.executing)
        (λ _. mark >>= rest) s
        (raised-Quiet (require_action proposal.status ActionStatus.executing) s)
        (λ _ _.
          Sends->>= P proposal mark rest _ refl (λ _ _. send_and_settle-Sends pending before _ p))

  run_pending-Sends :
      (before : ActionTargetState) (now : ℕ) (pending : ActionExecution) (s : State)
      → (service.dry_run ≡ false → P)
      → Sends P proposal s (run_pending service caller executor proposal before now pending s).1
  unfolding run_pending
  run_pending-Sends before now pending s p =
      Sends-if P proposal service.dry_run (finish_dry_run service caller proposal pending now)
        (send_write service caller executor proposal pending before) s
        (λ _. inl (finish_dry_run-Quiet service caller proposal pending now s))
        (λ wet. send_write-Sends pending before s (p wet))

  begin_execution-Sends :
      (before : ActionTargetState) (s : State)
      → (service.dry_run ≡ false → P)
      → Sends P proposal s (begin_execution service caller executor proposal before s).1
  unfolding begin_execution
  begin_execution-Sends before s p =
      let now = service.clock s.uses in
      Sends->>= P proposal
        (transact
          (save_execution (pending_execution proposal before now (service.new_id (suc s.uses)))))
        (run_pending service caller executor proposal before now)
        (record s { uses = suc (suc s.uses) }) refl
        (λ pending _. run_pending-Sends before now pending _ p)

  heed_violation-Sends :
      (before : ActionTargetState) (violation : Option String) (s : State)
      → (violation ≡ none → service.dry_run ≡ false → P)
      → Sends P proposal s (heed_violation service caller executor proposal before violation s).1
  unfolding heed_violation
  heed_violation-Sends before none s p = begin_execution-Sends before s (p refl)
  heed_violation-Sends before (some v) s p = inl (
      unfold heed_violation in
      ground (
        arith,
        failed_execution-Quiet service proposal (some before) v "provider_state_not_executable" s,
      ))

  check_state-Sends :
      (reading : Reading) (s : State)
      → ((before : ActionTargetState)
          → reading ≡ found before
          → before.state_hash ≡ proposal.current_state_hash
          → executor.state_violation proposal before ≡ none
          → service.dry_run ≡ false
          → P)
      → Sends P proposal s (check_state service caller executor proposal reading s).1
  unfolding check_state
  check_state-Sends not_found s p = inl (
      ground (
        arith,
        failed_execution-Quiet service proposal none
            "The provider object no longer exists or is inaccessible." "provider_object_not_found"
            s,
      ))
  check_state-Sends permanent s p = inl (
      ground (
        arith,
        failed_execution-Quiet service proposal none
            "The provider rejected the pre-execution state check." "provider_permanent_error" s,
      ))
  check_state-Sends transient s p = inl refl
  check_state-Sends other s p = inl refl
  check_state-Sends (found before) s p =
      elim (Bool-cases (before.state_hash == proposal.current_state_hash)) [
        | inl same ↦ rw same (
            heed_violation-Sends before (executor.state_violation proposal before) s
              (p before refl ((==_iff before.state_hash proposal.current_state_hash).0 same)))
        | inr differs ↦ rw differs (
            inl (
              ground (
                arith,
                failed_execution-Quiet service proposal (some before)
                    "The provider object changed after the proposal was created." "stale_proposal"
                    s,
              )))
      ]

  read_and_check-Sends :
      (s : State)
      → (IsCurrent executor proposal s.uses → service.dry_run ≡ false → P)
      → Sends P proposal s (read_and_check service caller executor proposal s).1
  unfolding read_and_check
  read_and_check-Sends s p =
      check_state-Sends (executor.state_for_proposal s.uses proposal)
        (record s { uses = suc s.uses }) (λ before e h v. p (before, e, h, v))

module _ (service : Service) (caller : Caller) (executor : Executor) (proposal : ActionProposal)
    (P : Type 0) where
  execute_current-Sends :
      (s : State)
      → (IsSafe service proposal s.uses s.db
          → IsCurrent executor proposal (suc s.uses)
          → service.dry_run ≡ false
          → P)
      → Sends P proposal s (execute_current service caller executor proposal s).1
  unfolding execute_current
  execute_current-Sends s p =
      Sends->>= P proposal (require_safety service proposal)
        (λ _. read_and_check service caller executor proposal) s
        (require_safety-Quiet service proposal s)
        (λ a e.
          let (safe, uses) = require_safety-ok service proposal s a e in
          read_and_check-Sends service caller executor proposal P _
            (λ current. p safe (subst (IsCurrent executor proposal) uses current)))

  pub execute_fresh-Sends :
      (s : State)
      → (service.clock s.uses < proposal.expires_at
          → IsSafe service proposal (suc s.uses) s.db
          → IsCurrent executor proposal (suc (suc s.uses))
          → service.dry_run ≡ false
          → P)
      → Sends P proposal s (execute_fresh service caller executor proposal s).1
  unfolding execute_fresh
  execute_fresh-Sends s p =
      Sends-if P proposal (leb proposal.expires_at (service.clock s.uses))
        (expire_before_execution service caller proposal)
        (execute_current service caller executor proposal) (record s { uses = suc s.uses })
        (λ _. inl (expire_before_execution-Quiet service caller proposal _))
        (λ fresh.
          execute_current-Sends (record s { uses = suc s.uses }) (p (ground (arith, fresh))))
