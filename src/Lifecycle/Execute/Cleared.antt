-- ===== src/Lifecycle/Execute/Cleared.antt =====
-- A provider is asked for a write by `execute_proposal` only if every guard let the proposal pass.
use manaai.Prelude.{
  ℕ, suc, ◌+◌, ◌*◌, ◌<◌, ◌≡◌, refl, sym, ap, ◌∙◌, ◌⊎◌, inl, Option, none, some, List, [], ◌∷◌, ◌++◌,
  true, false, not, String, or_else, arith, filter, str_eq, ◌&&◌,
}
use manaai.Prelude.Dict.{get}
use manaai.Domain.Enums.{ProviderMode, ActionStatus, same_action_status→eq}
use manaai.Lifecycle.Model.{ActionProposal, ActionExecution, AgentConfiguration}
use manaai.Lifecycle.Store.{
  Db, action_safety, write_forbidden, get_control, latest, latest_configuration,
  get_execution_by_idempotency, acquire_lock,
}
use manaai.Lifecycle.Service.{
  Service, Executor, State, Run, lock_key, agent_kill_switch, capability_kill_switch,
}
use manaai.Lifecycle.Execute.Outcome.{Caller, ActionLifecycleResult}
use manaai.Lifecycle.Execute.{
  is_forbidden, is_approved, execute_fresh, unless_executed, execute_proposal_locked, locked_part,
  with_lock, refuse_write, execute_proposal,
}
use manaai.Lifecycle.Execute.Guards.{IsCurrent, execute_fresh-Sends}
use manaai.Lifecycle.Execute.Guards.Safety.{IsSafe}
use manaai.Lifecycle.Execute.Guards.Once.{Sends, Sends-if, Sends-ensure, Sends-required}
use manaai.Lifecycle.Execute.Guards.Quiet.{refuse_write-Quiet}

-- What a write takes, in the tables and at the time of the call.
pub record IsCleared (service : Service) (proposal : ActionProposal) (s : State) : Type 0 where
  pub executor : Executor
  pub registered : service.executor_for proposal.action_family proposal.provider ≡ some executor
  pub permitted : proposal.execution_forbidden ≡ false
  pub writable : executor.provider_mode ≡ ProviderMode.fake_executable
  pub approved : proposal.status ≡ ActionStatus.approved
  pub real : service.dry_run ≡ false
  pub unexecuted : get_execution_by_idempotency proposal.idempotency_key s.db ≡ none
  pub in_time : service.clock (suc (suc s.uses)) < proposal.expires_at
  pub safe : IsSafe service proposal (suc (suc (suc s.uses))) s.db
  pub current : IsCurrent executor proposal (suc (suc (suc (suc s.uses))))

permitted_parts :
    (executor : Executor) (proposal : ActionProposal)
    → is_forbidden executor proposal ≡ false
    → (proposal.execution_forbidden ≡ false)
      × (executor.provider_mode ≡ ProviderMode.fake_executable)
permitted_parts executor proposal h = ground arith

unless_executed-Sends :
    (P : Type 0) (proposal : ActionProposal) (previous : Option ActionExecution)
    (rest : Run ActionLifecycleResult) (s : State)
    → (previous ≡ none → Sends P proposal s (rest s).1)
    → Sends P proposal s (unless_executed proposal previous rest s).1
unfolding unless_executed
unless_executed-Sends P proposal none rest s h = h refl
unless_executed-Sends P proposal (some e) rest s h = inl refl

IsSafe-of_tables :
    (service : Service) (proposal : ActionProposal) (n : ℕ) (db db' : Db)
    → db'.controls ≡ db.controls
    → db'.configurations ≡ db.configurations
    → IsSafe service proposal n db'
    → IsSafe service proposal n db
unfolding get_control latest_configuration
IsSafe-of_tables service proposal n db db' c f (g, a, k, (conf, policy, e, h, d)) = (
  ap (λ cs. or_else (get "global_kill_switch" cs) service.global_kill_switch_default) (sym c) ∙ g,
  ap (λ cs. or_else (get (agent_kill_switch proposal.agent_id) cs) false) (sym c) ∙ a,
  ap
        (λ cs.
          or_else (get (capability_kill_switch proposal.agent_id proposal.capability_key) cs) false)
        (sym c)
      ∙ k,
  (
    conf,
    policy,
    ap
          (λ (rows : List AgentConfiguration). latest none (
            filter
              (λ (row : AgentConfiguration).
                str_eq row.agent_id proposal.agent_id
                && str_eq row.capability_key proposal.capability_key)
              rows))
          (sym f)
        ∙ e,
    h,
    d,
  ),
)

acquire_lock-tables :
    (key : String) (owner_id now expires_at : ℕ) (db : Db)
    → let after = (acquire_lock key owner_id now expires_at db).1 in
      (after.controls ≡ db.controls)
      × (after.configurations ≡ db.configurations)
      × (after.executions ≡ db.executions)
unfolding acquire_lock
acquire_lock-tables key owner_id now expires_at db = ground arith

module _ (service : Service) (caller : Caller) (proposal : ActionProposal) (P : Type 0) where
  execute_proposal_locked-Sends :
      (s : State)
      → ((executor : Executor)
          → service.executor_for proposal.action_family proposal.provider ≡ some executor
          → is_forbidden executor proposal ≡ false
          → is_approved proposal ≡ true
          → get_execution_by_idempotency proposal.idempotency_key s.db ≡ none
          → service.clock s.uses < proposal.expires_at
          → IsSafe service proposal (suc s.uses) s.db
          → IsCurrent executor proposal (suc (suc s.uses))
          → service.dry_run ≡ false
          → P)
      → Sends P proposal s (execute_proposal_locked service caller proposal s).1
  unfolding execute_proposal_locked
  execute_proposal_locked-Sends s p =
      Sends-required P proposal (service.executor_for proposal.action_family proposal.provider) _ s
        (λ executor e.
          Sends-ensure P proposal (not (is_forbidden executor proposal)) write_forbidden _ s
            (λ permitted.
              Sends-ensure P proposal (is_approved proposal)
                (action_safety "Only approved proposals can be executed") _ s
                (λ approved.
                  unless_executed-Sends P proposal
                    (get_execution_by_idempotency proposal.idempotency_key s.db)
                    (execute_fresh service caller executor proposal) s
                    (λ unexecuted.
                      execute_fresh-Sends service caller executor proposal P s
                        (p executor e (ground (arith, permitted)) approved unexecuted)))))

  -- The release of the lock sends nothing.
  locked_part-Sends :
      (owner_id : ℕ) (s : State)
      → Sends P proposal s (execute_proposal_locked service caller proposal s).1
      → Sends P proposal s (locked_part service caller proposal owner_id s).1
  unfolding locked_part
  locked_part-Sends owner_id s h = h

  with_lock-Sends :
      (s : State)
      → ((executor : Executor)
          → service.executor_for proposal.action_family proposal.provider ≡ some executor
          → is_forbidden executor proposal ≡ false
          → is_approved proposal ≡ true
          → service.clock (suc (suc s.uses)) < proposal.expires_at
          → IsSafe service proposal (suc (suc (suc s.uses))) s.db
          → IsCurrent executor proposal (suc (suc (suc (suc s.uses))))
          → service.dry_run ≡ false
          → P)
      → Sends P proposal s (with_lock service caller proposal s).1
  unfolding with_lock
  with_lock-Sends s p =
      let owner_id = service.new_id s.uses in
      let now = service.clock (suc s.uses) in
      let claim =
        acquire_lock (lock_key proposal) owner_id now
          (now + service.lock_timeout_seconds * 1000000) in
      let locked : State = record { db = (claim s.db).1; uses = suc (suc s.uses); sent = s.sent } in
      let (controls, configurations, _) =
        acquire_lock-tables (lock_key proposal) owner_id now
          (now + service.lock_timeout_seconds * 1000000) s.db in
      Sends-ensure P proposal (claim s.db).0
        (action_safety "Another approved action is already executing for this provider object")
        (locked_part service caller proposal owner_id) locked
        (λ _. locked_part-Sends owner_id locked (
          execute_proposal_locked-Sends locked
            (λ executor e permitted approved _ in_time safe current wet.
              p executor e permitted approved in_time
                (IsSafe-of_tables service proposal (suc (suc (suc s.uses))) s.db (claim s.db).1
                  controls configurations safe)
                current wet)))

-- From any state `execute_proposal` asks a provider for no write, or for the one of the proposal,
-- once; and for that the proposal is executable, approved and in time, no execution has its key,
-- the mode is not a dry run, no kill switch is on, the policy of the moment does not deny it, and
-- the provider object is in the state that was approved.
pub execute_proposal_is_guarded :
    (service : Service) (caller : Caller) (proposal : ActionProposal) (s : State)
    → let s' = (execute_proposal service caller proposal s).1 in
      (s'.sent ≡ s.sent) ⊎ ((s'.sent ≡ s.sent ++ proposal ∷ []) × IsCleared service proposal s)
unfolding execute_proposal
execute_proposal_is_guarded service caller proposal s =
    let P = IsCleared service proposal s in
    Sends-required P proposal (service.executor_for proposal.action_family proposal.provider) _ s
      (λ executor e.
        Sends-if P proposal (is_forbidden executor proposal) (refuse_write service caller proposal)
          _ s (λ _. inl (refuse_write-Quiet service caller proposal s))
          (λ permitted.
            Sends-ensure P proposal (is_approved proposal)
              (action_safety "Only approved proposals can be executed") _ s
              (λ approved.
                unless_executed-Sends P proposal
                  (get_execution_by_idempotency proposal.idempotency_key s.db)
                  (with_lock service caller proposal) s
                  (λ unexecuted.
                    with_lock-Sends service caller proposal P s
                      (λ executor' e' permitted' _ in_time safe current wet. record {
                        executor = executor';
                        registered = e';
                        permitted = (permitted_parts executor' proposal permitted').0;
                        writable = (permitted_parts executor' proposal permitted').1;
                        approved =
                            same_action_status→eq proposal.status ActionStatus.approved approved;
                        real = wet;
                        unexecuted = unexecuted;
                        in_time = in_time;
                        safe = safe;
                        current = current;
                      })))))
