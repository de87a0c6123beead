-- ===== src/Runs/Guards.antt =====
-- `run_now` gives a run to an agent once at most, and only if the agent is ready for it.
pub mod Once
pub mod Checks
use manaai.Prelude.{
  arith, ℕ, suc, ◌≡◌, refl, sym, subst, ap, ◌∙◌, ◌⊎◌, inl, inr, Option, none, some, List, [], ◌∷◌,
  ◌++◌, String, str_eq, Bool, true, false, any, Bool-cases,
}
use manaai.Prelude.Dict.{get}
use manaai.Prelude.Exec.{Result, ok, err, proceed, ensure, ret, ◌>>=◌, ◌>>◌}
use manaai.Domain.Enums.{AgentRunStatus}
use manaai.Domain.StateMachine.{Transition, allowed, invalid, require_run}
use manaai.Lifecycle.Model.{AgentConfiguration}
use manaai.Lifecycle.Store.{latest_configuration, get_control}
use manaai.Lifecycle.Service.{agent_kill_switch, capability_kill_switch}
use manaai.Runs.{
  AgentStatus, enabled, AgentRun, AgentRunResult, RunError, Tables, unknown_agent, unavailable,
  locked,
}
use manaai.Runs.Registry.{canonical_id, agent_of}
use manaai.Runs.Store.{create_run, update_run, get_run}
use manaai.Runs.Service.{
  Outcome, returned, expired, raised, Agent, Service, State, Run, transact, required, permit,
  move_run, Request, text_or, has_status, is_settled, failed_run, requeued, run_lock, given,
}
use manaai.Runs.RunNow.{
  enabled_agent, is_stopped, ready_or_unavailable, require_ready, fail_unfinished,
  fail_unfinished_run, conclude_run, call_agent, execute_run, locked_run, lock, resume_run,
  persist_run, run_under_lock, requeue, continue_run, start_run, correlate, fresh_run,
  key_or_default, validate_run, run_now,
}
use manaai.Runs.Guards.Once.{start_run-once}
use manaai.Runs.Guards.Checks.{resolved, IsReady, key_or_default-cases, validate_run-cases}

module _ (service : Service) where
  -- A sequence goes on with what its first part came to.
  after_part :
      {A : Type 0} (P : State → Type 0) (m : Run A) (k : A → Run AgentRunResult) (s : State)
      (out : Result RunError A × State)
      → m s ≡ out
      → P (proceed out.0 k out.1).1
      → P ((m >>= k) s).1
  after_part P m k s out e p = subst (λ o. P (proceed o.0 k o.1).1) (sym e) p

  -- `run_now` gives no run to an agent, or one, once; and that only if, in the tables at its start,
  -- the registry has the agent, the capability is loaded, the agent is enabled, no kill switch is on
  -- and a configuration exists: all for the id that `validate_run` makes of the id that `run_now`
  -- resolved, and for the key of the request or the default of the resolved agent.
  pub run_now_is_guarded :
      (request : Request) (s : State)
      → let s' = (run_now service request s).1 in
        (s'.executed ≡ s.executed)
        ⊎ (((run_id : ℕ) × (s'.executed ≡ s.executed ++ run_id ∷ []))
            × IsReady service request s.tables)
  unfolding run_now
  run_now_is_guarded request s =
      let agent_id = resolved service request in
      let Guarded : State → Type 0 = λ s'.
        (s'.executed ≡ s.executed)
        ⊎ (((run_id : ℕ) × (s'.executed ≡ s.executed ++ run_id ∷ []))
            × IsReady service request s.tables) in
      elim (key_or_default-cases service (given request.capability_key) agent_id s) [
        | inl (error, stays) ↦
            after_part Guarded (key_or_default service (given request.capability_key) agent_id) _ s
              _ stays (inl refl)
        | inr (key, stays, of_request) ↦
            after_part Guarded (key_or_default service (given request.capability_key) agent_id) _ s
              _ stays
              (elim (validate_run-cases service agent_id key s) [
                | inl (error, stays') ↦
                    after_part Guarded (validate_run service agent_id key) _ s _ stays' (inl refl)
                | inr (agent, c, stays', is_allowed) ↦
                    after_part Guarded (validate_run service agent_id key) _ s _ stays'
                      (elim (start_run-once service request agent_id key agent c s) [
                        | inl same ↦ inl same
                        | inr once ↦ inr (
                          once,
                          record {
                            agent = agent;
                            key = key;
                            of_request = of_request;
                            is_allowed = is_allowed;
                          },
                        )
                      ])
              ])
      ]
