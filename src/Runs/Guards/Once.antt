-- ===== src/Runs/Guards/Once.antt =====
-- `run_now` gives a run to an agent once at most, part by part.
use manaai.Prelude.{
  ℕ, suc, ◌≡◌, refl, ap, ◌∙◌, ◌⊎◌, inl, inr, Option, none, some, List, [], ◌∷◌, ◌++◌, String, Bool,
  true, false, Bool-cases,
}
use manaai.Prelude.Exec.{Result, ok, err, proceed, ensure, ret, ◌>>=◌, ◌>>◌}
use manaai.Domain.Enums.{AgentRunStatus}
use manaai.Domain.StateMachine.{Transition, allowed, invalid, require_run}
use manaai.Lifecycle.Model.{AgentConfiguration}
use manaai.Runs.{AgentRun, RunError, locked}
use manaai.Runs.Store.{create_run, update_run, get_run}
use manaai.Runs.Service.{
  Outcome, returned, expired, raised, cancelled, Agent, Service, State, Run, transact, permit,
  move_run, Request, has_status, is_settled, failed_run, requeued, run_lock,
}
use manaai.Runs.RunNow.{
  fail_unfinished, fail_unfinished_run, conclude_run, call_agent, execute_run, locked_run, lock,
  resume_run, persist_run, run_under_lock, requeue, continue_run, start_run, correlate, fresh_run,
}

-- A part that gives no run to an agent.
abbrev pub Quiet : {A : Type 0} → Run A → Type 0
Quiet m = (s : State) → (m s).1.executed ≡ s.executed

-- Between two states one run was given to an agent at most.
abbrev pub AtMostOnce : State → State → Type 0
AtMostOnce s s' =
    (s'.executed ≡ s.executed) ⊎ ((run_id : ℕ) × (s'.executed ≡ s.executed ++ run_id ∷ []))

Quiet->>= :
    {A B : Type 0} (m : Run A) (k : A → Run B) → Quiet m → ((a : A) → Quiet (k a)) → Quiet (m >>= k)
Quiet->>= {A} {B} m k q h s = go (m s).0
  where
    go : (r : Result RunError A) → (proceed r k (m s).1).1.executed ≡ s.executed
    go (ok a) = h a (m s).1 ∙ q s
    go (err e) = q s

AtMostOnce->>= :
    {A B : Type 0} (m : Run A) (k : A → Run B)
    → Quiet m
    → ((a : A) (s : State) → AtMostOnce s (k a s).1)
    → (s : State) → AtMostOnce s ((m >>= k) s).1
AtMostOnce->>= {A} {B} m k q h s = go (m s).0
  where
    go : (r : Result RunError A) → AtMostOnce s (proceed r k (m s).1).1
    go (err e) = inl (q s)
    go (ok a) = elim (h a (m s).1) [
      | inl same ↦ inl (same ∙ q s)
      | inr (i, one) ↦ inr (i, one ∙ ap (λ (l : List ℕ). l ++ i ∷ []) (q s))
    ]

permit-Quiet : (t : Transition) → Quiet (permit t)
permit-Quiet allowed s = refl
permit-Quiet invalid s = refl

ensure-Quiet : (b : Bool) (e : RunError) → Quiet (ensure b e)
ensure-Quiet true e s = refl
ensure-Quiet false e s = refl

move_run-Quiet : (status : AgentRunStatus) (changed : AgentRun) → Quiet (move_run status changed)
move_run-Quiet status changed =
    Quiet->>= (permit (require_run status changed.status)) (λ _. transact (update_run changed))
      (permit-Quiet _) (λ _ s. refl)

module _ (service : Service) where
  fail_unfinished-Quiet :
      (persisted : Option AgentRun) (code message : String)
      → Quiet (fail_unfinished service persisted code message)
  unfolding fail_unfinished
  fail_unfinished-Quiet none code message s = refl
  fail_unfinished-Quiet (some run) code message s = elim (Bool-cases (is_settled run.status)) [
    | inl e ↦ rw e refl
    | inr e ↦
        rw e (move_run-Quiet run.status (failed_run run (service.clock s.uses) code message) _)
  ]

  conclude_run-Quiet :
      (run : AgentRun) (outcome : Outcome) → Quiet (conclude_run service run outcome)
  unfolding conclude_run fail_unfinished_run
  conclude_run-Quiet run (returned result) s = refl
  conclude_run-Quiet run expired s =
      Quiet->>= (fail_unfinished service (get_run run.run_id s.tables) _ _) _
        (fail_unfinished-Quiet _ _ _) (λ _ s'. refl) s
  conclude_run-Quiet run raised s =
      Quiet->>= (fail_unfinished service (get_run run.run_id s.tables) _ _) _
        (fail_unfinished-Quiet _ _ _) (λ _ s'. refl) s
  conclude_run-Quiet run cancelled s = refl

  module _ (agent : Agent) (run : AgentRun) (agent_id capability_key job_type : String)
      (c : AgentConfiguration) where
    pub locked_run-executed :
        (key : String) (owner_id : ℕ) (s : State)
        → (locked_run service agent run capability_key job_type c key owner_id s).1.executed
          ≡ s.executed ++ run.run_id ∷ []
    unfolding locked_run execute_run call_agent
    locked_run-executed key owner_id s = conclude_run-Quiet run _ _

    pub run_under_lock-once :
        (now : ℕ) (s : State)
        → AtMostOnce s (run_under_lock service agent run agent_id capability_key job_type c now s).1
    unfolding run_under_lock
    run_under_lock-once now s = go (lock service key owner_id now s.tables).0
      where
        key : String
        key = run_lock agent_id capability_key

        owner_id : ℕ
        owner_id = service.new_id s.uses

        go :
            (b : Bool)
            → AtMostOnce s
                ((ensure b locked
                    >> locked_run service agent run capability_key job_type c key owner_id)
                  (record s {
                    uses = suc s.uses;
                    tables = (lock service key owner_id now s.tables).1;
                  })).1
        go true = inr (run.run_id, locked_run-executed key owner_id _)
        go false = inl refl

    pub continue_run-once :
        (now : ℕ) (s : State)
        → AtMostOnce s (continue_run service agent run agent_id capability_key job_type c now s).1
    unfolding continue_run
    continue_run-once now s = elim (Bool-cases (has_status AgentRunStatus.queued run)) [
      | inl e ↦ rw e (run_under_lock-once now s)
      | inr e ↦ rw e (inl refl)
    ]

  requeue-Quiet : (run : AgentRun) (now : ℕ) → Quiet (requeue service run now)
  unfolding requeue
  requeue-Quiet run now s = elim (Bool-cases (has_status AgentRunStatus.failed run)) [
    | inl e ↦ rw e (
        Quiet->>= (move_run run.status (requeued run now)) (λ _. ret (requeued run now))
          (move_run-Quiet _ _) (λ _ s'. refl) s)
    | inr e ↦ rw e refl
  ]

  module _ (request : Request) (agent_id capability_key : String) (agent : Agent)
      (c : AgentConfiguration) where
    resume_run-once :
        (now : ℕ) (persisted : AgentRun) (s : State)
        → AtMostOnce s
            (resume_run service request agent_id capability_key agent c now persisted s).1
    unfolding resume_run
    resume_run-once now persisted =
        AtMostOnce->>= (requeue service persisted now)
          (λ run. continue_run service agent run agent_id capability_key request.job_type c now)
          (requeue-Quiet persisted now)
          (λ run. continue_run-once agent run agent_id capability_key request.job_type c now)

    persist_run-once :
        (now run_id correlation_id : ℕ) (s : State)
        → AtMostOnce s
            (persist_run service request agent_id capability_key agent c now run_id correlation_id
              s).1
    unfolding persist_run
    persist_run-once now run_id correlation_id =
        AtMostOnce->>=
          (transact (
            create_run
              (fresh_run service request agent_id capability_key c now run_id correlation_id)))
          (resume_run service request agent_id capability_key agent c now) (λ s. refl)
          (resume_run-once now)

    correlate-Quiet : (o : Option ℕ) → Quiet (correlate service o)
    correlate-Quiet none s = refl
    correlate-Quiet (some n) s = refl

    pub start_run-once :
        (s : State) → AtMostOnce s (start_run service request agent_id capability_key agent c s).1
    unfolding start_run
    start_run-once s =
        AtMostOnce->>= (correlate service request.correlation_id)
          (persist_run service request agent_id capability_key agent c (service.clock s.uses)
            (service.new_id (suc s.uses)))
          (correlate-Quiet request.correlation_id)
          (persist_run-once (service.clock s.uses) (service.new_id (suc s.uses)))
          (record s { uses = suc (suc s.uses) })
