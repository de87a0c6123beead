-- ===== src/Runs/Repeated.antt =====
-- A run that was requested before, and what a stale copy of one does.
use manaai.Prelude.{
  ℕ, suc, ◌≡◌, refl, ap, ◌∙◌, Option, none, some, List, [], ◌∷◌, ◌++◌, String, str_eq, Bool, true,
  false, ◌&&◌, ◌||◌, if◌then◌else◌, any, find, arith,
}
use manaai.Prelude.Exec.{Result, ok, ret, ensure, proceed, ◌>>=◌, ◌>>◌}
use manaai.Domain.Enums.{AgentRunStatus}
use manaai.Lifecycle.Model.{AgentConfiguration}
use manaai.Runs.{AgentRun, RunError, Tables, locked}
use manaai.Runs.Store.{is_run, has_run_key, create_run}
use manaai.Runs.Service.{Agent, Service, State, Request, text_or, has_status, result_of, run_lock}
use manaai.Runs.RunNow.{
  fresh_run, requeue, continue_run, resume_run, persist_run, correlate, start_run, run_under_lock,
  lock, locked_run,
}
use manaai.Runs.Guards.Once.{locked_run-executed}

find-clash :
    (run existing : AgentRun) (rows : List AgentRun)
    → find (has_run_key run) rows ≡ some existing
    → any (λ row. is_run run.run_id row || has_run_key run row) rows ≡ true
find-clash run existing [] h = ground arith
find-clash run existing (row ∷ rows) h = ground (arith, find-clash run existing rows)

create_run-existing :
    (run existing : AgentRun) (tables : Tables)
    → find (has_run_key run) tables.runs ≡ some existing
    → create_run run tables ≡ (ok existing, tables)
unfolding create_run
create_run-existing run existing tables h = rw (find-clash run existing tables.runs h, h) refl

module _ (service : Service) (request : Request) (agent_id capability_key : String) (agent : Agent)
    (c : AgentConfiguration) where
  -- A run that is neither queued nor failed is only reported.
  resume_run-reports :
      (now : ℕ) (persisted : AgentRun) (s : State)
      → has_status AgentRunStatus.failed persisted ≡ false
      → has_status AgentRunStatus.queued persisted ≡ false
      → resume_run service request agent_id capability_key agent c now persisted s
        ≡ (ok (result_of persisted), s)
  unfolding resume_run requeue continue_run
  resume_run-reports now persisted s f q = rw (f, q) refl

  persist_run-reports :
      (now run_id correlation_id : ℕ) (existing : AgentRun) (s : State)
      → find
          (has_run_key
            (fresh_run service request agent_id capability_key c now run_id correlation_id))
          s.tables.runs
        ≡ some existing
      → has_status AgentRunStatus.failed existing ≡ false
      → has_status AgentRunStatus.queued existing ≡ false
      → persist_run service request agent_id capability_key agent c now run_id correlation_id s
        ≡ (ok (result_of existing), s)
  unfolding persist_run
  persist_run-reports now run_id correlation_id existing s h f q =
      ap
        (λ (o : Result RunError AgentRun × Tables).
          proceed o.0 (resume_run service request agent_id capability_key agent c now)
            (record s { tables = o.1 }))
        (create_run-existing _ existing s.tables h)
      ∙ resume_run-reports now existing s f q

  -- A run of the agent and the capability, with the key.
  abbrev pub is_requested : String → AgentRun → Bool
  is_requested key row =
      str_eq row.agent_id agent_id
      && str_eq row.capability_key capability_key
      && str_eq row.idempotency_key key

  -- A request, once validated, whose idempotency key already has a run of the agent and the
  -- capability that is neither queued nor failed is answered with that run and its status; the tables
  -- stay as they were and no agent gets a run.
  pub requested_run_is_reported :
      (key : String) (existing : AgentRun) (s : State)
      → request.idempotency_key ≡ some key
      → str_eq key "" ≡ false
      → find (is_requested key) s.tables.runs ≡ some existing
      → has_status AgentRunStatus.failed existing ≡ false
      → has_status AgentRunStatus.queued existing ≡ false
      → let (r, s') = start_run service request agent_id capability_key agent c s in
        (r ≡ ok (result_of existing)) × (s'.tables ≡ s.tables) × (s'.executed ≡ s.executed)
  unfolding start_run
  requested_run_is_reported key existing s k nonempty h f q = go request.correlation_id
    where
      key_of :
          text_or request.idempotency_key
            (service.run_key agent_id capability_key request.job_type (service.clock s.uses))
          ≡ key
      key_of =
          ap
            (λ o.
              text_or o
                (service.run_key agent_id capability_key request.job_type (service.clock s.uses)))
            k
          ∙ ap
              (λ b.
                if b
                then service.run_key agent_id capability_key request.job_type (service.clock s.uses)
                else key)
              nonempty

      found :
          (n : ℕ)
          → find
              (has_run_key (
                fresh_run service request agent_id capability_key c
                  (service.clock s.uses)
                  (service.new_id (suc s.uses))
                  n))
              s.tables.runs
            ≡ some existing
      found n = ap (λ x. find (is_requested x) s.tables.runs) key_of ∙ h

      go :
          (o : Option ℕ)
          → let (r, s') =
              (correlate service o
                  >>= persist_run service request agent_id capability_key agent c
                      (service.clock s.uses)
                      (service.new_id (suc s.uses)))
                (record s { uses = suc (suc s.uses) }) in
            (r ≡ ok (result_of existing)) × (s'.tables ≡ s.tables) × (s'.executed ≡ s.executed)
      go none =
          let e =
            persist_run-reports (service.clock s.uses) (service.new_id (suc s.uses))
              (service.new_id (suc (suc s.uses))) existing
              (record s { uses = suc (suc (suc s.uses)) })
              (found (service.new_id (suc (suc s.uses)))) f q in
          (ap (λ o. o.0) e, ap (λ o. o.1.tables) e, ap (λ o. o.1.executed) e)
      go (some n) =
          let e =
            persist_run-reports (service.clock s.uses) (service.new_id (suc s.uses)) n existing
              (record s { uses = suc (suc s.uses) }) (found n) f q in
          (ap (λ o. o.0) e, ap (λ o. o.1.tables) e, ap (λ o. o.1.executed) e)

  -- A request that holds a copy of a run from when it was queued gives the run to the agent once the
  -- lock is free, whatever the tables say of the run by then, also when it was completed meanwhile.
  pub stale_run_is_executed :
      (run : AgentRun) (job_type : String) (now : ℕ) (s : State)
      → has_status AgentRunStatus.queued run ≡ true
      → (lock service (run_lock agent_id capability_key) (service.new_id s.uses) now s.tables).0
        ≡ true
      → (continue_run service agent run agent_id capability_key job_type c now s).1.executed
        ≡ s.executed ++ run.run_id ∷ []
  unfolding continue_run run_under_lock
  stale_run_is_executed run job_type now s queued free =
      let key = run_lock agent_id capability_key in
      let owner_id = service.new_id s.uses in
      let s' : State = record s {
        uses = suc s.uses;
        tables = (lock service key owner_id now s.tables).1;
      } in
      ap
        (λ b.
          ((if b
              then run_under_lock service agent run agent_id capability_key job_type c now
              else ret (result_of run))
            s).1.executed)
        queued
      ∙ ap
          (λ b.
            ((ensure b locked
                >> locked_run service agent run capability_key job_type c key owner_id)
              s').1.executed)
          free
      ∙ locked_run-executed service agent run agent_id capability_key job_type c key owner_id s'
