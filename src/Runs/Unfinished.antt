-- ===== src/Runs/Unfinished.antt =====
-- What is left of a run after its agent, and that no lock is left behind.
use manaai.Prelude.{
  ℕ, suc, ◌≡◌, refl, sym, subst, ap, ◌∙◌, ◌⊎◌, inl, inr, Option, none, some, List, [], ◌∷◌, ◌++◌,
  String, Bool, true, false, not, ◌&&◌, ◌==◌, if◌then◌else◌, any, find, filter, modify, arith,
  Bool-cases, ==_refl,
}
use manaai.Prelude.Exec.{Result, ok, err, ret, raise, ◌>>=◌, ◌>>◌, >>=-of_ok}
use manaai.Domain.Enums.{AgentRunStatus}
use manaai.Domain.StateMachine.{allowed, require_run}
use manaai.Lifecycle.Model.{AgentConfiguration, JobLock}
use manaai.Lifecycle.Store.{locks_key, release_lock}
use manaai.Runs.{
  AgentRun, AgentRunResult, RunError, Tables, timed_out, agent_error, cancelled_error,
}
use manaai.Runs.Store.{is_run, update_run, get_run}
use manaai.Runs.Service.{
  Outcome, returned, expired, raised, cancelled, Agent, Service, State, Run, draw, permit, transact,
  move_run, is_settled, failed_run,
}
use manaai.Runs.RunNow.{
  fail_unfinished, fail_unfinished_run, conclude_run, call_agent, execute_run, locked_run,
}

-- The statuses that a run keeps until somebody moves it on.
pub data IsAtRest : AgentRunStatus → Type 0 where
  when_completed : IsAtRest AgentRunStatus.completed
  when_failed : IsAtRest AgentRunStatus.failed
  when_cancelled : IsAtRest AgentRunStatus.cancelled
  when_waiting : IsAtRest AgentRunStatus.waiting_approval

-- A run that is not in the tables, or is at rest.
abbrev pub IsOver : ℕ → Tables → Type 0
IsOver run_id tables =
    (get_run run_id tables ≡ none)
    ⊎ ((row : AgentRun) × (get_run run_id tables ≡ some row) × IsAtRest row.status)

is_settled-AtRest : (status : AgentRunStatus) → is_settled status ≡ true → IsAtRest status
unfolding is_settled
is_settled-AtRest AgentRunStatus.completed h = when_completed
is_settled-AtRest AgentRunStatus.failed h = when_failed
is_settled-AtRest AgentRunStatus.cancelled h = when_cancelled
is_settled-AtRest AgentRunStatus.waiting_approval h = when_waiting
is_settled-AtRest _ h = ground (arith, h)

require_run-failed :
    (status : AgentRunStatus)
    → is_settled status ≡ false
    → require_run status AgentRunStatus.failed ≡ allowed
unfolding require_run is_settled
require_run-failed status h = ground arith

find-id :
    (run_id : ℕ) (row : AgentRun) (rows : List AgentRun)
    → find (is_run run_id) rows ≡ some row
    → row.run_id ≡ run_id
find-id run_id row [] h = ground arith
find-id run_id row (r ∷ rows) h = ground (arith, find-id run_id row rows)

find-any :
    (run_id : ℕ) (row : AgentRun) (rows : List AgentRun)
    → find (is_run run_id) rows ≡ some row
    → any (is_run run_id) rows ≡ true
find-any run_id row [] h = ground arith
find-any run_id row (r ∷ rows) h = ground (arith, find-any run_id row rows)

find-modify :
    (new row : AgentRun) (rows : List AgentRun)
    → find (is_run new.run_id) rows ≡ some row
    → find (is_run new.run_id) (modify (is_run new.run_id) (λ _. new) rows) ≡ some new
find-modify new row [] h = ground arith
find-modify new row (r ∷ rows) h = ground (arith, find-modify new row rows, ==_refl new.run_id)

update_run-stored :
    (new row : AgentRun) (tables : Tables)
    → get_run new.run_id tables ≡ some row
    → ((update_run new tables).0 ≡ ok tt)
      × (get_run new.run_id (update_run new tables).1 ≡ some new)
unfolding update_run get_run
update_run-stored new row tables h =
    rw (find-any new.run_id row tables.runs h) (refl, find-modify new row tables.runs h)

-- A part of `run_now` returned, and the run is over.
abbrev EndsRun : ℕ → Result RunError (Unit {0}) × State → Type 0
EndsRun run_id out = (out.0 ≡ ok tt) × IsOver run_id out.1.tables

move_run-stored :
    (status : AgentRunStatus) (new row : AgentRun) (s : State)
    → require_run status new.status ≡ allowed
    → get_run new.run_id s.tables ≡ some row
    → ((move_run status new s).0 ≡ ok tt)
      × (get_run new.run_id (move_run status new s).1.tables ≡ some new)
move_run-stored status new row s permitted h =
    subst
      (λ t.
        ((permit t >> transact (update_run new)) s).0 ≡ ok tt
        × (get_run new.run_id ((permit t >> transact (update_run new)) s).1.tables ≡ some new))
      (sym permitted) (update_run-stored new row s.tables h)

module _ (service : Service) where
  fail_unfinished-ends :
      (run_id : ℕ) (code message : String) (s : State) (o : Option AgentRun)
      → get_run run_id s.tables ≡ o
      → EndsRun run_id (fail_unfinished service o code message s)
  unfolding fail_unfinished get_run
  fail_unfinished-ends run_id code message s none e = (refl, inl e)
  fail_unfinished-ends run_id code message s (some row) e =
      elim (Bool-cases (is_settled row.status)) [
        | inl settled ↦ rw settled (refl, inr (row, e, is_settled-AtRest row.status settled))
        | inr unsettled ↦
            let new = failed_run row (service.clock s.uses) code message in
            let move_after : Run (Unit {0}) =
              draw service.clock >>= λ now. move_run row.status (failed_run row now code message) in
            let same : row.run_id ≡ run_id = find-id run_id row s.tables.runs e in
            let there : get_run row.run_id s.tables ≡ some row =
              ap (λ i. get_run i s.tables) same ∙ e in
            let (done, stored) =
              move_run-stored row.status new row (record s { uses = suc s.uses })
                (require_run-failed row.status unsettled) there in
            subst (λ b. EndsRun run_id ((if b then ret tt else move_after) s)) (sym unsettled)
              (
                done,
                inr (
                  new,
                  ap (λ i. get_run i (move_after s).1.tables) (sym same) ∙ stored,
                  when_failed,
                ),
              )
      ]

  -- The error that is raised after a run was failed.
  failed_then_raised :
      (run : AgentRun) (code message : String) (e : RunError) (s : State)
      → let out =
          (fail_unfinished_run service run.run_id code message >> raise {A = AgentRunResult} e) s in
        (out.0 ≡ err e) × IsOver run.run_id out.1.tables
  unfolding fail_unfinished_run
  failed_then_raised run code message e s =
      let (done, over) =
        fail_unfinished-ends run.run_id code message s (get_run run.run_id s.tables) refl in
      let part = fail_unfinished service (get_run run.run_id s.tables) code message in
      rw (>>=-of_ok part (λ _. raise {A = AgentRunResult} e) s done) (refl, over)

-- What is left after an agent: its result and tables, or its error with the run over, or, where the
-- task was cancelled, the tables as they were then.
abbrev pub Concludes :
    AgentRun → Outcome → Tables → Result RunError AgentRunResult → Tables → Type 0
Concludes run (returned result) left r tables = (r ≡ ok result) × (tables.runs ≡ left.runs)
Concludes run expired left r tables = (r ≡ err timed_out) × IsOver run.run_id tables
Concludes run raised left r tables = (r ≡ err agent_error) × IsOver run.run_id tables
Concludes run cancelled left r tables = (r ≡ err cancelled_error) × (tables.runs ≡ left.runs)

conclude_run-Concludes :
    (service : Service) (run : AgentRun) (outcome : Outcome) (s : State)
    → let (r, s') = conclude_run service run outcome s in Concludes run outcome s.tables r s'.tables
unfolding conclude_run
conclude_run-Concludes service run (returned result) s = (refl, refl)
conclude_run-Concludes service run expired s = failed_then_raised service run _ _ timed_out s
conclude_run-Concludes service run raised s = failed_then_raised service run _ _ agent_error s
conclude_run-Concludes service run cancelled s = (refl, refl)

-- The owner's rows of a key.
abbrev pub is_held_by : ℕ → String → JobLock → Bool
is_held_by owner_id key row = locks_key key row && row.owner_id == owner_id

released :
    (key : String) (owner_id : ℕ) (rows : List JobLock)
    → any (is_held_by owner_id key) (filter (λ row. not (is_held_by owner_id key row)) rows) ≡ false
released key owner_id [] = refl
released key owner_id (row ∷ rows) = ground (arith, released key owner_id rows)

-- Only the runs matter to what is left of a run.
Concludes-of_runs :
    (run : AgentRun) (outcome : Outcome) (left tables tables' : Tables)
    (r : Result RunError AgentRunResult)
    → tables'.runs ≡ tables.runs
    → Concludes run outcome left r tables
    → Concludes run outcome left r tables'
unfolding get_run
Concludes-of_runs run (returned result) left tables tables' r same (e, h) = (e, same ∙ h)
Concludes-of_runs run expired left tables tables' r same (e, h) = (e, rw same h)
Concludes-of_runs run raised left tables tables' r same (e, h) = (e, rw same h)
Concludes-of_runs run cancelled left tables tables' r same (e, h) = (e, same ∙ h)

-- When the locked part of `run_now` ends, its lock is free. If the agent returned, its result is
-- returned, with the runs as the agent left them. If the agent took too long or raised, so does the
-- locked part, and the run is over: it is no longer there, or it is completed, failed, cancelled or
-- waits for an approval. If the task was cancelled, the cancellation is raised, and the runs are as
-- the agent left them, so that the run may still look active.
pub locked_run_ends :
    (service : Service) (agent : Agent) (run : AgentRun) (capability_key job_type : String)
    (c : AgentConfiguration) (key : String) (owner_id : ℕ) (s : State)
    → let (outcome, left) = agent.execute s.uses run capability_key job_type c s.tables in
      let (r, s') = locked_run service agent run capability_key job_type c key owner_id s in
      (any (is_held_by owner_id key) s'.tables.ops.locks ≡ false)
      × Concludes run outcome left r s'.tables
unfolding locked_run execute_run call_agent release_lock
locked_run_ends service agent run capability_key job_type c key owner_id s =
    let (outcome, left) = agent.execute s.uses run capability_key job_type c s.tables in
    let s' : State = record {
      tables = left;
      uses = suc s.uses;
      executed = s.executed ++ run.run_id ∷ [];
    } in
    (
      released key owner_id (conclude_run service run outcome s').1.tables.ops.locks,
      Concludes-of_runs run outcome left (conclude_run service run outcome s').1.tables _ _ refl
          (conclude_run-Concludes service run outcome s'),
    )
