-- ===== src/Lifecycle/Execute/Repeat.antt =====
-- The execution of a proposal when the row of another request is found as late as `save_execution`.
use manaai.Prelude.{
  ℕ, suc, ◌≡◌, refl, ap, ◌∙◌, none, some, List, [], ◌∷◌, ◌++◌, true, false, any, find, arith,
  ==_refl, if◌then◌else◌,
}
use manaai.Prelude.Exec.{Result, ok, proceed, ◌>>◌, >>=-of_ok}
use manaai.Domain.Enums.{ActionStatus}
use manaai.Domain.StateMachine.{require_action}
use manaai.Lifecycle.Model.{ActionProposal, ActionExecution, ActionTargetState}
use manaai.Lifecycle.Store.{
  LifecycleError, Db, is_proposal, is_execution, has_key, execution_clashes,
  get_execution_by_idempotency, save_execution, finalize_action_state,
}
use manaai.Lifecycle.Service.{Service, Executor, State, raised, require_transition_to, transact}
use manaai.Lifecycle.Execute.Outcome.{Caller, ActionLifecycleResult, send}
use manaai.Lifecycle.Execute.{
  pending_execution, finish_dry_run, begin_execution, run_pending, send_write, send_and_settle,
  executing_proposal, executing_execution,
}
use manaai.Lifecycle.Execute.Guards.Quiet.{settle-Quiet}

find-clash :
    (e existing : ActionExecution) (rows : List ActionExecution)
    → find (has_key e.idempotency_key) rows ≡ some existing
    → any (execution_clashes e) rows ≡ true
find-clash e existing [] h = ground arith
find-clash e existing (row ∷ rows) h = ground (arith, find-clash e existing rows)

find-is_execution :
    (key : ℕ) (existing : ActionExecution) (rows : List ActionExecution)
    → find (has_key key) rows ≡ some existing
    → any (is_execution existing.execution_id) rows ≡ true
find-is_execution key existing [] h = ground arith
find-is_execution key existing (row ∷ rows) h =
    ground (arith, ==_refl existing.execution_id, find-is_execution key existing rows)

save_execution-existing :
    (e existing : ActionExecution) (db : Db)
    → get_execution_by_idempotency e.idempotency_key db ≡ some existing
    → save_execution e db ≡ (ok existing, db)
unfolding save_execution get_execution_by_idempotency
save_execution-existing e existing db h = rw (find-clash e existing db.executions h, h) refl

finalize-ok :
    (proposal : ActionProposal) (e : ActionExecution) (db : Db)
    → any (is_proposal proposal.proposal_id) db.proposals ≡ true
    → any (is_execution e.execution_id) db.executions ≡ true
    → (finalize_action_state proposal e none db).0 ≡ ok tt
unfolding finalize_action_state
finalize-ok proposal e db h k = rw (h, k) refl

approved-executes :
    (proposal : ActionProposal) (s : State)
    → proposal.status ≡ ActionStatus.approved
    → require_transition_to proposal ActionStatus.executing s ≡ (ok tt, s)
unfolding require_action
approved-executes proposal s approved =
    ap (λ status. raised (require_action status ActionStatus.executing) s) approved

module _ (service : Service) (caller : Caller) (executor : Executor) (proposal : ActionProposal)
    (before : ActionTargetState) where
  send_and_settle-sent :
      (pending : ActionExecution) (s : State)
      → (send_and_settle service caller executor proposal pending before s).1.sent
        ≡ s.sent ++ proposal ∷ []
  unfolding send_and_settle send
  send_and_settle-sent pending s =
      settle-Quiet service caller executor proposal (executing_proposal proposal)
        (executing_execution pending) (executor.expected_state proposal before)
        (executor.dispatch s.uses proposal) _

  finalize_then_send-sent :
      (pending : ActionExecution) (s : State)
      → (finalize_action_state
          (executing_proposal proposal)
          (executing_execution pending)
          none
          s.db).0
        ≡ ok tt
      → ((transact (
              finalize_action_state
                (executing_proposal proposal)
                (executing_execution pending)
                none)
            >> send_and_settle service caller executor proposal pending before)
          s).1.sent
        ≡ s.sent ++ proposal ∷ []
  finalize_then_send-sent pending s fine =
      let write =
        transact (
          finalize_action_state (executing_proposal proposal) (executing_execution pending) none) in
      ap (λ (o : Result LifecycleError ActionLifecycleResult × State). o.1.sent)
        (>>=-of_ok write (λ _. send_and_settle service caller executor proposal pending before) s
          fine)
      ∙ send_and_settle-sent pending (write s).1

  send_write-sent :
      (pending : ActionExecution) (s : State)
      → proposal.status ≡ ActionStatus.approved
      → (finalize_action_state
          (executing_proposal proposal)
          (executing_execution pending)
          none
          s.db).0
        ≡ ok tt
      → (send_write service caller executor proposal pending before s).1.sent
        ≡ s.sent ++ proposal ∷ []
  unfolding send_write
  send_write-sent pending s approved fine =
      ap
        (λ (o : Result LifecycleError (Unit {0}) × State).
          (proceed o.0
            (λ _.
              transact (
                finalize_action_state (executing_proposal proposal) (executing_execution pending)
                  none)
              >> send_and_settle service caller executor proposal pending before)
            o.1).1.sent)
        (approved-executes proposal s approved)
      ∙ finalize_then_send-sent pending s fine

  -- An approved proposal of the table whose key already has an execution when the pending one is
  -- saved is sent to the provider all the same: `save_execution` answers with the stored execution,
  -- whatever its status, and `begin_execution` goes on with it.
  pub existing_execution_is_sent_again :
      (existing : ActionExecution) (s : State)
      → service.dry_run ≡ false
      → proposal.status ≡ ActionStatus.approved
      → any (is_proposal proposal.proposal_id) s.db.proposals ≡ true
      → get_execution_by_idempotency proposal.idempotency_key s.db ≡ some existing
      → (begin_execution service caller executor proposal before s).1.sent ≡ s.sent ++ proposal ∷ []
  unfolding begin_execution run_pending get_execution_by_idempotency
  existing_execution_is_sent_again existing s real approved stored found =
      let now = service.clock s.uses in
      let pending = pending_execution proposal before now (service.new_id (suc s.uses)) in
      let s' : State = record s { uses = suc (suc s.uses) } in
      ap
        (λ (o : Result LifecycleError ActionExecution × Db).
          (proceed o.0 (run_pending service caller executor proposal before now)
            (record s' { db = o.1 })).1.sent)
        (save_execution-existing pending existing s.db found)
      ∙ ap
          (λ dry.
            ((if dry
                then finish_dry_run service caller proposal existing now
                else send_write service caller executor proposal existing before)
              s').1.sent)
          real
      ∙ send_write-sent existing s' approved (
          finalize-ok (executing_proposal proposal) (executing_execution existing) s.db stored
            (find-is_execution proposal.idempotency_key existing s.db.executions found))
