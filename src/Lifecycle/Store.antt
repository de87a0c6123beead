-- ===== src/Lifecycle/Store.antt =====
-- app/mana_operation_ai/infrastructure/persistence/repository.py: the transactions on proposals,
-- approvals, executions, controls and job locks. A transaction that raises leaves the tables as
-- they were. A proposal names a run that exists; the foreign keys are left out.
use manaai.Prelude.{
  ℕ, Option, none, some, List, [], ◌∷◌, ◌++◌, String, str_eq, Bool, true, false, not, ◌&&◌, ◌||◌,
  ltb, leb, ◌==◌, if◌then◌else◌, or_else, any, count, filter, find, modify,
}
use manaai.Prelude.Dict.{Dict, get}
use manaai.Prelude.Exec.{Result, ok, err}
use manaai.Domain.Enums.{ActionStatus, ApprovalStatus, same_action_status, same_approval_status}
use manaai.Lifecycle.Model.{
  ActionProposal, ApprovalRequest, ApprovalDecision, ActionExecution, ActionVerification,
  AuditEvent, AgentConfiguration, JobLock,
}

pub data LifecycleError : Type 0 where
  approval_permission stale_proposal action_safety : String → LifecycleError
  reconciliation_required write_forbidden lookup_error : LifecycleError
  invalid_transition concurrent_operation integrity_error unexpected : LifecycleError

pub record Db : Type 0 where
  pub proposals : List ActionProposal
  pub approvals : List ApprovalRequest
  pub decisions : List ApprovalDecision
  pub executions : List ActionExecution
  pub verifications : List ActionVerification
  pub audit : List AuditEvent
  pub configurations : List AgentConfiguration
  pub controls : Dict Bool
  pub locks : List JobLock

abbrev pub Tx : Type 0 → Type 0
Tx A = Db → Result LifecycleError A × Db

abbrev pub is_proposal : ℕ → ActionProposal → Bool
is_proposal proposal_id row = row.proposal_id == proposal_id

abbrev pub is_approval : ℕ → ApprovalRequest → Bool
is_approval approval_id row = row.approval_id == approval_id

abbrev pub is_execution : ℕ → ActionExecution → Bool
is_execution execution_id row = row.execution_id == execution_id

abbrev pub has_key : ℕ → ActionExecution → Bool
has_key idempotency_key row = row.idempotency_key == idempotency_key

abbrev pub put_proposal : ActionProposal → List ActionProposal → List ActionProposal
put_proposal proposal = modify (is_proposal proposal.proposal_id) (λ _. proposal)

unfoldable pub get_proposal : ℕ → Db → Option ActionProposal
get_proposal proposal_id db = find (is_proposal proposal_id) db.proposals

unfoldable pub update_proposal : ActionProposal → Tx (Unit {0})
update_proposal proposal db =
    if any (is_proposal proposal.proposal_id) db.proposals
    then (ok tt, record db { proposals = put_proposal proposal db.proposals })
    else (err lookup_error, db)

unfoldable pub get_approval_for_proposal : ℕ → Db → Option ApprovalRequest
get_approval_for_proposal proposal_id db = find (λ row. row.proposal_id == proposal_id) db.approvals

-- The rows of a request meet the primary keys and the unique columns.
abbrev pub proposal_clashes : ActionProposal → ActionProposal → Bool
proposal_clashes new row =
    is_proposal new.proposal_id row || row.idempotency_key == new.idempotency_key

abbrev pub approval_clashes : Option ApprovalRequest → ApprovalRequest → Bool
approval_clashes none row = false
approval_clashes (some new) row =
    is_approval new.approval_id row || row.proposal_id == new.proposal_id

abbrev pub clashes : ActionProposal → Option ApprovalRequest → Db → Bool
clashes proposal approval db =
    any (proposal_clashes proposal) db.proposals || any (approval_clashes approval) db.approvals

abbrev approval_rows : Option ApprovalRequest → List ApprovalRequest
approval_rows none = []
approval_rows (some approval) = approval ∷ []

unfoldable pub create_action_request :
    ActionProposal → Option ApprovalRequest → Tx (ActionProposal × Option ApprovalRequest)
unfolding get_approval_for_proposal
create_action_request proposal approval db =
    if clashes proposal approval db
    then elim (find (λ row. row.idempotency_key == proposal.idempotency_key) db.proposals) [
      | none ↦ (err integrity_error, db)
      | some existing ↦ (ok (existing, get_approval_for_proposal existing.proposal_id db), db)
    ]
    else (
      ok (proposal, approval),
      record db {
        proposals = db.proposals ++ proposal ∷ [];
        approvals = db.approvals ++ approval_rows approval;
      },
    )

-- Both are still undecided.
abbrev pub undecided : ApprovalRequest → ActionProposal → Bool
undecided request proposal =
    same_approval_status request.status ApprovalStatus.pending
    && same_action_status proposal.status ActionStatus.awaiting_approval

unfoldable pub apply_approval_decision :
    ApprovalRequest → ApprovalDecision → ActionProposal → Tx (Unit {0})
unfolding get_proposal
apply_approval_decision request decision proposal db =
    elim (find (is_approval request.approval_id) db.approvals) [
      | none ↦ (err lookup_error, db)
      | some persisted_request ↦ elim (get_proposal proposal.proposal_id db) [
        | none ↦ (err lookup_error, db)
        | some persisted_proposal ↦
            if undecided persisted_request persisted_proposal
            then if any (λ (row : ApprovalDecision). row.approval_id == decision.approval_id)
                db.decisions
              then (err concurrent_operation, db)
              else (
                ok tt,
                record db {
                  approvals = modify (is_approval request.approval_id) (λ _. request) db.approvals;
                  proposals = put_proposal proposal db.proposals;
                  decisions = db.decisions ++ decision ∷ [];
                },
              )
            else (err concurrent_operation, db)
      ]
    ]

unfoldable pub get_execution_by_idempotency : ℕ → Db → Option ActionExecution
get_execution_by_idempotency key db = find (has_key key) db.executions

-- The row of an execution meets the primary key and the unique columns.
abbrev pub execution_clashes : ActionExecution → ActionExecution → Bool
execution_clashes new row =
    is_execution new.execution_id row
    || has_key new.idempotency_key row
    || row.proposal_id == new.proposal_id

unfoldable pub save_execution : ActionExecution → Tx ActionExecution
unfolding get_execution_by_idempotency
save_execution execution db =
    if any (execution_clashes execution) db.executions
    then elim (get_execution_by_idempotency execution.idempotency_key db) [
      | none ↦ (err integrity_error, db)
      | some existing ↦ (ok existing, db)
    ]
    else (ok execution, record db { executions = db.executions ++ execution ∷ [] })

-- The verification of an execution is overwritten, or added; the key of another is refused.
abbrev put_verification :
    Option ActionVerification → List ActionVerification → Option (List ActionVerification)
put_verification none rows = some rows
put_verification (some v) rows =
    if any (λ (row : ActionVerification). row.execution_id == v.execution_id) rows
    then some
        (modify (λ (row : ActionVerification). row.execution_id == v.execution_id) (λ _. v) rows)
    else if any (λ (row : ActionVerification). row.verification_id == v.verification_id) rows
    then none
    else some (rows ++ v ∷ [])

abbrev put_execution : ActionExecution → List ActionExecution → Option (List ActionExecution)
put_execution execution rows =
    if any (is_execution execution.execution_id) rows
    then some (modify (is_execution execution.execution_id) (λ _. execution) rows)
    else if any (execution_clashes execution) rows
    then none
    else some (rows ++ execution ∷ [])

unfoldable pub finalize_action_state :
    ActionProposal → ActionExecution → Option ActionVerification → Tx (Unit {0})
finalize_action_state proposal execution verification db =
    if any (is_proposal proposal.proposal_id) db.proposals
    then elim (put_execution execution db.executions) [
      | none ↦ (err integrity_error, db)
      | some executions ↦ elim (put_verification verification db.verifications) [
        | none ↦ (err integrity_error, db)
        | some verifications ↦ (
          ok tt,
          record db {
            proposals = put_proposal proposal db.proposals;
            executions = executions;
            verifications = verifications;
          },
        )
      ]
    ]
    else (err lookup_error, db)

unfoldable pub get_control : String → Bool → Db → Bool
unfolding get
get_control key default db = or_else (get key db.controls) default

-- The configuration of the highest version.
unfoldable pub latest :
    Option AgentConfiguration → List AgentConfiguration → Option AgentConfiguration
latest best [] = best
latest none (row ∷ rows) = latest (some row) rows
latest (some best) (row ∷ rows) =
    latest (some (if ltb best.version row.version then row else best)) rows

unfoldable pub latest_configuration : String → String → Db → Option AgentConfiguration
unfolding latest
latest_configuration agent_id capability_key db = latest none (
    filter
      (λ (row : AgentConfiguration).
        str_eq row.agent_id agent_id && str_eq row.capability_key capability_key)
      db.configurations)

abbrev pub locks_key : String → JobLock → Bool
locks_key key row = str_eq row.lock_key key

abbrev pub claimable : String → ℕ → ℕ → JobLock → Bool
claimable key owner_id now row =
    locks_key key row && (leb row.expires_at now || row.owner_id == owner_id)

unfoldable pub acquire_lock : String → ℕ → ℕ → ℕ → Db → Bool × Db
acquire_lock key owner_id now expires_at db =
    if count (claimable key owner_id now) db.locks == 1
    then (
      true,
      record db {
        locks =
            modify (claimable key owner_id now)
              (λ row. record row {
                owner_id = owner_id;
                acquired_at = now;
                expires_at = expires_at;
              })
              db.locks;
      },
    )
    else if any (locks_key key) db.locks
    then (false, db)
    else (
      true,
      record db {
        locks =
            db.locks
            ++ record {
              lock_key = key;
              owner_id = owner_id;
              acquired_at = now;
              expires_at = expires_at;
            }
              ∷ [];
      },
    )

unfoldable pub release_lock : String → ℕ → Db → Db
release_lock key owner_id db = record db {
  locks = filter (λ row. not (locks_key key row && row.owner_id == owner_id)) db.locks;
}

unfoldable pub save_audit_event : AuditEvent → Db → Db
save_audit_event event db = record db { audit = db.audit ++ event ∷ [] }
