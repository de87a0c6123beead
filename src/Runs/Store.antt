-- ===== src/Runs/Store.antt =====
-- The transactions on runs of infrastructure/persistence/repository.py. The agent that a run names is
-- taken to be persisted, as its foreign key asks.
use manaai.Prelude.{
  ℕ, Option, none, some, [], ◌∷◌, ◌++◌, str_eq, Bool, ◌&&◌, ◌||◌, ◌==◌, if◌then◌else◌, any, find,
  modify,
}
use manaai.Prelude.Exec.{Result, ok, err}
use manaai.Runs.{AgentRun, Tables, RunError, lookup_error, integrity_error}

abbrev pub is_run : ℕ → AgentRun → Bool
is_run run_id row = row.run_id == run_id

-- The unique columns of a run.
abbrev pub has_run_key : AgentRun → AgentRun → Bool
has_run_key run row =
    str_eq row.agent_id run.agent_id
    && str_eq row.capability_key run.capability_key
    && str_eq row.idempotency_key run.idempotency_key

unfoldable pub create_run : AgentRun → Tables → Result RunError AgentRun × Tables
create_run run tables =
    if any (λ row. is_run run.run_id row || has_run_key run row) tables.runs
    then elim (find (has_run_key run) tables.runs) [
      | none ↦ (err integrity_error, tables)
      | some existing ↦ (ok existing, tables)
    ]
    else (ok run, record tables { runs = tables.runs ++ run ∷ [] })

unfoldable pub update_run : AgentRun → Tables → Result RunError (Unit {0}) × Tables
update_run run tables =
    if any (is_run run.run_id) tables.runs
    then (ok tt, record tables { runs = modify (is_run run.run_id) (λ _. run) tables.runs })
    else (err lookup_error, tables)

unfoldable pub get_run : ℕ → Tables → Option AgentRun
get_run run_id tables = find (is_run run_id) tables.runs
