-- ===== src/Policy/Activity.antt =====
-- What the policies read of the tables (infrastructure/persistence/repository.py): the number of
-- executions since an instant, and the latest proposals.
pub mod Latest
use manaai.Prelude.{
  ℕ, zero, suc, ◌-◌, ◌*◌, ◌%◌, ◌≡◌, Option, none, some, List, [], ◌∷◌, ◌++◌, String, str_eq, Bool,
  true, false, not, ◌&&◌, ◌||◌, ltb, leb, ◌==◌, any, count, if◌then◌else◌,
}
use manaai.Domain.Enums.{ActionStatus}
use manaai.Lifecycle.Model.{ActionExecution, ActionProposal}

-- A row of the runs, as far as the executions are joined with it.
pub record Run : Type 0 where
  pub run_id : ℕ
  pub agent_id : String

pub record History : Type 0 where
  pub runs : List Run
  pub executions : List ActionExecution
  pub proposals : List ActionProposal

abbrev runs_of : String → ℕ → List Run → Bool
runs_of agent_id run_id =
    any (λ (run : Run). (run.run_id == run_id) && str_eq run.agent_id agent_id)

abbrev of_agent : Option String → List Run → ActionExecution → Bool
of_agent none runs row = true
of_agent (some agent_id) runs row = runs_of agent_id row.run_id runs

-- The total of `list_executions`.
unfoldable pub count_executions : Option String → ℕ → History → ℕ
count_executions agent_id since history =
    count
      (λ (row : ActionExecution). leb since row.attempted_at && of_agent agent_id history.runs row)
      history.executions

-- `ORDER BY created_at DESC`; rows of one instant keep their order.
unfoldable pub insert : ActionProposal → List ActionProposal → List ActionProposal
insert new [] = new ∷ []
insert new (row ∷ rows) =
    let rest = insert new rows in
    if leb row.created_at new.created_at then new ∷ row ∷ rows else row ∷ rest

unfoldable pub order_by_created : List ActionProposal → List ActionProposal
unfolding insert
order_by_created [] = []
order_by_created (row ∷ rows) = insert row (order_by_created rows)

unfoldable pub limited : ℕ → List ActionProposal → List ActionProposal
limited zero rows = []
limited (suc n) [] = []
limited (suc n) (row ∷ rows) = row ∷ limited n rows

-- `list_proposals` without a filter.
unfoldable pub list_proposals : ℕ → History → List ActionProposal
unfolding order_by_created limited
list_proposals limit history = limited limit (order_by_created history.proposals)

-- Instants count microseconds.
abbrev pub day : ℕ
day = 86400000000

abbrev pub hour : ℕ
hour = 3600000000

-- `datetime.combine(now.date(), datetime.min.time(), tzinfo=UTC)`.
abbrev pub day_start : ℕ → ℕ
day_start now = now - now % day

-- A decision in the making: `reasons` and `denied`.
pub record Verdict : Type 0 where
  pub reasons : List String
  pub denied : Bool

abbrev pub undecided : Verdict
undecided = record { reasons = []; denied = false }

-- `if failed: reasons.append(reason); denied = True`.
unfoldable pub deny_if : Bool → String → Verdict → Verdict
deny_if failed reason v =
    if failed then record { reasons = v.reasons ++ reason ∷ []; denied = true } else v

-- The two daily limits.
unfoldable pub daily_limits : ℕ → ℕ → String → ℕ → History → Verdict → Verdict
unfolding deny_if count_executions
daily_limits global_limit agent_limit agent_id now history v =
    deny_if (leb agent_limit (count_executions (some agent_id) (day_start now) history))
      "The agent daily execution limit has been reached."
      (deny_if (leb global_limit (count_executions none (day_start now) history))
        "The global daily execution limit has been reached." v)
