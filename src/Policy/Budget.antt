-- ===== src/Policy/Budget.antt =====
-- `budget_policy_violation` of policy.py. The quotient of two amounts is the interpreter's: whether
-- it, rounded to the digits of the context, is above a limit is a parameter.
pub mod Bounds
use manaai.Prelude.{
  ℕ, ◌-◌, ◌≡◌, refl, Option, none, some, List, String, str_eq, Bool, true, false, not, ◌&&◌, ltb,
  ◌==◌, any, if◌then◌else◌,
}
use manaai.Prelude.Dict.{get}
use manaai.Policy.Model.{
  BudgetActionParameters, AudienceActionParameters, ActionParameters, budget, audience,
  ActionPolicyConfiguration,
}

-- The budget that an action changes, if it changes one.
abbrev pub budget_of : ActionParameters → Option BudgetActionParameters
budget_of (budget p) = some p
budget_of (audience p) = p.budget_change
budget_of _ = none

abbrev pub contains : String → List String → Bool
contains s = any (λ t. str_eq t s)

-- The absolute value of a difference.
abbrev pub distance : ℕ → ℕ → ℕ
distance a b = if ltb a b then b - a else a - b

module _ (upper : String → String) (quotient_exceeds : ℕ → ℕ → ℕ → Bool) where
  -- The tests on the two amounts, once the currency has a minimum.
  unfoldable pub change_violation :
      BudgetActionParameters → ActionPolicyConfiguration → Option String
  change_violation p configuration =
      let current = p.current_daily_budget in
      let proposed = p.proposed_daily_budget in
      if ltb configuration.maximum_absolute_daily_budget_change (distance current proposed)
      then some "The absolute daily budget change exceeds the configured limit."
      else if ltb current proposed && (current == 0)
      then some "A zero budget cannot be increased without an explicit baseline."
      else if ltb current proposed
          && quotient_exceeds proposed current configuration.maximum_budget_increase_factor
      then some "The budget increase factor exceeds the configured limit."
      else if ltb proposed current
          && ltb 0 current
          && quotient_exceeds (current - proposed) current configuration.maximum_budget_decrease
      then some "The budget decrease exceeds the configured limit."
      else if proposed == 0
      then some "The proposed daily budget must remain positive."
      else none

  unfoldable pub budget_violation :
      BudgetActionParameters → ActionPolicyConfiguration → Option String
  unfolding change_violation get
  budget_violation p configuration =
      let currency = upper p.currency in
      if not (contains currency configuration.allowed_currencies)
      then some "The proposal currency is not allowed by the active configuration."
      else elim (get currency configuration.minimum_daily_budget_by_currency) [
        | none ↦ some "The proposal currency has no configured minimum daily budget."
        | some minimum_budget ↦
            if ltb p.proposed_daily_budget minimum_budget
            then some "The proposed daily budget is below the configured currency minimum."
            else change_violation p configuration
      ]

  unfoldable pub budget_policy_violation :
      ActionParameters → ActionPolicyConfiguration → Option String
  unfolding budget_violation
  budget_policy_violation parameters configuration = elim (budget_of parameters) [
    | none ↦ none
    | some p ↦ budget_violation p configuration
  ]
