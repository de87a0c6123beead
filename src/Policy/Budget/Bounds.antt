-- ===== src/Policy/Budget/Bounds.antt =====
-- What a change of a budget keeps to when the policy has no objection.
use manaai.Prelude.{
  ℕ, suc, ◌-◌, ◌*◌, ◌≤◌, ◌<◌, ◌≡◌, refl, Option, none, some, String, Bool, true, false, ◌⊎◌, inl,
  inr, arith,
}
use manaai.Prelude.Dict.{get}
use manaai.Policy.Model.{BudgetActionParameters, ActionParameters, ActionPolicyConfiguration}
use manaai.Policy.Budget.{
  contains, distance, budget_of, change_violation, budget_violation, budget_policy_violation,
}

-- The limits of a configuration on one change; `unit` is 1 in the units of the factors, in which a
-- rounded quotient may be off by one.
pub record IsWithin (upper : String → String) (unit : ℕ) (c : ActionPolicyConfiguration)
    (p : BudgetActionParameters) : Type 0 where
  pub allowed : contains (upper p.currency) c.allowed_currencies ≡ true
  pub above_minimum :
      (minimum : ℕ) × (get (upper p.currency) c.minimum_daily_budget_by_currency ≡ some minimum)
      × (minimum ≤ p.proposed_daily_budget)
  pub positive : 0 < p.proposed_daily_budget
  pub change :
      distance p.current_daily_budget p.proposed_daily_budget
      ≤ c.maximum_absolute_daily_budget_change
  pub increase :
      (p.proposed_daily_budget ≤ p.current_daily_budget)
      ⊎ ((0 < p.current_daily_budget)
          × (p.proposed_daily_budget * unit
              ≤ suc c.maximum_budget_increase_factor * p.current_daily_budget))
  pub decrease :
      (p.current_daily_budget ≤ p.proposed_daily_budget)
      ⊎ ((p.current_daily_budget - p.proposed_daily_budget) * unit
          ≤ suc c.maximum_budget_decrease * p.current_daily_budget)

-- The quotient that is compared is off by less than a unit: the interpreter rounds it to 28 digits.
abbrev pub IsCloseQuotient : ℕ → (ℕ → ℕ → ℕ → Bool) → Type 0
IsCloseQuotient unit exceeds =
    (a b limit : ℕ) → 0 < b → exceeds a b limit ≡ false → a * unit ≤ suc limit * b

module _ (upper : String → String) (unit : ℕ) (exceeds : ℕ → ℕ → ℕ → Bool) where
  -- The tests on the amounts, as they come out when none objects.
  change_violation-facts :
      (p : BudgetActionParameters) (c : ActionPolicyConfiguration)
      → change_violation upper exceeds p c ≡ none
      → (distance p.current_daily_budget p.proposed_daily_budget
          ≤ c.maximum_absolute_daily_budget_change)
        × (0 < p.proposed_daily_budget)
        × ((p.proposed_daily_budget ≤ p.current_daily_budget)
            ⊎ ((0 < p.current_daily_budget)
                × (exceeds p.proposed_daily_budget p.current_daily_budget
                      c.maximum_budget_increase_factor
                    ≡ false)))
        × ((p.current_daily_budget ≤ p.proposed_daily_budget)
            ⊎ ((0 < p.current_daily_budget)
                × (exceeds
                      (p.current_daily_budget - p.proposed_daily_budget)
                      p.current_daily_budget
                      c.maximum_budget_decrease
                    ≡ false)))
  unfolding change_violation
  change_violation-facts p c h = ground arith

  budget_violation-facts :
      (p : BudgetActionParameters) (c : ActionPolicyConfiguration)
      → budget_violation upper exceeds p c ≡ none
      → (contains (upper p.currency) c.allowed_currencies ≡ true)
        × ((minimum : ℕ) × (get (upper p.currency) c.minimum_daily_budget_by_currency
              ≡ some minimum)
            × (minimum ≤ p.proposed_daily_budget)
            × (change_violation upper exceeds p c ≡ none))
  unfolding budget_violation
  budget_violation-facts p c h = ground arith

  pub budget_violation-Within :
      (close : IsCloseQuotient unit exceeds) (p : BudgetActionParameters)
      (c : ActionPolicyConfiguration)
      → budget_violation upper exceeds p c ≡ none
      → IsWithin upper unit c p
  budget_violation-Within close p c h =
      let (allowed, (minimum, known, above, free)) = budget_violation-facts p c h in
      let (change, positive, up, down) = change_violation-facts p c free in
      record {
        allowed = allowed;
        above_minimum = (minimum, known, above);
        positive = positive;
        change = change;
        increase = elim up [
          | inl e ↦ inl e
          | inr e ↦ inr (
            e.0,
            close p.proposed_daily_budget p.current_daily_budget c.maximum_budget_increase_factor
                e.0 e.1,
          )
        ];
        decrease = elim down [
          | inl e ↦ inl e
          | inr e ↦ inr (
              close (p.current_daily_budget - p.proposed_daily_budget) p.current_daily_budget
                c.maximum_budget_decrease e.0 e.1)
        ];
      }

  -- Without an objection, an action changes no budget, or one that is within the limits.
  pub no_violation-Within :
      (close : IsCloseQuotient unit exceeds) (parameters : ActionParameters)
      (c : ActionPolicyConfiguration)
      → budget_policy_violation upper exceeds parameters c ≡ none
      → (budget_of parameters ≡ none)
        ⊎ ((p : BudgetActionParameters) × (budget_of parameters ≡ some p) × IsWithin upper unit c p)
  unfolding budget_policy_violation
  no_violation-Within close parameters c h = go (budget_of parameters) refl h
    where
      go :
          (o : Option BudgetActionParameters)
          → budget_of parameters ≡ o
          → (elim o [ none ↦ none | some p ↦ budget_violation upper exceeds p c ]) ≡ none
          → (budget_of parameters ≡ none)
            ⊎ ((p : BudgetActionParameters) × (budget_of parameters ≡ some p)
                × IsWithin upper unit c p)
      go none e g = inl e
      go (some p) e g = inr (p, e, budget_violation-Within close p c g)
