-- ===== src/Policy/Examples.antt =====
-- The policies at concrete recommendations.
use manaai.Prelude.{ℕ, ◌*◌, ◌<◌, ◌≡◌, refl, ◌⊎◌, none, some, [], ◌∷◌, Bool, false, ltb, arith}
use manaai.Prelude.Dict.{get}
use manaai.Domain.Enums.{PolicyDecision}
use manaai.Policy.Model.{
  advertising, growth, increase_budget, create_experiment, increase, budget, create, Recommendation,
  ActionPolicyConfiguration, sandbox, GrowthFunnelConfiguration, value,
}
use manaai.Policy.Budget.Bounds.{IsCloseQuotient}
use manaai.Policy.Activity.{History, count_executions, day_start}
use manaai.Policy.Advertising.{evaluate}
use manaai.Policy.Advertising.Limits.{
  IsWithinLimits, denied_or_IsWithinLimits, allowed_only_if_configured,
}
use manaai.Policy.Growth.{evaluate_growth}
use manaai.Policy.Growth.Approval.{IsExperiment, growth_needs_approval}

-- The budget of a campaign goes from 100 to 120.
abbrev raise_budget : Recommendation
raise_budget = record {
  recommendation_id = 1;
  run_id = 2;
  object_type = "campaign";
  provider_object_id = "c1";
  capability_key = "growth.advertising";
  action_family = "advertising";
  action_type = advertising increase_budget;
  parameters = budget (record {
    kind = increase;
    currency = "EUR";
    current_daily_budget = 100;
    proposed_daily_budget = 120;
  });
  confidence = 90;
  expires_at = 1000;
  created_at = 10;
}

abbrev configuration : ActionPolicyConfiguration
configuration = record {
  minimum_confidence = 80;
  maximum_budget_increase_factor = 150;
  maximum_budget_decrease = 50;
  maximum_absolute_daily_budget_change = 30;
  cooldown_hours = 24;
  allowed_action_types = "increase_budget" ∷ [];
  approval_required = ("increase_budget", false) ∷ [];
  allowed_currencies = "EUR" ∷ [];
  minimum_daily_budget_by_currency = ("EUR", 10) ∷ [];
}

abbrev quiet : History
quiet = record { runs = []; executions = []; proposals = [] }

-- The exact quotient, in hundredths.
abbrev exceeds : ℕ → ℕ → ℕ → Bool
exceeds a b limit = ltb (limit * b) (a * 100)

exceeds_is_close : IsCloseQuotient 100 exceeds
exceeds_is_close a b limit h e = ground (arith, e)

-- The raise may run without an approval.
allows :
    (evaluate
      (λ s. s)
      exceeds
      5
      5
      "marketing"
      raise_budget
      configuration
      none
      86400000001
      quiet).decision
    ≡ PolicyDecision.allow
unfolding evaluate manaai.Policy.Budget.budget_policy_violation
allows = refl

denied_or_IsWithinLimits_example :
    ((evaluate
        (λ s. s)
        exceeds
        5
        5
        "marketing"
        raise_budget
        configuration
        none
        86400000001
        quiet).decision
      ≡ PolicyDecision.deny)
    ⊎ IsWithinLimits (λ s. s) 100 5 5 "marketing" raise_budget configuration none 86400000001 quiet
denied_or_IsWithinLimits_example =
    denied_or_IsWithinLimits (λ s. s) 100 exceeds 5 5 exceeds_is_close "marketing" raise_budget
      configuration none 86400000001 quiet (omega arith)

allowed_only_if_configured_example :
    get (value (advertising increase_budget)) (("increase_budget", false) ∷ []) ≡ some false
allowed_only_if_configured_example =
    allowed_only_if_configured (λ s. s) 100 exceeds 5 5 "marketing" raise_budget configuration none
      86400000001 quiet allows

abbrev experiment : Recommendation
experiment = record raise_budget {
  action_type = growth create_experiment;
  parameters =
      create
        (record { experiment_key = "onboarding"; allocation_percent = 10; duration_days = 14 });
}

abbrev sandboxed : GrowthFunnelConfiguration
sandboxed = record {
  minimum_completeness = 90;
  experiment_mode = sandbox;
  experiment_allocation_percent = 10;
}

growth_needs_approval_example :
    let policy = evaluate_growth 5 5 "growth" experiment sandboxed 86400000001 quiet in
    (policy.decision ≡ PolicyDecision.deny)
    ⊎ ((policy.decision ≡ PolicyDecision.require_approval)
        × IsExperiment experiment sandboxed
        × (count_executions none (day_start 86400000001) quiet < 5)
        × (count_executions (some "growth") (day_start 86400000001) quiet < 5))
growth_needs_approval_example =
    growth_needs_approval 5 5 "growth" experiment sandboxed 86400000001 quiet
