-- ===== src/Policy/Growth.antt =====
-- `GrowthExperimentPolicyEvaluator.evaluate` of action_policies.py, the policy of the action family
-- "growth_experiment".
pub mod Approval
use manaai.Prelude.{
  ℕ, ◌≡◌, Option, none, some, List, [], ◌∷◌, ◌++◌, String, Bool, true, false, not, ◌&&◌, ◌||◌, ltb,
  if◌then◌else◌,
}
use manaai.Domain.Enums.{PolicyDecision}
use manaai.Lifecycle.Model.{ActionPolicy}
use manaai.Policy.Model.{
  ExperimentMode, shadow, sandbox, GrowthFunnelConfiguration, OperationalActionType, advertising,
  growth, ActionParameters, create, stop, Recommendation,
}
use manaai.Policy.Activity.{History, Verdict, undecided, deny_if, daily_limits}

abbrev pub is_sandbox : ExperimentMode → Bool
is_sandbox shadow = false
is_sandbox sandbox = true

abbrev pub is_growth : OperationalActionType → Bool
is_growth (advertising action) = false
is_growth (growth action) = true

-- The tests on the parameters.
unfoldable pub parameters_verdict : ActionParameters → GrowthFunnelConfiguration → Verdict → Verdict
unfolding deny_if
parameters_verdict (create p) typed v =
    deny_if (ltb typed.experiment_allocation_percent p.allocation_percent)
      "Experiment allocation exceeds the configured sandbox limit." v
parameters_verdict (stop p) typed v = v
parameters_verdict _ typed v =
    deny_if true "Experiment action parameters are invalid for this policy." v

unfoldable pub own_verdict : Recommendation → GrowthFunnelConfiguration → Verdict
unfolding deny_if parameters_verdict
own_verdict r typed = parameters_verdict r.parameters typed (
    deny_if (ltb r.confidence typed.minimum_completeness)
      "Evidence completeness is below the configured minimum."
      (deny_if (not (is_growth r.action_type))
        "The action is not supported by the Growth experiment policy."
        (deny_if (not (is_sandbox typed.experiment_mode))
          "Experiment writes are disabled while the capability is in shadow mode." undecided)))

unfoldable pub conclude_growth : Verdict → ActionPolicy
conclude_growth v =
    if v.denied then record { decision = PolicyDecision.deny; reasons = v.reasons } else record {
      decision = PolicyDecision.require_approval;
      reasons = v.reasons ++ "Sandbox experiment actions always require explicit approval." ∷ [];
    }

unfoldable pub evaluate_growth :
    ℕ → ℕ → String → Recommendation → GrowthFunnelConfiguration → ℕ → History → ActionPolicy
unfolding own_verdict daily_limits conclude_growth
evaluate_growth global_execution_limit agent_execution_limit agent_id r typed now history =
    conclude_growth (
      daily_limits global_execution_limit agent_execution_limit agent_id now history
        (own_verdict r typed))
