-- ===== src/Policy/Growth/Approval.antt =====
-- No experiment runs without an approval.
use manaai.Prelude.{ℕ, ◌≤◌, ◌<◌, ◌≡◌, refl, none, some, String, true, false, ◌⊎◌, inl, inr, arith}
use manaai.Domain.Enums.{PolicyDecision}
use manaai.Policy.Model.{
  GrowthFunnelConfiguration, ActionParameters, create, stop, CreateExperimentActionParameters,
  StopExperimentActionParameters, Recommendation,
}
use manaai.Policy.Activity.{History, count_executions, day_start, Verdict, deny_if, daily_limits}
use manaai.Policy.Advertising.Limits.{daily_limits-passed}
use manaai.Policy.Growth.{
  is_growth, is_sandbox, parameters_verdict, own_verdict, conclude_growth, evaluate_growth,
}

-- An experiment within the bounds of the configuration.
pub record IsExperiment (r : Recommendation) (typed : GrowthFunnelConfiguration) : Type 0 where
  pub in_sandbox : is_sandbox typed.experiment_mode ≡ true
  pub of_growth : is_growth r.action_type ≡ true
  pub complete : typed.minimum_completeness ≤ r.confidence
  pub bounded :
      ((p : StopExperimentActionParameters) × (r.parameters ≡ stop p))
      ⊎ ((p : CreateExperimentActionParameters) × (r.parameters ≡ create p)
          × (p.allocation_percent ≤ typed.experiment_allocation_percent))

parameters-passed :
    (parameters : ActionParameters) (typed : GrowthFunnelConfiguration) (v : Verdict)
    → (parameters_verdict parameters typed v).denied ≡ false
    → (v.denied ≡ false)
      × (((p : StopExperimentActionParameters) × (parameters ≡ stop p))
          ⊎ ((p : CreateExperimentActionParameters) × (parameters ≡ create p)
              × (p.allocation_percent ≤ typed.experiment_allocation_percent)))
unfolding parameters_verdict deny_if
parameters-passed (create p) typed v h = (ground (arith, h), inr (p, refl, ground (arith, h)))
parameters-passed (stop p) typed v h = (h, inl (p, refl))
parameters-passed _ typed v h = ground (arith, h)

own-Experiment :
    (r : Recommendation) (typed : GrowthFunnelConfiguration)
    → (own_verdict r typed).denied ≡ false
    → IsExperiment r typed
unfolding own_verdict deny_if
own-Experiment r typed h =
    let passed = parameters-passed r.parameters typed _ h in
    record {
      in_sandbox = ground (arith, passed.0);
      of_growth = ground (arith, passed.0);
      complete = ground (arith, passed.0);
      bounded = passed.1;
    }

conclude_growth-cases :
    (v : Verdict)
    → ((v.denied ≡ true) × ((conclude_growth v).decision ≡ PolicyDecision.deny))
      ⊎ ((v.denied ≡ false) × ((conclude_growth v).decision ≡ PolicyDecision.require_approval))
unfolding conclude_growth
conclude_growth-cases v = ground arith

-- The policy of experiments denies an action, or asks for an approval; it asks only for what creates
-- an experiment within the configured allocation, or stops one, in the sandbox mode, with evidence
-- that is complete enough, and while fewer executions than the two daily limits were attempted.
pub growth_needs_approval :
    (global_limit agent_limit : ℕ) (agent_id : String) (r : Recommendation)
    (typed : GrowthFunnelConfiguration) (now : ℕ) (history : History)
    → let policy = evaluate_growth global_limit agent_limit agent_id r typed now history in
      (policy.decision ≡ PolicyDecision.deny)
      ⊎ ((policy.decision ≡ PolicyDecision.require_approval)
          × IsExperiment r typed
          × (count_executions none (day_start now) history < global_limit)
          × (count_executions (some agent_id) (day_start now) history < agent_limit))
unfolding evaluate_growth
growth_needs_approval global_limit agent_limit agent_id r typed now history =
    let v = daily_limits global_limit agent_limit agent_id now history (own_verdict r typed) in
    elim (conclude_growth-cases v) [
      | inl e ↦ inl e.1
      | inr e ↦
          let day =
            daily_limits-passed global_limit agent_limit agent_id now history (own_verdict r typed)
              e.0 in
          inr (e.1, own-Experiment r typed day.2, day.0, day.1)
    ]
