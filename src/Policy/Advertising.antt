-- ===== src/Policy/Advertising.antt =====
-- `PolicyService.evaluate` of policy.py, the policy of the action family "advertising".
pub mod Limits
use manaai.Prelude.{
  ℕ, ◌-◌, ◌*◌, ◌≡◌, Option, none, some, List, [], ◌∷◌, ◌++◌, String, str_eq, Bool, true, false, not,
  ◌&&◌, ◌||◌, ltb, leb, ◌==◌, any, if◌then◌else◌, is_some, or_else,
}
use manaai.Prelude.Dict.{get}
use manaai.Domain.Enums.{ActionStatus, PolicyDecision}
use manaai.Lifecycle.Model.{ActionProposal, ActionPolicy}
use manaai.Policy.Model.{Recommendation, ActionPolicyConfiguration, value}
use manaai.Policy.Budget.{contains, budget_policy_violation}
use manaai.Policy.Activity.{
  History, list_proposals, hour, Verdict, undecided, deny_if, daily_limits,
}

-- The statuses of an action that is under way, or had its effect.
unfoldable pub is_live : ActionStatus → Bool
is_live ActionStatus.awaiting_approval = true
is_live ActionStatus.approved = true
is_live ActionStatus.executing = true
is_live ActionStatus.succeeded = true
is_live ActionStatus.partially_applied = true
is_live _ = false

abbrev pub is_scaling : String → Bool
is_scaling action_type = str_eq action_type "increase_budget" || str_eq action_type "scale_audience"

abbrev pub is_other : Option ℕ → ℕ → Bool
is_other none proposal_id = true
is_other (some excluded) proposal_id = not (proposal_id == excluded)

-- The test on one recent proposal, but for its instant.
unfoldable pub is_scaling_of : Recommendation → Option ℕ → ActionProposal → Bool
unfolding is_live
is_scaling_of r exclude_proposal_id item =
    str_eq item.provider_object_id r.provider_object_id
    && is_other exclude_proposal_id item.proposal_id
    && not (item.run_id == r.run_id)
    && is_scaling item.action_type
    && is_live item.status

module _ (upper : String → String) (quotient_exceeds : ℕ → ℕ → ℕ → Bool)
    (global_execution_limit agent_execution_limit : ℕ) where
  -- The tests on the recommendation alone.
  unfoldable pub own_limits : Recommendation → ActionPolicyConfiguration → Verdict
  unfolding deny_if
  own_limits r configuration =
      let violation = budget_policy_violation upper quotient_exceeds r.parameters configuration in
      deny_if (is_some violation) (or_else violation "") (
        deny_if (ltb r.confidence configuration.minimum_confidence)
          "Recommendation confidence is below the configured minimum."
          (deny_if (not (contains (value r.action_type) configuration.allowed_action_types))
            "Action type is not allowed by the active configuration." undecided))

  unfoldable pub judge :
      String → Recommendation → ActionPolicyConfiguration → Option ℕ → ℕ → History → Verdict
  unfolding own_limits deny_if daily_limits is_scaling_of list_proposals
  judge agent_id r configuration exclude_proposal_id now history =
      let cooldown_cutoff = now - configuration.cooldown_hours * hour in
      deny_if
        (any
          (λ (item : ActionProposal).
            leb cooldown_cutoff item.created_at && is_scaling_of r exclude_proposal_id item)
          (list_proposals 1000 history))
        "A recent scaling action is still inside the configured cooldown."
        (daily_limits global_execution_limit agent_execution_limit agent_id now history
          (own_limits r configuration))

  -- What becomes of the verdict.
  unfoldable pub conclude : Recommendation → ActionPolicyConfiguration → Verdict → ActionPolicy
  unfolding get value
  conclude r configuration v =
      if v.denied
      then record { decision = PolicyDecision.deny; reasons = v.reasons }
      else if or_else (get (value r.action_type) configuration.approval_required) true
      then record {
        decision = PolicyDecision.require_approval;
        reasons = v.reasons ++ "The action type requires an approver decision." ∷ [];
      }
      else record {
        decision = PolicyDecision.allow;
        reasons = v.reasons ++ "The action satisfies the configured policy limits." ∷ [];
      }

  unfoldable pub evaluate :
      String → Recommendation → ActionPolicyConfiguration → Option ℕ → ℕ → History → ActionPolicy
  unfolding judge conclude
  evaluate agent_id r configuration exclude_proposal_id now history =
      conclude r configuration (judge agent_id r configuration exclude_proposal_id now history)
