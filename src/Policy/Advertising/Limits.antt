-- ===== src/Policy/Advertising/Limits.antt =====
-- What holds of an action that the advertising policy does not deny.
use manaai.Prelude.{
  ℕ, ◌-◌, ◌*◌, ◌≤◌, ◌<◌, ◌≡◌, refl, sym, ◌∙◌, Option, none, some, String, Bool, true, false, ◌&&◌,
  leb, any, count, ◌⊎◌, inl, inr, arith, Bool-cases,
}
use manaai.Prelude.Dict.{get}
use manaai.Domain.Enums.{PolicyDecision}
use manaai.Policy.Model.{Recommendation, ActionPolicyConfiguration, BudgetActionParameters, value}
use manaai.Policy.Budget.{contains, budget_of, budget_policy_violation}
use manaai.Policy.Budget.Bounds.{IsWithin, IsCloseQuotient, no_violation-Within}
use manaai.Policy.Activity.{
  History, count_executions, day_start, hour, Verdict, deny_if, daily_limits,
}
use manaai.Policy.Activity.Latest.{is_since, any-list_proposals}
use manaai.Policy.Advertising.{is_scaling_of, own_limits, judge, conclude, evaluate}

-- A verdict that is not denied passed its last test, and was not denied before.
deny_if-passed :
    (failed : Bool) (reason : String) (v : Verdict)
    → (deny_if failed reason v).denied ≡ false
    → (failed ≡ false) × (v.denied ≡ false)
unfolding deny_if
deny_if-passed true reason v h = ground (arith, h)
deny_if-passed false reason v h = (refl, h)

pub daily_limits-passed :
    (global_limit agent_limit : ℕ) (agent_id : String) (now : ℕ) (history : History) (v : Verdict)
    → (daily_limits global_limit agent_limit agent_id now history v).denied ≡ false
    → (count_executions none (day_start now) history < global_limit)
      × (count_executions (some agent_id) (day_start now) history < agent_limit)
      × (v.denied ≡ false)
unfolding daily_limits
daily_limits-passed global_limit agent_limit agent_id now history v h =
    let last =
      deny_if-passed (leb agent_limit (count_executions (some agent_id) (day_start now) history))
        "The agent daily execution limit has been reached." _ h in
    let first =
      deny_if-passed (leb global_limit (count_executions none (day_start now) history))
        "The global daily execution limit has been reached." v last.1 in
    (ground (arith, first.0), ground (arith, last.0), first.1)

-- What the configuration and the limits of a day ask of an action; `cutoff` is the begin of the
-- cooldown.
pub record IsWithinLimits (upper : String → String) (unit global_limit agent_limit : ℕ)
    (agent_id : String) (r : Recommendation) (c : ActionPolicyConfiguration) (excluded : Option ℕ)
    (now : ℕ) (history : History) : Type 0 where
  pub allowed_type : contains (value r.action_type) c.allowed_action_types ≡ true
  pub confident : c.minimum_confidence ≤ r.confidence
  pub budget :
      (budget_of r.parameters ≡ none)
      ⊎ ((p : BudgetActionParameters) × (budget_of r.parameters ≡ some p) × IsWithin upper unit c p)
  pub global_count : count_executions none (day_start now) history < global_limit
  pub agent_count : count_executions (some agent_id) (day_start now) history < agent_limit
  pub cooled_down :
      any
        (λ item. is_since (now - c.cooldown_hours * hour) item && is_scaling_of r excluded item)
        history.proposals
      ≡ false

module _ (upper : String → String) (unit : ℕ) (exceeds : ℕ → ℕ → ℕ → Bool)
    (global_limit agent_limit : ℕ) where
  conclude-deny :
      (r : Recommendation) (c : ActionPolicyConfiguration) (v : Verdict)
      → v.denied ≡ true
      → (conclude upper exceeds global_limit agent_limit r c v).decision ≡ PolicyDecision.deny
  unfolding conclude
  conclude-deny r c v h = ground arith

  conclude-allow :
      (r : Recommendation) (c : ActionPolicyConfiguration) (v : Verdict)
      → (conclude upper exceeds global_limit agent_limit r c v).decision ≡ PolicyDecision.allow
      → get (value r.action_type) c.approval_required ≡ some false
  unfolding conclude
  conclude-allow r c v h = ground arith

  own_limits-passed :
      (r : Recommendation) (c : ActionPolicyConfiguration)
      → (own_limits upper exceeds global_limit agent_limit r c).denied ≡ false
      → (contains (value r.action_type) c.allowed_action_types ≡ true)
        × (c.minimum_confidence ≤ r.confidence)
        × (budget_policy_violation upper exceeds r.parameters c ≡ none)
  unfolding own_limits deny_if
  own_limits-passed r c h = ground arith

  judge-Within :
      (close : IsCloseQuotient unit exceeds) (agent_id : String) (r : Recommendation)
      (c : ActionPolicyConfiguration) (excluded : Option ℕ) (now : ℕ) (history : History)
      → count (is_since (now - c.cooldown_hours * hour)) history.proposals ≤ 1000
      → (judge upper exceeds global_limit agent_limit agent_id r c excluded now history).denied
        ≡ false
      → IsWithinLimits upper unit global_limit agent_limit agent_id r c excluded now history
  unfolding judge
  judge-Within close agent_id r c excluded now history few h =
      let cutoff = now - c.cooldown_hours * hour in
      let last =
        deny_if-passed _ "A recent scaling action is still inside the configured cooldown." _ h in
      let day =
        daily_limits-passed global_limit agent_limit agent_id now history
          (own_limits upper exceeds global_limit agent_limit r c) last.1 in
      let own = own_limits-passed r c day.2 in
      record {
        allowed_type = own.0;
        confident = own.1;
        budget = no_violation-Within upper unit exceeds close r.parameters c own.2;
        global_count = day.0;
        agent_count = day.1;
        cooled_down =
            sym (any-list_proposals 1000 cutoff (is_scaling_of r excluded) history few) ∙ last.0;
      }

  -- The policy denies an action, or the action is within every limit of the configuration: its type
  -- is allowed, its confidence is high enough, a change of a budget is within the bounds (where the
  -- compared quotients are off by less than a unit), fewer executions than the two daily limits were
  -- attempted since midnight, and no other live scaling action on the object is inside the cooldown,
  -- as long as at most 1000 proposals are so recent.
  pub denied_or_IsWithinLimits :
      (close : IsCloseQuotient unit exceeds) (agent_id : String) (r : Recommendation)
      (c : ActionPolicyConfiguration) (excluded : Option ℕ) (now : ℕ) (history : History)
      → count (is_since (now - c.cooldown_hours * hour)) history.proposals ≤ 1000
      → ((evaluate upper exceeds global_limit agent_limit agent_id r c excluded now
            history).decision
          ≡ PolicyDecision.deny)
        ⊎ IsWithinLimits upper unit global_limit agent_limit agent_id r c excluded now history
  unfolding evaluate
  denied_or_IsWithinLimits close agent_id r c excluded now history few =
      let v = judge upper exceeds global_limit agent_limit agent_id r c excluded now history in
      elim (Bool-cases v.denied) [
        | inl e ↦ inl (conclude-deny r c v e)
        | inr e ↦ inr (judge-Within close agent_id r c excluded now history few e)
      ]

  -- An action that may run without an approval is of a type for which the configuration says so in
  -- so many words.
  pub allowed_only_if_configured :
      (agent_id : String) (r : Recommendation) (c : ActionPolicyConfiguration) (excluded : Option ℕ)
      (now : ℕ) (history : History)
      → (evaluate upper exceeds global_limit agent_limit agent_id r c excluded now history).decision
        ≡ PolicyDecision.allow
      → get (value r.action_type) c.approval_required ≡ some false
  unfolding evaluate
  allowed_only_if_configured agent_id r c excluded now history =
      conclude-allow r c
        (judge upper exceeds global_limit agent_limit agent_id r c excluded now history)
