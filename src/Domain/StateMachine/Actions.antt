-- ===== src/Domain/StateMachine/Actions.antt =====
-- What the action table of state_machine.py admits: no action is executed without an approval,
-- and no history of an action is long.
use manaai.Prelude.{
  ℕ, Bool, true, false, ◌≤◌, ◌+◌, ◌≡◌, refl, ◌⊎◌, inl, inr, List, [], ◌∷◌, arith, length,
}
use manaai.Domain.Enums.{ActionStatus}
use manaai.Domain.StateMachine.{require_action, allowed, Follows, stay, move}

-- How far a status is from the end of its lifecycle, at most.
remaining : ActionStatus → ℕ
remaining ActionStatus.proposed = 4
remaining ActionStatus.awaiting_approval = 3
remaining ActionStatus.approved = 2
remaining ActionStatus.executing = 1
remaining _ = 0

remaining-require_action :
    (s t : ActionStatus) → require_action s t ≡ allowed → remaining t + 1 ≤ remaining s
unfolding require_action remaining
remaining-require_action s t h = ground arith

length-Follows :
    (s u : ActionStatus) (path : List ActionStatus)
    → Follows require_action s path u
    → length path + remaining u ≤ remaining s
length-Follows s u [] stay = omega arith
length-Follows s u (t ∷ path) (move t' h f) =
    omega (arith, remaining-require_action s t h, length-Follows t u path f)

-- A proposed action changes its status four times at most, whatever is done with it.
pub action_history_bounded :
    (u : ActionStatus) (path : List ActionStatus)
    → Follows require_action ActionStatus.proposed path u
    → length path ≤ 4
unfolding remaining
action_history_bounded u path f = omega (arith, length-Follows ActionStatus.proposed u path f)

-- The statuses that tell what became of a provider write.
abbrev pub IsOutcome : ActionStatus → Type 0
IsOutcome u =
    (u ≡ ActionStatus.succeeded) ⊎ (u ≡ ActionStatus.partially_applied) ⊎ (u ≡ ActionStatus.failed)

no_step_after : (s t : ActionStatus) → IsOutcome s → require_action s t ≡ allowed → ⊥
unfolding require_action
no_step_after s t o h = ground arith

outcome-Follows :
    (s u : ActionStatus) (path : List ActionStatus)
    → IsOutcome s
    → Follows require_action s path u
    → (path ≡ []) × (s ≡ u)
outcome-Follows s u [] o stay = (refl, refl)
outcome-Follows s u (t ∷ path) o (move t' h f) = absurd (no_step_after s t o h)

executing_step :
    (s t : ActionStatus) → s ≡ ActionStatus.executing → require_action s t ≡ allowed → IsOutcome t
unfolding require_action
executing_step s t e h = ground arith

executing-Follows :
    (s u : ActionStatus) (path : List ActionStatus)
    → s ≡ ActionStatus.executing
    → IsOutcome u
    → Follows require_action s path u
    → path ≡ u ∷ []
executing-Follows s u [] e o stay = ground arith
executing-Follows s u (t ∷ path) e o (move t' h f) =
    let (nil, same) = outcome-Follows t u path (executing_step s t e h) f in cc

-- The statuses in which an action ends with nothing sent to the provider.
abbrev unsent : ActionStatus → Bool
unsent ActionStatus.policy_rejected = true
unsent ActionStatus.rejected = true
unsent ActionStatus.expired = true
unsent ActionStatus.cancelled = true
unsent ActionStatus.dry_run = true
unsent _ = false

unsent_step : (s t : ActionStatus) → unsent s ≡ true → require_action s t ≡ allowed → ⊥
unfolding require_action
unsent_step s t e h = ground arith

unsent-Follows :
    (s u : ActionStatus) (path : List ActionStatus)
    → unsent s ≡ true
    → IsOutcome u
    → Follows require_action s path u
    → ⊥
unsent-Follows s u [] e o stay = ground arith
unsent-Follows s u (t ∷ path) e o (move t' h f) = unsent_step s t e h

approved_step :
    (s t : ActionStatus)
    → s ≡ ActionStatus.approved
    → require_action s t ≡ allowed
    → (t ≡ ActionStatus.executing) ⊎ (unsent t ≡ true)
unfolding require_action
approved_step s t e h = ground arith

approved-Follows :
    (s u : ActionStatus) (path : List ActionStatus)
    → s ≡ ActionStatus.approved
    → IsOutcome u
    → Follows require_action s path u
    → path ≡ ActionStatus.executing ∷ u ∷ []
approved-Follows s u [] e o stay = ground arith
approved-Follows s u (t ∷ path) e o (move t' h f) = elim (approved_step s t e h) [
  | inl run ↦ cc (executing-Follows t u path run o f)
  | inr dead ↦ absurd (unsent-Follows t u path dead o f)
]

awaiting_step :
    (s t : ActionStatus)
    → s ≡ ActionStatus.awaiting_approval
    → require_action s t ≡ allowed
    → (t ≡ ActionStatus.approved) ⊎ (unsent t ≡ true)
unfolding require_action
awaiting_step s t e h = ground arith

awaiting-Follows :
    (s u : ActionStatus) (path : List ActionStatus)
    → s ≡ ActionStatus.awaiting_approval
    → IsOutcome u
    → Follows require_action s path u
    → path ≡ ActionStatus.approved ∷ ActionStatus.executing ∷ u ∷ []
awaiting-Follows s u [] e o stay = ground arith
awaiting-Follows s u (t ∷ path) e o (move t' h f) = elim (awaiting_step s t e h) [
  | inl yes_vote ↦ cc (approved-Follows t u path yes_vote o f)
  | inr dead ↦ absurd (unsent-Follows t u path dead o f)
]

proposed_step :
    (t : ActionStatus)
    → require_action ActionStatus.proposed t ≡ allowed
    → (t ≡ ActionStatus.awaiting_approval) ⊎ (t ≡ ActionStatus.approved) ⊎ (unsent t ≡ true)
unfolding require_action
proposed_step t h = ground arith

proposed-Follows :
    (s u : ActionStatus) (path : List ActionStatus)
    → s ≡ ActionStatus.proposed
    → IsOutcome u
    → Follows require_action s path u
    → (path ≡ ActionStatus.approved ∷ ActionStatus.executing ∷ u ∷ [])
      ⊎ (path
          ≡ ActionStatus.awaiting_approval ∷ ActionStatus.approved ∷ ActionStatus.executing ∷ u
            ∷ [])
proposed-Follows s u [] e o stay = ground arith
proposed-Follows s u (t ∷ path) e o (move t' h f) = elim (proposed_step t (rw e at h)) [
  | inl waits ↦ inr (cc (awaiting-Follows t u path waits o f))
  | inr (inl now) ↦ inl (cc (approved-Follows t u path now o f))
  | inr (inr dead) ↦ absurd (unsent-Follows t u path dead o f)
]

-- An action ends as succeeded, partially applied or failed by one of two histories only: it was
-- approved at once, or it waited for an approval that was given, and then it was executed.
pub outcome_history :
    (u : ActionStatus) (path : List ActionStatus)
    → IsOutcome u
    → Follows require_action ActionStatus.proposed path u
    → (path ≡ ActionStatus.approved ∷ ActionStatus.executing ∷ u ∷ [])
      ⊎ (path
          ≡ ActionStatus.awaiting_approval ∷ ActionStatus.approved ∷ ActionStatus.executing ∷ u
            ∷ [])
outcome_history u path o f = proposed-Follows ActionStatus.proposed u path refl o f
