-- ===== src/Lifecycle/Execute/Guards/Safety.antt =====
-- What `require_safety` of action_lifecycle.py establishes when it returns.
use manaai.Prelude.{
  ℕ, suc, ◌≡◌, ◌≢◌, refl, ap, ◌∙◌, inl, inr, Option, none, some, String, Bool, false, arith,
  Bool-cases, Option-cases,
}
use manaai.Prelude.Exec.{ok, err}
use manaai.Domain.Enums.{PolicyDecision}
use manaai.Lifecycle.Model.{ActionProposal, AgentConfiguration, ActionPolicy}
use manaai.Lifecycle.Store.{Db, action_safety, get_control, latest_configuration}
use manaai.Lifecycle.Service.{
  Service, State, Run, require_safety, require_policy, unless_stopped, require_configuration,
  agent_kill_switch, capability_kill_switch,
}

-- The safeguards of the tables and of the policy of the moment let the proposal pass.
abbrev pub IsSafe : Service → ActionProposal → ℕ → Db → Type 0
IsSafe service proposal n db =
    (get_control "global_kill_switch" service.global_kill_switch_default db ≡ false)
    × (get_control (agent_kill_switch proposal.agent_id) false db ≡ false)
    × (get_control (capability_kill_switch proposal.agent_id proposal.capability_key) false db
        ≡ false)
    × ((configuration : AgentConfiguration) × (policy : ActionPolicy) × (latest_configuration
            proposal.agent_id proposal.capability_key db
          ≡ some configuration)
        × (service.evaluate n proposal configuration ≡ some policy)
        × (policy.decision ≢ PolicyDecision.deny))

unless_stopped-ok :
    (service : Service) (switch : Db → Bool) (message : String) (rest : Run (Unit {0})) (s : State)
    (a : Unit {0})
    → (unless_stopped service switch message rest s).0 ≡ ok a
    → (switch s.db ≡ false)
      × ((rest s).0 ≡ ok a)
      × ((unless_stopped service switch message rest s).1 ≡ (rest s).1)
unfolding unless_stopped
unless_stopped-ok service switch message rest s a e = elim (Bool-cases (switch s.db)) [
  | inl on ↦ absurd (go (rw on at e))
  | inr off ↦ rw off (refl, rw off at e, refl)
]
  where
    go : err (action_safety message) ≡ ok a → ⊥
    go h = cc

module _ (service : Service) (proposal : ActionProposal) where
  require_policy-ok :
      (o : Option AgentConfiguration) (s : State) (a : Unit {0})
      → (require_policy service proposal o s).0 ≡ ok a
      → ((configuration : AgentConfiguration) × (policy : ActionPolicy) × (o ≡ some configuration)
          × (service.evaluate s.uses proposal configuration ≡ some policy)
          × (policy.decision ≢ PolicyDecision.deny))
        × ((require_policy service proposal o s).1.uses ≡ suc s.uses)
  unfolding require_policy
  require_policy-ok none s a e = cc
  require_policy-ok (some c) s a e = elim (Option-cases (service.evaluate s.uses proposal c)) [
    | inl none_left ↦ ground arith
    | inr (policy, h) ↦ ((c, policy, refl, h, ground arith), ground arith)
  ]

  pub require_safety-ok :
      (s : State) (a : Unit {0})
      → (require_safety service proposal s).0 ≡ ok a
      → IsSafe service proposal s.uses s.db
        × ((require_safety service proposal s).1.uses ≡ suc s.uses)
  unfolding require_safety require_configuration
  require_safety-ok s a e =
      let (off, h, same) = unless_stopped-ok service _ _ _ s a e in
      let (agent_off, h', same') = unless_stopped-ok service _ _ _ s a h in
      let (capability_off, h'', same'') = unless_stopped-ok service _ _ _ s a h' in
      let (policy, uses) =
        require_policy-ok (latest_configuration proposal.agent_id proposal.capability_key s.db) s a
          h'' in
      (
        (off, agent_off, capability_off, policy),
        ap (λ (t : State). t.uses) (same ∙ same' ∙ same'') ∙ uses,
      )
