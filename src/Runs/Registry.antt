-- ===== src/Runs/Registry.antt =====
-- `AgentRegistry` of application/registry.py.
use manaai.Prelude.{
  ◌≡◌, Option, none, some, String, str_eq, not, ◌||◌, is_some, or_else, if◌then◌else◌, arith,
  eq_iff, ap, ◌∙◌, Option-cases, inl, inr, ◌⊎◌,
}
use manaai.Prelude.Dict.{Dict, get, put, get-put}
use manaai.Prelude.Exec.{Result, ok, err}
use manaai.Runs.{RunError, duplicate_agent, unknown_agent}

pub record AgentRegistry (Agent : Type 0) : Type 0 where
  pub agents : Dict Agent
  pub aliases : Dict String

module _ {Agent : Type 0} where
  unfoldable pub register :
      String → Agent → AgentRegistry Agent → Result RunError (AgentRegistry Agent)
  unfolding get put
  register agent_id agent r =
      if is_some (get agent_id r.agents)
      then err duplicate_agent
      else ok (record r { agents = put agent_id agent r.agents })

  unfoldable pub register_alias :
      String → String → AgentRegistry Agent → Result RunError (AgentRegistry Agent)
  unfolding get put
  register_alias alias canonical_agent_id r =
      if is_some (get alias r.agents) || is_some (get alias r.aliases)
      then err duplicate_agent
      else if not (is_some (get canonical_agent_id r.agents))
      then err unknown_agent
      else ok (record r { aliases = put alias canonical_agent_id r.aliases })

  unfoldable pub canonical_id : AgentRegistry Agent → String → String
  unfolding get
  canonical_id r agent_id = or_else (get agent_id r.aliases) agent_id

  unfoldable pub agent_of : AgentRegistry Agent → String → Option Agent
  unfolding get canonical_id
  agent_of r agent_id = get (canonical_id r agent_id) r.agents

  register-added :
      (agent_id : String) (agent : Agent) (r after : AgentRegistry Agent)
      → register agent_id agent r ≡ ok after
      → (get agent_id r.agents ≡ none) × (after ≡ record r { agents = put agent_id agent r.agents })
  unfolding register
  register-added agent_id agent r after h = ground arith

  -- An agent whose registration is accepted is found under its id, unless that id is an alias: then
  -- whatever agent the alias stood for is still found, and the new one is out of reach.
  pub registered_is_found :
      (agent_id : String) (agent : Agent) (r after : AgentRegistry Agent)
      → register agent_id agent r ≡ ok after
      → ((get agent_id r.aliases ≡ none) × (agent_of after agent_id ≡ some agent))
        ⊎ ((canonical : String) × (get agent_id r.aliases ≡ some canonical)
            × (agent_of after agent_id
                ≡ (if str_eq agent_id canonical then some agent else get canonical r.agents)))
  unfolding agent_of canonical_id
  registered_is_found agent_id agent r after h =
      let added = register-added agent_id agent r after h in
      let where_found =
        ap (λ a. get (or_else (get agent_id a.aliases) agent_id) a.agents) added.1 in
      elim (Option-cases (get agent_id r.aliases)) [
        | inl e ↦ inl (
          e,
          where_found
              ∙ ap (λ o. get (or_else o agent_id) (put agent_id agent r.agents)) e
              ∙ ground (arith, get-put agent_id agent_id agent r.agents, eq_iff agent_id agent_id),
        )
        | inr (canonical, e) ↦ inr (
          canonical,
          e,
          where_found
              ∙ ap (λ o. get (or_else o agent_id) (put agent_id agent r.agents)) e
              ∙ get-put agent_id canonical agent r.agents,
        )
      ]
