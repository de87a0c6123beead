-- ===== src/Runs/Guards/Checks.antt =====
-- What the checks of `run_now` and `validate_run` let pass.
use manaai.Prelude.{
  arith, ◌≡◌, refl, ap, ◌⊎◌, inl, inr, Option, none, some, String, str_eq, Bool, true, false, any,
}
use manaai.Prelude.Dict.{get}
use manaai.Prelude.Exec.{Result, ok, err, proceed, ret, ◌>>=◌}
use manaai.Lifecycle.Model.{AgentConfiguration}
use manaai.Lifecycle.Store.{latest_configuration, get_control}
use manaai.Lifecycle.Service.{agent_kill_switch, capability_kill_switch}
use manaai.Runs.{AgentStatus, enabled, RunError, Tables, unknown_agent, unavailable}
use manaai.Runs.Registry.{canonical_id, agent_of}
use manaai.Runs.Service.{Agent, Service, State, Run, required, Request, text_or, given}
use manaai.Runs.RunNow.{
  enabled_agent, is_stopped, ready_or_unavailable, require_ready, key_or_default, validate_run,
}

module _ (service : Service) where
  -- The id that `run_now` resolves, and the one that `validate_run` makes of it.
  abbrev pub resolved : Request → String
  resolved request = canonical_id service.registry request.agent_id

  abbrev pub checked_id : Request → String
  checked_id request = canonical_id service.registry (resolved request)

  -- The capability key of the request, or the default of the agent that the resolved id finds.
  abbrev pub IsKey : Option String → String → String → Type 0
  IsKey none agent_id key =
      (default : Agent) × (agent_of service.registry agent_id ≡ some default)
      × (key ≡ default.default_capability_key)
  IsKey (some asked) agent_id key = key ≡ asked

  -- What a run takes under the id that is checked, in the registry and in the tables.
  pub record IsAllowed (agent_id capability_key : String) (agent : Agent) (tables : Tables)
      : Type 0 where
    pub configuration : AgentConfiguration
    pub registered : agent_of service.registry agent_id ≡ some agent
    pub loaded : any (λ key. str_eq key capability_key) agent.capability_keys ≡ true
    pub persisted : get agent_id tables.agents ≡ some enabled
    pub running :
        get_control "global_kill_switch" service.global_kill_switch_default tables.ops ≡ false
    pub agent_running : get_control (agent_kill_switch agent_id) false tables.ops ≡ false
    pub capability_running :
        get_control (capability_kill_switch agent_id capability_key) false tables.ops ≡ false
    pub configured : latest_configuration agent_id capability_key tables.ops ≡ some configuration

  pub record IsReady (request : Request) (tables : Tables) : Type 0 where
    pub agent : Agent
    pub key : String
    pub of_request : IsKey (given request.capability_key) (resolved request) key
    pub is_allowed :
        IsAllowed
          (checked_id request)
          (text_or (some key) agent.default_capability_key)
          agent
          tables

  enabled_agent-is_enabled : (o : Option AgentStatus) → enabled_agent o ≡ true → o ≡ some enabled
  enabled_agent-is_enabled o h = ground arith

  is_stopped-switches :
      (agent_id capability_key : String) (tables : Tables)
      → is_stopped service agent_id capability_key tables ≡ false
      → (get_control "global_kill_switch" service.global_kill_switch_default tables.ops ≡ false)
        × (get_control (agent_kill_switch agent_id) false tables.ops ≡ false)
        × (get_control (capability_kill_switch agent_id capability_key) false tables.ops ≡ false)
  unfolding is_stopped
  is_stopped-switches agent_id capability_key tables h = ground arith

  require_ready-cases :
      (agent_id capability_key : String) (agent : Agent) (s : State)
      → ((e : RunError) × (require_ready service agent_id capability_key agent s ≡ (err e, s)))
        ⊎ ((c : AgentConfiguration) × (require_ready service agent_id capability_key agent s
              ≡ (ok c, s))
            × (any (λ key. str_eq key capability_key) agent.capability_keys ≡ true)
            × (enabled_agent (get agent_id s.tables.agents) ≡ true)
            × (is_stopped service agent_id capability_key s.tables ≡ false)
            × (latest_configuration agent_id capability_key s.tables.ops ≡ some c))
  unfolding require_ready
  require_ready-cases agent_id capability_key agent s =
      go (any (λ key. str_eq key capability_key) agent.capability_keys)
        (enabled_agent (get agent_id s.tables.agents))
        (is_stopped service agent_id capability_key s.tables)
        (latest_configuration agent_id capability_key s.tables.ops) refl refl refl refl
    where
      go :
          (a b d : Bool) (o : Option AgentConfiguration)
          → any (λ key. str_eq key capability_key) agent.capability_keys ≡ a
          → enabled_agent (get agent_id s.tables.agents) ≡ b
          → is_stopped service agent_id capability_key s.tables ≡ d
          → latest_configuration agent_id capability_key s.tables.ops ≡ o
          → ((e : RunError) × (ready_or_unavailable service a b d o s ≡ (err e, s)))
            ⊎ ((c : AgentConfiguration) × (ready_or_unavailable service a b d o s ≡ (ok c, s))
                × (any (λ key. str_eq key capability_key) agent.capability_keys ≡ true)
                × (enabled_agent (get agent_id s.tables.agents) ≡ true)
                × (is_stopped service agent_id capability_key s.tables ≡ false)
                × (latest_configuration agent_id capability_key s.tables.ops ≡ some c))
      go false b d o ea eb ed eo = inl (unavailable, refl)
      go true false d o ea eb ed eo = inl (unavailable, refl)
      go true true true o ea eb ed eo = inl (unavailable, refl)
      go true true false none ea eb ed eo = inl (unavailable, refl)
      go true true false (some c) ea eb ed eo = inr (c, refl, ea, eb, ed, eo)

  pub key_or_default-cases :
      (asked : Option String) (agent_id : String) (s : State)
      → ((e : RunError) × (key_or_default service asked agent_id s ≡ (err e, s)))
        ⊎ ((key : String) × (key_or_default service asked agent_id s ≡ (ok key, s))
            × IsKey asked agent_id key)
  unfolding key_or_default
  key_or_default-cases (some asked) agent_id s = inr (asked, refl, refl)
  key_or_default-cases none agent_id s = go (agent_of service.registry agent_id) refl
    where
      read : Option Agent → Run String
      read o = required unknown_agent o >>= λ agent. ret agent.default_capability_key

      go :
          (o : Option Agent)
          → agent_of service.registry agent_id ≡ o
          → ((e : RunError) × (read o s ≡ (err e, s)))
            ⊎ ((key : String) × (read o s ≡ (ok key, s)) × IsKey none agent_id key)
      go none e = inl (unknown_agent, refl)
      go (some agent) e = inr (agent.default_capability_key, refl, (agent, e, refl))

  bind_eq :
      {A B : Type 0} (m : Run A) (k : A → Run B) (s : State) (out : Result RunError A × State)
      → m s ≡ out
      → (m >>= k) s ≡ proceed out.0 k out.1
  bind_eq m k s out e = ap (λ o. proceed o.0 k o.1) e

  -- The checks of `validate_run` under the id that it resolved, on the agent that was found.
  check_agent : String → String → Option Agent → Run (Agent × AgentConfiguration)
  check_agent canonical key o = required unknown_agent o >>= λ agent.
      require_ready service canonical (text_or (some key) agent.default_capability_key) agent
      >>= λ configuration. ret (agent, configuration)

  check_agent-cases :
      (canonical key : String) (s : State) (o : Option Agent)
      → agent_of service.registry canonical ≡ o
      → ((e : RunError) × (check_agent canonical key o s ≡ (err e, s)))
        ⊎ ((agent : Agent) × (c : AgentConfiguration) × (check_agent canonical key o s
              ≡ (ok (agent, c), s))
            × IsAllowed canonical (text_or (some key) agent.default_capability_key) agent s.tables)
  unfolding check_agent
  check_agent-cases canonical key s none e = inl (unknown_agent, refl)
  check_agent-cases canonical key s (some agent) e =
      let checked = text_or (some key) agent.default_capability_key in
      let ready = require_ready service canonical checked agent in
      let pair : AgentConfiguration → Run (Agent × AgentConfiguration) = λ c. ret (agent, c) in
      elim (require_ready-cases canonical checked agent s) [
        | inl (error, stays) ↦ inl (error, bind_eq ready pair s _ stays)
        | inr (c, stays, loaded, persisted, unstopped, configured) ↦ inr (
          agent,
          c,
          bind_eq ready pair s _ stays,
          record {
            configuration = c;
            registered = e;
            loaded = loaded;
            persisted = enabled_agent-is_enabled (get canonical s.tables.agents) persisted;
            running = (is_stopped-switches canonical checked s.tables unstopped).0;
            agent_running = (is_stopped-switches canonical checked s.tables unstopped).1;
            capability_running = (is_stopped-switches canonical checked s.tables unstopped).2;
            configured = configured;
          },
        )
      ]

  pub validate_run-cases :
      (agent_id key : String) (s : State)
      → let canonical = canonical_id service.registry agent_id in
        ((e : RunError) × (validate_run service agent_id key s ≡ (err e, s)))
        ⊎ ((agent : Agent) × (c : AgentConfiguration) × (validate_run service agent_id key s
              ≡ (ok (agent, c), s))
            × IsAllowed canonical (text_or (some key) agent.default_capability_key) agent s.tables)
  unfolding validate_run check_agent
  validate_run-cases agent_id key s =
      check_agent-cases (canonical_id service.registry agent_id) key s
        (agent_of service.registry (canonical_id service.registry agent_id)) refl
