-- ===== src/Assistant/Policy.antt =====
-- The tables, `execution_policy`, `filter_actions` and `build_action_proposals` of policy.py.
use manaai.Prelude.{
  Option, none, some, List, [], ◌∷◌, ◌++◌, String, Bool, true, false, not, ◌&&◌, map, if◌then◌else◌,
}
use manaai.Assistant.Model.{
  ManaAiCapability, safety_monitor, family_digest, adaptive_screen_time, location_intelligence,
  smart_content_filter, scam_privacy_shield, ai_gaming_safety, parent_copilot,
  child_safety_assistant, family_agreement, behaviour_anomaly, ActionKind, notify_parent,
  warn_child, request_check_in, propose_limit_change, propose_study_mode, propose_geofence,
  propose_app_restriction, propose_temporary_access, generate_family_report, propose_resource_block,
  contact_parent, submit_extra_time_request, submit_incident_report, propose_agreement_update,
  has_kind, ExecutionPolicy, information_only, application_policy_required,
  parent_confirmation_required, Action, kind_of, ManaAiRequest,
}
use manaai.Assistant.Targets.{contains, action_target_is_known}

pub parent_confirmation_actions : List ActionKind
parent_confirmation_actions =
    propose_limit_change ∷ propose_study_mode ∷ propose_geofence ∷ propose_app_restriction
    ∷ propose_temporary_access ∷ propose_agreement_update ∷ []

-- `ALLOWED_ACTIONS`.
unfoldable pub allowed_actions : ManaAiCapability → List ActionKind
allowed_actions safety_monitor =
    notify_parent ∷ warn_child ∷ request_check_in ∷ propose_resource_block ∷ contact_parent
    ∷ submit_incident_report ∷ []
allowed_actions family_digest = notify_parent ∷ request_check_in ∷ generate_family_report ∷ []
allowed_actions adaptive_screen_time =
    notify_parent ∷ warn_child ∷ propose_limit_change ∷ propose_study_mode ∷ propose_app_restriction
    ∷ propose_temporary_access ∷ []
allowed_actions location_intelligence = notify_parent ∷ request_check_in ∷ propose_geofence ∷ []
allowed_actions smart_content_filter = notify_parent ∷ warn_child ∷ propose_resource_block ∷ []
allowed_actions scam_privacy_shield =
    notify_parent ∷ warn_child ∷ propose_resource_block ∷ contact_parent ∷ submit_incident_report
    ∷ []
allowed_actions ai_gaming_safety =
    notify_parent ∷ warn_child ∷ propose_limit_change ∷ propose_app_restriction ∷ []
allowed_actions parent_copilot =
    propose_limit_change ∷ propose_study_mode ∷ propose_geofence ∷ propose_app_restriction
    ∷ propose_temporary_access ∷ generate_family_report ∷ []
allowed_actions child_safety_assistant =
    warn_child ∷ contact_parent ∷ submit_extra_time_request ∷ submit_incident_report ∷ []
allowed_actions family_agreement = propose_agreement_update ∷ submit_extra_time_request ∷ []
allowed_actions behaviour_anomaly = notify_parent ∷ warn_child ∷ request_check_in ∷ []

unfoldable pub execution_policy : ActionKind → ExecutionPolicy
execution_policy kind =
    if has_kind parent_confirmation_actions kind
    then parent_confirmation_required
    else if has_kind (generate_family_report ∷ []) kind
    then information_only
    else application_policy_required

-- The kinds of the actions that the response type of a capability has.
unfoldable pub response_kinds : ManaAiCapability → List ActionKind
response_kinds safety_monitor =
    notify_parent ∷ warn_child ∷ request_check_in ∷ propose_resource_block ∷ contact_parent
    ∷ submit_incident_report ∷ []
response_kinds family_digest = notify_parent ∷ request_check_in ∷ generate_family_report ∷ []
response_kinds adaptive_screen_time =
    notify_parent ∷ warn_child ∷ propose_limit_change ∷ propose_study_mode ∷ propose_app_restriction
    ∷ propose_temporary_access ∷ []
response_kinds location_intelligence = notify_parent ∷ request_check_in ∷ propose_geofence ∷ []
response_kinds smart_content_filter = notify_parent ∷ warn_child ∷ propose_resource_block ∷ []
response_kinds scam_privacy_shield =
    notify_parent ∷ warn_child ∷ propose_resource_block ∷ contact_parent ∷ submit_incident_report
    ∷ []
response_kinds ai_gaming_safety =
    notify_parent ∷ warn_child ∷ propose_limit_change ∷ propose_app_restriction ∷ []
response_kinds parent_copilot =
    propose_limit_change ∷ propose_study_mode ∷ propose_geofence ∷ propose_app_restriction
    ∷ propose_temporary_access ∷ generate_family_report ∷ []
response_kinds child_safety_assistant =
    warn_child ∷ contact_parent ∷ submit_extra_time_request ∷ submit_incident_report ∷ []
response_kinds family_agreement = propose_agreement_update ∷ submit_extra_time_request ∷ []
response_kinds behaviour_anomaly = notify_parent ∷ warn_child ∷ request_check_in ∷ []

-- A list of the parent that is empty allows every kind of the capability.
abbrev pub parent_allows : Option (List ActionKind) → ActionKind → Bool
parent_allows none kind = true
parent_allows (some []) kind = true
parent_allows (some (k ∷ kinds)) kind = has_kind (k ∷ kinds) kind

abbrev pub is_allowed : ManaAiRequest → ActionKind → Bool
is_allowed request kind =
    has_kind (allowed_actions request.capability) kind
    && parent_allows request.allowed_action_kinds kind

-- What the loop finds of one action.
pub data Check : Type 0 where
  unsupported unknown_target repeated fresh : Check

module _ (serialize : Action → String) where
  unfoldable pub check : ManaAiRequest → List String → Action → Check
  unfolding allowed_actions
  check request seen action =
      if not (is_allowed request (kind_of action))
      then unsupported
      else if not (action_target_is_known request.input action)
      then unknown_target
      else if contains (serialize action) seen
      then repeated
      else fresh

  abbrev pub seen_after : Check → List String → Action → List String
  seen_after fresh seen action = serialize action ∷ seen
  seen_after _ seen action = seen

  abbrev pub accept : Check → Action → List Action → List Action
  accept fresh action rest = action ∷ rest
  accept _ action rest = rest

  -- The loop of `filter_actions`, for what it accepts.
  unfoldable pub filter_from : ManaAiRequest → List String → List Action → List Action
  filter_from request seen [] = []
  filter_from request seen (action ∷ actions) =
      let found = check request seen action in
      accept found action (filter_from request (seen_after found seen action) actions)

  unfoldable pub filter_actions : ManaAiRequest → List Action → List Action
  unfolding filter_from
  filter_actions request actions = filter_from request [] actions

  abbrev note : Check → ActionKind → List ActionKind
  note unsupported kind = kind ∷ []
  note unknown_target kind = kind ∷ []
  note _ kind = []

  -- The kinds in the notes, in their order.
  unfoldable pub noted_kinds : ManaAiRequest → List String → List Action → List ActionKind
  unfolding check
  noted_kinds request seen [] = []
  noted_kinds request seen (action ∷ actions) =
      let found = check request seen action in
      note found (kind_of action) ++ noted_kinds request (seen_after found seen action) actions

pub record ManaAiActionProposal : Type 0 where
  pub proposal_id : String
  pub action : Action
  pub execution_policy : ExecutionPolicy
  pub requires_parent_confirmation : Bool

abbrev pub is_confirmation : ExecutionPolicy → Bool
is_confirmation parent_confirmation_required = true
is_confirmation _ = false

-- `stable_id` is the digest of the request's id and the serialized action.
unfoldable pub build_action_proposals :
    (String → Action → String) → String → List Action → List ManaAiActionProposal
unfolding execution_policy
build_action_proposals stable_id request_id = map (λ action. record {
  proposal_id = stable_id request_id action;
  action = action;
  execution_policy = execution_policy (kind_of action);
  requires_parent_confirmation = is_confirmation (execution_policy (kind_of action));
})
