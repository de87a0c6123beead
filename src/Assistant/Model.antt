-- ===== src/Assistant/Model.antt =====
-- The kinds, the actions and the input of a request (app/mana_ai/domain/enums.py, responses.py,
-- requests.py and signals.py). Of an action only what the policy reads is a field of its own; `rest`
-- stands for all the others.
use manaai.Prelude.{ℕ, Option, List, String, Bool, ◌==◌, any}

pub data ManaAiCapability : Type 0 where
  safety_monitor family_digest adaptive_screen_time location_intelligence : ManaAiCapability
  smart_content_filter scam_privacy_shield ai_gaming_safety parent_copilot : ManaAiCapability
  child_safety_assistant family_agreement behaviour_anomaly : ManaAiCapability

pub data ActionKind : Type 0 where
  notify_parent warn_child request_check_in propose_limit_change propose_study_mode : ActionKind
  propose_geofence propose_app_restriction propose_temporary_access : ActionKind
  generate_family_report propose_resource_block contact_parent : ActionKind
  submit_extra_time_request submit_incident_report propose_agreement_update : ActionKind

abbrev kind_index : ActionKind → ℕ
kind_index notify_parent = 0
kind_index warn_child = 1
kind_index request_check_in = 2
kind_index propose_limit_change = 3
kind_index propose_study_mode = 4
kind_index propose_geofence = 5
kind_index propose_app_restriction = 6
kind_index propose_temporary_access = 7
kind_index generate_family_report = 8
kind_index propose_resource_block = 9
kind_index contact_parent = 10
kind_index submit_extra_time_request = 11
kind_index submit_incident_report = 12
kind_index propose_agreement_update = 13

abbrev pub same_kind : ActionKind → ActionKind → Bool
same_kind a b = kind_index a == kind_index b

abbrev pub has_kind : List ActionKind → ActionKind → Bool
has_kind kinds kind = any (same_kind kind) kinds

pub data ExecutionPolicy : Type 0 where
  information_only application_policy_required parent_confirmation_required : ExecutionPolicy

pub data TargetKind : Type 0 where
  application category : TargetKind

-- `LimitChangeAction`; the three actions on one application; all the others.
pub data Action : Type 0 where
  limit_change : (target_kind : TargetKind) (target : String) (rest : String) → Action
  app_restriction temporary_access extra_time_request :
      (package_name : String) (rest : String) → Action
  plain : ActionKind → (rest : String) → Action

unfoldable pub kind_of : Action → ActionKind
kind_of (limit_change target_kind target rest) = propose_limit_change
kind_of (app_restriction package_name rest) = propose_app_restriction
kind_of (temporary_access package_name rest) = propose_temporary_access
kind_of (extra_time_request package_name rest) = submit_extra_time_request
kind_of (plain kind rest) = kind

-- What a model of the input itself names; `category` is the value of the enumeration.
pub data Signal : Type 0 where
  app_usage : (package_name category : String) → Signal
  app_limit : (package_name category : Option String) → Signal
  extra_time : (package_name : String) → Signal
  preferences : (allowed_applications blocked_applications : List String) → Signal
  other_model : Signal

-- A value of the input: a model with the values of its fields, a list or a tuple, or anything else.
mutual
  pub data Value : Type 0 where
    model : Signal → Values → Value
    sequence : Values → Value
    scalar : Value

  pub data Values : Type 0 where
    nothing : Values
    item : Value → Values → Values

-- `ManaAIRequest`; the kinds that a parent allows are those of a `ParentCopilotInput`.
pub record ManaAiRequest : Type 0 where
  pub request_id : String
  pub capability : ManaAiCapability
  pub allowed_action_kinds : Option (List ActionKind)
  pub input : Value
