-- ===== src/Policy/Model.antt =====
-- app/mana_operation_ai/domain/models.py: the recommendations that the policies judge, their typed
-- parameters with the validators, and the configurations. An amount of money counts units of a
-- fixed decimal fraction, a confidence or a factor counts units of another; texts that nothing tests
-- are left out.
use manaai.Prelude.{ℕ, Option, none, some, List, String, str_eq, Bool, true, false, not, ◌&&◌, ltb}
use manaai.Prelude.Dict.{Dict}

pub data ActionType : Type 0 where
  increase_budget decrease_budget pause resume scale_audience disable_audience : ActionType
  maintain observe propose_test : ActionType

pub data GrowthActionType : Type 0 where
  create_experiment stop_experiment : GrowthActionType

pub data OperationalActionType : Type 0 where
  advertising : ActionType → OperationalActionType
  growth : GrowthActionType → OperationalActionType

unfoldable pub action_value : ActionType → String
action_value increase_budget = "increase_budget"
action_value decrease_budget = "decrease_budget"
action_value pause = "pause"
action_value resume = "resume"
action_value scale_audience = "scale_audience"
action_value disable_audience = "disable_audience"
action_value maintain = "maintain"
action_value observe = "observe"
action_value propose_test = "propose_test"

abbrev growth_value : GrowthActionType → String
growth_value create_experiment = "create_experiment"
growth_value stop_experiment = "stop_experiment"

-- The value of a member of `ActionType | GrowthActionType`, by which the members are compared.
unfoldable pub value : OperationalActionType → String
unfolding action_value
value (advertising action) = action_value action
value (growth action) = growth_value action

pub data BudgetKind : Type 0 where
  increase decrease : BudgetKind

pub record BudgetActionParameters : Type 0 where
  pub kind : BudgetKind
  pub currency : String
  pub current_daily_budget : ℕ
  pub proposed_daily_budget : ℕ

pub data StatusKind : Type 0 where
  pauses resumes : StatusKind

pub record StatusActionParameters : Type 0 where
  pub kind : StatusKind
  pub current_status : String
  pub proposed_status : String

pub data AudienceKind : Type 0 where
  scales disables : AudienceKind

pub record AudienceActionParameters : Type 0 where
  pub kind : AudienceKind
  pub audience_id : String
  pub current_status : String
  pub proposed_status : String
  pub budget_change : Option BudgetActionParameters

pub data NoChangeKind : Type 0 where
  maintains observes : NoChangeKind

pub record CreateExperimentActionParameters : Type 0 where
  pub experiment_key : String
  pub allocation_percent : ℕ
  pub duration_days : ℕ

pub record StopExperimentActionParameters : Type 0 where
  pub experiment_key : String
  pub current_status : String

pub data ActionParameters : Type 0 where
  budget : BudgetActionParameters → ActionParameters
  status : StatusActionParameters → ActionParameters
  audience : AudienceActionParameters → ActionParameters
  no_change : NoChangeKind → ActionParameters
  test_proposal : ActionParameters
  create : CreateExperimentActionParameters → ActionParameters
  stop : StopExperimentActionParameters → ActionParameters

-- `parameters.kind`.
unfoldable pub kind_of : ActionParameters → OperationalActionType
kind_of (budget p) = elim p.kind [
  | increase ↦ advertising increase_budget
  | decrease ↦ advertising decrease_budget
]
kind_of (status p) = elim p.kind [ pauses ↦ advertising pause | resumes ↦ advertising resume ]
kind_of (audience p) = elim p.kind [
  | scales ↦ advertising scale_audience
  | disables ↦ advertising disable_audience
]
kind_of (no_change maintains) = advertising maintain
kind_of (no_change observes) = advertising observe
kind_of test_proposal = advertising propose_test
kind_of (create p) = growth create_experiment
kind_of (stop p) = growth stop_experiment

-- `validate_direction`, and the bounds of the fields.
unfoldable pub validate_direction : BudgetActionParameters → Bool
validate_direction p = ltb 0 p.proposed_daily_budget && elim p.kind [
  | increase ↦ ltb p.current_daily_budget p.proposed_daily_budget
  | decrease ↦ ltb p.proposed_daily_budget p.current_daily_budget
]

module _ (upper : String → String) where
  -- `validate_status_change`.
  unfoldable pub validate_status_change : StatusActionParameters → Bool
  validate_status_change p =
      let required : String = elim p.kind [ pauses ↦ "PAUSED" | resumes ↦ "ACTIVE" ] in
      str_eq (upper p.proposed_status) required && not (str_eq (upper p.current_status) required)

  abbrev carries_increase : AudienceKind → Option BudgetActionParameters → Bool
  carries_increase kind none = true
  carries_increase scales (some change) = elim change.kind [
    | increase ↦ validate_direction change
    | decrease ↦ false
  ]
  carries_increase disables (some change) = false

  -- `validate_audience_change`.
  unfoldable pub validate_audience_change : AudienceActionParameters → Bool
  unfolding validate_direction
  validate_audience_change p =
      let required : String = elim p.kind [ scales ↦ "ACTIVE" | disables ↦ "PAUSED" ] in
      str_eq (upper p.proposed_status) required && carries_increase p.kind p.budget_change

  -- What the validators of the parameters together let pass.
  unfoldable pub validate_parameters : ActionParameters → Bool
  unfolding validate_direction validate_status_change validate_audience_change
  validate_parameters (budget p) = validate_direction p
  validate_parameters (status p) = validate_status_change p
  validate_parameters (audience p) = validate_audience_change p
  validate_parameters _ = true

pub record Recommendation : Type 0 where
  pub recommendation_id : ℕ
  pub run_id : ℕ
  pub object_type : String
  pub provider_object_id : String
  pub capability_key : String
  pub action_family : String
  pub action_type : OperationalActionType
  pub parameters : ActionParameters
  pub confidence : ℕ
  pub expires_at : ℕ
  pub created_at : ℕ

-- `validate_action_parameters`, with the validators of the parameters.
unfoldable pub validate_action_parameters : (String → String) → Recommendation → Bool
unfolding kind_of value validate_parameters
validate_action_parameters upper r =
    str_eq (value (kind_of r.parameters)) (value r.action_type)
    && validate_parameters upper r.parameters

pub record ActionPolicyConfiguration : Type 0 where
  pub minimum_confidence : ℕ
  pub maximum_budget_increase_factor : ℕ
  pub maximum_budget_decrease : ℕ
  pub maximum_absolute_daily_budget_change : ℕ
  pub cooldown_hours : ℕ
  pub allowed_action_types : List String
  pub approval_required : Dict Bool
  pub allowed_currencies : List String
  pub minimum_daily_budget_by_currency : Dict ℕ

pub data ExperimentMode : Type 0 where
  shadow sandbox : ExperimentMode

-- `GrowthFunnelConfiguration`, less what its policy does not read.
pub record GrowthFunnelConfiguration : Type 0 where
  pub minimum_completeness : ℕ
  pub experiment_mode : ExperimentMode
  pub experiment_allocation_percent : ℕ
