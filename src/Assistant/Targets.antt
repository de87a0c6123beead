-- ===== src/Assistant/Targets.antt =====
-- `_collect_app_targets` and `_action_target_is_known` of policy.py.
pub mod Mentions
use manaai.Prelude.{
  ◌≡◌, refl, ◌⊎◌, inl, inr, Option, none, some, List, [], ◌∷◌, ◌++◌, String, str_eq, eq_iff, Bool,
  true, false, any, if◌then◌else◌, arith, subst,
}
use manaai.Assistant.Model.{
  Signal, app_usage, app_limit, extra_time, preferences, other_model, Value, model, sequence,
  scalar, Values, nothing, item, Action, ActionKind, limit_change, app_restriction,
  temporary_access, extra_time_request, plain, application, category,
}

pub record Targets : Type 0 where
  pub packages : List String
  pub categories : List String

abbrev pub contains : String → List String → Bool
contains s = any (λ t. str_eq s t)

abbrev pub known_category : String → List String
known_category c = if str_eq c "unknown" then [] else c ∷ []

abbrev if_given : (String → List String) → Option String → List String
if_given f none = []
if_given f (some s) = f s

-- What one model names.
unfoldable pub named : Signal → Targets
named (app_usage package_name c) = record {
  packages = package_name ∷ [];
  categories = known_category c;
}
named (app_limit package_name c) = record {
  packages = if_given (λ p. p ∷ []) package_name;
  categories = if_given known_category c;
}
named (extra_time package_name) = record { packages = package_name ∷ []; categories = [] }
named (preferences allowed blocked) = record { packages = allowed ++ blocked; categories = [] }
named other_model = record { packages = []; categories = [] }

abbrev pub both : Targets → Targets → Targets
both a b = record { packages = a.packages ++ b.packages; categories = a.categories ++ b.categories }

unfoldable mutual
  unfolding named

  pub collect_app_targets : Value → Targets
  collect_app_targets (model signal fields) = both (named signal) (collect_all fields)
  collect_app_targets (sequence items) = collect_all items
  collect_app_targets scalar = record { packages = []; categories = [] }

  pub collect_all : Values → Targets
  collect_all nothing = record { packages = []; categories = [] }
  collect_all (item value values) = both (collect_app_targets value) (collect_all values)

unfoldable pub action_target_is_known : Value → Action → Bool
action_target_is_known payload (limit_change application target rest) =
    contains target (collect_app_targets payload).packages
action_target_is_known payload (limit_change category target rest) =
    contains target (collect_app_targets payload).categories
action_target_is_known payload (app_restriction package_name rest) =
    contains package_name (collect_app_targets payload).packages
action_target_is_known payload (temporary_access package_name rest) =
    contains package_name (collect_app_targets payload).packages
action_target_is_known payload (extra_time_request package_name rest) =
    contains package_name (collect_app_targets payload).packages
action_target_is_known payload (plain kind rest) = true
