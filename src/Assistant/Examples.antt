-- ===== src/Assistant/Examples.antt =====
-- The proposals for a family whose input mentions one game.
use manaai.Prelude.{◌≡◌, refl, ◌⊎◌, none, List, [], ◌∷◌, String, true, false, All}
use manaai.Assistant.Model.{
  adaptive_screen_time, notify_parent, propose_geofence, Action, kind_of, limit_change,
  app_restriction, plain, application, Value, model, app_usage, sequence, scalar, nothing, item,
  other_model, ManaAiRequest,
}
use manaai.Assistant.Targets.{action_target_is_known}
use manaai.Assistant.Policy.{is_allowed, filter_actions}
use manaai.Assistant.Accepted.{IsAcceptable, IsDistinct, is_among, filter_actions_lem}

abbrev serialize : Action → String
serialize (limit_change target_kind target rest) = rest
serialize (app_restriction package_name rest) = rest
serialize (plain kind rest) = rest
serialize _ = "other"

abbrev request : ManaAiRequest
request = record {
  request_id = "r1";
  capability = adaptive_screen_time;
  allowed_action_kinds = none;
  input =
      model other_model
        (item (sequence (item (model (app_usage "chess" "games") nothing) nothing)) nothing);
}

abbrev proposed : List Action
proposed =
    limit_change application "chess" "a"
    ∷ app_restriction "poker" "b"
    ∷ plain propose_geofence "c"
    ∷ plain notify_parent "a"
    ∷ []

-- The first is kept; the target of the second is unknown, the third is not allowed, and the fourth is
-- written like the first.
keeps_first : filter_actions serialize request proposed ≡ limit_change application "chess" "a" ∷ []
unfolding filter_actions manaai.Assistant.Targets.action_target_is_known
    manaai.Assistant.Policy.check manaai.Assistant.Model.kind_of
    manaai.Assistant.Targets.collect_app_targets
keeps_first = refl

filter_actions_lem_example :
    let accepted = filter_actions serialize request proposed in
    All (IsAcceptable request) accepted
    × IsDistinct serialize accepted
    × All
        (λ action.
          (is_among serialize action accepted ≡ true)
          ⊎ ((is_allowed request (kind_of action) ≡ false)
              ⊎ (action_target_is_known request.input action ≡ false)))
        proposed
filter_actions_lem_example = filter_actions_lem serialize request proposed
