-- ===== src/Assistant/Accepted.antt =====
-- What `filter_actions` keeps, and what it drops.
use manaai.Prelude.{
  ◌≡◌, refl, ◌⊎◌, inl, inr, List, [], ◌∷◌, String, str_eq, eq_iff, Bool, true, false, map, All,
  arith, Bool-cases,
}
use manaai.Assistant.Model.{
  ManaAiCapability, safety_monitor, family_digest, adaptive_screen_time, location_intelligence,
  smart_content_filter, scam_privacy_shield, ai_gaming_safety, parent_copilot,
  child_safety_assistant, family_agreement, behaviour_anomaly, ActionKind, has_kind, Action,
  kind_of, ManaAiRequest,
}
use manaai.Assistant.Targets.{contains, action_target_is_known}
use manaai.Assistant.Targets.Mentions.{IsAbout, known-About}
use manaai.Assistant.Policy.{
  allowed_actions, response_kinds, parent_allows, is_allowed, Check, unsupported, unknown_target,
  repeated, fresh, check, seen_after, accept, filter_from, filter_actions,
}

allowed-response :
    (capability : ManaAiCapability) (kind : ActionKind)
    → has_kind (allowed_actions capability) kind ≡ true
    → has_kind (response_kinds capability) kind ≡ true
unfolding allowed_actions response_kinds
allowed-response safety_monitor kind h = h
allowed-response family_digest kind h = h
allowed-response adaptive_screen_time kind h = h
allowed-response location_intelligence kind h = h
allowed-response smart_content_filter kind h = h
allowed-response scam_privacy_shield kind h = h
allowed-response ai_gaming_safety kind h = h
allowed-response parent_copilot kind h = h
allowed-response child_safety_assistant kind h = h
allowed-response family_agreement kind h = h
allowed-response behaviour_anomaly kind h = h

-- An action that the response has room for, that the parent allows, and whose target is in the input.
pub record IsAcceptable (request : ManaAiRequest) (action : Action) : Type 0 where
  pub fits_response : has_kind (response_kinds request.capability) (kind_of action) ≡ true
  pub allowed_by_parent : parent_allows request.allowed_action_kinds (kind_of action) ≡ true
  pub about : IsAbout request.input action

module _ (serialize : Action → String) where
  -- No two actions of a list are written alike.
  abbrev pub IsDistinct : List Action → Type 0
  IsDistinct [] = Unit
  IsDistinct (action ∷ actions) =
      (contains (serialize action) (map serialize actions) ≡ false) × IsDistinct actions

  -- The action is written like one of the list.
  abbrev pub is_among : Action → List Action → Bool
  is_among action actions = contains (serialize action) (map serialize actions)

  module _ (request : ManaAiRequest) where
    fresh-facts :
        (seen : List String) (action : Action)
        → check serialize request seen action ≡ fresh
        → IsAcceptable request action × (contains (serialize action) seen ≡ false)
    unfolding check
    fresh-facts seen action h =
        let parts : (is_allowed request (kind_of action) ≡ true)
            × (action_target_is_known request.input action ≡ true)
            × (contains (serialize action) seen ≡ false) =
          ground arith in
        (
          record {
            fits_response =
                allowed-response request.capability (kind_of action) (ground (arith, parts.0));
            allowed_by_parent = ground (arith, parts.0);
            about = known-About request.input action parts.1;
          },
          parts.2,
        )

    -- The loop as a relation: an action is kept, with what it adds to what was seen, or dropped.
    pub data Filtered : List String → List Action → List Action → Type 0 where
      done : {seen : List String} → Filtered seen [] []
      keep :
          {action : Action} {actions accepted : List Action} {seen : List String}
          → check serialize request seen action ≡ fresh
          → Filtered (serialize action ∷ seen) actions accepted
          → Filtered seen (action ∷ actions) (action ∷ accepted)
      drop :
          {action : Action} {actions accepted : List Action} {seen : List String}
          → ((check serialize request seen action ≡ unsupported)
              ⊎ (check serialize request seen action ≡ unknown_target))
            ⊎ (check serialize request seen action ≡ repeated)
          → Filtered seen actions accepted
          → Filtered seen (action ∷ actions) accepted

    filter_from-Filtered :
        (actions : List Action) (seen : List String)
        → Filtered seen actions (filter_from serialize request seen actions)
    unfolding filter_from
    filter_from-Filtered [] seen = done
    filter_from-Filtered (action ∷ actions) seen =
        go (check serialize request seen action) refl (filter_from-Filtered actions)
      where
        go :
            (found : Check)
            → check serialize request seen action ≡ found
            → ((seen' : List String)
                → Filtered seen' actions (filter_from serialize request seen' actions))
            → Filtered seen (action ∷ actions) (
                accept serialize found action
                  (filter_from serialize request (seen_after serialize found seen action) actions))
        go unsupported e rest = drop (inl (inl e)) (rest seen)
        go unknown_target e rest = drop (inl (inr e)) (rest seen)
        go repeated e rest = drop (inr e) (rest seen)
        go fresh e rest = keep e (rest (serialize action ∷ seen))

    -- What was seen is not accepted again.
    unseen :
        (s : String) (seen : List String) (actions accepted : List Action)
        → Filtered seen actions accepted
        → contains s seen ≡ true
        → contains s (map serialize accepted) ≡ false
    unseen s seen _ _ done h = refl
    unseen s _ _ _ (keep {action} {actions} {accepted} {seen} e f) h = ground (
      arith,
      h,
      (fresh-facts seen action e).1,
      unseen s (serialize action ∷ seen) actions accepted f,
      eq_iff s (serialize action),
    )
    unseen s _ _ _ (drop {action} {actions} {accepted} {seen} e f) h =
        unseen s seen actions accepted f h

    accepted-Distinct :
        (seen : List String) (actions accepted : List Action)
        → Filtered seen actions accepted
        → IsDistinct accepted
    accepted-Distinct seen _ _ done = tt
    accepted-Distinct _ _ _ (keep {action} {actions} {accepted} {seen} e f) = (
      unseen (serialize action) (serialize action ∷ seen) actions accepted f
          (ground (arith, eq_iff (serialize action) (serialize action))),
      accepted-Distinct (serialize action ∷ seen) actions accepted f,
    )
    accepted-Distinct _ _ _ (drop {action} {actions} {accepted} {seen} e f) =
        accepted-Distinct seen actions accepted f

    accepted-Acceptable :
        (seen : List String) (actions accepted : List Action)
        → Filtered seen actions accepted
        → All (IsAcceptable request) accepted
    accepted-Acceptable seen _ _ done = tt
    accepted-Acceptable _ _ _ (keep {action} {actions} {accepted} {seen} e f) = (
      (fresh-facts seen action e).0,
      accepted-Acceptable (serialize action ∷ seen) actions accepted f,
    )
    accepted-Acceptable _ _ _ (drop {action} {actions} {accepted} {seen} e f) =
        accepted-Acceptable seen actions accepted f

    -- An action is written like an accepted one, or is not allowed, or has a target that the input
    -- does not have; `seen` is what was accepted before.
    abbrev pub IsAnswered : List String → List Action → Action → Type 0
    IsAnswered seen accepted action =
        ((contains (serialize action) seen ≡ true) ⊎ (is_among action accepted ≡ true))
        ⊎ ((is_allowed request (kind_of action) ≡ false)
            ⊎ (action_target_is_known request.input action ≡ false))

    dropped-facts :
        (seen : List String) (accepted : List Action) (action : Action)
        → ((check serialize request seen action ≡ unsupported)
            ⊎ (check serialize request seen action ≡ unknown_target))
          ⊎ (check serialize request seen action ≡ repeated)
        → IsAnswered seen accepted action
    unfolding check
    dropped-facts seen accepted action (inl (inl e)) = ground arith
    dropped-facts seen accepted action (inl (inr e)) = ground arith
    dropped-facts seen accepted action (inr e) = ground arith

    -- What is answered after an acceptance is answered before it.
    one-IsAnswered_before :
        (seen : List String) (action : Action) (accepted : List Action) (other : Action)
        → IsAnswered (serialize action ∷ seen) accepted other
        → IsAnswered seen (action ∷ accepted) other
    one-IsAnswered_before seen action accepted other (inl (inl h)) =
        elim (Bool-cases (str_eq (serialize other) (serialize action))) [
          | inl e ↦ inl (inr (ground (arith, e)))
          | inr e ↦ inl (inl (ground (arith, h, e)))
        ]
    one-IsAnswered_before seen action accepted other (inl (inr h)) = inl (inr (ground (arith, h)))
    one-IsAnswered_before seen action accepted other (inr h) = inr h

    IsAnswered-before :
        (seen : List String) (action : Action) (accepted actions : List Action)
        → All (IsAnswered (serialize action ∷ seen) accepted) actions
        → All (IsAnswered seen (action ∷ accepted)) actions
    IsAnswered-before seen action accepted [] a = tt
    IsAnswered-before seen action accepted (other ∷ actions) a = (
      one-IsAnswered_before seen action accepted other a.0,
      IsAnswered-before seen action accepted actions a.1,
    )

    All-IsAnswered :
        (seen : List String) (actions accepted : List Action)
        → Filtered seen actions accepted
        → All (IsAnswered seen accepted) actions
    All-IsAnswered seen _ _ done = tt
    All-IsAnswered _ _ _ (keep {action} {actions} {accepted} {seen} e f) = (
      inl (inr (ground (arith, eq_iff (serialize action) (serialize action)))),
      IsAnswered-before seen action accepted actions
          (All-IsAnswered (serialize action ∷ seen) actions accepted f),
    )
    All-IsAnswered _ _ _ (drop {action} {actions} {accepted} {seen} e f) =
        (dropped-facts seen accepted action e, All-IsAnswered seen actions accepted f)

  -- What the filter keeps fits the response type of the capability, is allowed by the parent, and
  -- names only applications and categories that the input mentions; no two of the kept actions are
  -- written alike; and of every proposed action a like one is kept, unless its kind is not allowed or
  -- its target is unknown.
  pub filter_actions_lem :
      (request : ManaAiRequest) (actions : List Action)
      → let accepted = filter_actions serialize request actions in
        All (IsAcceptable request) accepted
        × IsDistinct accepted
        × All
            (λ action.
              (is_among action accepted ≡ true)
              ⊎ ((is_allowed request (kind_of action) ≡ false)
                  ⊎ (action_target_is_known request.input action ≡ false)))
            actions
  unfolding filter_actions
  filter_actions_lem request actions =
      let accepted = filter_from serialize request [] actions in
      let f = filter_from-Filtered request actions [] in
      (
        accepted-Acceptable request [] actions accepted f,
        accepted-Distinct request [] actions accepted f,
        answered request accepted actions (All-IsAnswered request [] actions accepted f),
      )
    where
      answered :
          (request : ManaAiRequest) (accepted actions : List Action)
          → All (IsAnswered request [] accepted) actions
          → All
              (λ action.
                (is_among action accepted ≡ true)
                ⊎ ((is_allowed request (kind_of action) ≡ false)
                    ⊎ (action_target_is_known request.input action ≡ false)))
              actions
      answered request accepted [] a = tt
      answered request accepted (action ∷ actions) a =
          (ground (arith, a.0), answered request accepted actions a.1)
