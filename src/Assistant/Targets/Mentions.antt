-- ===== src/Assistant/Targets/Mentions.antt =====
-- What is collected of an input is only what some model in it names.
use manaai.Prelude.{
  ◌≡◌, refl, ◌⊎◌, inl, inr, Option, none, some, List, [], ◌∷◌, ◌++◌, String, str_eq, eq_iff, Bool,
  true, false, arith, subst,
}
use manaai.Assistant.Model.{
  Signal, app_usage, app_limit, extra_time, preferences, other_model, Value, model, sequence,
  scalar, Values, nothing, item, Action, ActionKind, limit_change, app_restriction,
  temporary_access, extra_time_request, plain, application, category,
}
use manaai.Assistant.Targets.{
  Targets, contains, known_category, named, both, collect_app_targets, collect_all,
  action_target_is_known,
}

-- A model names a package.
pub data NamesPackage (p : String) : Signal → Type 0 where
  by_usage : {c : String} → NamesPackage p (app_usage p c)
  by_limit : {c : Option String} → NamesPackage p (app_limit (some p) c)
  by_request : NamesPackage p (extra_time p)
  by_allowed :
      {allowed blocked : List String}
      → contains p allowed ≡ true
      → NamesPackage p (preferences allowed blocked)
  by_blocked :
      {allowed blocked : List String}
      → contains p blocked ≡ true
      → NamesPackage p (preferences allowed blocked)

-- A model names a category, which is not the unknown one.
pub data NamesCategory (c : String) : Signal → Type 0 where
  by_category : {p : String} → str_eq c "unknown" ≡ false → NamesCategory c (app_usage p c)
  by_category_limit :
      {p : Option String} → str_eq c "unknown" ≡ false → NamesCategory c (app_limit p (some c))

-- Some model in a value, at whatever depth, names something.
mutual
  pub data Mentions (N : Signal → Type 0) : Value → Type 0 where
    by_model : {signal : Signal} {fields : Values} → N signal → Mentions N (model signal fields)
    by_field :
        {signal : Signal} {fields : Values} → MentionsIn N fields → Mentions N (model signal fields)
    by_item : {items : Values} → MentionsIn N items → Mentions N (sequence items)

  pub data MentionsIn (N : Signal → Type 0) : Values → Type 0 where
    first : {value : Value} {values : Values} → Mentions N value → MentionsIn N (item value values)
    further :
        {value : Value} {values : Values} → MentionsIn N values → MentionsIn N (item value values)

contains-append :
    (s : String) (xs ys : List String)
    → contains s (xs ++ ys) ≡ true
    → (contains s xs ≡ true) ⊎ (contains s ys ≡ true)
contains-append s [] ys h = inr h
contains-append s (x ∷ xs) ys h = ground (arith, contains-append s xs ys)

only : (s x : String) → contains s (x ∷ []) ≡ true → s ≡ x
only s x h = ground (arith, h, eq_iff s x)

named-package :
    (p : String) (signal : Signal)
    → contains p (named signal).packages ≡ true
    → NamesPackage p signal
unfolding named
named-package p (app_usage q c) h =
    subst (λ x. NamesPackage p (app_usage x c)) (only p q h) by_usage
named-package p (app_limit none c) h = ground (arith, h)
named-package p (app_limit (some q) c) h =
    subst (λ x. NamesPackage p (app_limit (some x) c)) (only p q h) by_limit
named-package p (extra_time q) h =
    subst (λ x. NamesPackage p (extra_time x)) (only p q h) by_request
named-package p (preferences allowed blocked) h = elim (contains-append p allowed blocked h) [
  | inl a ↦ by_allowed a
  | inr b ↦ by_blocked b
]
named-package p other_model h = ground (arith, h)

known :
    (c d : String) → contains c (known_category d) ≡ true → (c ≡ d) × (str_eq c "unknown" ≡ false)
known c d h = ground (arith, h, eq_iff c d, eq_iff d "unknown", eq_iff c "unknown")

named-category :
    (c : String) (signal : Signal)
    → contains c (named signal).categories ≡ true
    → NamesCategory c signal
unfolding named
named-category c (app_usage q d) h =
    let k = known c d h in subst (λ x. NamesCategory c (app_usage q x)) k.0 (by_category k.1)
named-category c (app_limit p none) h = ground (arith, h)
named-category c (app_limit p (some d)) h =
    let k = known c d h in
    subst (λ x. NamesCategory c (app_limit p (some x))) k.0 (by_category_limit k.1)
named-category c (extra_time q) h = ground (arith, h)
named-category c (preferences allowed blocked) h = ground (arith, h)
named-category c other_model h = ground (arith, h)

abbrev none_collected : Targets
none_collected = record { packages = []; categories = [] }

-- A test on the targets that passes on what a value collects passes on what some model in it names.
module _ (N : Signal → Type 0) (holds : Targets → Bool)
    (split : (a b : Targets) → holds (both a b) ≡ true → (holds a ≡ true) ⊎ (holds b ≡ true))
    (named-N : (signal : Signal) → holds (named signal) ≡ true → N signal)
    (empty : holds none_collected ≡ false) where
  mutual
    unfolding collect_app_targets collect_all

    collect-Mentions : (v : Value) → holds (collect_app_targets v) ≡ true → Mentions N v
    collect-Mentions (model signal fields) h = elim (split (named signal) (collect_all fields) h) [
      | inl a ↦ by_model (named-N signal a)
      | inr b ↦ by_field (collect-MentionsIn fields b)
    ]
    collect-Mentions (sequence items) h = by_item (collect-MentionsIn items h)
    collect-Mentions scalar h = ground (arith, h, empty)

    collect-MentionsIn : (vs : Values) → holds (collect_all vs) ≡ true → MentionsIn N vs
    collect-MentionsIn nothing h = ground (arith, h, empty)
    collect-MentionsIn (item v vs) h = elim (split (collect_app_targets v) (collect_all vs) h) [
      | inl a ↦ first (collect-Mentions v a)
      | inr b ↦ further (collect-MentionsIn vs b)
    ]

package-Mentions :
    (p : String) (v : Value)
    → contains p (collect_app_targets v).packages ≡ true
    → Mentions (NamesPackage p) v
package-Mentions p =
    collect-Mentions (NamesPackage p) (λ t. contains p t.packages)
      (λ a b. contains-append p a.packages b.packages) (named-package p) refl

category-Mentions :
    (c : String) (v : Value)
    → contains c (collect_app_targets v).categories ≡ true
    → Mentions (NamesCategory c) v
category-Mentions c =
    collect-Mentions (NamesCategory c) (λ t. contains c t.categories)
      (λ a b. contains-append c a.categories b.categories) (named-category c) refl

-- What an action is about, as the input has it.
pub data IsAbout (payload : Value) : Action → Type 0 where
  limits_application :
      {target rest : String}
      → Mentions (NamesPackage target) payload
      → IsAbout payload (limit_change application target rest)
  limits_category :
      {target rest : String}
      → Mentions (NamesCategory target) payload
      → IsAbout payload (limit_change category target rest)
  restricts :
      {package_name rest : String}
      → Mentions (NamesPackage package_name) payload
      → IsAbout payload (app_restriction package_name rest)
  gives_access :
      {package_name rest : String}
      → Mentions (NamesPackage package_name) payload
      → IsAbout payload (temporary_access package_name rest)
  asks_time :
      {package_name rest : String}
      → Mentions (NamesPackage package_name) payload
      → IsAbout payload (extra_time_request package_name rest)
  about_nothing : {kind : ActionKind} {rest : String} → IsAbout payload (plain kind rest)

pub known-About :
    (payload : Value) (action : Action)
    → action_target_is_known payload action ≡ true
    → IsAbout payload action
unfolding action_target_is_known
known-About payload (limit_change application target rest) h =
    limits_application (package-Mentions target payload h)
known-About payload (limit_change category target rest) h =
    limits_category (category-Mentions target payload h)
known-About payload (app_restriction p rest) h = restricts (package-Mentions p payload h)
known-About payload (temporary_access p rest) h = gives_access (package-Mentions p payload h)
known-About payload (extra_time_request p rest) h = asks_time (package-Mentions p payload h)
known-About payload (plain kind rest) h = about_nothing
