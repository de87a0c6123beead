-- ===== src/Policy/Registry.antt =====
-- `ActionPolicyRegistry` of action_policies.py, and the two evaluators that it is given.
use manaai.Prelude.{
  ◌≡◌, Option, none, some, String, false, is_some, if◌then◌else◌, arith, str_eq, eq_iff, ap, ◌∙◌,
}
use manaai.Prelude.Dict.{Dict, get, put, get-put}
use manaai.Prelude.Exec.{Result, ok, err}

-- `ValueError` of a second registration, `LookupError` of a family without an evaluator.
pub data RegistryError : Type 0 where
  already_registered not_registered : RegistryError

module _ {Evaluator : Type 0} where
  unfoldable pub register :
      String → Evaluator → Dict Evaluator → Result RegistryError (Dict Evaluator)
  unfolding get put
  register family evaluator evaluators =
      if is_some (get family evaluators)
      then err already_registered
      else ok (put family evaluator evaluators)

  unfoldable pub evaluator_of : String → Dict Evaluator → Result RegistryError Evaluator
  unfolding get
  evaluator_of family evaluators = elim (get family evaluators) [
    | none ↦ err not_registered
    | some evaluator ↦ ok evaluator
  ]

  register-added :
      (family : String) (evaluator : Evaluator) (before after : Dict Evaluator)
      → register family evaluator before ≡ ok after
      → after ≡ put family evaluator before
  unfolding register
  register-added family evaluator before after e = ground arith

  found_same :
      (family : String) (before after : Dict Evaluator)
      → get family before ≡ get family after
      → evaluator_of family before ≡ evaluator_of family after
  unfolding evaluator_of
  found_same family before after e =
      ap
        (λ (o : Option Evaluator). elim o [
          | none ↦ err not_registered
          | some evaluator ↦ ok evaluator
        ])
        e

  -- A registration that is accepted is what its family then finds, and leaves every other family's
  -- evaluator as it was; a second one for the family is refused.
  pub registered_once :
      (family other : String) (evaluator later : Evaluator) (before after : Dict Evaluator)
      → register family evaluator before ≡ ok after
      → str_eq family other ≡ false
      → (evaluator_of family after ≡ ok evaluator)
        × (evaluator_of other after ≡ evaluator_of other before)
        × (register family later after ≡ err already_registered)
  unfolding register evaluator_of
  registered_once family other evaluator later before after e d =
      let added = register-added family evaluator before after e in
      let mine : get family after ≡ some evaluator =
        ap (get family) added
        ∙ ground (arith, get-put family family evaluator before, eq_iff family family) in
      let theirs : get other after ≡ get other before =
        ap (get other) added ∙ ground (arith, get-put family other evaluator before, d) in
      (ground (arith, mine), found_same other after before theirs, ground (arith, mine))
