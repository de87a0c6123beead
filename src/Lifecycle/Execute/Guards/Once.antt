-- ===== src/Lifecycle/Execute/Guards/Once.antt =====
-- What a run sends to a provider: nothing, or one proposal under a condition.
use manaai.Prelude.{
  ◌≡◌, refl, ap, ◌∙◌, ◌⊎◌, inl, inr, Option, none, some, List, [], ◌∷◌, ◌++◌, Bool, true, false,
  if◌then◌else◌,
}
use manaai.Prelude.Exec.{Result, ok, err, ensure, proceed, ◌>>=◌, ◌>>◌}
use manaai.Lifecycle.Model.{ActionProposal}
use manaai.Lifecycle.Store.{LifecycleError}
use manaai.Lifecycle.Service.{State, Run, required}

-- What a run from `s` sent by its end: nothing, or the proposal once, and that only if `P`.
abbrev pub Sends : Type 0 → ActionProposal → State → State → Type 0
Sends P proposal s s' = (s'.sent ≡ s.sent) ⊎ (s'.sent ≡ s.sent ++ proposal ∷ []) × P

-- A first part that sends nothing, and a rest that may.
pub Sends->>= :
    {A B : Type 0} (P : Type 0) (proposal : ActionProposal) (m : Run A) (k : A → Run B) (s : State)
    → (m s).1.sent ≡ s.sent
    → ((a : A) → (m s).0 ≡ ok a → Sends P proposal (m s).1 (k a (m s).1).1)
    → Sends P proposal s ((m >>= k) s).1
Sends->>= {A} {B} P proposal m k s q h = go (m s).0 refl
  where
    go : (r : Result LifecycleError A) → (m s).0 ≡ r → Sends P proposal s (proceed r k (m s).1).1
    go (err x) e = inl q
    go (ok a) e = elim (h a e) [
      | inl same ↦ inl (same ∙ q)
      | inr (one, p) ↦ inr (one ∙ ap (λ (l : List ActionProposal). l ++ proposal ∷ []) q, p)
    ]

pub Sends-if :
    {A : Type 0} (P : Type 0) (proposal : ActionProposal) (b : Bool) (m n : Run A) (s : State)
    → (b ≡ true → Sends P proposal s (m s).1)
    → (b ≡ false → Sends P proposal s (n s).1)
    → Sends P proposal s ((if b then m else n) s).1
Sends-if P proposal true m n s h k = h refl
Sends-if P proposal false m n s h k = k refl

pub Sends-ensure :
    {A : Type 0} (P : Type 0) (proposal : ActionProposal) (b : Bool) (e : LifecycleError)
    (m : Run A) (s : State)
    → (b ≡ true → Sends P proposal s (m s).1)
    → Sends P proposal s ((ensure b e >> m) s).1
Sends-ensure P proposal true e m s h = h refl
Sends-ensure P proposal false e m s h = inl refl

pub Sends-required :
    {A B : Type 0} (P : Type 0) (proposal : ActionProposal) (o : Option A) (k : A → Run B)
    (s : State)
    → ((a : A) → o ≡ some a → Sends P proposal s (k a s).1)
    → Sends P proposal s ((required o >>= k) s).1
Sends-required P proposal none k s h = inl refl
Sends-required P proposal (some a) k s h = h a refl
