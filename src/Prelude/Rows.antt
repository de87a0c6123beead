-- ===== src/Prelude/Rows.antt =====
-- Tables as lists of rows: what an update of the rows that a test selects does to a count.
use Prim.Native.Nat.{ℕ, ◌+◌, ◌≤◌}
use mathlib.Core.Path.{◌≡◌, refl}
use mathlib.Core.Bool.{Bool, true, false}
use mathlib.Core.Option.{none, some}
use mathlib.Core.List.{List, [], ◌∷◌}
use native.Mathlib.Omega.{arith}
use mathlib.Core.Logic.{◌⊎◌, inl, inr}
use manaai.Prelude.Tests.{Bool-cases}
use manaai.Prelude.Lists.{count, find, modify, any, filter}

abbrev pub num : Bool → ℕ
num true = 1
num false = 0

module _ {ℓ} {A : Type ℓ} where
  pub modify_of_count-eq-zero :
      (p : A → Bool) (f : A → A) (xs : List A) → count p xs ≡ 0 → modify p f xs ≡ xs
  modify_of_count-eq-zero p f [] h = refl
  modify_of_count-eq-zero p f (x ∷ xs) h = ground (arith, modify_of_count-eq-zero p f xs)

  pub modify_of_find-eq-none :
      (p : A → Bool) (f : A → A) (xs : List A) → find p xs ≡ none → modify p f xs ≡ xs
  modify_of_find-eq-none p f [] h = refl
  modify_of_find-eq-none p f (x ∷ xs) h = ground (arith, modify_of_find-eq-none p f xs)

  -- The one row that a test selects is overwritten.
  pub count-modify :
      (p q : A → Bool) (a b : A) (xs : List A)
      → count p xs ≤ 1
      → find p xs ≡ some a
      → count q (modify p (λ _. b) xs) + num (q a) ≡ count q xs + num (q b)
  count-modify p q a b [] one h = ground arith
  count-modify p q a b (x ∷ xs) one h =
      ground (arith, count-modify p q a b xs, modify_of_count-eq-zero p (λ _. b) xs)

  -- An update that keeps a test keeps its count.
  pub count-modify_same :
      (p q : A → Bool) (f : A → A) (xs : List A)
      → ((x : A) → q (f x) ≡ q x)
      → count q (modify p f xs) ≡ count q xs
  count-modify_same p q f [] h = refl
  count-modify_same p q f (x ∷ xs) h = ground (arith, h x, count-modify_same p q f xs h)

  -- An update that can only make a test fail.
  pub count-modify-le :
      (p q : A → Bool) (f : A → A) (xs : List A)
      → ((x : A) → q (f x) ≡ true → q x ≡ true)
      → count q (modify p f xs) ≤ count q xs
  count-modify-le p q f [] h = omega arith
  count-modify-le p q f (x ∷ xs) h = ground (arith, h x, count-modify-le p q f xs h)

  -- An update after which no selected row passes a test that only selected rows passed.
  pub count-modify-eq-zero :
      (p q : A → Bool) (f : A → A) (xs : List A)
      → ((x : A) → p x ≡ false → q x ≡ false)
      → ((x : A) → q (f x) ≡ false)
      → count q (modify p f xs) ≡ 0
  count-modify-eq-zero p q f [] h k = refl
  count-modify-eq-zero p q f (x ∷ xs) h k =
      ground (arith, h x, k x, count-modify-eq-zero p q f xs h k)

  pub find-eq-some : (p : A → Bool) (a : A) (xs : List A) → find p xs ≡ some a → p a ≡ true
  find-eq-some p a [] h = cc
  find-eq-some p a (x ∷ xs) h = ground (arith, find-eq-some p a xs)

  pub count-eq-zero_of_any : (p : A → Bool) (xs : List A) → any p xs ≡ false → count p xs ≡ 0
  count-eq-zero_of_any p [] h = refl
  count-eq-zero_of_any p (x ∷ xs) h = ground (arith, count-eq-zero_of_any p xs)

  pub any_of_count :
      (p q : A → Bool) (xs : List A)
      → ((x : A) → p x ≡ true → q x ≡ true)
      → any q xs ≡ false
      → any p xs ≡ false
  any_of_count p q [] h k = refl
  any_of_count p q (x ∷ xs) h k = ground (arith, h x, any_of_count p q xs h)

  count_of_find :
      (p q : A → Bool) (a : A) (xs : List A) → find p xs ≡ some a → q a ≡ true → 1 ≤ count q xs
  count_of_find p q a [] h k = cc
  count_of_find p q a (x ∷ xs) h k = ground (arith, count_of_find p q a xs)

  -- A row that is alone in passing a test is the one that the test finds.
  pub find_unique :
      (p q : A → Bool) (a : A) (xs : List A)
      → count q xs ≤ 1
      → find p xs ≡ some a
      → q a ≡ true
      → find q xs ≡ some a
  find_unique p q a [] one h k = cc
  find_unique p q a (x ∷ xs) one h k = ground (arith, find_unique p q a xs, count_of_find p q a xs)

  pub find_of_count : (p : A → Bool) (xs : List A) → 1 ≤ count p xs → (a : A) × (find p xs ≡ some a)
  find_of_count p [] h = absurd (omega arith)
  find_of_count p (x ∷ xs) h = elim (Bool-cases (p x)) [
    | inl hit ↦ (x, rw hit)
    | inr miss ↦ let (a, e) = find_of_count p xs (ground arith) in (a, rw miss e)
  ]

module _ {A : Type 0} where
  -- Membership that can be matched.
  abbrev pub In : A → List A → Type 0
  In a [] = ⊥
  In a (x ∷ xs) = (x ≡ a) ⊎ In a xs

  In-filter_hit :
      (p : A → Bool) (a x : A) (xs : List A)
      → p x ≡ true
      → (In a (filter p xs) → In a xs × (p a ≡ true))
      → (x ≡ a) ⊎ In a (filter p xs)
      → ((x ≡ a) ⊎ In a xs) × (p a ≡ true)
  In-filter_hit p a x xs hit rest (inl e) = (inl e, rw e at hit)
  In-filter_hit p a x xs hit rest (inr h) = let (i, k) = rest h in (inr i, k)

  pub In-filter : (p : A → Bool) (a : A) (xs : List A) → In a (filter p xs) → In a xs × (p a ≡ true)
  In-filter p a [] h = absurd h
  In-filter p a (x ∷ xs) h = elim (Bool-cases (p x)) [
    | inl hit ↦ In-filter_hit p a x xs hit (In-filter p a xs) (rw hit at h)
    | inr miss ↦ let (i, k) = In-filter p a xs (rw miss at h) in (inr i, k)
  ]

  count_of_In : (p : A → Bool) (a : A) (xs : List A) → In a xs → p a ≡ true → 1 ≤ count p xs
  count_of_In p a [] h k = absurd h
  count_of_In p a (x ∷ xs) (inl e) k = ground arith
  count_of_In p a (x ∷ xs) (inr h) k = ground (arith, count_of_In p a xs h k)

  -- A row that is alone in passing a test is found by it.
  pub find_of_In :
      (p : A → Bool) (a : A) (xs : List A)
      → In a xs
      → p a ≡ true
      → count p xs ≤ 1
      → find p xs ≡ some a
  find_of_In p a [] h k one = absurd h
  find_of_In p a (x ∷ xs) (inl e) k one = ground arith
  find_of_In p a (x ∷ xs) (inr h) k one =
      ground (arith, find_of_In p a xs h k, count_of_In p a xs h k)
