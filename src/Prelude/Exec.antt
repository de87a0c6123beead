-- ===== src/Prelude/Exec.antt =====
-- Methods over a shared state that return or raise. What is written before a raise stays written,
-- so the state comes back in both cases.
use mathlib.Core.Path.{◌≡◌, refl}
use mathlib.Core.Bool.{Bool, true, false}

pub data Result {ℓ} (E A : Type ℓ) : Type ℓ where
  ok : A → Result E A
  err : E → Result E A

abbrev pub Exec {ℓ} : Type ℓ → Type ℓ → Type ℓ → Type ℓ
Exec E S A = S → Result E A × S

module _ {ℓ} {E S A : Type ℓ} where
  abbrev pub ret : A → Exec E S A
  ret a s = (ok a, s)

  abbrev pub raise : E → Exec E S A
  raise e s = (err e, s)

  -- Read the state; run a transaction on a part of it.
  abbrev pub asks : (S → A) → Exec E S A
  asks f s = (ok (f s), s)

module _ {ℓ} {E S A B : Type ℓ} where
  abbrev pub proceed : Result E A → (A → Exec E S B) → Exec E S B
  proceed (ok a) k s = k a s
  proceed (err e) k s = (err e, s)

  infixl 5 ◌>>=◌ ◌>>◌
  abbrev pub ◌>>=◌ : Exec E S A → (A → Exec E S B) → Exec E S B
  ◌>>=◌ m k s = let (r, s') = m s in proceed r k s'

  abbrev pub ◌>>◌ : Exec E S A → Exec E S B → Exec E S B
  m >> n = m >>= λ _. n

-- `if not b: raise e`.
abbrev pub ensure : {E S : Type 0} → Bool → E → Exec E S (Unit {0})
ensure true e s = (ok tt, s)
ensure false e s = (err e, s)

-- A sequence that returned passed through a value of its first part.
pub >>=-eq-ok {ℓ} :
    {E S A B : Type ℓ} (m : Exec E S A) (k : A → Exec E S B) (s : S) {b : B}
    → ((m >>= k) s).0 ≡ ok b
    → (a : A) × ((m s).0 ≡ ok a) × ((k a (m s).1).0 ≡ ok b)
>>=-eq-ok {E} {S} {A} {B} m k s {b} e = go (m s).0 refl e
  where
    go :
        (r : Result E A)
        → (m s).0 ≡ r
        → (proceed r k (m s).1).0 ≡ ok b
        → (a : A) × ((m s).0 ≡ ok a) × ((k a (m s).1).0 ≡ ok b)
    go (ok a) h e' = (a, h, e')
    go (err x) h e' = cc

-- A sequence whose first part returned goes on with its value.
pub >>=-of_ok {ℓ} :
    {E S A B : Type ℓ} (m : Exec E S A) (k : A → Exec E S B) (s : S) {a : A}
    → (m s).0 ≡ ok a
    → (m >>= k) s ≡ k a (m s).1
>>=-of_ok m k s e i = proceed (e i) k (m s).1
