-- ===== src/Prelude/Dict.antt =====
-- A Python dict with string keys, as the list of its entries in the order of insertion.
use text.Mathlib.Text.{◌==◌ as str_eq}
use text.Mathlib.TextEquality.{eq_iff}
use Prim.Native.String.{String}
use mathlib.Core.Path.{◌≡◌, refl}
use mathlib.Core.Bool.{Bool}
use mathlib.Core.Option.{Option, none, some}
use mathlib.Core.List.{List, [], ◌∷◌}
use native.Mathlib.Omega.{arith}
use manaai.Prelude.Tests.{if◌then◌else◌}

abbrev pub Dict {ℓ} : Type ℓ → Type ℓ
Dict V = List (String × V)

module _ {ℓ} {V : Type ℓ} where
  unfoldable pub get : String → Dict V → Option V
  get k [] = none
  get k ((j, v) ∷ d) = let rest = get k d in if str_eq j k then some v else rest

  -- `d[k] = v`.
  unfoldable pub put : String → V → Dict V → Dict V
  put k v [] = (k, v) ∷ []
  put k v ((j, w) ∷ d) = let rest = put k v d in if str_eq j k then (j, v) ∷ d else (j, w) ∷ rest

  -- `d.pop(k, None)`, and the deletion of every key whose value passes the test.
  unfoldable pub remove : String → Dict V → Dict V
  remove k [] = []
  remove k ((j, w) ∷ d) = let rest = remove k d in if str_eq j k then rest else (j, w) ∷ rest

  unfoldable pub remove_if : (V → Bool) → Dict V → Dict V
  remove_if p [] = []
  remove_if p ((j, w) ∷ d) = let rest = remove_if p d in if p w then rest else (j, w) ∷ rest

  -- No key stands twice.
  abbrev pub Unique : Dict V → Type ℓ
  Unique [] = Unit
  Unique ((j, w) ∷ d) = (get j d ≡ none) × Unique d

  pub get-put :
      (k j : String) (v : V) (d : Dict V)
      → get j (put k v d) ≡ (if str_eq k j then some v else get j d)
  unfolding get put
  get-put k j v [] = refl
  get-put k j v ((i, w) ∷ d) = ground (arith, get-put k j v d, eq_iff i k, eq_iff i j, eq_iff k j)

  pub get-remove :
      (k j : String) (d : Dict V) → get j (remove k d) ≡ (if str_eq k j then none else get j d)
  unfolding get remove
  get-remove k j [] = ground arith
  get-remove k j ((i, w) ∷ d) = ground (arith, get-remove k j d, eq_iff i k, eq_iff i j, eq_iff k j)

  pub get-remove_if-none :
      (p : V → Bool) (j : String) (d : Dict V) → get j d ≡ none → get j (remove_if p d) ≡ none
  unfolding get remove_if
  get-remove_if-none p j [] h = refl
  get-remove_if-none p j ((i, w) ∷ d) h = ground (arith, get-remove_if-none p j d)

  -- What a deletion by a test leaves of a key.
  abbrev pub kept : (V → Bool) → Option V → Option V
  kept p none = none
  kept p (some v) = if p v then none else some v

  pub get-remove_if :
      (p : V → Bool) (j : String) (d : Dict V) → Unique d → get j (remove_if p d) ≡ kept p (get j d)
  unfolding get remove_if
  get-remove_if p j [] u = refl
  get-remove_if p j ((i, w) ∷ d) u =
      ground (arith, get-remove_if p j d u.1, get-remove_if-none p i d u.0, eq_iff i j)

  pub put-Unique : (k : String) (v : V) (d : Dict V) → Unique d → Unique (put k v d)
  unfolding put get
  put-Unique k v [] u = (refl, tt)
  put-Unique k v ((i, w) ∷ d) u =
      ground (arith, put-Unique k v d u.1, get-put k i v d, eq_iff i k, eq_iff k i)

  pub remove-Unique : (k : String) (d : Dict V) → Unique d → Unique (remove k d)
  unfolding remove
  remove-Unique k [] u = tt
  remove-Unique k ((i, w) ∷ d) u =
      ground (arith, remove-Unique k d u.1, get-remove k i d, eq_iff i k, eq_iff k i)

  pub remove_if-Unique : (p : V → Bool) (d : Dict V) → Unique d → Unique (remove_if p d)
  unfolding remove_if
  remove_if-Unique p [] u = tt
  remove_if-Unique p ((i, w) ∷ d) u =
      ground (arith, remove_if-Unique p d u.1, get-remove_if-none p i d u.0)
