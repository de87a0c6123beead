-- ===== src/RateLimit/Log.antt =====
-- A log of instants for each client, and a dict of deques that stands for it.
use manaai.Prelude.{
  ℕ, ◌≡◌, refl, sym, subst, Bool, true, false, List, [], ◌∷◌, ◌++◌, String, str_eq, eq_iff,
  if◌then◌else◌, or_else, arith, Bool-cases, inl, inr,
}
use manaai.Prelude.Dict.{Dict, get, put, get-put}
use manaai.RateLimit.Window.{Stands}

-- Who, and when; oldest first.
abbrev pub Log : Type 0
Log = List (String × ℕ)

unfoldable pub times : String → Log → List ℕ
times k [] = []
times k ((j, t) ∷ log) = let rest = times k log in if str_eq j k then t ∷ rest else rest

unfoldable pub record_if : Bool → Log → String → ℕ → Log
record_if b log k now = if b then log ++ (k, now) ∷ [] else log

pub times-append :
    (j k : String) (now : ℕ) (log : Log)
    → times j (log ++ (k, now) ∷ []) ≡ (if str_eq k j then times j log ++ now ∷ [] else times j log)
unfolding times
times-append j k now [] = ground arith
times-append j k now ((i, t) ∷ log) = ground (arith, times-append j k now log)

pub put-Stands :
    (w now : ℕ) (k j : String) (d : Dict (List ℕ)) (deque : List ℕ) (log : Log) (b : Bool)
    → Stands w now (or_else (get j d) []) (times j log)
    → Stands w now deque (if b then times k log ++ now ∷ [] else times k log)
    → Stands w now (or_else (get j (put k deque d)) []) (times j (record_if b log k now))
unfolding record_if
put-Stands w now k j d deque log b other own = elim (Bool-cases (str_eq k j)) [
  | inl same ↦
      let e : k ≡ j = (eq_iff k j).0 same in
      rw (get-put k j deque d, same) (subst (Stands w now deque) (sym (own_log e b)) own)
  | inr differs ↦
      rw (get-put k j deque d, differs) (subst (Stands w now _) (sym (other_log differs b)) other)
]
  where
    own_log :
        k ≡ j
        → (b : Bool)
        → times j (if b then log ++ (k, now) ∷ [] else log)
          ≡ (if b then times k log ++ now ∷ [] else times k log)
    own_log e true = rw (times-append j k now log, e) (ground (arith, eq_iff j j))
    own_log e false = rw e

    other_log :
        str_eq k j ≡ false
        → (b : Bool) → times j (if b then log ++ (k, now) ∷ [] else log) ≡ times j log
    other_log e true = rw (times-append j k now log, e)
    other_log e false = refl
