-- ===== src/RateLimit/Request/Reference.antt =====
-- The limiter against a reference that keeps every admitted request and counts afresh.
use manaai.Prelude.{
  ℕ, ◌≤◌, ◌≡◌, refl, ap, ◌∙◌, subst, Bool, true, false, Option, none, some, List, [], ◌∷◌, ◌++◌,
  String, ltb, leb, if◌then◌else◌, length, or_else, count, map, arith, Bool-cases, inl, inr, ap₂,
  ◌*◌,
}
use manaai.Prelude.Dict.{get, Unique, get-remove_if, put-Unique, remove_if-Unique, kept}
use manaai.RateLimit.Window.{
  ticks_per_second, drop_stale, is_stale, live, From, Stands, Stands-later, Stands-drop_stale,
  Stands-snoc, length-drop_stale, Stands-of_is_stale,
}
use manaai.RateLimit.Log.{Log, times, record_if, put-Stands}
use manaai.RateLimit.Request.{
  Limiter, window, Reply, allowed, sweep, charge, consume, init, stale_key_sweep_threshold,
}

-- The reference: a request is admitted if fewer than `limit` of its client's were in the window.
unfoldable pub admits : ℕ → ℕ → Log → String → ℕ → Bool
unfolding times
admits limit window log k now = ltb (count (live window now) (times k log)) limit

abbrev pub is_allowed : Reply → Bool
is_allowed allowed = true
is_allowed _ = false

abbrev stored : Limiter → String → List ℕ
stored l k = or_else (get k l.hits) []

-- The limiter stands for a log: for each client, its deque holds what still counts.
pub record Refines (l : Limiter) (now : ℕ) (log : Log) : Type 0 where
  pub unique : Unique l.hits
  pub each : (k : String) → Stands (window l) now (stored l k) (times k log)

pub Refines-later :
    (l : Limiter) (now later : ℕ) (log : Log)
    → now ≤ later
    → Refines l now log
    → Refines l later log
Refines-later l now later log h r = record {
  unique = r.unique;
  each = λ k. Stands-later (window l) now later (stored l k) (times k log) h (r.each k);
}

kept-Stands :
    (w now : ℕ) (o : Option (List ℕ)) (log : List ℕ)
    → Stands w now (or_else o []) log
    → Stands w now (or_else (kept (is_stale w now) o) []) log
kept-Stands w now none log s = s
kept-Stands w now (some ts) log s = elim (Bool-cases (is_stale w now ts)) [
  | inl old ↦ rw old (Stands-of_is_stale w now ts log s old)
  | inr new ↦ rw new s
]

sweep-Refines :
    (l : Limiter) (now : ℕ) (log : Log) → Refines l now log → Refines (sweep l now) now log
unfolding sweep
sweep-Refines l now log r = record {
  unique = remove_if-Unique (is_stale (window l) now) l.hits r.unique;
  each = λ k.
      rw (get-remove_if (is_stale (window l) now) k l.hits r.unique)
        (kept-Stands (window l) now (get k l.hits) (times k log) (r.each k));
}

-- The deque after `charge`, and the reply, by the count of what still counts.
charge-Stands :
    (limit w now : ℕ) (pruned log : List ℕ)
    → Stands w now pruned log
    → length pruned ≡ count (live w now) log
    → let (deque, reply) = charge limit w now pruned in
      (is_allowed reply ≡ ltb (count (live w now) log) limit)
      × Stands w now deque (if is_allowed reply then log ++ now ∷ [] else log)
unfolding charge
charge-Stands limit w now [] log s e = elim (Bool-cases (leb limit 0)) [
  | inl full ↦ rw full (ground arith, s)
  | inr room ↦ rw room (ground arith, Stands-snoc w now [] log s)
]
charge-Stands limit w now (t ∷ ts) log s e = elim (Bool-cases (leb limit (length (t ∷ ts)))) [
  | inl full ↦ rw full (ground arith, s)
  | inr room ↦ rw room (ground arith, Stands-snoc w now (t ∷ ts) log s)
]

-- The two parts of `consume`, after the sweep.
abbrev swept : Limiter → ℕ → Limiter
swept l now = if ltb stale_key_sweep_threshold (length l.hits) then sweep l now else l

swept-Refines :
    (l : Limiter) (now : ℕ) (log : Log) → Refines l now log → Refines (swept l now) now log
swept-Refines l now log r = elim (Bool-cases (ltb stale_key_sweep_threshold (length l.hits))) [
  | inl many ↦ rw many (sweep-Refines l now log r)
  | inr few ↦ rw few r
]

swept-fields :
    (l : Limiter) (now : ℕ)
    → (window (swept l now) ≡ window l) × ((swept l now).request_limit ≡ l.request_limit)
unfolding sweep
swept-fields l now = ground arith

abbrev pruned : Limiter → String → ℕ → List ℕ
pruned l k now = drop_stale (window l) now (stored (swept l now) k)

pruned-Stands :
    (l : Limiter) (k : String) (now : ℕ) (log : Log)
    → Refines l now log
    → Stands (window l) now (pruned l k now) (times k log)
      × (length (pruned l k now) ≡ count (live (window l) now) (times k log))
pruned-Stands l k now log r =
    let s =
      subst (λ w. Stands w now (stored (swept l now) k) (times k log)) (swept-fields l now).0
        ((swept-Refines l now log r).each k) in
    (
      Stands-drop_stale (window l) now (stored (swept l now) k) (times k log) s,
      length-drop_stale (window l) now (stored (swept l now) k) (times k log) s,
    )

-- `consume` decides as the reference does, and stands for the reference's log afterwards.
pub consume-Refines :
    (l : Limiter) (k : String) (now : ℕ) (log : Log)
    → Refines l now log
    → let (l', reply) = consume l k now in
      (is_allowed reply ≡ admits l.request_limit (window l) log k now)
      × (window l' ≡ window l)
      × (l'.request_limit ≡ l.request_limit)
      × Refines l' now (record_if (is_allowed reply) log k now)
unfolding consume admits
consume-Refines l k now log r =
    let (st, len) = pruned-Stands l k now log r in
    let (decision, own) =
      charge-Stands l.request_limit (window l) now (pruned l k now) (times k log) st len in
    let s = swept-Refines l now log r in
    (
      decision,
      refl,
      refl,
      record {
        unique =
            put-Unique k (charge l.request_limit (window l) now (pruned l k now)).0
              (swept l now).hits s.unique;
        each = λ j.
            put-Stands (window l) now k j (swept l now).hits _ log _
              (subst (λ w. Stands w now (stored (swept l now) j) (times j log))
                (swept-fields l now).0 (s.each j))
              own;
      },
    )

-- The replies to a list of requests, and the decisions of the reference.
unfoldable pub replies : Limiter → List (String × ℕ) → List Reply
replies l [] = []
replies l ((k, now) ∷ requests) = let (l', reply) = consume l k now in reply ∷ replies l' requests

pub decisions : ℕ → ℕ → Log → List (String × ℕ) → List Bool
unfolding admits record_if
decisions limit window log [] = []
decisions limit window log ((k, now) ∷ requests) =
    let b = admits limit window log k now in
    b ∷ decisions limit window (record_if b log k now) requests

-- The requests come in the order of the clock.
abbrev pub Chronological : ℕ → List (String × ℕ) → Type 0
Chronological lo requests = From lo (map (λ r. r.1) requests)

replies-decisions :
    (l : Limiter) (lo : ℕ) (log : Log) (requests : List (String × ℕ))
    → Refines l lo log
    → Chronological lo requests
    → map is_allowed (replies l requests) ≡ decisions l.request_limit (window l) log requests
unfolding replies decisions
replies-decisions l lo log [] r c = refl
replies-decisions l lo log ((k, now) ∷ requests) r c =
    let (same, w, limit, next) = consume-Refines l k now log (Refines-later l lo now log c.0 r) in
    let rest = replies-decisions (consume l k now).0 now _ requests next c.1 in
    ap (◌∷◌ (is_allowed (consume l k now).1)) rest
    ∙ ap₂
        (λ n v.
          is_allowed (consume l k now).1
          ∷ decisions n v (record_if (is_allowed (consume l k now).1) log k now) requests)
        limit w
    ∙ ap (λ b. b ∷ decisions l.request_limit (window l) (record_if b log k now) requests) same

pub init-Refines : (limit seconds : ℕ) → Refines (init limit seconds) 0 []
unfolding init get times
init-Refines limit seconds = record {
  unique = tt;
  each = λ k. record { ascending = tt; past = tt; agree = refl };
}

-- A fresh limiter admits a request exactly when fewer than its limit of the requests of the same
-- client that it admitted are younger than its window, whatever the other clients do and however
-- often stale clients are swept out; the requests come in the order of the clock.
pub limiter_is_reference :
    (limit seconds : ℕ) (requests : List (String × ℕ))
    → Chronological 0 requests
    → map is_allowed (replies (init limit seconds) requests)
      ≡ decisions limit (seconds * ticks_per_second) [] requests
unfolding init
limiter_is_reference limit seconds requests c =
    replies-decisions (init limit seconds) 0 [] requests (init-Refines limit seconds) c
