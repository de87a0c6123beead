-- ===== src/RateLimit/Failures.antt =====
-- app/core/auth_rate_limiter.py: the failed authentications of a client.
use manaai.Prelude.{
  ℕ, ◌+◌, ◌*◌, ◌≤◌, ◌≡◌, refl, ap, ◌∙◌, Bool, true, Option, none, some, List, [], ◌∷◌, ◌++◌, String,
  str_eq, eq_iff, ltb, leb, if◌then◌else◌, length, or_else, count, is_some, arith, Bool-cases, inl,
  inr, ap₂, length-append,
}
use manaai.Prelude.Dict.{Dict, get, put, remove, get-remove}
use manaai.RateLimit.Window.{
  ticks_per_second, drop_stale, retry_after, live, Stands, Stands-later, Stands-drop_stale,
  Stands-snoc, length-drop_stale,
}
use manaai.RateLimit.Log.{Log, times, record_if, put-Stands}

-- `AuthenticationRateLimiter`, less the lock.
pub record Limiter : Type 0 where
  pub failure_limit : ℕ
  pub window_seconds : ℕ
  pub failures : Dict (List ℕ)

abbrev window : Limiter → ℕ
window l = l.window_seconds * ticks_per_second

unfoldable pub init : ℕ → ℕ → Limiter
init limit seconds = record { failure_limit = limit; window_seconds = seconds; failures = [] }

-- The end of `record_failure`: the oldest of a deque to which `now` was just appended.
unfoldable block : ℕ → ℕ → ℕ → List ℕ → Option ℕ
unfolding retry_after
block limit window now [] = none
block limit window now (oldest ∷ rest) =
    if ltb (length (oldest ∷ rest)) limit then none else some (retry_after window now oldest)

unfoldable pub record_failure : Limiter → String → ℕ → Limiter × Option ℕ
unfolding drop_stale block get put
record_failure l client_key now =
    let attempts = drop_stale (window l) now (or_else (get client_key l.failures) []) ++ now ∷ [] in
    (
      record l { failures = put client_key attempts l.failures },
      block l.failure_limit (window l) now attempts,
    )

unfoldable pub clear : Limiter → String → Limiter
unfolding remove
clear l client_key = record l { failures = remove client_key l.failures }

-- What happens at the door.
pub data Event : Type 0 where
  fails : String → ℕ → Event
  clears : String → Event

-- The reference keeps every failure until its client is cleared.
unfoldable pub forget : String → Log → Log
forget k [] = []
forget k ((j, t) ∷ log) = let rest = forget k log in if str_eq j k then rest else (j, t) ∷ rest

-- Which failures are answered by a block.
unfoldable pub blocks : Limiter → List Event → List Bool
blocks l [] = []
blocks l (fails k now ∷ events) =
    let (l', reply) = record_failure l k now in is_some reply ∷ blocks l' events
blocks l (clears k ∷ events) = blocks (clear l k) events

pub expected_blocks : ℕ → ℕ → Log → List Event → List Bool
unfolding times forget
expected_blocks limit window log [] = []
expected_blocks limit window log (fails k now ∷ events) =
    leb limit (count (live window now) (times k log) + 1)
    ∷ expected_blocks limit window (log ++ (k, now) ∷ []) events
expected_blocks limit window log (clears k ∷ events) =
    expected_blocks limit window (forget k log) events

-- The failures come in the order of the clock.
abbrev pub Chronological : ℕ → List Event → Type 0
Chronological lo [] = Unit {0}
Chronological lo (fails k now ∷ events) = (lo ≤ now) × Chronological now events
Chronological lo (clears k ∷ events) = Chronological lo events

times-forget :
    (j k : String) (log : Log) → times j (forget k log) ≡ (if str_eq k j then [] else times j log)
unfolding times forget
times-forget j k [] = ground arith
times-forget j k ((i, t) ∷ log) =
    ground (arith, times-forget j k log, eq_iff i k, eq_iff i j, eq_iff k j)

-- The deque of each client stands for its failures in the log.
abbrev Tracks : Limiter → ℕ → Log → Type 0
Tracks l now log =
    (k : String) → Stands (window l) now (or_else (get k l.failures) []) (times k log)

block-length :
    (limit window now : ℕ) (ts : List ℕ)
    → is_some (block limit window now (ts ++ now ∷ [])) ≡ leb limit (length (ts ++ now ∷ []))
unfolding block
block-length limit window now [] = ground arith
block-length limit window now (t ∷ ts) = ground arith

record_failure-Tracks :
    (l : Limiter) (k : String) (now : ℕ) (log : Log)
    → Tracks l now log
    → let (l', reply) = record_failure l k now in
      (is_some reply ≡ leb l.failure_limit (count (live (window l) now) (times k log) + 1))
      × Tracks l' now (log ++ (k, now) ∷ [])
unfolding record_failure
record_failure-Tracks l k now log r =
    let pruned = drop_stale (window l) now (or_else (get k l.failures) []) in
    let s = Stands-drop_stale (window l) now (or_else (get k l.failures) []) (times k log) (r k) in
    let own = Stands-snoc (window l) now pruned (times k log) s in
    let n = length-drop_stale (window l) now (or_else (get k l.failures) []) (times k log) (r k) in
    (
      block-length l.failure_limit (window l) now pruned
          ∙ ap (leb l.failure_limit) (length-append pruned (now ∷ []) ∙ ap (λ (m : ℕ). m + 1) n),
      λ j.
          unfold record_if in
          put-Stands (window l) now k j l.failures (pruned ++ now ∷ []) log true (r j) own,
    )

clear-Tracks :
    (l : Limiter) (k : String) (now : ℕ) (log : Log)
    → Tracks l now log
    → Tracks (clear l k) now (forget k log)
unfolding clear
clear-Tracks l k now log r j = elim (Bool-cases (str_eq k j)) [
  | inl same ↦
      rw (get-remove k j l.failures, times-forget j k log, same)
        (record { ascending = tt; past = tt; agree = refl })
  | inr differs ↦ rw (get-remove k j l.failures, times-forget j k log, differs) (r j)
]

blocks-expected_blocks :
    (l : Limiter) (lo : ℕ) (log : Log) (events : List Event)
    → Tracks l lo log
    → Chronological lo events
    → blocks l events ≡ expected_blocks l.failure_limit (window l) log events
unfolding blocks expected_blocks record_failure clear
blocks-expected_blocks l lo log [] r c = refl
blocks-expected_blocks l lo log (fails k now ∷ events) r c =
    let (same, next) = record_failure-Tracks l k now log (λ j.
      Stands-later (window l) lo now (or_else (get j l.failures) []) (times j log) c.0 (r j)) in
    ap₂ (λ b bs. b ∷ bs) same
      (blocks-expected_blocks (record_failure l k now).0 now (log ++ (k, now) ∷ []) events next c.1)
blocks-expected_blocks l lo log (clears k ∷ events) r c =
    blocks-expected_blocks (clear l k) lo (forget k log) events (clear-Tracks l k lo log r) c

-- A fresh limiter answers a failure with a block exactly when that failure and those of the same
-- client within the window before it, since the client was last cleared, reach the limit.
pub blocks_are_expected :
    (limit seconds : ℕ) (events : List Event)
    → Chronological 0 events
    → blocks (init limit seconds) events
      ≡ expected_blocks limit (seconds * ticks_per_second) [] events
unfolding init get times
blocks_are_expected limit seconds events c =
    blocks-expected_blocks (init limit seconds) 0 [] events
      (λ k. record { ascending = tt; past = tt; agree = refl }) c
