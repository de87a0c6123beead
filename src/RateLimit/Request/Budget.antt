-- ===== src/RateLimit/Request/Budget.antt =====
-- The budget of app/core/rate_limiter.py: what a client can get in any stretch of one window.
use manaai.Prelude.{
  ℕ, ◌*◌, ◌≤◌, Bool, ◌&&◌, List, [], ◌∷◌, String, str_eq, eq_iff, leb, count, arith, count-append,
  subst, subst₂, sym,
}
use manaai.RateLimit.Window.{live, ticks_per_second}
use manaai.RateLimit.Log.{Log, times, record_if}
use manaai.RateLimit.Request.{Limiter, window, init, consume}
use manaai.RateLimit.Request.Reference.{
  admits, is_allowed, Chronological, Refines, consume-Refines, Refines-later, init-Refines,
}

-- The log of what a limiter admitted of a list of requests.
pub admitted_log : Limiter → Log → List (String × ℕ) → Log
admitted_log l log [] = log
admitted_log l log ((k, now) ∷ requests) =
    let (l', reply) = consume l k now in
    admitted_log l' (record_if (is_allowed reply) log k now) requests

-- The admitted requests of `k` in the stretch of one window that ends at `t`.
abbrev pub in_stretch : ℕ → String → ℕ → String × ℕ → Bool
in_stretch window k t (j, u) = str_eq j k && leb u t && live window t u

count-in_stretch-le :
    (w now t : ℕ) (k : String) (log : Log)
    → now ≤ t
    → count (in_stretch w k t) log ≤ count (live w now) (times k log)
unfolding times
count-in_stretch-le w now t k [] h = omega arith
count-in_stretch-le w now t k ((j, u) ∷ log) h = ground (arith, count-in_stretch-le w now t k log h)

-- No client has more than `limit` admitted requests in any stretch of one window.
abbrev pub Within : ℕ → ℕ → Log → Type 0
Within limit w log = (k : String) (t : ℕ) → count (in_stretch w k t) log ≤ limit

record_if-Within :
    (limit w now : ℕ) (k : String) (log : Log)
    → Within limit w log
    → Within limit w (record_if (admits limit w log k now) log k now)
unfolding record_if admits
record_if-Within limit w now k log v j t = ground (
  arith,
  v j t,
  count-append (in_stretch w j t) log ((k, now) ∷ []),
  count-in_stretch-le w now t k log,
  eq_iff k j,
)

admitted_log-Within :
    (l : Limiter) (lo : ℕ) (log : Log) (requests : List (String × ℕ))
    → Refines l lo log
    → Chronological lo requests
    → Within l.request_limit (window l) log
    → Within l.request_limit (window l) (admitted_log l log requests)
unfolding admitted_log
admitted_log-Within l lo log [] r c v = v
admitted_log-Within l lo log ((k, now) ∷ requests) r c v =
    let (same, w, limit, next) = consume-Refines l k now log (Refines-later l lo now log c.0 r) in
    let l' = (consume l k now).0 in
    let log' = record_if (is_allowed (consume l k now).1) log k now in
    let v' : Within l.request_limit (window l) log' =
      subst (λ b. Within l.request_limit (window l) (record_if b log k now)) (sym same)
        (record_if-Within l.request_limit (window l) now k log v) in
    let rest =
      admitted_log-Within l' now log' requests next c.1
        (subst₂ (λ n u. Within n u log') (sym limit) (sym w) v') in
    subst₂ (λ n u. Within n u (admitted_log l' log' requests)) limit w rest

-- Whatever the clients send, in the order of the clock, a fresh limiter admits no more than its
-- limit of the requests of one client in any stretch of time as long as its window.
pub budget_is_kept :
    (limit seconds : ℕ) (requests : List (String × ℕ)) (k : String) (t : ℕ)
    → Chronological 0 requests
    → count
        (in_stretch (seconds * ticks_per_second) k t)
        (admitted_log (init limit seconds) [] requests)
      ≤ limit
unfolding init
budget_is_kept limit seconds requests k t c =
    admitted_log-Within (init limit seconds) 0 [] requests (init-Refines limit seconds) c
      (λ j u. omega arith) k t
