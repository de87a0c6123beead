-- ===== src/RateLimit/Request.antt =====
-- app/core/rate_limiter.py: the sliding window over the requests of a client.
pub mod Reference
pub mod Budget
use manaai.Prelude.{
  ℕ, suc, ◌+◌, ◌-◌, ◌*◌, ◌≤◌, ◌≡◌, Bool, true, false, Option, none, some, List, [], ◌∷◌, ◌++◌,
  String, ltb, leb, if◌then◌else◌, length, or_else,
}
use manaai.Prelude.Dict.{Dict, get, put, remove_if}
use manaai.RateLimit.Window.{ticks_per_second, drop_stale, is_stale, retry_after}

abbrev pub stale_key_sweep_threshold : ℕ
stale_key_sweep_threshold = 1024

-- `RequestRateLimiter`, less the lock: the code under it has no wait, so calls do not interleave.
pub record Limiter : Type 0 where
  pub request_limit : ℕ
  pub window_seconds : ℕ
  pub hits : Dict (List ℕ)

abbrev pub window : Limiter → ℕ
window l = l.window_seconds * ticks_per_second

unfoldable pub init : ℕ → ℕ → Limiter
init limit seconds = record { request_limit = limit; window_seconds = seconds; hits = [] }

-- `index_error` is the fault of `hits[0]` on an empty deque, at a limit of 0.
pub data Reply : Type 0 where
  allowed : Reply
  over_budget : ℕ → Reply
  index_error : Reply

unfoldable pub sweep : Limiter → ℕ → Limiter
unfolding remove_if is_stale
sweep l now = record l { hits = remove_if (is_stale (window l) now) l.hits }

-- The rest of `consume` for one client, from the pruned deque: the new deque and the reply.
unfoldable pub charge : ℕ → ℕ → ℕ → List ℕ → List ℕ × Reply
unfolding retry_after
charge limit window now [] = if leb limit 0 then ([], index_error) else (now ∷ [], allowed)
charge limit window now (t ∷ ts) =
    if leb limit (length (t ∷ ts))
    then (t ∷ ts, over_budget (retry_after window now t))
    else ((t ∷ ts) ++ now ∷ [], allowed)

unfoldable pub consume : Limiter → String → ℕ → Limiter × Reply
unfolding sweep charge drop_stale get put
consume l client_key now =
    let swept = if ltb stale_key_sweep_threshold (length l.hits) then sweep l now else l in
    let pruned = drop_stale (window l) now (or_else (get client_key swept.hits) []) in
    let (deque, reply) = charge l.request_limit (window l) now pruned in
    (record l { hits = put client_key deque swept.hits }, reply)
