-- ===== src/Auth/Store/Limits.antt =====
-- The transactions of auth_repository.py that slow an attacker down: the rate events, and the
-- lockout of a user after failed attempts.
use manaai.Prelude.{
  ℕ, ◌+◌, none, some, List, [], ◌∷◌, ◌++◌, String, str_eq, Bool, true, false, ◌&&◌, leb, ◌==◌,
  if◌then◌else◌, any, count, filter,
}
use manaai.Prelude.Exec.{ok, err}
use manaai.Auth.Model.{AdminUser, AuthRateEvent, AuthRateLimit}
use manaai.Auth.Store.{no_result_found, Db, Tx, lock_auth_state, apply_user, get_user}

abbrev pub contains : List String → String → Bool
contains texts t = any (str_eq t) texts

abbrev pub counts_for : AuthRateLimit → ℕ → AuthRateEvent → Bool
counts_for limit since event =
    str_eq event.scope limit.scope
    && event.scope_hmac == limit.scope_hmac
    && contains limit.actions event.action
    && leb since event.occurred_at

-- The loop over the limits: `true` if none is reached.
unfoldable pub within_limits : List AuthRateLimit → ℕ → List AuthRateEvent → Bool
within_limits [] since events = true
within_limits (limit ∷ limits) since events =
    let rest = within_limits limits since events in
    if leb limit.limit (count (counts_for limit since) events) then false else rest

-- Both returns commit: the old events are gone even if a limit is reached.
unfoldable pub consume_rate_events : List AuthRateEvent → List AuthRateLimit → ℕ → Db → Bool × Db
unfolding within_limits lock_auth_state
consume_rate_events events limits since db =
    let kept = filter (λ event. leb since event.occurred_at) db.rate_events in
    let locked = lock_auth_state db in
    if within_limits limits since kept
    then (true, record locked { rate_events = kept ++ events })
    else (false, record locked { rate_events = kept })

unfoldable pub failed_user : AdminUser → ℕ → ℕ → ℕ → AdminUser
failed_user current now lockout_failures lockout_until =
    let lock_is_over : Bool = elim current.auth_locked_until [
      | none ↦ false
      | some until ↦ leb until now
    ] in
    let failures = if lock_is_over then 1 else current.consecutive_auth_failures + 1 in
    record current {
      consecutive_auth_failures = failures;
      auth_locked_until = if leb lockout_failures failures then some lockout_until else none;
      updated_at = now;
    }

unfoldable pub record_auth_failure : ℕ → ℕ → ℕ → ℕ → Tx AdminUser
unfolding apply_user failed_user get_user
record_auth_failure user_id now lockout_failures lockout_until db = elim (get_user user_id db) [
  | none ↦ (err no_result_found, db)
  | some current ↦
      let updated = failed_user current now lockout_failures lockout_until in
      (ok updated, apply_user updated db)
]
