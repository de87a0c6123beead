-- ===== src/Auth/Service/Limits.antt =====
-- The limits of auth_service.py on how often a code is asked for or tried.
use manaai.Prelude.{ℕ, ◌-◌, Option, none, some, [], ◌∷◌, String, Bool, false, ltb}
use manaai.Prelude.Exec.{ret, ◌>>=◌}
use manaai.Auth.Model.{seconds, AuthRateEvent, AuthRateLimit}
use manaai.Auth.Store.Limits.{consume_rate_events}
use manaai.Auth.Service.{Service, Run, draw, commit}

-- `user.auth_locked_until is not None and now < user.auth_locked_until`.
abbrev pub locked_at : ℕ → Option ℕ → Bool
locked_at now none = false
locked_at now (some until) = ltb now until

module _ (service : Service) where
  open service use {policy, clock, new_id, hmac, random_code, token_urlsafe, send_login_code}

  unfoldable pub rate_limit : String → ℕ → String → ℕ → AuthRateLimit
  rate_limit name scope_hmac action limit = record {
    scope = name;
    scope_hmac = scope_hmac;
    actions = action ∷ [];
    limit = limit;
  }

  unfoldable pub draw_rate_event : String → ℕ → String → ℕ → Run AuthRateEvent
  draw_rate_event name scope_hmac action now = do
    event_id ← draw new_id
    ret (record {
      event_id = event_id;
      scope = name;
      scope_hmac = scope_hmac;
      action = action;
      occurred_at = now;
    })

  -- `_consume_request_limits`.
  unfoldable pub consume_request_limits : ℕ → ℕ → ℕ → ℕ → Run Bool
  consume_request_limits identity_scope ip_scope global_scope now = do
    let since = now - seconds policy.rate_window_seconds
    let limits =
        rate_limit "telegram" identity_scope "request" policy.request_limit_per_user
        ∷ rate_limit "ip" ip_scope "request" policy.request_limit_per_ip
        ∷ rate_limit "global" global_scope "request" policy.global_request_limit
        ∷ []
    by_identity ← draw_rate_event "telegram" identity_scope "request" now
    by_ip ← draw_rate_event "ip" ip_scope "request" now
    by_all ← draw_rate_event "global" global_scope "request" now
    commit (consume_rate_events (by_identity ∷ by_ip ∷ by_all ∷ []) limits since)

  -- `_consume_verify_limit`.
  unfoldable pub consume_verify_limit : ℕ → ℕ → Run Bool
  consume_verify_limit ip_scope now = do
    event ← draw_rate_event "ip" ip_scope "verify" now
    commit (
        consume_rate_events (event ∷ [])
          (rate_limit "ip" ip_scope "verify" policy.verify_limit_per_ip ∷ [])
          (now - seconds policy.rate_window_seconds))
