-- ===== src/Auth/Service/VerifyCode.antt =====
-- `verify_code` of auth_service.py.
use Prim.Native.Nat.{max}
use mathlib.Core.Option
use manaai.Prelude.{
  ℕ, ◌+◌, ◌-◌, ◌/◌, Option, none, some, [], ◌∷◌, String, Bool, true, false, not, ◌==◌,
  if◌then◌else◌,
}
use manaai.Prelude.Exec.{ret, raise, ◌>>=◌, ◌>>◌}
use manaai.Domain.Enums.{OtpChallengeStatus, same_challenge_status}
use manaai.Auth.Model.{
  seconds, AdminUser, OtpChallenge, AdminSession, AuthAuditEventType, IssuedSession, flag,
  isoformat, is_active,
}
use manaai.Auth.Store.{authentication, get_user_by_telegram_id}
use manaai.Auth.Store.Challenges.{get_active_challenge, apply_challenge_attempt}
use manaai.Auth.Store.Limits.{record_auth_failure}
use manaai.Auth.Store.Sessions.{create_session}
use manaai.Auth.Service.{
  Service, Run, otp, session, csrf, scope, draw, transact, commit, reads, require_hmac,
  optional_scope_hmac, make_event, audit,
}
use manaai.Auth.Service.Limits.{locked_at, consume_verify_limit}

module _ (service : Service) where
  open service use {policy, clock, new_id, hmac, random_code, token_urlsafe, send_login_code}

  -- `_issue_session`.
  unfoldable pub issue_session :
      AdminUser → ℕ → Option String → Option String → ℕ → Run IssuedSession
  issue_session user ip_scope user_agent old_session_token now = do
    session_token ← draw token_urlsafe
    csrf_token ← draw token_urlsafe
    session_id ← draw new_id
    let new : AdminSession = record {
      session_id = session_id;
      user_id = user.user_id;
      token_hmac = hmac (session session_token);
      csrf_hmac = hmac (csrf csrf_token);
      created_at = now;
      last_seen_at = now;
      expires_at = now + seconds policy.session_ttl_seconds;
      revoked_at = none;
      revocation_reason = none;
      request_ip_hash = ip_scope;
      request_user_agent_hash = optional_scope_hmac service "user_agent" user_agent;
    }
    event ←
        make_event service AuthAuditEventType.login_succeeded (some user.user_id)
          (some user.user_id) (some ip_scope) "Telegram one-time code login succeeded"
          (("session_expires_at", isoformat new.expires_at) ∷ [])
    identity ←
        transact
          (create_session new (Option.map (λ t. hmac (session t)) old_session_token) now event)
    ret (record { identity = identity; session_token = session_token; csrf_token = csrf_token })

  -- `_record_failed_verification`.
  unfoldable pub record_failed_verification : AdminUser → ℕ → ℕ → Run (Unit {0})
  record_failed_verification user ip_scope now = do
    updated ← transact (
        record_auth_failure user.user_id now policy.lockout_failures
          (now + seconds policy.lockout_seconds))
    audit service AuthAuditEventType.login_failed none (some user.user_id) (some ip_scope)
        "Telegram one-time code verification failed"
        (("temporarily_locked", flag (locked_at now updated.auth_locked_until)) ∷ [])

  -- `verify_code` after the attempt was applied to the challenge.
  unfoldable pub judge_attempt :
      AdminUser → Option OtpChallenge → ℕ → Option String → Option String → ℕ → Run IssuedSession
  judge_attempt user none ip_scope user_agent old_session_token now =
      raise (authentication "invalid_or_reused_code" none)
  judge_attempt user (some updated) ip_scope user_agent old_session_token now =
      if same_challenge_status updated.status OtpChallengeStatus.expired
      then raise (authentication "expired_code" none)
      else if same_challenge_status updated.status OtpChallengeStatus.consumed
      then issue_session user ip_scope user_agent old_session_token now
      else (do
        record_failed_verification user ip_scope now
        raise (
            authentication
              (if same_challenge_status updated.status OtpChallengeStatus.attempts_exhausted
                then "attempts_exhausted"
                else "invalid_code")
              none))

  -- The code is compared with that of the challenge.
  unfoldable pub try_code :
      AdminUser
      → Option OtpChallenge
      → ℕ
      → String
      → ℕ
      → Option String
      → Option String
      → ℕ
      → Run IssuedSession
  try_code user none telegram_id code ip_scope user_agent old_session_token now =
      raise (authentication "invalid_or_expired_code" none)
  try_code user (some challenge) telegram_id code ip_scope user_agent old_session_token now = do
    let correct = hmac (otp challenge.challenge_id telegram_id code) == challenge.code_hmac
    updated ←
        commit
          (apply_challenge_attempt challenge.challenge_id correct now policy.max_verify_attempts)
    judge_attempt user updated ip_scope user_agent old_session_token now

  -- `max(1, int((until - now).total_seconds()))`.
  abbrev lock_left : ℕ → Option ℕ → ℕ
  lock_left now none = 1
  lock_left now (some until) = max 1 ((until - now) / seconds 1)

  unfoldable pub verify_for :
      Option AdminUser → ℕ → String → ℕ → Option String → Option String → ℕ → Run IssuedSession
  verify_for none telegram_id code ip_scope user_agent old_session_token now =
      raise (authentication "invalid_code" none)
  verify_for (some user) telegram_id code ip_scope user_agent old_session_token now =
      if not (is_active user)
      then raise (authentication "invalid_code" none)
      else if locked_at now user.auth_locked_until
      then raise (authentication "temporarily_locked" (some (lock_left now user.auth_locked_until)))
      else (do
        challenge ← reads (get_active_challenge user.user_id)
        try_code user challenge telegram_id code ip_scope user_agent old_session_token now)

  -- `verify_code` after the limit of the address was asked.
  unfoldable pub verify_after_limit :
      Bool → ℕ → String → ℕ → Option String → Option String → ℕ → Run IssuedSession
  verify_after_limit false telegram_id code ip_scope user_agent old_session_token now = do
    audit service AuthAuditEventType.auth_rate_limited none none (some ip_scope)
        "Telegram login-code verification was rate limited" []
    raise (authentication "rate_limited" (some policy.rate_window_seconds))
  verify_after_limit true telegram_id code ip_scope user_agent old_session_token now = do
    user ← reads (get_user_by_telegram_id telegram_id)
    verify_for user telegram_id code ip_scope user_agent old_session_token now

  unfoldable pub verify_code :
      ℕ → String → String → Option String → Option String → Run IssuedSession
  verify_code telegram_id code client_ip user_agent old_session_token = do
    require_hmac service
    now ← draw clock
    let ip_scope = hmac (scope "ip" client_ip)
    admitted ← consume_verify_limit service ip_scope now
    verify_after_limit admitted telegram_id code ip_scope user_agent old_session_token now
