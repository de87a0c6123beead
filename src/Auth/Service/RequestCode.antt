-- ===== src/Auth/Service/RequestCode.antt =====
-- `request_code` of auth_service.py.
use manaai.Prelude.{
  ℕ, ◌+◌, ◌-◌, Option, none, some, [], ◌∷◌, String, Bool, true, false, not, ◌||◌, if◌then◌else◌,
}
use manaai.Prelude.Exec.{ret, raise, ◌>>=◌, ◌>>◌}
use manaai.Domain.Enums.{OtpChallengeStatus}
use manaai.Auth.Model.{
  seconds, AdminUser, OtpChallenge, AuthAuditEventType, text, number, is_active,
}
use manaai.Auth.Store.{authentication, get_user_by_telegram_id}
use manaai.Auth.Store.Challenges.{reserve_challenge, fail_challenge_delivery}
use manaai.Auth.Service.{
  Service, Run, otp, scope, scope_number, TelegramDeliveryFailure, draw, transact, write, reads,
  require_hmac, optional_scope_hmac, audit,
}
use manaai.Auth.Service.Limits.{locked_at, consume_request_limits}

pub record RequestCodeResult : Type 0 where
  pub message : String
  pub expires_in_seconds : ℕ
  pub resend_after_seconds : ℕ
  pub bot_url : Option String

abbrev pub delivery_failure_value : TelegramDeliveryFailure → String
delivery_failure_value TelegramDeliveryFailure.bot_not_started = "bot_not_started"
delivery_failure_value TelegramDeliveryFailure.transient = "transient"
delivery_failure_value TelegramDeliveryFailure.permanent = "permanent"
delivery_failure_value TelegramDeliveryFailure.unavailable = "unavailable"

module _ (service : Service) where
  open service use {policy, clock, new_id, hmac, random_code, token_urlsafe, send_login_code}

  -- `_generic_request_result`: the same for every caller.
  unfoldable pub generic_request_result : RequestCodeResult
  generic_request_result = record {
    message =
        "If access is enabled, a login code was sent. If no message arrives, open the MANA bot, press Start, and request a new code.";
    expires_in_seconds = policy.otp_ttl_seconds;
    resend_after_seconds = policy.resend_cooldown_seconds;
    bot_url = service.bot_url;
  }

  -- What became of the sending is written down.
  unfoldable pub record_delivery :
      AdminUser → OtpChallenge → ℕ → Option TelegramDeliveryFailure → Run (Unit {0})
  record_delivery user challenge ip_scope (some failure) = do
    write (fail_challenge_delivery challenge.challenge_id)
    audit service AuthAuditEventType.login_code_delivery_failed none (some user.user_id)
        (some ip_scope) "Login code delivery was unavailable"
        (("failure", text (delivery_failure_value failure)) ∷ [])
  record_delivery user challenge ip_scope none =
      audit service AuthAuditEventType.login_code_requested none (some user.user_id) (some ip_scope)
        "One-time login code requested" (("expires_in_seconds", number policy.otp_ttl_seconds) ∷ [])

  -- `request_code` from the making of the code on, for a user who may log in.
  unfoldable pub send_code : AdminUser → ℕ → Option String → ℕ → Run RequestCodeResult
  send_code user ip_scope user_agent now = do
    code ← draw random_code
    challenge_id ← draw new_id
    let challenge : OtpChallenge = record {
      challenge_id = challenge_id;
      user_id = user.user_id;
      telegram_id = user.telegram_id;
      code_hmac = hmac (otp challenge_id user.telegram_id code);
      issued_at = now;
      expires_at = now + seconds policy.otp_ttl_seconds;
      consumed_at = none;
      attempts_count = 0;
      request_ip_hash = ip_scope;
      request_user_agent_hash = optional_scope_hmac service "user_agent" user_agent;
      status = OtpChallengeStatus.active;
    }
    reserved ← transact (reserve_challenge challenge (now - seconds policy.resend_cooldown_seconds))
    if not reserved then ret generic_request_result else do
      failure ← draw (λ n. send_login_code n user.telegram_id code policy.otp_ttl_seconds)
      record_delivery user challenge ip_scope failure
      ret generic_request_result

  -- The user is looked up under the identity lock.
  unfoldable pub code_for : Option AdminUser → ℕ → Option String → ℕ → Run RequestCodeResult
  code_for none ip_scope user_agent now = ret generic_request_result
  code_for (some user) ip_scope user_agent now =
      if not (is_active user) || locked_at now user.auth_locked_until
      then ret generic_request_result
      else send_code user ip_scope user_agent now

  -- `request_code` after the limits were asked.
  unfoldable pub request_after_limits : Bool → ℕ → ℕ → Option String → ℕ → Run RequestCodeResult
  request_after_limits false telegram_id ip_scope user_agent now = do
    audit service AuthAuditEventType.auth_rate_limited none none (some ip_scope)
        "Telegram login-code request was rate limited" []
    raise (authentication "rate_limited" (some policy.rate_window_seconds))
  request_after_limits true telegram_id ip_scope user_agent now = do
    user ← reads (get_user_by_telegram_id telegram_id)
    code_for user ip_scope user_agent now

  unfoldable pub request_code : ℕ → String → Option String → Run RequestCodeResult
  request_code telegram_id client_ip user_agent = do
    require_hmac service
    now ← draw clock
    let ip_scope = hmac (scope "ip" client_ip)
    admitted ←
        consume_request_limits service (hmac (scope_number "telegram" telegram_id)) ip_scope
          (hmac (scope "global" "all")) now
    request_after_limits admitted telegram_id ip_scope user_agent now
