-- ===== src/Auth/Model.antt =====
-- app/mana_operation_ai/domain/auth.py: what the authentication of administrators stores. A UUID
-- and a hexadecimal digest are the numbers that they spell; an instant counts microseconds from
-- `datetime.min`.
use manaai.Prelude.{ℕ, ◌*◌, Option, List, String, Bool, ◌&&◌, is_some, not}
use manaai.Prelude.Dict.{Dict}
use manaai.Domain.Enums.{
  UserRole, AdminUserStatus, OtpChallengeStatus, same_role, same_user_status, same_challenge_status,
}

-- `timedelta(seconds=n)`.
abbrev pub seconds : ℕ → ℕ
seconds n = n * 1000000

-- The JSON values that the details of an event hold.
pub data JsonValue : Type 0 where
  text : String → JsonValue
  number : ℕ → JsonValue
  flag : Bool → JsonValue
  isoformat : ℕ → JsonValue

-- `created_by` is the word `telegram-bootstrap` or the id of a user.
pub data CreatedBy : Type 0 where
  telegram_bootstrap : CreatedBy
  by_user : ℕ → CreatedBy

pub record AdminUser : Type 0 where
  pub user_id : ℕ
  pub telegram_id : ℕ
  pub display_name : Option String
  pub username : Option String
  pub role : UserRole
  pub status : AdminUserStatus
  pub created_at : ℕ
  pub updated_at : ℕ
  pub last_login_at : Option ℕ
  pub created_by : CreatedBy
  pub disabled_reason : Option String
  pub profile_metadata : Dict JsonValue
  pub consecutive_auth_failures : ℕ
  pub auth_locked_until : Option ℕ

-- `validate_disabled_state`.
unfoldable pub disabled_state_ok : AdminUser → Bool
disabled_state_ok user =
    not (same_user_status user.status AdminUserStatus.active && is_some user.disabled_reason)
    && not (
        same_user_status user.status AdminUserStatus.disabled && not (is_some user.disabled_reason))

pub record OtpChallenge : Type 0 where
  pub challenge_id : ℕ
  pub user_id : ℕ
  pub telegram_id : ℕ
  pub code_hmac : ℕ
  pub issued_at : ℕ
  pub expires_at : ℕ
  pub consumed_at : Option ℕ
  pub attempts_count : ℕ
  pub request_ip_hash : ℕ
  pub request_user_agent_hash : Option ℕ
  pub status : OtpChallengeStatus

pub record AdminSession : Type 0 where
  pub session_id : ℕ
  pub user_id : ℕ
  pub token_hmac : ℕ
  pub csrf_hmac : ℕ
  pub created_at : ℕ
  pub last_seen_at : ℕ
  pub expires_at : ℕ
  pub revoked_at : Option ℕ
  pub revocation_reason : Option String
  pub request_ip_hash : ℕ
  pub request_user_agent_hash : Option ℕ

pub data AuthAuditEventType : Type 0 where
  bootstrap_applied login_code_requested login_code_delivery_failed : AuthAuditEventType
  login_failed login_succeeded session_revoked logout : AuthAuditEventType
  user_created user_profile_changed user_role_changed : AuthAuditEventType
  user_status_changed user_sessions_revoked auth_rate_limited : AuthAuditEventType

pub record AuthAuditEvent : Type 0 where
  pub event_id : ℕ
  pub event_type : AuthAuditEventType
  pub occurred_at : ℕ
  pub actor_user_id : Option ℕ
  pub subject_user_id : Option ℕ
  pub request_ip_hash : Option ℕ
  pub summary : String
  pub details : Dict JsonValue

pub record AuthenticatedIdentity : Type 0 where
  pub user : AdminUser
  pub session : AdminSession

pub record IssuedSession : Type 0 where
  pub identity : AuthenticatedIdentity
  pub session_token : String
  pub csrf_token : String

pub record AuthPolicy : Type 0 where
  pub otp_ttl_seconds : ℕ
  pub resend_cooldown_seconds : ℕ
  pub max_verify_attempts : ℕ
  pub request_limit_per_user : ℕ
  pub request_limit_per_ip : ℕ
  pub verify_limit_per_ip : ℕ
  pub global_request_limit : ℕ
  pub rate_window_seconds : ℕ
  pub lockout_failures : ℕ
  pub lockout_seconds : ℕ
  pub session_ttl_seconds : ℕ

pub record AuthRateEvent : Type 0 where
  pub event_id : ℕ
  pub scope : String
  pub scope_hmac : ℕ
  pub action : String
  pub occurred_at : ℕ

pub record AuthRateLimit : Type 0 where
  pub scope : String
  pub scope_hmac : ℕ
  pub actions : List String
  pub limit : ℕ

-- The tests that the code makes of these again and again.
abbrev pub is_active : AdminUser → Bool
is_active user = same_user_status user.status AdminUserStatus.active

abbrev pub is_active_admin : AdminUser → Bool
is_active_admin user = same_role user.role UserRole.admin && is_active user

abbrev pub is_open : OtpChallenge → Bool
is_open challenge = same_challenge_status challenge.status OtpChallengeStatus.active
