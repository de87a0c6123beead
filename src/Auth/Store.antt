-- ===== src/Auth/Store.antt =====
-- app/mana_operation_ai/infrastructure/persistence/auth_repository.py: the tables of the
-- authentication, and each transaction on them. A row is the payload that it holds: the other
-- columns repeat it. A transaction that raises leaves the tables as they were. Where a stored user is
-- read it is validated: `update_user_access` has the error of a user that `validate_disabled_state`
-- refuses; in the other reads a stored user is taken to be valid. The rows of the audit are taken to
-- fit it: their ids are new, and the users that they name are there.
pub mod Challenges
pub mod Limits
pub mod Sessions
use manaai.Prelude.{
  ℕ, ◌+◌, Option, none, some, List, [], ◌∷◌, ◌++◌, String, str_eq, Bool, true, false, not, ◌&&◌,
  ◌||◌, ltb, leb, ◌==◌, if◌then◌else◌, is_some, or_else, any, count, filter, find, modify, length,
}
use manaai.Prelude.Exec.{Result, ok, err}
use manaai.Domain.Enums.{
  UserRole, AdminUserStatus, OtpChallengeStatus, same_role, same_user_status, same_challenge_status,
}
use manaai.Auth.Model.{
  AdminUser, OtpChallenge, AdminSession, AuthAuditEvent, AuthRateEvent, AuthRateLimit,
  AuthenticatedIdentity, is_active, is_active_admin, is_open, disabled_state_ok,
}

-- What the repository and the service raise.
pub data AuthError : Type 0 where
  last_active_admin admin_user_already_exists lookup_error : AuthError
  concurrent_operation integrity_error no_result_found : AuthError
  validation_error : AuthError
  authentication_unavailable : AuthError
  authentication : String → Option ℕ → AuthError
  user_management : String → AuthError

pub record Db : Type 0 where
  pub users : List AdminUser
  pub challenges : List OtpChallenge
  pub sessions : List AdminSession
  pub rate_events : List AuthRateEvent
  pub audit : List AuthAuditEvent
  pub revision : Option ℕ

abbrev pub Tx : Type 0 → Type 0
Tx A = Db → Result AuthError A × Db

-- `_lock_auth_state`: the guard row is made if it is missing, and its revision grows. The row is
-- there when the update is made, so the update meets one row.
unfoldable pub lock_auth_state : Db → Db
lock_auth_state db = record db { revision = some (or_else db.revision 1 + 1) }

abbrev pub has_user_id : ℕ → AdminUser → Bool
has_user_id user_id user = user.user_id == user_id

abbrev pub has_telegram_id : ℕ → AdminUser → Bool
has_telegram_id telegram_id user = user.telegram_id == telegram_id

-- `_apply_user`: the row of the user is overwritten.
unfoldable pub apply_user : AdminUser → Db → Db
apply_user user db = record db { users = modify (has_user_id user.user_id) (λ _. user) db.users }

unfoldable pub save_audit_event : AuthAuditEvent → Db → Db
save_audit_event event db = record db { audit = db.audit ++ event ∷ [] }

unfoldable pub get_user : ℕ → Db → Option AdminUser
get_user user_id db = find (has_user_id user_id) db.users

unfoldable pub get_user_by_telegram_id : ℕ → Db → Option AdminUser
get_user_by_telegram_id telegram_id db = find (has_telegram_id telegram_id) db.users

unfoldable pub bootstrap_admin : AdminUser → AuthAuditEvent → Tx AdminUser
unfolding lock_auth_state apply_user save_audit_event
bootstrap_admin user event db = elim (find (has_telegram_id user.telegram_id) db.users) [
  | none ↦
      let locked = lock_auth_state db in
      if any (has_user_id user.user_id) db.users then (err integrity_error, db) else (
        ok user,
        save_audit_event (record event { subject_user_id = some user.user_id })
            (record locked { users = locked.users ++ user ∷ [] }),
      )
  | some current ↦
      let effective : AdminUser = record current {
        role = UserRole.admin;
        status = AdminUserStatus.active;
        updated_at = user.updated_at;
        disabled_reason = none;
      } in
      (
        ok effective,
        save_audit_event (record event { subject_user_id = some effective.user_id })
            (apply_user effective (lock_auth_state db)),
      )
]

-- The row of a new user meets the primary key and the unique Telegram identity.
unfoldable pub create_user : AdminUser → AuthAuditEvent → Tx AdminUser
unfolding save_audit_event
create_user user event db =
    if any (λ other. has_user_id user.user_id other || has_telegram_id user.telegram_id other)
      db.users
    then (err admin_user_already_exists, db)
    else (ok user, save_audit_event event (record db { users = db.users ++ user ∷ [] }))

abbrev pub is_unrevoked : ℕ → AdminSession → Bool
is_unrevoked user_id session = session.user_id == user_id && not (is_some session.revoked_at)

abbrev pub revoke : ℕ → String → AdminSession → AdminSession
revoke now reason session = record session {
  revoked_at = some now;
  revocation_reason = some reason;
}

-- `_revoke_sessions_in_transaction`: the number of sessions revoked, and the tables after.
unfoldable pub revoke_sessions_in_transaction : ℕ → ℕ → String → Db → ℕ × Db
revoke_sessions_in_transaction user_id now reason db = (
  count (is_unrevoked user_id) db.sessions,
  record db { sessions = modify (is_unrevoked user_id) (revoke now reason) db.sessions },
)

abbrev pub is_open_of : ℕ → OtpChallenge → Bool
is_open_of user_id challenge = challenge.user_id == user_id && is_open challenge

abbrev pub invalidate : OtpChallenge → OtpChallenge
invalidate challenge = record challenge { status = OtpChallengeStatus.invalidated }

-- `_invalidate_challenges_in_transaction`.
unfoldable pub invalidate_challenges_in_transaction : ℕ → Db → Db
invalidate_challenges_in_transaction user_id db = record db {
  challenges = modify (is_open_of user_id) invalidate db.challenges;
}

abbrev pub user_status_value : AdminUserStatus → String
user_status_value AdminUserStatus.active = "active"
user_status_value AdminUserStatus.disabled = "disabled"
user_status_value AdminUserStatus.pending = "pending"
user_status_value AdminUserStatus.revoked = "revoked"

abbrev pub revoked_because : AdminUserStatus → String
revoked_because AdminUserStatus.active = "user_active"
revoked_because AdminUserStatus.disabled = "user_disabled"
revoked_because AdminUserStatus.pending = "user_pending"
revoked_because AdminUserStatus.revoked = "user_revoked"

-- `a or b` on optional texts: an empty text counts as none.
abbrev pub or_text : Option String → Option String → Option String
or_text none b = b
or_text (some a) b = if str_eq a "" then b else some a

-- The changes that `update_user_access` may be given.
pub record AccessChange : Type 0 where
  pub role : Option UserRole
  pub status : Option AdminUserStatus
  pub disabled_reason : Option String
  pub display_name : Option String
  pub username : Option String
  pub update_display_name : Bool
  pub update_username : Bool

-- The user after the change.
unfoldable pub changed_user : AdminUser → AccessChange → ℕ → AdminUser
changed_user current change updated_at =
    let next_status = or_else change.status current.status in
    let enabled = same_user_status next_status AdminUserStatus.active in
    let reactivated = enabled && not (is_active current) in
    record current {
      role = or_else change.role current.role;
      status = next_status;
      disabled_reason =
          if enabled then none else or_text change.disabled_reason current.disabled_reason;
      display_name =
          if change.update_display_name then change.display_name else current.display_name;
      username = if change.update_username then change.username else current.username;
      consecutive_auth_failures = if reactivated then 0 else current.consecutive_auth_failures;
      auth_locked_until = if reactivated then none else current.auth_locked_until;
      updated_at = updated_at;
    }

-- What a user loses who is active no more.
unfoldable pub close_access : AdminUser → ℕ → Db → Db
unfolding revoke_sessions_in_transaction invalidate_challenges_in_transaction
close_access updated now db =
    if is_active updated
    then db
    else invalidate_challenges_in_transaction updated.user_id
        (revoke_sessions_in_transaction updated.user_id now (revoked_because updated.status) db).1

unfoldable pub update_user_access : ℕ → AccessChange → ℕ → List AuthAuditEvent → Tx AdminUser
unfolding lock_auth_state apply_user close_access changed_user get_user
update_user_access user_id change updated_at events db = elim (get_user user_id db) [
  | none ↦ (err lookup_error, db)
  | some current ↦
      if not (disabled_state_ok current)
      then (err validation_error, db)
      else let updated = changed_user current change updated_at in
        let removing_active_admin = is_active_admin current && not (is_active_admin updated) in
        if removing_active_admin && leb (count is_active_admin db.users) 1
        then (err last_active_admin, db)
        else let after =
            close_access updated updated_at (apply_user updated (lock_auth_state db)) in
          (ok updated, record after { audit = after.audit ++ events })
]
