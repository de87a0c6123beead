-- ===== src/Auth/Service/Users.antt =====
-- The calls of auth_service.py by which administrators are managed.
use manaai.Prelude.{
  ℕ, Option, none, some, List, [], ◌∷◌, ◌++◌, String, str_eq, Bool, true, false, not, ◌||◌, ◌&&◌,
  ◌==◌, if◌then◌else◌, is_some, or_else, length,
}
use manaai.Prelude.Exec.{Result, ok, err, ret, raise, ensure, ◌>>=◌, ◌>>◌}
use manaai.Domain.Enums.{UserRole, AdminUserStatus, same_role, same_user_status}
use manaai.Auth.Model.{
  AdminUser, telegram_bootstrap, by_user, AuthAuditEvent, AuthAuditEventType, text, is_active_admin,
}
use manaai.Auth.Store.{
  AuthError, last_active_admin, admin_user_already_exists, user_management, AccessChange,
  bootstrap_admin, create_user, update_user_access, get_user, user_status_value,
}
use manaai.Auth.Store.Sessions.{revoke_user_sessions}
use manaai.Auth.Service.{Service, Run, draw, transact, commit, reads, make_event}

abbrev pub role_value : UserRole → String
role_value UserRole.viewer = "viewer"
role_value UserRole.operator = "operator"
role_value UserRole.approver = "approver"
role_value UserRole.admin = "admin"

-- `except LastActiveAdminError` and `except AdminUserAlreadyExistsError`.
abbrev pub translate : AuthError → AuthError
translate last_active_admin = user_management "last_active_admin"
translate admin_user_already_exists = user_management "telegram_id_already_exists"
translate e = e

abbrev translated : {A : Type 0} → Result AuthError A → Result AuthError A
translated (ok a) = ok a
translated (err e) = err (translate e)

abbrev pub catching : {A : Type 0} → Run A → Run A
catching m s = let (r, s') = m s in (translated r, s')

-- `a is not None and a is not b`, and the two tests of a profile field.
abbrev pub changes_role : Option UserRole → UserRole → Bool
changes_role none old = false
changes_role (some new) old = not (same_role new old)

abbrev pub changes_status : Option AdminUserStatus → AdminUserStatus → Bool
changes_status none old = false
changes_status (some new) old = not (same_user_status new old)

abbrev pub same_text : Option String → Option String → Bool
same_text none none = true
same_text (some a) (some b) = str_eq a b
same_text _ _ = false

abbrev pub require_admin : AdminUser → Run (Unit {0})
require_admin user = ensure (is_active_admin user) (user_management "admin_required")

module _ (service : Service) where
  open service use {clock, new_id}

  -- One round of the loop of `bootstrap_admins`.
  unfoldable pub bootstrap_one : ℕ → ℕ → Run AdminUser
  bootstrap_one now telegram_id = do
    user_id ← draw new_id
    let user : AdminUser = record {
      user_id = user_id;
      telegram_id = telegram_id;
      display_name = none;
      username = none;
      role = UserRole.admin;
      status = AdminUserStatus.active;
      created_at = now;
      updated_at = now;
      last_login_at = none;
      created_by = telegram_bootstrap;
      disabled_reason = none;
      profile_metadata = [];
      consecutive_auth_failures = 0;
      auth_locked_until = none;
    }
    event ←
        make_event service AuthAuditEventType.bootstrap_applied none (some user_id) none
          "Bootstrap administrator access reconciled"
          (("role", text (role_value UserRole.admin)) ∷ [])
    transact (bootstrap_admin user event)

  unfoldable pub bootstrap_each : ℕ → List ℕ → Run (List AdminUser)
  bootstrap_each now [] = ret []
  bootstrap_each now (telegram_id ∷ telegram_ids) = do
    user ← bootstrap_one now telegram_id
    users ← bootstrap_each now telegram_ids
    ret (user ∷ users)

  unfoldable pub bootstrap_admins : List ℕ → Run (List AdminUser)
  bootstrap_admins telegram_ids = do now ← draw clock; bootstrap_each now telegram_ids

  unfoldable pub create_admin_user :
      AdminUser → ℕ → UserRole → Option String → Option String → Run AdminUser
  create_admin_user actor telegram_id role display_name username = do
    require_admin actor
    now ← draw clock
    user_id ← draw new_id
    let user : AdminUser = record {
      user_id = user_id;
      telegram_id = telegram_id;
      display_name = display_name;
      username = username;
      role = role;
      status = AdminUserStatus.active;
      created_at = now;
      updated_at = now;
      last_login_at = none;
      created_by = by_user actor.user_id;
      disabled_reason = none;
      profile_metadata = [];
      consecutive_auth_failures = 0;
      auth_locked_until = none;
    }
    event ←
        make_event service AuthAuditEventType.user_created (some actor.user_id) (some user_id) none
          "Administrative user created" (("role", text (role_value role)) ∷ [])
    catching (transact (create_user user event))

  -- An event if the test holds.
  unfoldable pub event_if : Bool → Run AuthAuditEvent → Run (List AuthAuditEvent)
  event_if true make = do event ← make; ret (event ∷ [])
  event_if false make = ret []

  -- `",".join(profile_fields)`.
  abbrev pub profile_fields : Bool → Bool → String
  profile_fields true true = "display_name,username"
  profile_fields true false = "display_name"
  profile_fields false true = "username"
  profile_fields false false = ""

  -- The events of `update_user_access`, one for each kind of change.
  unfoldable pub access_events : AdminUser → AdminUser → AccessChange → Run (List AuthAuditEvent)
  access_events actor current change = do
    let named =
        change.update_display_name && not (same_text change.display_name current.display_name)
    let renamed = change.update_username && not (same_text change.username current.username)
    profile ← event_if (named || renamed) (
        make_event service AuthAuditEventType.user_profile_changed (some actor.user_id)
          (some current.user_id) none "Administrative user profile changed"
          (("fields", text (profile_fields named renamed)) ∷ []))
    role ← event_if (changes_role change.role current.role) (
        make_event service AuthAuditEventType.user_role_changed (some actor.user_id)
          (some current.user_id) none "Administrative user role changed"
          (("from", text (role_value current.role))
            ∷ ("to", text (role_value (or_else change.role current.role)))
            ∷ []))
    status ← event_if (changes_status change.status current.status) (
        make_event service AuthAuditEventType.user_status_changed (some actor.user_id)
          (some current.user_id) none "Administrative user status changed"
          (("from", text (user_status_value current.status))
            ∷ ("to", text (user_status_value (or_else change.status current.status)))
            ∷ []))
    ret (profile ++ role ++ status)

  -- `update_user_access` for the user that was found.
  unfoldable pub change_access : AdminUser → AdminUser → AccessChange → Run AdminUser
  change_access actor current change =
      if actor.user_id == current.user_id
        && (changes_role change.role current.role || changes_status change.status current.status)
      then raise (user_management "self_access_change_forbidden")
      else (do
        now ← draw clock
        events ← access_events actor current change
        if length events == 0
            then ret current
            else catching (transact (update_user_access current.user_id change now events)))

  unfoldable pub change_found : AdminUser → Option AdminUser → AccessChange → Run AdminUser
  change_found actor none change = raise (user_management "user_not_found")
  change_found actor (some current) change = change_access actor current change

  unfoldable pub update_access : AdminUser → ℕ → AccessChange → Run AdminUser
  update_access actor user_id change = do
    require_admin actor
    current ← reads (get_user user_id)
    change_found actor current change

  unfoldable pub revoke_all_sessions : AdminUser → ℕ → Run ℕ
  revoke_all_sessions actor user_id = do
    require_admin actor
    found ← reads (get_user user_id)
    ensure (is_some found) (user_management "user_not_found")
    now ← draw clock
    event ←
        make_event service AuthAuditEventType.user_sessions_revoked (some actor.user_id)
          (some user_id) none "All administrative sessions revoked" []
    commit (revoke_user_sessions user_id now "administrator_revoked_sessions" event)
