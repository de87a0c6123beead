-- ===== src/Auth/Store/Sessions.antt =====
-- The transactions of auth_repository.py on sessions.
use manaai.Prelude.{
  ℕ, Option, none, some, [], ◌∷◌, ◌++◌, String, Bool, true, false, not, ◌&&◌, ◌||◌, ltb, ◌==◌,
  if◌then◌else◌, is_some, any, find, modify,
}
use manaai.Prelude.Exec.{ok, err}
use manaai.Auth.Model.{AdminUser, AdminSession, AuthAuditEvent, AuthenticatedIdentity, is_active}
use manaai.Auth.Store.{
  lookup_error, integrity_error, Db, Tx, apply_user, get_user, save_audit_event, revoke,
  revoke_sessions_in_transaction,
}

abbrev pub has_token : ℕ → AdminSession → Bool
has_token token_hmac session = session.token_hmac == token_hmac

abbrev pub is_live_token : ℕ → AdminSession → Bool
is_live_token token_hmac session = has_token token_hmac session && not (is_some session.revoked_at)

-- A login revokes the session that the browser held before.
unfoldable pub rotate_session : Option ℕ → ℕ → Db → Db
rotate_session none login_at db = db
rotate_session (some token_hmac) login_at db = record db {
  sessions = modify (is_live_token token_hmac) (revoke login_at "session_rotated") db.sessions;
}

abbrev pub logged_in : ℕ → AdminUser → AdminUser
logged_in login_at user = record user {
  last_login_at = some login_at;
  updated_at = login_at;
  consecutive_auth_failures = 0;
  auth_locked_until = none;
}

unfoldable pub create_session :
    AdminSession → Option ℕ → ℕ → AuthAuditEvent → Tx AuthenticatedIdentity
unfolding rotate_session apply_user save_audit_event get_user
create_session session old_token_hmac login_at event db = elim (get_user session.user_id db) [
  | none ↦ (err lookup_error, db)
  | some current ↦
      let user = logged_in login_at current in
      let after = apply_user user (rotate_session old_token_hmac login_at db) in
      if any (λ old. old.session_id == session.session_id || has_token session.token_hmac old)
        after.sessions
      then (err integrity_error, db)
      else (
        ok (record { user = user; session = session }),
        save_audit_event event (record after { sessions = after.sessions ++ session ∷ [] }),
      )
]

-- The session may still be used at this instant.
abbrev pub usable : ℕ → AdminSession → Bool
usable now session = not (is_some session.revoked_at) && ltb now session.expires_at

unfoldable pub get_identity_by_session_hmac : ℕ → ℕ → Db → Option AuthenticatedIdentity × Db
unfolding get_user
get_identity_by_session_hmac token_hmac now db = elim (find (has_token token_hmac) db.sessions) [
  | none ↦ (none, db)
  | some session ↦ elim (get_user session.user_id db) [
    | none ↦ (none, db)
    | some user ↦
        if usable now session && is_active user
        then (let touched : AdminSession = record session { last_seen_at = now } in
            (
              some (record { user = user; session = touched }),
              record db { sessions = modify (has_token token_hmac) (λ _. touched) db.sessions },
            ))
        else (none, db)
  ]
]

unfoldable pub revoke_session : ℕ → ℕ → String → Option AuthAuditEvent → Db → Bool × Db
unfolding save_audit_event
revoke_session token_hmac now reason event db = elim (find (has_token token_hmac) db.sessions) [
  | none ↦ (false, db)
  | some session ↦
      if is_some session.revoked_at
      then (false, db)
      else let after : Db = record db {
        sessions = modify (has_token token_hmac) (revoke now reason) db.sessions;
      } in
        (true, elim event [ none ↦ after | some e ↦ save_audit_event e after ])
]

unfoldable pub revoke_user_sessions : ℕ → ℕ → String → AuthAuditEvent → Db → ℕ × Db
unfolding revoke_sessions_in_transaction save_audit_event
revoke_user_sessions user_id now reason event db =
    let (n, after) = revoke_sessions_in_transaction user_id now reason db in
    (n, save_audit_event event after)
