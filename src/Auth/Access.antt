-- ===== src/Auth/Access.antt =====
-- Who has access: a user who is switched off loses every session and code, and a session token
-- identifies a user only while both are good.
pub mod Changes
use manaai.Prelude.{
  ℕ, ◌≤◌, ◌<◌, ◌≡◌, refl, none, some, List, true, false, not, ◌&&◌, leb, count, find, arith,
  Bool-cases, Option-cases, inl, inr, ◌⊎◌, String, str_eq,
}
use manaai.Prelude.Exec.{ok, err}
use manaai.Domain.Enums.{AdminUserStatus}
use manaai.Auth.Model.{
  AdminUser, AdminSession, AuthAuditEvent, is_active, is_active_admin, disabled_state_ok,
}
use manaai.Auth.Store.{
  Db, get_user, AccessChange, update_user_access, changed_user, lookup_error, last_active_admin,
  validation_error,
}
use manaai.Auth.Store.Sessions.{get_identity_by_session_hmac, has_token, usable}
use manaai.Auth.Access.Changes.{IsChanged, IsClosed, changed_tables_lem}

-- A change of access that goes through returns and stores the user that was asked for: with the role
-- and the status of the change or as they were, the name and the username if the change updates them,
-- no reason if active, else the one of the change or as it was, and the failures cleared if activated.
-- If that user is not active, no session of theirs is unrevoked and no code of theirs is open
-- afterwards. One that does not go through changes nothing: there is no such user, or the stored one
-- is not valid, or the user is an active administrator and there is no other. The rows of the events
-- are taken to fit the audit.
pub update_user_access_closes :
    (user_id : ℕ) (change : AccessChange) (now : ℕ) (events : List AuthAuditEvent) (db : Db)
    → let (result, db') = update_user_access user_id change now events db in
      ((current : AdminUser) × (user : AdminUser) × (get_user user_id db ≡ some current)
        × (result ≡ ok user)
        × (user.user_id ≡ user_id)
        × (get_user user_id db' ≡ some user)
        × IsChanged current change now user
        × ((is_active user ≡ true) ⊎ IsClosed user db'))
      ⊎ (((result ≡ err lookup_error) × (get_user user_id db ≡ none)
            ⊎ ((current : AdminUser) × (get_user user_id db ≡ some current)
                × ((result ≡ err validation_error) × (disabled_state_ok current ≡ false)
                    ⊎ (result ≡ err last_active_admin)
                      × (is_active_admin current ≡ true)
                      × (count is_active_admin db.users ≤ 1))))
          × (db' ≡ db))
unfolding update_user_access get_user
update_user_access_closes user_id change now events db = elim (Option-cases (get_user user_id db)) [
  | inl e ↦ rw (e, update_user_access) (inr (inl (refl, refl), refl))
  | inr (current, e) ↦ elim (Bool-cases (disabled_state_ok current)) [
    | inr invalid ↦
        rw (e, update_user_access, invalid) (inr (inr (current, refl, inl (refl, invalid)), refl))
    | inl valid ↦
        elim (Bool-cases (
          (is_active_admin current && not (is_active_admin (changed_user current change now)))
          && leb (count is_active_admin db.users) 1)) [
            | inl last ↦
                rw (e, update_user_access, valid, last)
                  (inr (
                    inr (current, refl, inr (refl, ground (arith, last), ground (arith, last))),
                    refl,
                  ))
            | inr fine ↦
                let updated = changed_user current change now in
                let (id, stored, changed, closed) =
                  changed_tables_lem user_id current change now db e in
                rw (e, update_user_access, valid, fine)
                  (inl (current, updated, refl, refl, id, stored, changed, closed))
          ]
  ]
]

-- The session that a token finds is good now, and so is its user.
abbrev pub IsGood : ℕ → ℕ → Db → AdminSession → AdminUser → Type 0
IsGood token_hmac now db session user =
    (find (has_token token_hmac) db.sessions ≡ some session)
    × (session.revoked_at ≡ none)
    × (now < session.expires_at)
    × (get_user session.user_id db ≡ some user)
    × (user.status ≡ AdminUserStatus.active)

-- A token identifies somebody only if it finds a session that is neither revoked nor expired, of
-- an active user: that user, with the session seen now. Else nothing is written.
pub get_identity_lem :
    (token_hmac now : ℕ) (db : Db)
    → let (result, db') = get_identity_by_session_hmac token_hmac now db in
      ((session : AdminSession) × (user : AdminUser) × IsGood token_hmac now db session user
        × (result ≡ some (record { user = user; session = record session { last_seen_at = now } })))
      ⊎ ((result ≡ none) × (db' ≡ db))
unfolding get_identity_by_session_hmac
get_identity_lem token_hmac now db = elim (Option-cases (find (has_token token_hmac) db.sessions)) [
  | inl e ↦ rw (e, get_identity_by_session_hmac) (inr (refl, refl))
  | inr (session, e) ↦ elim (Option-cases (get_user session.user_id db)) [
    | inl u ↦ rw (e, get_identity_by_session_hmac, u) (inr (refl, refl))
    | inr (user, u) ↦ elim (Bool-cases (usable now session && is_active user)) [
      | inl good ↦
          rw (e, get_identity_by_session_hmac, u, good)
            (inl (session, user, (refl, ground arith, ground arith, u, ground arith), refl))
      | inr bad ↦ rw (e, get_identity_by_session_hmac, u, bad) (inr (refl, refl))
    ]
  ]
]

-- The stored users stay valid for `validate_disabled_state`, which reads them, if a change that
-- disables a user brings a reason that is not empty.
pub changed_user-valid :
    (current : AdminUser) (change : AccessChange) (now : ℕ) (reason : String)
    → disabled_state_ok current ≡ true
    → (change.status ≡ some AdminUserStatus.disabled
        → (change.disabled_reason ≡ some reason) × (str_eq reason "" ≡ false))
    → disabled_state_ok (changed_user current change now) ≡ true
unfolding changed_user disabled_state_ok
changed_user-valid current change now reason v h = ground (arith, h)

-- Without a reason a user who is disabled from any other status, with none stored, is not valid.
pub changed_user-invalid :
    (current : AdminUser) (change : AccessChange) (now : ℕ)
    → change.status ≡ some AdminUserStatus.disabled
    → change.disabled_reason ≡ none
    → current.disabled_reason ≡ none
    → disabled_state_ok (changed_user current change now) ≡ false
unfolding changed_user disabled_state_ok
changed_user-invalid current change now s r c = ground arith
