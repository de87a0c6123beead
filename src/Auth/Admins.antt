-- ===== src/Auth/Admins.antt =====
-- The platform does not lose its last active administrator.
use manaai.Prelude.{
  ℕ, ◌+◌, ◌≤◌, ◌≡◌, refl, ap, Option, none, some, List, [], ◌∷◌, String, Bool, count, find, any,
  arith, count-append, Bool-cases, Option-cases, inl, inr,
}
use manaai.Prelude.Rows.{count-modify, find_unique, num}
use manaai.Domain.Enums.{UserRole, AdminUserStatus}
use manaai.Auth.Model.{
  AdminUser, OtpChallenge, AdminSession, AuthAuditEvent, AuthRateEvent, AuthRateLimit,
  is_active_admin,
}
use manaai.Auth.Store.{
  Db, has_user_id, has_telegram_id, apply_user, get_user, bootstrap_admin, create_user,
  update_user_access, changed_user, AccessChange, lock_auth_state, save_audit_event,
}
use manaai.Auth.Store.Challenges.{
  reserve_challenge, apply_challenge_attempt, fail_challenge_delivery,
}
use manaai.Auth.Store.Limits.{consume_rate_events, record_auth_failure, failed_user}
use manaai.Auth.Store.Sessions.{
  create_session, get_identity_by_session_hmac, revoke_session, revoke_user_sessions,
  rotate_session, logged_in,
}
use manaai.Auth.Cases.{
  found_again, update_user_access_cases, apply_challenge_attempt_cases, record_auth_failure_cases,
  create_session_cases, close_access-users,
}
use manaai.Auth.Transactions.{
  Transaction, bootstraps, creates_user, updates_access, reserves, attempts, fails_delivery,
  consumes, records_failure, creates_session, identifies, revokes, revokes_all, audits,
  Transactions, here, next,
}
use manaai.Auth.Sound.{IsSound, UsersSound}
use manaai.Auth.Sound.Steps.{Transactions-IsSound}

abbrev pub active_admins : Db → ℕ
active_admins db = count is_active_admin db.users

-- The count after one user was overwritten.
apply_user-active_admins :
    (a b : AdminUser) (db : Db)
    → UsersSound db.users
    → get_user b.user_id db ≡ some a
    → active_admins (apply_user b db) + num (is_active_admin a)
      ≡ active_admins db + num (is_active_admin b)
unfolding apply_user get_user
apply_user-active_admins a b db s e =
    count-modify (has_user_id b.user_id) is_active_admin a b db.users (s b.user_id) e

bootstrap_admin-active_admins :
    (user : AdminUser) (event : AuthAuditEvent) (db : Db)
    → UsersSound db.users
    → active_admins db ≤ active_admins (bootstrap_admin user event db).1
unfolding bootstrap_admin get_user apply_user
bootstrap_admin-active_admins user event db s =
    elim (Option-cases (find (has_telegram_id user.telegram_id) db.users)) [
      | inl e ↦ elim (Bool-cases (any (has_user_id user.user_id) db.users)) [
        | inl taken ↦ rw (e, bootstrap_admin, taken) (omega arith)
        | inr free ↦
            rw (e, bootstrap_admin, free)
              (omega (arith, count-append is_active_admin db.users (user ∷ [])))
      ]
      | inr (current, e) ↦
          let found : find (has_user_id current.user_id) db.users ≡ some current =
            find_unique (has_telegram_id user.telegram_id) (has_user_id current.user_id) current
              db.users (s current.user_id) e (ground arith) in
          rw (e, bootstrap_admin)
            (ground (
              arith,
              apply_user-active_admins current
                  (record current {
                    role = UserRole.admin;
                    status = AdminUserStatus.active;
                    updated_at = user.updated_at;
                    disabled_reason = none;
                  })
                  db s found,
            ))
    ]

create_user-active_admins :
    (user : AdminUser) (event : AuthAuditEvent) (db : Db)
    → active_admins db ≤ active_admins (create_user user event db).1
unfolding create_user
create_user-active_admins user event db =
    ground (arith, count-append is_active_admin db.users (user ∷ []))

update_user_access-active_admins :
    (user_id : ℕ) (change : AccessChange) (now : ℕ) (events : List AuthAuditEvent) (db : Db)
    → UsersSound db.users
    → 1 ≤ active_admins db
    → 1 ≤ active_admins (update_user_access user_id change now events db).1
unfolding lock_auth_state
update_user_access-active_admins user_id change now events db s one =
    update_user_access_cases (λ d. 1 ≤ active_admins d) user_id change now events db one
      λ current e allowed.
        let updated = changed_user current change now in
        rw (close_access-users updated now (apply_user updated (lock_auth_state db))) (
          ground (
            arith,
            apply_user-active_admins current updated (lock_auth_state db) s
                (unfold changed_user get_user in found_again user_id current updated db e refl),
          ))

record_auth_failure-active_admins :
    (user_id now n until : ℕ) (db : Db)
    → UsersSound db.users
    → active_admins db ≤ active_admins (record_auth_failure user_id now n until db).1
record_auth_failure-active_admins user_id now n until db s =
    record_auth_failure_cases (λ d. active_admins db ≤ active_admins d) user_id now n until db
      (omega arith)
      λ current e.
        let updated = failed_user current now n until in
        unfold failed_user in
        ground (
          arith,
          apply_user-active_admins current updated db s
              (found_again user_id current updated db e refl),
        )

rotate_session-users :
    (old : Option ℕ) (now : ℕ) (db : Db) → (rotate_session old now db).users ≡ db.users
unfolding rotate_session
rotate_session-users none now db = refl
rotate_session-users (some t) now db = refl

create_session-active_admins :
    (session : AdminSession) (old : Option ℕ) (login_at : ℕ) (event : AuthAuditEvent) (db : Db)
    → UsersSound db.users
    → active_admins db ≤ active_admins (create_session session old login_at event db).1
unfolding save_audit_event get_user
create_session-active_admins session old login_at event db s =
    create_session_cases (λ d. active_admins db ≤ active_admins d) session old login_at event db
      (omega arith)
      λ current e.
        let rotated = rotate_session old login_at db in
        let u = rotate_session-users old login_at db in
        let found : get_user current.user_id rotated ≡ some current =
          rw u (found_again session.user_id current current db e refl) in
        ground (
          arith,
          ap (count is_active_admin) u,
          apply_user-active_admins current (logged_in login_at current) rotated (rw u s) found,
        )

reserve_challenge-users :
    (challenge : OtpChallenge) (since : ℕ) (db : Db)
    → (reserve_challenge challenge since db).1.users ≡ db.users
unfolding reserve_challenge
reserve_challenge-users challenge since db = ground arith

attempt-users :
    (i : ℕ) (correct : Bool) (now m : ℕ) (db : Db)
    → (apply_challenge_attempt i correct now m db).1.users ≡ db.users
attempt-users i correct now m db =
    apply_challenge_attempt_cases (λ r. r.1.users ≡ db.users) i correct now m db refl
      (λ current e o n. refl)

consume_rate_events-users :
    (events : List AuthRateEvent) (limits : List AuthRateLimit) (since : ℕ) (db : Db)
    → (consume_rate_events events limits since db).1.users ≡ db.users
unfolding consume_rate_events
consume_rate_events-users events limits since db = ground arith

get_identity-users :
    (token_hmac now : ℕ) (db : Db)
    → (get_identity_by_session_hmac token_hmac now db).1.users ≡ db.users
unfolding get_identity_by_session_hmac
get_identity-users token_hmac now db = ground arith

revoke_session-users :
    (token_hmac now : ℕ) (reason : String) (event : Option AuthAuditEvent) (db : Db)
    → (revoke_session token_hmac now reason event db).1.users ≡ db.users
unfolding revoke_session
revoke_session-users token_hmac now reason event db = ground arith

same_users :
    (us vs : List AdminUser) → us ≡ vs → 1 ≤ count is_active_admin vs → 1 ≤ count is_active_admin us
same_users us vs u one = rw u one

Transaction-active_admins :
    {db db' : Db} → Transaction db db' → IsSound db → 1 ≤ active_admins db → 1 ≤ active_admins db'
unfolding revoke_user_sessions save_audit_event fail_challenge_delivery
Transaction-active_admins {db} (bootstraps user event e) s one =
    rw e (omega (arith, bootstrap_admin-active_admins user event db s.users))
Transaction-active_admins {db} (creates_user user event e) s one =
    rw e (omega (arith, create_user-active_admins user event db))
Transaction-active_admins {db} (updates_access i change now events e) s one =
    rw e (update_user_access-active_admins i change now events db s.users one)
Transaction-active_admins {db} (reserves challenge since o e) s one =
    rw e (same_users _ _ (reserve_challenge-users challenge since db) one)
Transaction-active_admins {db} (attempts i correct now m e) s one =
    rw e (same_users _ _ (attempt-users i correct now m db) one)
Transaction-active_admins {db} (fails_delivery i e) s one = rw e one
Transaction-active_admins {db} (consumes events limits since e) s one =
    rw e (same_users _ _ (consume_rate_events-users events limits since db) one)
Transaction-active_admins {db} (records_failure i now n until e) s one =
    rw e (omega (arith, record_auth_failure-active_admins i now n until db s.users))
Transaction-active_admins {db} (creates_session session old at event e) s one =
    rw e (omega (arith, create_session-active_admins session old at event db s.users))
Transaction-active_admins {db} (identifies t now e) s one =
    rw e (same_users _ _ (get_identity-users t now db) one)
Transaction-active_admins {db} (revokes t now reason event e) s one =
    rw e (same_users _ _ (revoke_session-users t now reason event db) one)
Transaction-active_admins {db} (revokes_all i now reason event e) s one = rw e one
Transaction-active_admins {db} (audits event e) s one = rw e one

-- Once there is an active administrator there is one after any sequence of transactions, from
-- tables whose ids are distinct.
pub last_admin_stays :
    (db db' : Db) → Transactions db db' → IsSound db → 1 ≤ active_admins db → 1 ≤ active_admins db'
last_admin_stays db db' here s one = one
last_admin_stays db db' (next {mid} ts t) s one =
    Transaction-active_admins t (Transactions-IsSound ts s) (last_admin_stays db mid ts s one)
