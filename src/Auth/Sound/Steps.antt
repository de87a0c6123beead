-- ===== src/Auth/Sound/Steps.antt =====
-- Every transaction of auth_repository.py keeps the tables sound.
pub mod Users
pub mod Challenges
use manaai.Prelude.{
  ℕ, ◌≡◌, refl, sym, subst, Option, none, some, List, String, Bool, true, ◌||◌, ltb, find, modify,
  any, filter, arith, Bool-cases, Option-cases, inl, inr, ==_iff,
}
use manaai.Prelude.Rows.{
  count-modify_same, count-modify-le, find-eq-some, find_unique, any_of_count,
}
use manaai.Auth.Model.{
  AdminUser, OtpChallenge, AdminSession, AuthAuditEvent, AuthRateEvent, AuthRateLimit, is_active,
  is_open,
}
use manaai.Auth.Store.{
  Db, has_user_id, apply_user, get_user, bootstrap_admin, create_user, update_user_access,
  changed_user, AccessChange, is_open_of, lock_auth_state, save_audit_event, close_access,
  invalidate, has_telegram_id,
}
use manaai.Auth.Store.Challenges.{
  has_challenge_id, reserve_challenge, apply_challenge_attempt, fail_challenge_delivery, attempted,
  clashes, undelivered,
}
use manaai.Auth.Store.Limits.{consume_rate_events, record_auth_failure, failed_user}
use manaai.Auth.Store.Sessions.{
  create_session, get_identity_by_session_hmac, revoke_session, revoke_user_sessions,
  rotate_session, logged_in,
}
use manaai.Auth.Transactions.{
  Transaction, bootstraps, creates_user, updates_access, reserves, attempts, fails_delivery,
  consumes, records_failure, creates_session, identifies, revokes, revokes_all, audits,
  Transactions, here, next,
}
use manaai.Auth.Cases.{
  get_user-id, found_again, update_user_access_cases, apply_challenge_attempt_cases,
  record_auth_failure_cases, create_session_cases,
}
use manaai.Auth.Sound.{
  IsSound, UsersSound, ChallengesSound, put_user-UsersSound, add_user-UsersSound,
  invalidate-ChallengesSound, add-ChallengesSound, swap-ChallengesSound,
}
use manaai.Auth.Sound.Steps.Users.{
  bootstrap_admin-IsSound, create_user-IsSound, update_user_access-IsSound, apply_user-IsSound,
  close_access-IsSound,
}
use manaai.Auth.Sound.Steps.Challenges.{
  reserve_challenge-IsSound, apply_challenge_attempt-IsSound, fail_challenge_delivery-IsSound,
}

-- Soundness looks at two tables.
pub IsSound-of_tables :
    (db db' : Db) → db'.users ≡ db.users → db'.challenges ≡ db.challenges → IsSound db → IsSound db'
IsSound-of_tables db db' u c s = record {
  users = subst UsersSound (sym u) s.users;
  challenges = subst ChallengesSound (sym c) s.challenges;
}

consume_rate_events-IsSound :
    (events : List AuthRateEvent) (limits : List AuthRateLimit) (since : ℕ) (db : Db)
    → IsSound db
    → IsSound (consume_rate_events events limits since db).1
unfolding consume_rate_events
consume_rate_events-IsSound events limits since db =
    IsSound-of_tables db _ (ground arith) (ground arith)

failed_user-id : (a : AdminUser) (now n until : ℕ) → (failed_user a now n until).user_id ≡ a.user_id
unfolding failed_user
failed_user-id a now n until = refl

record_auth_failure-IsSound :
    (user_id now lockout_failures lockout_until : ℕ) (db : Db)
    → IsSound db
    → IsSound (record_auth_failure user_id now lockout_failures lockout_until db).1
record_auth_failure-IsSound user_id now lockout_failures lockout_until db s =
    record_auth_failure_cases IsSound user_id now lockout_failures lockout_until db s λ current e.
      apply_user-IsSound current (failed_user current now lockout_failures lockout_until) db
        (found_again user_id current (failed_user current now lockout_failures lockout_until) db e
          (failed_user-id current now lockout_failures lockout_until))
        s

rotate_session_tables :
    (old : Option ℕ) (now : ℕ) (db : Db)
    → ((rotate_session old now db).users ≡ db.users)
      × ((rotate_session old now db).challenges ≡ db.challenges)
unfolding rotate_session
rotate_session_tables none now db = (refl, refl)
rotate_session_tables (some t) now db = (refl, refl)

create_session-IsSound :
    (session : AdminSession) (old : Option ℕ) (login_at : ℕ) (event : AuthAuditEvent) (db : Db)
    → IsSound db
    → IsSound (create_session session old login_at event db).1
unfolding save_audit_event get_user
create_session-IsSound session old login_at event db s =
    create_session_cases IsSound session old login_at event db s λ current e.
      let (u, c) = rotate_session_tables old login_at db in
      let rotated = rotate_session old login_at db in
      let found : get_user current.user_id rotated ≡ some current =
        rw u (found_again session.user_id current current db e refl) in
      let after =
        apply_user-IsSound current (logged_in login_at current) rotated found
          (IsSound-of_tables db rotated u c s) in
      record { users = after.users; challenges = after.challenges }

get_identity-IsSound :
    (token_hmac now : ℕ) (db : Db)
    → IsSound db
    → IsSound (get_identity_by_session_hmac token_hmac now db).1
unfolding get_identity_by_session_hmac
get_identity-IsSound token_hmac now db = IsSound-of_tables db _ (ground arith) (ground arith)

revoke_session-IsSound :
    (token_hmac now : ℕ) (reason : String) (event : Option AuthAuditEvent) (db : Db)
    → IsSound db
    → IsSound (revoke_session token_hmac now reason event db).1
unfolding revoke_session
revoke_session-IsSound token_hmac now reason event db =
    IsSound-of_tables db _ (ground arith) (ground arith)

revoke_user_sessions-IsSound :
    (user_id now : ℕ) (reason : String) (event : AuthAuditEvent) (db : Db)
    → IsSound db
    → IsSound (revoke_user_sessions user_id now reason event db).1
unfolding revoke_user_sessions
revoke_user_sessions-IsSound user_id now reason event db s = record {
  users = s.users;
  challenges = s.challenges;
}

save_audit_event-IsSound :
    (event : AuthAuditEvent) (db : Db) → IsSound db → IsSound (save_audit_event event db)
unfolding save_audit_event
save_audit_event-IsSound event db s = record { users = s.users; challenges = s.challenges }

-- Every transaction keeps the ids of users and challenges distinct, and a user with one open
-- challenge at most.
pub Transaction-IsSound : {db db' : Db} → Transaction db db' → IsSound db → IsSound db'
Transaction-IsSound {db} (bootstraps user event e) s =
    rw e (bootstrap_admin-IsSound user event db s)
Transaction-IsSound {db} (creates_user user event e) s = rw e (create_user-IsSound user event db s)
Transaction-IsSound {db} (updates_access i change now events e) s =
    rw e (update_user_access-IsSound i change now events db s)
Transaction-IsSound {db} (reserves challenge since o e) s =
    rw e (reserve_challenge-IsSound challenge since db o s)
Transaction-IsSound {db} (attempts i correct now m e) s =
    rw e (apply_challenge_attempt-IsSound i correct now m db s)
Transaction-IsSound {db} (fails_delivery i e) s = rw e (fail_challenge_delivery-IsSound i db s)
Transaction-IsSound {db} (consumes events limits since e) s =
    rw e (consume_rate_events-IsSound events limits since db s)
Transaction-IsSound {db} (records_failure i now n until e) s =
    rw e (record_auth_failure-IsSound i now n until db s)
Transaction-IsSound {db} (creates_session session old at event e) s =
    rw e (create_session-IsSound session old at event db s)
Transaction-IsSound {db} (identifies t now e) s = rw e (get_identity-IsSound t now db s)
Transaction-IsSound {db} (revokes t now reason event e) s =
    rw e (revoke_session-IsSound t now reason event db s)
Transaction-IsSound {db} (revokes_all i now reason event e) s =
    rw e (revoke_user_sessions-IsSound i now reason event db s)
Transaction-IsSound {db} (audits event e) s = rw e (save_audit_event-IsSound event db s)

-- Any sequence of transactions keeps the ids of users and challenges distinct, and a user with one
-- open challenge at most.
pub Transactions-IsSound : {db db' : Db} → Transactions db db' → IsSound db → IsSound db'
Transactions-IsSound here s = s
Transactions-IsSound (next ts t) s = Transaction-IsSound t (Transactions-IsSound ts s)
