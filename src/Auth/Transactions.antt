-- ===== src/Auth/Transactions.antt =====
-- Every transaction of auth_repository.py that writes, as a step between tables. The database runs
-- them one after the other, so any interleaving of requests is a sequence of such steps. (The
-- guarded update of a challenge that was read earlier is looked at in `Auth.Codes`.)
use manaai.Prelude.{ℕ, ◌≡◌, Option, List, String, Bool, true}
use manaai.Auth.Model.{
  AdminUser, OtpChallenge, AdminSession, AuthAuditEvent, AuthRateEvent, AuthRateLimit, is_open,
}
use manaai.Auth.Store.{
  Db, AccessChange, bootstrap_admin, create_user, update_user_access, save_audit_event,
}
use manaai.Auth.Store.Challenges.{
  reserve_challenge, apply_challenge_attempt, fail_challenge_delivery,
}
use manaai.Auth.Store.Limits.{consume_rate_events, record_auth_failure}
use manaai.Auth.Store.Sessions.{
  create_session, get_identity_by_session_hmac, revoke_session, revoke_user_sessions,
}

pub data Transaction (db db' : Db) : Type 0 where
  bootstraps :
      (user : AdminUser) (event : AuthAuditEvent)
      → db' ≡ (bootstrap_admin user event db).1
      → Transaction db db'
  creates_user :
      (user : AdminUser) (event : AuthAuditEvent)
      → db' ≡ (create_user user event db).1
      → Transaction db db'
  updates_access :
      (user_id : ℕ) (change : AccessChange) (now : ℕ) (events : List AuthAuditEvent)
      → db' ≡ (update_user_access user_id change now events db).1
      → Transaction db db'
  reserves :
      (challenge : OtpChallenge) (cooldown_since : ℕ)
      → is_open challenge ≡ true
      → db' ≡ (reserve_challenge challenge cooldown_since db).1
      → Transaction db db'
  attempts :
      (challenge_id : ℕ) (correct : Bool) (now max_attempts : ℕ)
      → db' ≡ (apply_challenge_attempt challenge_id correct now max_attempts db).1
      → Transaction db db'
  fails_delivery :
      (challenge_id : ℕ) → db' ≡ fail_challenge_delivery challenge_id db → Transaction db db'
  consumes :
      (events : List AuthRateEvent) (limits : List AuthRateLimit) (since : ℕ)
      → db' ≡ (consume_rate_events events limits since db).1
      → Transaction db db'
  records_failure :
      (user_id now lockout_failures lockout_until : ℕ)
      → db' ≡ (record_auth_failure user_id now lockout_failures lockout_until db).1
      → Transaction db db'
  creates_session :
      (session : AdminSession) (old_token_hmac : Option ℕ) (login_at : ℕ) (event : AuthAuditEvent)
      → db' ≡ (create_session session old_token_hmac login_at event db).1
      → Transaction db db'
  identifies :
      (token_hmac now : ℕ)
      → db' ≡ (get_identity_by_session_hmac token_hmac now db).1
      → Transaction db db'
  revokes :
      (token_hmac now : ℕ) (reason : String) (event : Option AuthAuditEvent)
      → db' ≡ (revoke_session token_hmac now reason event db).1
      → Transaction db db'
  revokes_all :
      (user_id now : ℕ) (reason : String) (event : AuthAuditEvent)
      → db' ≡ (revoke_user_sessions user_id now reason event db).1
      → Transaction db db'
  audits : (event : AuthAuditEvent) → db' ≡ save_audit_event event db → Transaction db db'

pub data Transactions (db : Db) : Db → Type 0 where
  here : Transactions db db
  next : {mid after : Db} → Transactions db mid → Transaction mid after → Transactions db after
