-- ===== src/Auth/Cases.antt =====
-- The case analyses of the transactions of auth_repository.py, each for any claim about the tables
-- after it.
use manaai.Prelude.{
  ℕ, ◌≡◌, arith, sym, ◌∙◌, subst, Option, none, some, List, [], ◌∷◌, ◌++◌, Bool, true, false, not,
  ◌&&◌, ◌||◌, ◌==◌, leb, count, find, modify, any, Bool-cases, Option-cases, inl, inr, ==_iff,
}
use manaai.Prelude.Rows.{find-eq-some}
use manaai.Auth.Model.{
  AdminUser, OtpChallenge, AdminSession, AuthAuditEvent, is_active_admin, is_open,
  disabled_state_ok,
}
use manaai.Auth.Store.{
  Db, has_user_id, apply_user, get_user, update_user_access, changed_user, AccessChange,
  lock_auth_state, save_audit_event, close_access,
}
use manaai.Auth.Store.Challenges.{
  has_challenge_id, apply_challenge_attempt, swap_challenge, attempted, unchanged_since,
}
use manaai.Auth.Store.Limits.{record_auth_failure, failed_user}
use manaai.Auth.Store.Sessions.{create_session, rotate_session, logged_in, has_token}

pub get_user-id : (i : ℕ) (db : Db) (a : AdminUser) → get_user i db ≡ some a → a.user_id ≡ i
unfolding get_user
get_user-id i db a e = (==_iff a.user_id i).0 (find-eq-some (has_user_id i) a db.users e)

-- A user who was found by an id keeps it when the row is overwritten.
pub found_again :
    (i : ℕ) (a b : AdminUser) (db : Db)
    → get_user i db ≡ some a
    → b.user_id ≡ a.user_id
    → get_user b.user_id db ≡ some a
found_again i a b db e same =
    subst (λ j. get_user j db ≡ some a) (sym (get_user-id i db a e) ∙ sym same) e

pub close_access-users :
    (user : AdminUser) (now : ℕ) (db : Db) → (close_access user now db).users ≡ db.users
unfolding close_access
close_access-users user now db = ground arith

-- The case analysis of `update_user_access`, for any claim about the tables after it.
pub update_user_access_cases {ℓ} :
    (P : Db → Type ℓ) (user_id : ℕ) (change : AccessChange) (now : ℕ) (events : List AuthAuditEvent)
    (db : Db)
    → P db
    → ((current : AdminUser)
        → get_user user_id db ≡ some current
        → (is_active_admin current
            && not (is_active_admin (changed_user current change now))
            && leb (count is_active_admin db.users) 1)
          ≡ false
        → let updated = changed_user current change now in
          let after = close_access updated now (apply_user updated (lock_auth_state db)) in
          P (record after { audit = after.audit ++ events }))
    → P (update_user_access user_id change now events db).1
unfolding update_user_access
update_user_access_cases P user_id change now events db raised done =
    elim (Option-cases (get_user user_id db)) [
      | inl e ↦ rw (e, update_user_access) raised
      | inr (current, e) ↦ elim (Bool-cases (disabled_state_ok current)) [
        | inr invalid ↦ rw (e, update_user_access, invalid) raised
        | inl valid ↦
            elim (Bool-cases (
              (is_active_admin current && not (is_active_admin (changed_user current change now)))
              && leb (count is_active_admin db.users) 1)) [
                | inl last ↦ rw (e, update_user_access, valid, last) raised
                | inr fine ↦ rw (e, update_user_access, valid, fine) (done current e fine)
              ]
      ]
    ]

-- The case analysis of `apply_challenge_attempt`.
pub apply_challenge_attempt_cases {ℓ} :
    (P : Option OtpChallenge × Db → Type ℓ) (challenge_id : ℕ) (correct : Bool)
    (now max_attempts : ℕ) (db : Db)
    → P (none, db)
    → ((current : OtpChallenge)
        → find (has_challenge_id challenge_id) db.challenges ≡ some current
        → is_open current ≡ true
        → count (unchanged_since current) db.challenges ≡ 1
        → let updated = attempted current correct now max_attempts in
          P (
            some updated,
            record db {
              challenges = modify (unchanged_since current) (λ _. updated) db.challenges;
            },
          ))
    → P (apply_challenge_attempt challenge_id correct now max_attempts db)
unfolding apply_challenge_attempt swap_challenge
apply_challenge_attempt_cases P challenge_id correct now max_attempts db refused done =
    elim (Option-cases (find (has_challenge_id challenge_id) db.challenges)) [
      | inl e ↦ rw (e, apply_challenge_attempt) refused
      | inr (current, e) ↦ elim (Bool-cases (is_open current)) [
        | inl o ↦ elim (Bool-cases (count (unchanged_since current) db.challenges == 1)) [
          | inl n ↦ rw (e, apply_challenge_attempt, o, n) (done current e o ((==_iff _ 1).0 n))
          | inr n ↦ rw (e, apply_challenge_attempt, o, n) refused
        ]
        | inr c ↦ rw (e, apply_challenge_attempt, c) refused
      ]
    ]

pub record_auth_failure_cases {ℓ} :
    (P : Db → Type ℓ) (user_id now lockout_failures lockout_until : ℕ) (db : Db)
    → P db
    → ((current : AdminUser)
        → get_user user_id db ≡ some current
        → P (apply_user (failed_user current now lockout_failures lockout_until) db))
    → P (record_auth_failure user_id now lockout_failures lockout_until db).1
unfolding record_auth_failure
record_auth_failure_cases P user_id now lockout_failures lockout_until db raised done =
    elim (Option-cases (get_user user_id db)) [
      | inl e ↦ rw (e, record_auth_failure) raised
      | inr (current, e) ↦ rw (e, record_auth_failure) (done current e)
    ]

-- The case analysis of `create_session`.
pub create_session_cases {ℓ} :
    (P : Db → Type ℓ) (session : AdminSession) (old : Option ℕ) (login_at : ℕ)
    (event : AuthAuditEvent) (db : Db)
    → P db
    → ((current : AdminUser)
        → get_user session.user_id db ≡ some current
        → let after = apply_user (logged_in login_at current) (rotate_session old login_at db) in
          P (save_audit_event event (record after { sessions = after.sessions ++ session ∷ [] })))
    → P (create_session session old login_at event db).1
unfolding create_session
create_session_cases P session old login_at event db raised done =
    elim (Option-cases (get_user session.user_id db)) [
      | inl e ↦ rw (e, create_session) raised
      | inr (current, e) ↦
          elim (Bool-cases (
            any
              (λ old_row.
                old_row.session_id == session.session_id || has_token session.token_hmac old_row)
              (apply_user (logged_in login_at current)
                (rotate_session old login_at db)).sessions)) [
                  | inl clash ↦ rw (e, create_session, clash) raised
                  | inr free ↦ rw (e, create_session, free) (done current e)
                ]
    ]
