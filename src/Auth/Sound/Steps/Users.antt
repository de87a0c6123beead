-- ===== src/Auth/Sound/Steps/Users.antt =====
-- The transactions of auth_repository.py on users keep the tables sound.
use manaai.Prelude.{
  ℕ, ◌≡◌, sym, subst, some, List, ◌||◌, find, any, arith, Bool-cases, Option-cases, inl, inr,
}
use manaai.Prelude.Rows.{find_unique, any_of_count}
use manaai.Auth.Model.{AdminUser, AuthAuditEvent, is_active}
use manaai.Auth.Store.{
  Db, has_user_id, apply_user, get_user, bootstrap_admin, create_user, update_user_access,
  changed_user, AccessChange, lock_auth_state, close_access, has_telegram_id,
}
use manaai.Auth.Cases.{get_user-id, update_user_access_cases}
use manaai.Auth.Sound.{
  IsSound, put_user-UsersSound, add_user-UsersSound, invalidate-ChallengesSound,
}

pub bootstrap_admin-IsSound :
    (user : AdminUser) (event : AuthAuditEvent) (db : Db)
    → IsSound db
    → IsSound (bootstrap_admin user event db).1
unfolding bootstrap_admin
bootstrap_admin-IsSound user event db s =
    elim (Option-cases (find (has_telegram_id user.telegram_id) db.users)) [
      | inl e ↦ elim (Bool-cases (any (has_user_id user.user_id) db.users)) [
        | inl taken ↦ rw (e, bootstrap_admin, taken) s
        | inr free ↦
            rw (e, bootstrap_admin, free)
              (record {
                users = add_user-UsersSound user db.users s.users free;
                challenges = s.challenges;
              })
      ]
      | inr (current, e) ↦
          rw (e, bootstrap_admin)
            (record {
              users =
                  put_user-UsersSound current
                    (record current { role = _; status = _; updated_at = _; disabled_reason = _ })
                    db.users s.users
                    (find_unique (has_telegram_id user.telegram_id) (has_user_id current.user_id)
                      current db.users (s.users current.user_id) e (ground arith));
              challenges = s.challenges;
            })
    ]

pub create_user-IsSound :
    (user : AdminUser) (event : AuthAuditEvent) (db : Db)
    → IsSound db
    → IsSound (create_user user event db).1
unfolding create_user
create_user-IsSound user event db s =
    elim (Bool-cases (
      any (λ other. has_user_id user.user_id other || has_telegram_id user.telegram_id other)
        db.users)) [
          | inl taken ↦ rw (taken) s
          | inr free ↦ rw (free) (record {
            users =
                add_user-UsersSound user db.users s.users
                  (any_of_count (has_user_id user.user_id) _ db.users (λ x h. rw h) free);
            challenges = s.challenges;
          })
        ]

-- A user that was found is overwritten by one with the same id.
pub apply_user-IsSound :
    (a b : AdminUser) (db : Db)
    → get_user b.user_id db ≡ some a
    → IsSound db
    → IsSound (apply_user b db)
unfolding apply_user get_user
apply_user-IsSound a b db e s = record {
  users = put_user-UsersSound a b db.users s.users e;
  challenges = s.challenges;
}

pub close_access-IsSound :
    (user : AdminUser) (now : ℕ) (db : Db) → IsSound db → IsSound (close_access user now db)
unfolding close_access
close_access-IsSound user now db s = elim (Bool-cases (is_active user)) [
  | inl on ↦ rw on s
  | inr off ↦ rw off (record {
    users = s.users;
    challenges = invalidate-ChallengesSound user.user_id db.challenges s.challenges;
  })
]

pub update_user_access-IsSound :
    (user_id : ℕ) (change : AccessChange) (now : ℕ) (events : List AuthAuditEvent) (db : Db)
    → IsSound db
    → IsSound (update_user_access user_id change now events db).1
unfolding changed_user lock_auth_state get_user
update_user_access-IsSound user_id change now events db s =
    update_user_access_cases IsSound user_id change now events db s λ current e _.
      let updated = changed_user current change now in
      let found =
        subst (λ i. get_user i db ≡ some current) (sym (get_user-id user_id db current e)) e in
      let closed = close_access-IsSound updated now (apply_user updated (lock_auth_state db)) (
        apply_user-IsSound current updated (lock_auth_state db) found
          (record { users = s.users; challenges = s.challenges })) in
      record { users = closed.users; challenges = closed.challenges }
