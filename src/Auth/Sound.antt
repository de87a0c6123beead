-- ===== src/Auth/Sound.antt =====
-- What the tables of auth_repository.py keep: ids are not shared, and a user has one open code.
pub mod Steps
use manaai.Prelude.{
  ℕ, zero, suc, ◌+◌, ◌≤◌, ◌≡◌, refl, sym, Option, none, some, List, [], ◌∷◌, ◌++◌, String, Bool,
  true, false, not, ◌&&◌, ◌||◌, ◌==◌, ltb, leb, if◌then◌else◌, count, find, modify, any, filter,
  arith, count-append, Bool-cases, Option-cases, inl, inr, or_else, is_some,
}
use manaai.Prelude.Rows.{
  count-modify, count-modify_same, count-modify-le, count-modify-eq-zero, find-eq-some,
  count-eq-zero_of_any, any_of_count, num, find_of_count, find_unique,
}
use manaai.Prelude.Exec.{Result, ok, err}
use manaai.Auth.Model.{
  AdminUser, OtpChallenge, AdminSession, AuthAuditEvent, AuthRateEvent, AuthRateLimit,
  is_active_admin, is_active, is_open,
}
use manaai.Auth.Store.{
  Db, has_user_id, apply_user, get_user, bootstrap_admin, create_user, update_user_access,
  changed_user, AccessChange, is_open_of, lock_auth_state, save_audit_event, close_access,
  invalidate, invalidate_challenges_in_transaction, revoke_sessions_in_transaction, has_telegram_id,
}
use manaai.Auth.Store.Challenges.{
  clashes, has_challenge_id, reserve_challenge, apply_challenge_attempt, swap_challenge,
  fail_challenge_delivery, attempted, unchanged_since,
}

abbrev pub UsersSound : List AdminUser → Type 0
UsersSound users = (i : ℕ) → count (has_user_id i) users ≤ 1

pub record ChallengesSound (challenges : List OtpChallenge) : Type 0 where
  pub one_challenge : (i : ℕ) → count (has_challenge_id i) challenges ≤ 1
  pub one_open : (u : ℕ) → count (is_open_of u) challenges ≤ 1

pub record IsSound (db : Db) : Type 0 where
  pub users : UsersSound db.users
  pub challenges : ChallengesSound db.challenges

-- A row overwritten by a user with its id.
pub put_user-UsersSound :
    (a b : AdminUser) (users : List AdminUser)
    → UsersSound users
    → find (has_user_id b.user_id) users ≡ some a
    → UsersSound (modify (has_user_id b.user_id) (λ _. b) users)
put_user-UsersSound a b users s e i = ground (
  arith,
  count-modify (has_user_id b.user_id) (has_user_id i) a b users (s b.user_id) e,
  find-eq-some (has_user_id b.user_id) a users e,
  s i,
)

pub add_user-UsersSound :
    (user : AdminUser) (users : List AdminUser)
    → UsersSound users
    → any (has_user_id user.user_id) users ≡ false
    → UsersSound (users ++ user ∷ [])
add_user-UsersSound user users s h i = ground (
  arith,
  count-append (has_user_id i) users (user ∷ []),
  count-eq-zero_of_any (has_user_id user.user_id) users h,
  s i,
  rewrite_id i user.user_id users,
)
  where
    rewrite_id :
        (i j : ℕ) (us : List AdminUser)
        → i ≡ j
        → count (has_user_id i) us ≡ count (has_user_id j) us
    rewrite_id i j us e = rw e

pub invalidate-ChallengesSound :
    (u : ℕ) (rows : List OtpChallenge)
    → ChallengesSound rows
    → ChallengesSound (modify (is_open_of u) invalidate rows)
invalidate-ChallengesSound u rows s = record {
  one_challenge = λ i. omega (
    arith,
    s.one_challenge i,
    count-modify_same (is_open_of u) (has_challenge_id i) invalidate rows (λ r. refl),
  );
  one_open = λ v. omega (
    arith,
    s.one_open v,
    count-modify-le (is_open_of u) (is_open_of v) invalidate rows (λ r. ground arith),
  );
}

-- A new row that clashes with none.
pub add-ChallengesSound :
    (c : OtpChallenge) (rows : List OtpChallenge)
    → is_open c ≡ true
    → ChallengesSound rows
    → any (clashes c) rows ≡ false
    → ChallengesSound (rows ++ c ∷ [])
add-ChallengesSound c rows o s h = record {
  one_challenge = λ i.
      ground
        (arith, count-append (has_challenge_id i) rows (c ∷ []), s.one_challenge i, none_with_id i);
  one_open =
      λ u. ground (arith, count-append (is_open_of u) rows (c ∷ []), s.one_open u, none_open u);
}
  where
    none_with_id : (i : ℕ) → c.challenge_id ≡ i → count (has_challenge_id i) rows ≡ 0
    none_with_id i e =
        count-eq-zero_of_any (has_challenge_id i) rows
          (any_of_count (has_challenge_id i) (clashes c) rows (λ r k. ground arith) h)

    none_open : (u : ℕ) → c.user_id ≡ u → count (is_open_of u) rows ≡ 0
    none_open u e =
        count-eq-zero_of_any (is_open_of u) rows
          (any_of_count (is_open_of u) (clashes c) rows (λ r k. ground arith) h)

-- The guarded update overwrites one row by a challenge with the same id and user.
pub swap-ChallengesSound :
    (read updated : OtpChallenge) (rows : List OtpChallenge)
    → updated.challenge_id ≡ read.challenge_id
    → updated.user_id ≡ read.user_id
    → find (has_challenge_id read.challenge_id) rows ≡ some read
    → count (unchanged_since read) rows ≡ 1
    → ChallengesSound rows
    → ChallengesSound (modify (unchanged_since read) (λ _. updated) rows)
swap-ChallengesSound read updated rows ei eu f n s =
    let (row, e) = find_of_count (unchanged_since read) rows (omega arith) in
    let fit = find-eq-some (unchanged_since read) row rows e in
    let same : find (has_challenge_id read.challenge_id) rows ≡ some row =
      find_unique (unchanged_since read) (has_challenge_id read.challenge_id) row rows
        (s.one_challenge read.challenge_id) e (ground arith) in
    let eq : row ≡ read = ground arith in
    record {
      one_challenge = λ i. ground (
        arith,
        count-modify (unchanged_since read) (has_challenge_id i) row updated rows (omega arith) e,
        s.one_challenge i,
      );
      one_open = λ u. ground (
        arith,
        count-modify (unchanged_since read) (is_open_of u) row updated rows (omega arith) e,
        s.one_open u,
      );
    }
