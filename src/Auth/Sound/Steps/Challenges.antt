-- ===== src/Auth/Sound/Steps/Challenges.antt =====
-- The transactions of auth_repository.py on challenges keep the tables sound.
use manaai.Prelude.{
  ℕ, ◌≡◌, refl, sym, subst, some, List, Bool, true, not, ◌||◌, ltb, find, modify, any, filter,
  arith, Bool-cases, inl, inr, ==_iff,
}
use manaai.Prelude.Rows.{count-modify_same, count-modify-le, find-eq-some}
use manaai.Auth.Model.{OtpChallenge, is_open}
use manaai.Auth.Store.{Db, has_user_id, is_open_of, invalidate}
use manaai.Auth.Store.Challenges.{
  has_challenge_id, reserve_challenge, apply_challenge_attempt, fail_challenge_delivery, attempted,
  clashes, undelivered,
}
use manaai.Auth.Cases.{apply_challenge_attempt_cases}
use manaai.Auth.Sound.{
  IsSound, invalidate-ChallengesSound, add-ChallengesSound, swap-ChallengesSound,
}

pub reserve_challenge-IsSound :
    (challenge : OtpChallenge) (cooldown_since : ℕ) (db : Db)
    → is_open challenge ≡ true
    → IsSound db
    → IsSound (reserve_challenge challenge cooldown_since db).1
unfolding reserve_challenge
reserve_challenge-IsSound challenge cooldown_since db o s =
    elim (Bool-cases (
      any (λ row. ltb cooldown_since row.issued_at)
        (filter (is_open_of challenge.user_id) db.challenges))) [
          | inl recent ↦ rw recent (record { users = s.users; challenges = s.challenges })
          | inr old ↦
              elim (Bool-cases (
                not (any (has_user_id challenge.user_id) db.users)
                || any (clashes challenge)
                    (modify (is_open_of challenge.user_id) invalidate db.challenges))) [
                      | inl clash ↦ rw (old, clash) s
                      | inr free ↦
                          rw (old, free)
                            (record {
                              users = s.users;
                              challenges =
                                  add-ChallengesSound challenge _ o
                                    (invalidate-ChallengesSound challenge.user_id db.challenges
                                      s.challenges)
                                    (ground (arith, free));
                            })
                    ]
        ]

attempted_ids :
    (current : OtpChallenge) (correct : Bool) (now max_attempts : ℕ)
    → ((attempted current correct now max_attempts).challenge_id ≡ current.challenge_id)
      × ((attempted current correct now max_attempts).user_id ≡ current.user_id)
unfolding attempted
attempted_ids current correct now max_attempts = ground arith

has_challenge_id-found :
    (i : ℕ) (rows : List OtpChallenge) (a : OtpChallenge)
    → find (has_challenge_id i) rows ≡ some a
    → find (has_challenge_id a.challenge_id) rows ≡ some a
has_challenge_id-found i rows a e =
    subst (λ j. find (has_challenge_id j) rows ≡ some a)
      (sym ((==_iff a.challenge_id i).0 (find-eq-some (has_challenge_id i) a rows e))) e

pub apply_challenge_attempt-IsSound :
    (challenge_id : ℕ) (correct : Bool) (now max_attempts : ℕ) (db : Db)
    → IsSound db
    → IsSound (apply_challenge_attempt challenge_id correct now max_attempts db).1
apply_challenge_attempt-IsSound challenge_id correct now max_attempts db s =
    apply_challenge_attempt_cases (λ r. IsSound r.1) challenge_id correct now max_attempts db s
      λ current e _ n.
        let (ids, users) = attempted_ids current correct now max_attempts in
        record {
          users = s.users;
          challenges =
              swap-ChallengesSound current (attempted current correct now max_attempts)
                db.challenges ids users
                (has_challenge_id-found challenge_id db.challenges current e) n s.challenges;
        }

pub fail_challenge_delivery-IsSound :
    (challenge_id : ℕ) (db : Db) → IsSound db → IsSound (fail_challenge_delivery challenge_id db)
unfolding fail_challenge_delivery
fail_challenge_delivery-IsSound challenge_id db s = record {
  users = s.users;
  challenges = record {
    one_challenge = λ i. omega (
      arith,
      s.challenges.one_challenge i,
      count-modify_same _ (has_challenge_id i) undelivered db.challenges (λ r. refl),
    );
    one_open = λ u. omega (
      arith,
      s.challenges.one_open u,
      count-modify-le _ (is_open_of u) undelivered db.challenges (λ r. ground arith),
    );
  };
}
