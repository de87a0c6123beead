-- ===== src/Auth/Codes.antt =====
-- One-time codes: how often one can be tried, and that none is used twice.
use manaai.Prelude.{
  ℕ, suc, ◌+◌, ◌≤◌, ◌<◌, ◌≡◌, refl, sym, subst, Option, none, some, List, [], ◌∷◌, Bool, true,
  false, ltb, if◌then◌else◌, count, find, modify, any, filter, arith, Bool-cases, inl, inr, ◌⊎◌,
  ==_iff, is_some, filter-append, ◌-◌, ◌++◌, ◌&&◌, ◌||◌, not, ◌∙◌, ap, ==_refl,
}
use manaai.Prelude.Rows.{find-eq-some, count-modify-eq-zero}
use manaai.Auth.Model.{OtpChallenge, is_open}
use manaai.Prelude.Exec.{ok, err}
use manaai.Auth.Store.{concurrent_operation, Db, has_user_id, is_open_of, invalidate}
use manaai.Auth.Store.Challenges.{
  has_challenge_id, reserve_challenge, apply_challenge_attempt, swap_challenge, attempted,
  unchanged_since, clashes, get_active_challenge, newest,
}
use manaai.Auth.Cases.{apply_challenge_attempt_cases}

-- What an attempt makes of an open challenge: it is spent, or has one more failure, below the limit.
attempted_cases :
    (current : OtpChallenge) (correct : Bool) (now max_attempts : ℕ)
    → let updated = attempted current correct now max_attempts in
      (updated.challenge_id ≡ current.challenge_id)
      × ((is_open updated ≡ false)
          ⊎ (updated.attempts_count ≡ current.attempts_count + 1)
            × (updated.attempts_count < max_attempts))
unfolding attempted
attempted_cases current correct now max_attempts = ground arith

-- Two requests read the same open challenge. Whatever codes they bring, once the first has written
-- its attempt the guarded write of the second meets no row, so it is refused: a code is spent
-- once, and no failed attempt is lost.
pub attempt_race :
    (read : OtpChallenge) (correct correct' : Bool) (now now' max_attempts : ℕ) (db db' : Db)
    → swap_challenge read (attempted read correct now max_attempts) db ≡ some db'
    → swap_challenge read (attempted read correct' now' max_attempts) db' ≡ none
unfolding swap_challenge
attempt_race read correct correct' now now' max_attempts db db' e =
    let updated = attempted read correct now max_attempts in
    let zero_left =
      count-modify-eq-zero (unchanged_since read) (unchanged_since read) (λ _. updated)
        db.challenges (λ x h. h)
        (λ x. ground (arith, attempted_cases read correct now max_attempts)) in
    ground (arith, zero_left)

find-modify :
    (read updated : OtpChallenge) (rows : List OtpChallenge)
    → find (has_challenge_id read.challenge_id) rows ≡ some read
    → is_open read ≡ true
    → updated.challenge_id ≡ read.challenge_id
    → find (has_challenge_id read.challenge_id) (modify (unchanged_since read) (λ _. updated) rows)
      ≡ some updated
find-modify read updated [] e o i = cc
find-modify read updated (row ∷ rows) e o i = ground (arith, find-modify read updated rows)

-- The results of attempts on one challenge, one after the other.
pub attempt_all : ℕ → ℕ → List (Bool × ℕ) → Db → List (Option OtpChallenge)
attempt_all i max_attempts [] db = []
attempt_all i max_attempts ((correct, now) ∷ tries) db =
    let (result, db') = apply_challenge_attempt i correct now max_attempts db in
    result ∷ attempt_all i max_attempts tries db'

closed_stays :
    (i max_attempts : ℕ) (tries : List (Bool × ℕ)) (db : Db) (c : OtpChallenge)
    → find (has_challenge_id i) db.challenges ≡ some c
    → is_open c ≡ false
    → count is_some (attempt_all i max_attempts tries db) ≡ 0
unfolding attempt_all apply_challenge_attempt
closed_stays i max_attempts [] db c e o = refl
closed_stays i max_attempts ((correct, now) ∷ tries) db c e o =
    let same : apply_challenge_attempt i correct now max_attempts db ≡ (none, db) =
      rw (e, apply_challenge_attempt, o) in
    rw same (closed_stays i max_attempts tries db c e o)

attempt_all_bounded :
    (i max_attempts : ℕ) (tries : List (Bool × ℕ)) (db : Db) (c : OtpChallenge)
    → find (has_challenge_id i) db.challenges ≡ some c
    → is_open c ≡ true
    → c.attempts_count < max_attempts
    → count is_some (attempt_all i max_attempts tries db) + c.attempts_count ≤ max_attempts
unfolding attempt_all
attempt_all_bounded i max_attempts [] db c e o m = omega arith
attempt_all_bounded i max_attempts ((correct, now) ∷ tries) db c e o m =
    apply_challenge_attempt_cases
      (λ r.
        (if is_some r.0
            then suc (count is_some (attempt_all i max_attempts tries r.1))
            else count is_some (attempt_all i max_attempts tries r.1))
          + c.attempts_count
        ≤ max_attempts)
      i correct now max_attempts db (attempt_all_bounded i max_attempts tries db c e o m)
      λ current e' o' n.
        let same : c ≡ current = cc in
        let updated = attempted current correct now max_attempts in
        let db' : Db = record db {
          challenges = modify (unchanged_since current) (λ _. updated) db.challenges;
        } in
        let id : current.challenge_id ≡ i =
          (==_iff current.challenge_id i).0
            (find-eq-some (has_challenge_id i) current db.challenges e') in
        let kept : find (has_challenge_id i) db'.challenges ≡ some updated =
          subst (λ j. find (has_challenge_id j) db'.challenges ≡ some updated) id
            (find-modify current updated db.challenges
              (subst (λ j. find (has_challenge_id j) db.challenges ≡ some current) (sym id) e') o'
              (attempted_cases current correct now max_attempts).0) in
        let cases = attempted_cases current correct now max_attempts in
        elim (Bool-cases (is_open updated)) [
          | inl open_still ↦
              let more : (updated.attempts_count ≡ c.attempts_count + 1)
                  × (updated.attempts_count < max_attempts) =
                (ground arith, ground arith) in
              omega (
                arith,
                more,
                attempt_all_bounded i max_attempts tries db' updated kept open_still more.1,
              )
          | inr closed ↦ omega (arith, m, closed_stays i max_attempts tries db' updated kept closed)
        ]

-- Of any attempts on an open challenge that has fewer failures than the limit, whatever the codes
-- and the times, at most as many are applied as the limit less those failures.
pub attempts_are_bounded :
    (i max_attempts : ℕ) (tries : List (Bool × ℕ)) (db : Db) (c : OtpChallenge)
    → find (has_challenge_id i) db.challenges ≡ some c
    → is_open c ≡ true
    → c.attempts_count < max_attempts
    → count is_some (attempt_all i max_attempts tries db) ≤ max_attempts - c.attempts_count
attempts_are_bounded i max_attempts tries db c e o m =
    omega (arith, attempt_all_bounded i max_attempts tries db c e o m)

filter-invalidate :
    (u : ℕ) (rows : List OtpChallenge)
    → filter (is_open_of u) (modify (is_open_of u) invalidate rows) ≡ []
filter-invalidate u [] = refl
filter-invalidate u (row ∷ rows) = ground (arith, filter-invalidate u rows)

only_open :
    (challenge : OtpChallenge) (rows : List OtpChallenge)
    → is_open challenge ≡ true
    → filter
        (is_open_of challenge.user_id)
        (modify (is_open_of challenge.user_id) invalidate rows ++ challenge ∷ [])
      ≡ challenge ∷ []
only_open challenge rows o =
    rw
      (
        filter-append (is_open_of challenge.user_id)
            (modify (is_open_of challenge.user_id) invalidate rows) (challenge ∷ []),
        filter-invalidate challenge.user_id rows,
      )
      (ground (arith, ==_refl challenge.user_id))

-- The user has an open challenge that is younger than the cooldown.
abbrev pub has_recent : ℕ → ℕ → List OtpChallenge → Bool
has_recent user_id cooldown_since rows =
    any (λ row. is_open_of user_id row && ltb cooldown_since row.issued_at) rows

any-filter :
    (u since : ℕ) (rows : List OtpChallenge)
    → any (λ row. ltb since row.issued_at) (filter (is_open_of u) rows) ≡ has_recent u since rows
any-filter u since [] = refl
any-filter u since (row ∷ rows) = ground (arith, any-filter u since rows)

-- An open challenge is reserved in one of three ways. Where the user exists and has no open
-- challenge that is younger than the cooldown, and the row clashes with none, it becomes the only
-- open one of the user and the active one. It is declined for an open challenge of the user that is
-- younger than the cooldown. Else the write fails, for want of the user or for a row that it clashes
-- with when the open ones of the user are invalidated. In the last two cases the challenges stay as
-- they were.
pub reserve_replaces :
    (challenge : OtpChallenge) (cooldown_since : ℕ) (db : Db)
    → is_open challenge ≡ true
    → let (result, db') = reserve_challenge challenge cooldown_since db in
      let user_id = challenge.user_id in
      let clash = any (clashes challenge) (modify (is_open_of user_id) invalidate db.challenges) in
      ((result ≡ ok true)
        × (any (has_user_id user_id) db.users ≡ true)
        × (has_recent user_id cooldown_since db.challenges ≡ false)
        × (clash ≡ false)
        × (filter (is_open_of user_id) db'.challenges ≡ challenge ∷ [])
        × (get_active_challenge user_id db' ≡ some challenge))
      ⊎ ((result ≡ ok false)
          × (has_recent user_id cooldown_since db.challenges ≡ true)
          × (db'.challenges ≡ db.challenges))
      ⊎ ((result ≡ err concurrent_operation)
          × (has_recent user_id cooldown_since db.challenges ≡ false)
          × ((any (has_user_id user_id) db.users ≡ false) ⊎ (clash ≡ true))
          × (db'.challenges ≡ db.challenges))
unfolding reserve_challenge get_active_challenge newest
reserve_replaces challenge cooldown_since db o =
    let same = any-filter challenge.user_id cooldown_since db.challenges in
    elim (Bool-cases (
      any (λ row. ltb cooldown_since row.issued_at)
        (filter (is_open_of challenge.user_id) db.challenges))) [
          | inl recent ↦ rw recent (inr (inl (refl, sym same ∙ recent, refl)))
          | inr old ↦
              elim (Bool-cases (
                not (any (has_user_id challenge.user_id) db.users)
                || any (clashes challenge)
                    (modify (is_open_of challenge.user_id) invalidate db.challenges))) [
                      | inl refused ↦
                          rw (old, refused)
                            (inr (inr (refl, sym same ∙ old, ground (arith, refused), refl)))
                      | inr free ↦
                          let only = only_open challenge db.challenges o in
                          rw (old, free)
                            (inl (
                              refl,
                              ground (arith, free),
                              sym same ∙ old,
                              ground (arith, free),
                              only,
                              ap (newest none) only,
                            ))
                    ]
        ]
