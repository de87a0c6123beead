-- ===== src/Auth/Store/Challenges.antt =====
-- The transactions of auth_repository.py on one-time codes.
use manaai.Prelude.{
  ℕ, ◌+◌, Option, none, some, List, [], ◌∷◌, ◌++◌, Bool, true, false, not, ◌&&◌, ◌||◌, ltb, leb,
  ◌==◌, if◌then◌else◌, any, count, filter, find, modify,
}
use manaai.Prelude.Exec.{ok, err}
use manaai.Domain.Enums.{OtpChallengeStatus}
use manaai.Auth.Model.{OtpChallenge, is_open}
use manaai.Auth.Store.{
  concurrent_operation, Db, Tx, has_user_id, lock_auth_state, is_open_of,
  invalidate_challenges_in_transaction,
}

-- The row of a new challenge meets the primary key or `uq_operation_auth_active_challenge`.
abbrev pub clashes : OtpChallenge → OtpChallenge → Bool
clashes new old = old.challenge_id == new.challenge_id || is_open new && is_open_of new.user_id old

-- The `IntegrityError` of a row without a user, by the foreign key, or of one that clashes.
unfoldable pub reserve_challenge : OtpChallenge → ℕ → Tx Bool
unfolding lock_auth_state invalidate_challenges_in_transaction
reserve_challenge challenge cooldown_since db =
    let active_rows = filter (is_open_of challenge.user_id) db.challenges in
    if any (λ row. ltb cooldown_since row.issued_at) active_rows
    -- Returned inside the transaction, which commits the lock's revision.
    then (ok false, lock_auth_state db)
    else let cleared =
        invalidate_challenges_in_transaction challenge.user_id (lock_auth_state db) in
      if not (any (has_user_id challenge.user_id) cleared.users)
        || any (clashes challenge) cleared.challenges
      then (err concurrent_operation, db)
      else (ok true, record cleared { challenges = cleared.challenges ++ challenge ∷ [] })

-- The newest of the user's open challenges; by the constraint there is one at most.
unfoldable pub newest : Option OtpChallenge → List OtpChallenge → Option OtpChallenge
newest best [] = best
newest none (row ∷ rows) = newest (some row) rows
newest (some best) (row ∷ rows) =
    newest (some (if ltb best.issued_at row.issued_at then row else best)) rows

unfoldable pub get_active_challenge : ℕ → Db → Option OtpChallenge
unfolding newest
get_active_challenge user_id db = newest none (filter (is_open_of user_id) db.challenges)

abbrev pub has_challenge_id : ℕ → OtpChallenge → Bool
has_challenge_id challenge_id challenge = challenge.challenge_id == challenge_id

-- The challenge after one attempt.
unfoldable pub attempted : OtpChallenge → Bool → ℕ → ℕ → OtpChallenge
attempted current correct now max_attempts =
    if leb current.expires_at now
    then record current { status = OtpChallengeStatus.expired }
    else if correct
    then record current { status = OtpChallengeStatus.consumed; consumed_at = some now }
    else record current {
      attempts_count = current.attempts_count + 1;
      status =
          if leb max_attempts (current.attempts_count + 1)
          then OtpChallengeStatus.attempts_exhausted
          else OtpChallengeStatus.active;
    }

-- The rows that the guarded update meets: those still open, with as many attempts as were read.
abbrev pub unchanged_since : OtpChallenge → OtpChallenge → Bool
unchanged_since read row =
    has_challenge_id read.challenge_id row
    && is_open row
    && row.attempts_count == read.attempts_count

-- The guarded update of what was read before: `none` is a row count other than 1.
unfoldable pub swap_challenge : OtpChallenge → OtpChallenge → Db → Option Db
swap_challenge read updated db =
    if count (unchanged_since read) db.challenges == 1
    then some
        (record db { challenges = modify (unchanged_since read) (λ _. updated) db.challenges })
    else none

abbrev attempt_outcome : OtpChallenge → Db → Option Db → Option OtpChallenge × Db
attempt_outcome updated db none = (none, db)
attempt_outcome updated db (some after) = (some updated, after)

unfoldable pub apply_challenge_attempt : ℕ → Bool → ℕ → ℕ → Db → Option OtpChallenge × Db
unfolding swap_challenge attempted
apply_challenge_attempt challenge_id correct now max_attempts db =
    elim (find (has_challenge_id challenge_id) db.challenges) [
      | none ↦ (none, db)
      | some current ↦
          if is_open current
          then (let updated = attempted current correct now max_attempts in
              attempt_outcome updated db (swap_challenge current updated db))
          else (none, db)
    ]

abbrev pub undelivered : OtpChallenge → OtpChallenge
undelivered row = record row { status = OtpChallengeStatus.delivery_failed }

unfoldable pub fail_challenge_delivery : ℕ → Db → Db
fail_challenge_delivery challenge_id db = record db {
  challenges =
      modify (λ row. has_challenge_id challenge_id row && is_open row) undelivered db.challenges;
}
