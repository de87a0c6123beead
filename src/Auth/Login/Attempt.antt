-- ===== src/Auth/Login/Attempt.antt =====
-- The active challenge of a user, and what an attempt that consumes one shows.
use manaai.Prelude.{
  ℕ, ◌<◌, ◌≡◌, Option, none, some, List, [], ◌∷◌, Bool, true, ltb, find, filter, arith, Bool-cases,
  inl, inr, ◌⊎◌, ==_refl,
}
use manaai.Prelude.Rows.{In, In-filter, find_of_In}
use manaai.Domain.Enums.{OtpChallengeStatus}
use manaai.Auth.Model.{OtpChallenge}
use manaai.Auth.Store.{Db, is_open_of}
use manaai.Auth.Store.Challenges.{
  newest, get_active_challenge, has_challenge_id, apply_challenge_attempt, attempted,
}
use manaai.Auth.Sound.{IsSound}
use manaai.Auth.Cases.{apply_challenge_attempt_cases}

In-newest :
    (best : Option OtpChallenge) (c : OtpChallenge) (rows : List OtpChallenge)
    → newest best rows ≡ some c
    → (best ≡ some c) ⊎ In c rows
unfolding newest
In-newest best c [] e = inl e
In-newest none c (row ∷ rows) e = elim (In-newest (some row) c rows e) [
  | inl h ↦ inr (inl (ground arith))
  | inr h ↦ inr (inr h)
]
In-newest (some b) c (row ∷ rows) e = elim (Bool-cases (ltb b.issued_at row.issued_at)) [
  | inl newer ↦ elim (In-newest (some row) c rows (rw newer at e)) [
    | inl h ↦ inr (inl (ground arith))
    | inr h ↦ inr (inr h)
  ]
  | inr older ↦ elim (In-newest (some b) c rows (rw older at e)) [
    | inl h ↦ inl h
    | inr h ↦ inr (inr h)
  ]
]

-- The active challenge of a user is an open row of theirs, and the one that its id finds.
pub get_active_challenge-found :
    (u : ℕ) (db : Db) (c : OtpChallenge)
    → IsSound db
    → get_active_challenge u db ≡ some c
    → (is_open_of u c ≡ true) × (find (has_challenge_id c.challenge_id) db.challenges ≡ some c)
unfolding get_active_challenge
get_active_challenge-found u db c s e =
    elim (In-newest none c (filter (is_open_of u) db.challenges) e) [
      | inl h ↦ cc
      | inr h ↦
          let (i, o) = In-filter (is_open_of u) c db.challenges h in
          (
            o,
            find_of_In (has_challenge_id c.challenge_id) c db.challenges i (==_refl c.challenge_id)
                (s.challenges.one_challenge c.challenge_id),
          )
    ]

-- A challenge that an attempt consumed was open and in time, and the code was right.
pub attempt-consumed :
    (i : ℕ) (correct : Bool) (now m : ℕ) (db : Db) (c updated : OtpChallenge)
    → find (has_challenge_id i) db.challenges ≡ some c
    → (apply_challenge_attempt i correct now m db).0 ≡ some updated
    → updated.status ≡ OtpChallengeStatus.consumed
    → (correct ≡ true) × (now < c.expires_at)
attempt-consumed i correct now m db c updated f e u =
    apply_challenge_attempt_cases
      (λ r. r.0 ≡ some updated → (correct ≡ true) × (now < c.expires_at)) i correct now m db
      (λ h. cc) (λ current e' o n h. unfold attempted in ground arith) e
