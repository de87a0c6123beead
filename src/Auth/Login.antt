-- ===== src/Auth/Login.antt =====
-- What a login by a one-time code takes, and what it leaves.
pub mod Attempt
pub mod Issued
use manaai.Prelude.{
  ℕ, suc, ◌<◌, ◌≡◌, refl, sym, ap, subst, ◌∙◌, Option, none, some, List, [], ◌∷◌, Bool, true, false,
  ◌==◌, ltb, find, filter, arith, Bool-cases, inl, inr, ◌⊎◌, ==_iff, String, ==_refl,
}
use manaai.Prelude.Exec.{ok, >>=-eq-ok}
use manaai.Prelude.Rows.{In, In-filter, find_of_In}
use manaai.Domain.Enums.{OtpChallengeStatus, same_challenge_status, same_challenge_status→eq}
use manaai.Auth.Model.{
  AdminUser, OtpChallenge, IssuedSession, AuthRateEvent, AuthRateLimit, is_active,
}
use manaai.Auth.Store.{Db, is_open_of, has_telegram_id, get_user_by_telegram_id}
use manaai.Auth.Store.Challenges.{
  newest, get_active_challenge, has_challenge_id, apply_challenge_attempt, attempted,
}
use manaai.Auth.Sound.{IsSound}
use manaai.Auth.Sound.Steps.{IsSound-of_tables}
use manaai.Auth.Cases.{apply_challenge_attempt_cases}
use manaai.Auth.Service.{Service, State, otp, scope, require_hmac}
use manaai.Auth.Login.Attempt.{get_active_challenge-found, attempt-consumed}
use manaai.Auth.Login.Issued.{IsIssuedTo, issue_session-ok}
use manaai.Auth.Store.Limits.{consume_rate_events}
use manaai.Auth.Service.Limits.{locked_at, consume_verify_limit, draw_rate_event}
use manaai.Auth.Service.VerifyCode.{
  judge_attempt, try_code, verify_for, verify_after_limit, verify_code,
}

-- What `judge_attempt` returns a session for.
judge_attempt-ok :
    (service : Service) (user : AdminUser) (result : Option OtpChallenge) (ip : ℕ)
    (agent old : Option String) (now : ℕ) (s : State) (issued : IssuedSession)
    → (judge_attempt service user result ip agent old now s).0 ≡ ok issued
    → (updated : OtpChallenge) × (result ≡ some updated)
      × (updated.status ≡ OtpChallengeStatus.consumed)
      × IsIssuedTo service user now issued
unfolding judge_attempt
judge_attempt-ok service user none ip agent old now s issued e = cc
judge_attempt-ok service user (some updated) ip agent old now s issued e =
    elim (Bool-cases (same_challenge_status updated.status OtpChallengeStatus.expired)) [
      | inl late ↦ ground arith
      | inr late ↦
          elim (Bool-cases (same_challenge_status updated.status OtpChallengeStatus.consumed)) [
            | inl used ↦
                let made = issue_session-ok service user ip agent old now s issued in
                (updated, refl, same_challenge_status→eq _ _ used, made (rw (late, used) at e))
            | inr unused ↦ ground arith
          ]
    ]

try_code-ok :
    (service : Service) (user : AdminUser) (found : Option OtpChallenge) (telegram_id : ℕ)
    (code : String) (ip : ℕ) (agent old : Option String) (now : ℕ) (s : State)
    (issued : IssuedSession)
    → ((c : OtpChallenge)
        → found ≡ some c
        → find (has_challenge_id c.challenge_id) s.db.challenges ≡ some c)
    → (try_code service user found telegram_id code ip agent old now s).0 ≡ ok issued
    → (c : OtpChallenge) × (found ≡ some c)
      × (now < c.expires_at)
      × (service.hmac (otp c.challenge_id telegram_id code) ≡ c.code_hmac)
      × IsIssuedTo service user now issued
unfolding try_code
try_code-ok service user none telegram_id code ip agent old now s issued here e = cc
try_code-ok service user (some c) telegram_id code ip agent old now s issued here e =
    let correct = service.hmac (otp c.challenge_id telegram_id code) == c.code_hmac in
    let r =
      apply_challenge_attempt c.challenge_id correct now service.policy.max_verify_attempts s.db in
    let (updated, h, used, made) =
      judge_attempt-ok service user r.0 ip agent old now (record s { db = r.1 }) issued e in
    let (right, in_time) =
      attempt-consumed c.challenge_id correct now service.policy.max_verify_attempts s.db c updated
        (here c refl) h used in
    (c, refl, in_time, (==_iff _ c.code_hmac).0 right, made)

verify_for-ok :
    (service : Service) (found : Option AdminUser) (telegram_id : ℕ) (code : String) (ip : ℕ)
    (agent old : Option String) (now : ℕ) (s : State) (issued : IssuedSession)
    → IsSound s.db
    → (verify_for service found telegram_id code ip agent old now s).0 ≡ ok issued
    → (user : AdminUser) × (c : OtpChallenge) × (found ≡ some user)
      × (is_active user ≡ true)
      × (locked_at now user.auth_locked_until ≡ false)
      × (get_active_challenge user.user_id s.db ≡ some c)
      × (now < c.expires_at)
      × (service.hmac (otp c.challenge_id telegram_id code) ≡ c.code_hmac)
      × IsIssuedTo service user now issued
unfolding verify_for
verify_for-ok service none telegram_id code ip agent old now s issued sound e = cc
verify_for-ok service (some user) telegram_id code ip agent old now s issued sound e =
    elim (Bool-cases (is_active user)) [
      | inr off ↦ ground arith
      | inl on ↦ elim (Bool-cases (locked_at now user.auth_locked_until)) [
        | inl locked ↦ ground arith
        | inr free ↦
            let (c, f, in_time, right, made) =
              try_code-ok service user (get_active_challenge user.user_id s.db) telegram_id code ip
                agent old now s issued
                (λ c h. (get_active_challenge-found user.user_id s.db c sound h).1)
                (rw (on, free) at e) in
            (user, c, refl, on, free, f, in_time, right, made)
      ]
    ]

consume_rate_events-tables :
    (events : List AuthRateEvent) (limits : List AuthRateLimit) (since : ℕ) (db : Db)
    → let after = (consume_rate_events events limits since db).1 in
      (after.users ≡ db.users) × (after.challenges ≡ db.challenges)
unfolding consume_rate_events
consume_rate_events-tables events limits since db = ground arith

limit_tables :
    (service : Service) (ip now : ℕ) (s : State)
    → let after = (consume_verify_limit service ip now s).1.db in
      (after.users ≡ s.db.users) × (after.challenges ≡ s.db.challenges)
unfolding consume_verify_limit draw_rate_event
limit_tables service ip now s = consume_rate_events-tables _ _ _ s.db

-- What a returned session shows of the tables that the call met, and whose it is.
abbrev pub Proven : Service → ℕ → String → ℕ → Db → IssuedSession → Type 0
Proven service telegram_id code now db issued =
    (user : AdminUser) × (c : OtpChallenge) × (get_user_by_telegram_id telegram_id db ≡ some user)
    × (is_active user ≡ true)
    × (locked_at now user.auth_locked_until ≡ false)
    × (get_active_challenge user.user_id db ≡ some c)
    × (now < c.expires_at)
    × (service.hmac (otp c.challenge_id telegram_id code) ≡ c.code_hmac)
    × IsIssuedTo service user now issued

verify_after_limit-ok :
    (service : Service) (admitted : Bool) (telegram_id : ℕ) (code : String) (ip : ℕ)
    (agent old : Option String) (now : ℕ) (s : State) (issued : IssuedSession)
    → IsSound s.db
    → (verify_after_limit service admitted telegram_id code ip agent old now s).0 ≡ ok issued
    → Proven service telegram_id code now s.db issued
unfolding verify_after_limit
verify_after_limit-ok service false telegram_id code ip agent old now s issued sound e =
    ground arith
verify_after_limit-ok service true telegram_id code ip agent old now s issued sound e =
    verify_for-ok service (get_user_by_telegram_id telegram_id s.db) telegram_id code ip agent old
      now s issued sound e

-- Users and challenges are all that `Proven` looks at.
Proven-of_tables :
    (service : Service) (telegram_id : ℕ) (code : String) (now : ℕ) (db db' : Db)
    (issued : IssuedSession)
    → db'.users ≡ db.users
    → db'.challenges ≡ db.challenges
    → Proven service telegram_id code now db' issued
    → Proven service telegram_id code now db issued
unfolding get_user_by_telegram_id get_active_challenge
Proven-of_tables service telegram_id code now db db' issued u c (user, ch, f, a, l, g, t, h, made) =
    (
      user,
      ch,
      ap (find (has_telegram_id telegram_id)) (sym u) ∙ f,
      a,
      l,
      ap (λ rows. newest none (filter (is_open_of user.user_id) rows)) (sym c) ∙ g,
      t,
      h,
      made,
    )

require_hmac-ok :
    (service : Service) (s : State) (a : Unit {0})
    → (require_hmac service s).0 ≡ ok a
    → (require_hmac service s).1 ≡ s
unfolding require_hmac
require_hmac-ok service s a e = ground arith

-- If `verify_code` returns a session, from sound tables, the Telegram identity had an active user,
-- not locked at the time, whose active code was not expired then and is the one that was brought.
-- The session is that user's, made at that time and not revoked, and holds the HMAC of the token that
-- is returned with it.
pub verify_code_needs_code :
    (service : Service) (telegram_id : ℕ) (code client_ip : String) (agent old : Option String)
    (s : State) (issued : IssuedSession)
    → IsSound s.db
    → (verify_code service telegram_id code client_ip agent old s).0 ≡ ok issued
    → Proven service telegram_id code (service.clock s.uses) s.db issued
unfolding verify_code
verify_code_needs_code service telegram_id code client_ip agent old s issued sound e =
    let (key, he, rest) = >>=-eq-ok (require_hmac service) _ s e in
    let s0 = (require_hmac service s).1 in
    let same : s0 ≡ s = require_hmac-ok service s key he in
    let now = service.clock s0.uses in
    let s1 : State = record s0 { uses = suc s0.uses } in
    let ip = service.hmac (scope "ip" client_ip) in
    let (admitted, le, last) = >>=-eq-ok (consume_verify_limit service ip now) _ s1 rest in
    let s2 = (consume_verify_limit service ip now s1).1 in
    let (u, c) = limit_tables service ip now s1 in
    let sound0 : IsSound s0.db = subst (λ (t : State). IsSound t.db) (sym same) sound in
    let sound2 = IsSound-of_tables s0.db s2.db u c sound0 in
    let proven = Proven-of_tables service telegram_id code now s0.db s2.db issued u c (
      verify_after_limit-ok service admitted telegram_id code ip agent old now s2 issued sound2
        last) in
    subst (λ (t : State). Proven service telegram_id code (service.clock t.uses) t.db issued) same
      proven
