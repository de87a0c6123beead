-- ===== src/Auth/Examples.antt =====
-- The authentication at concrete inputs: tests, and the theorems on the tables and the service.
use manaai.Prelude.{
  ◌≤◌, ◌≡◌, ◌+◌, ◌==◌, refl, ◌⊎◌, none, some, [], ◌∷◌, str_eq, true, false, if◌then◌else◌, count,
  arith, is_some, any, filter, modify,
}
use manaai.Prelude.Exec.{ok, err}
use manaai.Domain.Enums.{UserRole, AdminUserStatus, OtpChallengeStatus}
use manaai.Auth.Model.{
  AdminUser, AdminSession, OtpChallenge, IssuedSession, telegram_bootstrap, is_active,
  is_active_admin, disabled_state_ok,
}
use manaai.Auth.Store.{
  authentication, Db, AccessChange, get_user, update_user_access, changed_user, lookup_error,
  last_active_admin, is_open_of, concurrent_operation, invalidate, has_user_id, validation_error,
}
use manaai.Auth.Store.Challenges.{
  reserve_challenge, get_active_challenge, swap_challenge, attempted, apply_challenge_attempt,
  clashes,
}
use manaai.Auth.Store.Sessions.{get_identity_by_session_hmac}
use manaai.Auth.Service.{Service, State, Message, otp, session, csrf, scope, scope_number}
use manaai.Auth.Service.VerifyCode.{verify_code}
use manaai.Auth.Transactions.{Transactions, here, next, updates_access, attempts}
use manaai.Auth.Sound.{IsSound}
use manaai.Auth.Admins.{active_admins, last_admin_stays}
use manaai.Auth.Codes.{
  attempt_race, attempt_all, attempts_are_bounded, has_recent, reserve_replaces,
}
use manaai.Auth.Access.{
  update_user_access_closes, IsGood, get_identity_lem, changed_user-valid, changed_user-invalid,
}
use manaai.Auth.Access.Changes.{IsChanged, IsClosed}
use manaai.Auth.Login.{Proven, verify_code_needs_code}

abbrev ada : AdminUser
ada = record {
  user_id = 1;
  telegram_id = 700;
  display_name = some "Ada";
  username = none;
  role = UserRole.admin;
  status = AdminUserStatus.active;
  created_at = 5;
  updated_at = 5;
  last_login_at = none;
  created_by = telegram_bootstrap;
  disabled_reason = none;
  profile_metadata = [];
  consecutive_auth_failures = 0;
  auth_locked_until = none;
}

abbrev bob : AdminUser
bob = record ada { user_id = 2; telegram_id = 701; display_name = some "Bob" }

abbrev code_of_ada : OtpChallenge
code_of_ada = record {
  challenge_id = 10;
  user_id = 1;
  telegram_id = 700;
  code_hmac = 7;
  issued_at = 100;
  expires_at = 900;
  consumed_at = none;
  attempts_count = 0;
  request_ip_hash = 3;
  request_user_agent_hash = none;
  status = OtpChallengeStatus.active;
}

abbrev session_of_ada : AdminSession
session_of_ada = record {
  session_id = 20;
  user_id = 1;
  token_hmac = 55;
  csrf_hmac = 56;
  created_at = 100;
  last_seen_at = 100;
  expires_at = 1000;
  revoked_at = none;
  revocation_reason = none;
  request_ip_hash = 3;
  request_user_agent_hash = none;
}

abbrev tables : Db
tables = record {
  users = ada ∷ bob ∷ [];
  challenges = code_of_ada ∷ [];
  sessions = session_of_ada ∷ [];
  rate_events = [];
  audit = [];
  revision = none;
}

tables-IsSound : IsSound tables
tables-IsSound = record {
  users = λ i. ground arith;
  challenges = record { one_challenge = λ i. ground arith; one_open = λ u. ground arith };
}

abbrev service : Service
service = record {
  policy = record {
    otp_ttl_seconds = 300;
    resend_cooldown_seconds = 60;
    max_verify_attempts = 3;
    request_limit_per_user = 5;
    request_limit_per_ip = 20;
    verify_limit_per_ip = 20;
    global_request_limit = 100;
    rate_window_seconds = 900;
    lockout_failures = 5;
    lockout_seconds = 900;
    session_ttl_seconds = 3600;
  };
  hmac_secret = true;
  bot_url = none;
  clock = λ n. n + 500;
  new_id = λ n. n + 40;
  random_code = λ n. "123456";
  token_urlsafe = λ n. if n == 0 then "a" else "b";
  hmac = λ m. elim m [
    | otp i t code ↦ if str_eq code "123456" then 7 else 8
    | session t ↦ 9
    | csrf t ↦ 11
    | scope name value ↦ 12
    | scope_number name value ↦ 13
  ];
  send_login_code = λ n t code e. none;
}

abbrev start : State
start = record { db = tables; uses = 0 }

abbrev issued : IssuedSession
issued = record {
  identity = record {
    user = record ada { updated_at = 500; last_login_at = some 500 };
    session = record {
      session_id = 44;
      user_id = 1;
      token_hmac = 9;
      csrf_hmac = 11;
      created_at = 500;
      last_seen_at = 500;
      expires_at = 3600000500;
      revoked_at = none;
      revocation_reason = none;
      request_ip_hash = 12;
      request_user_agent_hash = none;
    };
  };
  session_token = "b";
  csrf_token = "b";
}

login : (verify_code service 700 "123456" "10.0.0.1" none none start).0 ≡ ok issued
unfolding verify_code manaai.Auth.Service.require_hmac
    manaai.Auth.Service.Limits.consume_verify_limit manaai.Auth.Service.Limits.draw_rate_event
    manaai.Auth.Service.VerifyCode.verify_after_limit manaai.Auth.Store.Limits.consume_rate_events
    manaai.Auth.Service.Limits.rate_limit manaai.Auth.Service.VerifyCode.verify_for
    manaai.Auth.Store.get_user_by_telegram_id manaai.Auth.Service.VerifyCode.try_code
    get_active_challenge manaai.Auth.Service.VerifyCode.judge_attempt apply_challenge_attempt
    manaai.Auth.Service.VerifyCode.issue_session manaai.Auth.Service.make_event
    manaai.Auth.Store.Sessions.create_session manaai.Auth.Service.optional_scope_hmac
login = refl

wrong_code :
    (verify_code service 700 "000000" "10.0.0.1" none none start).0
    ≡ err (authentication "invalid_code" none)
unfolding verify_code manaai.Auth.Service.require_hmac
    manaai.Auth.Service.Limits.consume_verify_limit manaai.Auth.Service.Limits.draw_rate_event
    manaai.Auth.Service.VerifyCode.verify_after_limit manaai.Auth.Store.Limits.consume_rate_events
    manaai.Auth.Service.Limits.rate_limit manaai.Auth.Service.VerifyCode.verify_for
    manaai.Auth.Store.get_user_by_telegram_id manaai.Auth.Service.VerifyCode.try_code
    get_active_challenge manaai.Auth.Service.VerifyCode.judge_attempt apply_challenge_attempt
    manaai.Auth.Service.VerifyCode.record_failed_verification
    manaai.Auth.Store.Limits.record_auth_failure manaai.Auth.Service.audit
wrong_code = refl

verify_code_needs_code_example : Proven service 700 "123456" 500 tables issued
verify_code_needs_code_example =
    verify_code_needs_code service 700 "123456" "10.0.0.1" none none start issued tables-IsSound
      login

-- Bob leaves, and a wrong code of Ada is tried.
abbrev leaving : AccessChange
leaving = record {
  role = none;
  status = some AdminUserStatus.disabled;
  disabled_reason = some "left";
  display_name = none;
  username = none;
  update_display_name = false;
  update_username = false;
}

abbrev after_leaving : Db
after_leaving = (update_user_access 2 leaving 600 [] tables).1

abbrev after_trying : Db
after_trying = (apply_challenge_attempt 10 false 610 3 after_leaving).1

history : Transactions tables after_trying
history = next (next here (updates_access 2 leaving 600 [] refl)) (attempts 10 false 610 3 refl)

last_admin_stays_example : 1 ≤ active_admins after_trying
last_admin_stays_example = last_admin_stays tables after_trying history tables-IsSound (omega arith)

-- Ada is the last administrator then, and stays.
last_admin_test : (update_user_access 1 leaving 620 [] after_trying).0 ≡ err last_active_admin
unfolding update_user_access apply_challenge_attempt disabled_state_ok
last_admin_test = refl

abbrev tried : OtpChallenge
tried = attempted code_of_ada true 500 3

swapped : swap_challenge code_of_ada tried tables ≡ some (record tables { challenges = tried ∷ [] })
unfolding swap_challenge
swapped = refl

attempt_race_example :
    swap_challenge code_of_ada
      (attempted code_of_ada false 501 3)
      (record tables { challenges = tried ∷ [] })
    ≡ none
attempt_race_example =
    attempt_race code_of_ada true false 500 501 3 tables (record tables { challenges = tried ∷ [] })
      swapped

attempts_are_bounded_example :
    count is_some
      (attempt_all 10 3 ((false, 500) ∷ (false, 501) ∷ (false, 502) ∷ (true, 503) ∷ []) tables)
    ≤ 3
attempts_are_bounded_example =
    attempts_are_bounded 10 3 ((false, 500) ∷ (false, 501) ∷ (false, 502) ∷ (true, 503) ∷ []) tables
      code_of_ada refl refl (omega arith)

abbrev second_code : OtpChallenge
second_code = record code_of_ada { challenge_id = 11; issued_at = 400; code_hmac = 8 }

reserve_replaces_example :
    let (result, db') = reserve_challenge second_code 340 tables in
    let clash = any (clashes second_code) (modify (is_open_of 1) invalidate tables.challenges) in
    ((result ≡ ok true)
      × (any (has_user_id 1) tables.users ≡ true)
      × (has_recent 1 340 tables.challenges ≡ false)
      × (clash ≡ false)
      × (filter (is_open_of 1) db'.challenges ≡ second_code ∷ [])
      × (get_active_challenge 1 db' ≡ some second_code))
    ⊎ ((result ≡ ok false)
        × (has_recent 1 340 tables.challenges ≡ true)
        × (db'.challenges ≡ tables.challenges))
    ⊎ ((result ≡ err concurrent_operation)
        × (has_recent 1 340 tables.challenges ≡ false)
        × ((any (has_user_id 1) tables.users ≡ false) ⊎ (clash ≡ true))
        × (db'.challenges ≡ tables.challenges))
reserve_replaces_example = reserve_replaces second_code 340 tables refl

update_user_access_closes_example :
    let (result, db') = update_user_access 2 leaving 600 [] tables in
    ((current : AdminUser) × (user : AdminUser) × (get_user 2 tables ≡ some current)
      × (result ≡ ok user)
      × (user.user_id ≡ 2)
      × (get_user 2 db' ≡ some user)
      × IsChanged current leaving 600 user
      × ((is_active user ≡ true) ⊎ IsClosed user db'))
    ⊎ (((result ≡ err lookup_error) × (get_user 2 tables ≡ none)
          ⊎ ((current : AdminUser) × (get_user 2 tables ≡ some current)
              × ((result ≡ err validation_error) × (disabled_state_ok current ≡ false)
                  ⊎ (result ≡ err last_active_admin)
                    × (is_active_admin current ≡ true)
                    × (count is_active_admin tables.users ≤ 1))))
        × (db' ≡ tables))
update_user_access_closes_example = update_user_access_closes 2 leaving 600 [] tables

get_identity_lem_example :
    let (result, db') = get_identity_by_session_hmac 55 300 tables in
    ((session : AdminSession) × (user : AdminUser) × IsGood 55 300 tables session user
      × (result ≡ some (record { user = user; session = record session { last_seen_at = 300 } })))
    ⊎ ((result ≡ none) × (db' ≡ tables))
get_identity_lem_example = get_identity_lem 55 300 tables

bob_valid : disabled_state_ok bob ≡ true
unfolding disabled_state_ok
bob_valid = refl

changed_user-valid_example : disabled_state_ok (changed_user bob leaving 600) ≡ true
changed_user-valid_example = changed_user-valid bob leaving 600 "left" bob_valid (λ _. (refl, refl))

changed_user-invalid_example :
    disabled_state_ok (changed_user bob (record leaving { disabled_reason = none }) 600) ≡ false
changed_user-invalid_example =
    changed_user-invalid bob (record leaving { disabled_reason = none }) 600 refl refl refl
