-- ===== src/Auth/Login/Issued.antt =====
-- Whose the session is that a login issues.
use manaai.Prelude.{
  ℕ, ◌≡◌, sym, ap, ◌∙◌, Option, none, String, any, ◌||◌, ◌==◌, arith, Bool-cases, Option-cases, inl,
  inr,
}
use manaai.Prelude.Exec.{ok, ret, ◌>>=◌, >>=-eq-ok}
use manaai.Auth.Model.{
  AdminUser, AdminSession, AuthAuditEvent, AuthenticatedIdentity, IssuedSession,
}
use manaai.Auth.Store.{Db, apply_user, get_user}
use manaai.Auth.Store.Sessions.{create_session, rotate_session, logged_in, has_token}
use manaai.Auth.Cases.{get_user-id}
use manaai.Auth.Service.{Service, State, session, transact, make_event}
use manaai.Auth.Service.VerifyCode.{issue_session}

-- The session is the user's, made now, and the token that is handed out opens it.
abbrev pub IsIssuedTo : Service → AdminUser → ℕ → IssuedSession → Type 0
IsIssuedTo service user now issued =
    (issued.identity.user.user_id ≡ user.user_id)
    × (issued.identity.session.user_id ≡ user.user_id)
    × (issued.identity.session.token_hmac ≡ service.hmac (session issued.session_token))
    × (issued.identity.session.created_at ≡ now)
    × (issued.identity.session.revoked_at ≡ none)

create_session-ok :
    (new : AdminSession) (old : Option ℕ) (login_at : ℕ) (event : AuthAuditEvent) (db : Db)
    (identity : AuthenticatedIdentity)
    → (create_session new old login_at event db).0 ≡ ok identity
    → (identity.session ≡ new) × (identity.user.user_id ≡ new.user_id)
unfolding create_session
create_session-ok new old login_at event db identity h =
    elim (Option-cases (get_user new.user_id db)) [
      | inl e ↦ ground (arith, rw (e, create_session) at h)
      | inr (current, e) ↦
          elim (Bool-cases (
            any (λ row. row.session_id == new.session_id || has_token new.token_hmac row)
              (apply_user (logged_in login_at current)
                (rotate_session old login_at db)).sessions)) [
                  | inl clash ↦ ground (arith, rw (e, create_session, clash) at h)
                  | inr free ↦
                      let made = rw (e, create_session, free) at h in
                      (
                        ground (arith, made),
                        ground (arith, made, get_user-id new.user_id db current e),
                      )
                ]
    ]

issued_by :
    (new : AdminSession) (old : Option ℕ) (login_at : ℕ) (event : AuthAuditEvent)
    (token csrf_token : String) (s : State) (issued : IssuedSession)
    → ((transact (create_session new old login_at event) >>= λ identity.
          ret (record { identity = identity; session_token = token; csrf_token = csrf_token }))
        s).0
      ≡ ok issued
    → (issued.identity.session ≡ new)
      × (issued.identity.user.user_id ≡ new.user_id)
      × (issued.session_token ≡ token)
issued_by new old login_at event token csrf_token s issued e =
    let (identity, made, returned) =
      >>=-eq-ok (transact (create_session new old login_at event)) _ s e in
    let (same, id) = create_session-ok new old login_at event s.db identity made in
    (ground (arith, same, returned), ground (arith, id, returned), ground (arith, returned))

pub issue_session-ok :
    (service : Service) (user : AdminUser) (ip : ℕ) (agent old : Option String) (now : ℕ)
    (s : State) (issued : IssuedSession)
    → (issue_session service user ip agent old now s).0 ≡ ok issued
    → IsIssuedTo service user now issued
unfolding issue_session make_event
issue_session-ok service user ip agent old now s issued e =
    let (made, id, token) = issued_by _ _ _ _ _ _ _ issued e in
    (
      id,
      ap (λ (row : AdminSession). row.user_id) made,
      ap (λ (row : AdminSession). row.token_hmac) made
          ∙ ap (λ t. service.hmac (session t)) (sym token),
      ap (λ (row : AdminSession). row.created_at) made,
      ap (λ (row : AdminSession). row.revoked_at) made,
    )
