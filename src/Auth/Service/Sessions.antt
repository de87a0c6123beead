-- ===== src/Auth/Service/Sessions.antt =====
-- The calls of auth_service.py on a session.
use manaai.Prelude.{Option, none, some, [], String, Bool, false, ◌&&◌, ◌==◌, if◌then◌else◌}
use manaai.Prelude.Exec.{ret, ◌>>=◌, ◌>>◌}
use manaai.Auth.Model.{AuthAuditEventType, AuthenticatedIdentity}
use manaai.Auth.Store.Sessions.{get_identity_by_session_hmac, revoke_session}
use manaai.Auth.Service.{Service, Run, session, csrf, scope, draw, commit, require_hmac, make_event}

module _ (service : Service) where
  open service use {policy, clock, new_id, hmac, random_code, token_urlsafe, send_login_code}

  unfoldable pub authenticate_session : Option String → Run (Option AuthenticatedIdentity)
  authenticate_session none = ret none
  authenticate_session (some session_token) =
      if service.hmac_secret
      then (do
        now ← draw clock
        commit (get_identity_by_session_hmac (hmac (session session_token)) now))
      else ret none

  unfoldable pub validate_csrf : AuthenticatedIdentity → Option String → Bool
  validate_csrf identity none = false
  validate_csrf identity (some csrf_token) =
      service.hmac_secret && hmac (csrf csrf_token) == identity.session.csrf_hmac

  unfoldable pub logout : AuthenticatedIdentity → String → String → Run (Unit {0})
  logout identity session_token request_ip = do
    now ← draw clock
    require_hmac service
    event ←
        make_event service AuthAuditEventType.logout (some identity.user.user_id)
          (some identity.user.user_id) (some (hmac (scope "ip" request_ip)))
          "Administrative session logged out" []
    commit (revoke_session (hmac (session session_token)) now "user_logout" (some event))
    ret tt
