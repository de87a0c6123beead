-- ===== src/Auth/Service.antt =====
-- app/mana_operation_ai/application/auth_service.py: `AdminAuthService`. The clock, the ids, the
-- secrets, the HMAC and the Telegram sender are what a record of functions gives: the n-th use of
-- any of them yields the value at n. The methods run one at a time here; the identity lock of the
-- source makes it so for the calls of one Telegram identity.
pub mod Limits
pub mod RequestCode
pub mod VerifyCode
pub mod Sessions
pub mod Users
use Prim.Native.String
use manaai.Prelude.{
  ℕ, suc, zero, ◌+◌, Option, none, some, List, [], ◌∷◌, String, str_eq, Bool, true, false, not,
  if◌then◌else◌,
}
use manaai.Prelude.Dict.{Dict}
use manaai.Prelude.Exec.{Exec, Result, ok, err, ret, raise, asks, ensure, ◌>>=◌, ◌>>◌}
use manaai.Auth.Model.{AuthPolicy, AuthAuditEvent, AuthAuditEventType, JsonValue}
use manaai.Auth.Store.{AuthError, authentication_unavailable, Db, Tx, save_audit_event}

-- The texts that `_digest` is given; each has its own prefix.
pub data Message : Type 0 where
  otp : ℕ → ℕ → String → Message
  session : String → Message
  csrf : String → Message
  scope : String → String → Message
  scope_number : String → ℕ → Message

pub data TelegramDeliveryFailure : Type 0 where
  bot_not_started transient permanent unavailable : TelegramDeliveryFailure

-- What the service is made with. `hmac_secret` is whether a key is set.
pub record Service : Type 0 where
  pub policy : AuthPolicy
  pub hmac_secret : Bool
  pub bot_url : Option String
  pub clock : ℕ → ℕ
  pub new_id : ℕ → ℕ
  pub random_code : ℕ → String
  pub token_urlsafe : ℕ → String
  pub hmac : Message → ℕ
  pub send_login_code : ℕ → ℕ → String → ℕ → Option TelegramDeliveryFailure

pub record State : Type 0 where
  pub db : Db
  pub uses : ℕ

abbrev pub Run : Type 0 → Type 0
Run A = Exec AuthError State A

-- The n-th use of a port.
abbrev pub draw : {A : Type 0} → (ℕ → A) → Run A
draw f s = (ok (f s.uses), record s { uses = suc s.uses })

-- A transaction, one that cannot raise, and one with no result.
abbrev pub transact : {A : Type 0} → Tx A → Run A
transact tx s = let (r, db') = tx s.db in (r, record s { db = db' })

abbrev pub commit : {A : Type 0} → (Db → A × Db) → Run A
commit tx s = let (a, db') = tx s.db in (ok a, record s { db = db' })

abbrev pub write : (Db → Db) → Run (Unit {0})
write f s = (ok tt, record s { db = f s.db })

abbrev pub reads : {A : Type 0} → (Db → A) → Run A
reads f = asks (λ s. f s.db)

-- `value[:512]`.
unfoldable pub prefix : ℕ → String → String
prefix zero s = String.[]
prefix (suc n) String.[] = String.[]
prefix (suc n) (String.◌∷◌ c s) = String.◌∷◌ c (prefix n s)

module _ (service : Service) where
  open service use {hmac_secret, clock, new_id, hmac}

  unfoldable pub require_hmac : Run (Unit {0})
  require_hmac = ensure hmac_secret authentication_unavailable

  -- `_optional_scope_hmac`.
  unfoldable pub optional_scope_hmac : String → Option String → Option ℕ
  unfolding prefix
  optional_scope_hmac name none = none
  optional_scope_hmac name (some value) =
      if str_eq value "" then none else some (hmac (scope name (prefix 512 value)))

  -- `_event`.
  unfoldable pub make_event :
      AuthAuditEventType
      → Option ℕ
      → Option ℕ
      → Option ℕ
      → String
      → Dict JsonValue
      → Run AuthAuditEvent
  make_event event_type actor subject request_ip_hash summary details = do
    event_id ← draw new_id
    occurred_at ← draw clock
    ret (record {
      event_id = event_id;
      event_type = event_type;
      occurred_at = occurred_at;
      actor_user_id = actor;
      subject_user_id = subject;
      request_ip_hash = request_ip_hash;
      summary = summary;
      details = details;
    })

  unfoldable pub audit :
      AuthAuditEventType → Option ℕ → Option ℕ → Option ℕ → String → Dict JsonValue → Run (Unit {0})
  unfolding make_event save_audit_event
  audit event_type actor subject request_ip_hash summary details = do
    event ← make_event event_type actor subject request_ip_hash summary details
    write (save_audit_event event)
