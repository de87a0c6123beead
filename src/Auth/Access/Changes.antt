-- ===== src/Auth/Access/Changes.antt =====
-- What `update_user_access` makes of a user and of the tables.
use manaai.Prelude.{
  ℕ, ◌≡◌, refl, subst, ap, ◌∙◌, Option, none, some, List, [], ◌∷◌, Bool, true, false, count, find,
  modify, arith, Bool-cases, inl, inr, ◌⊎◌, or_else, ==_refl, String, str_eq, if◌then◌else◌,
}
use manaai.Prelude.Rows.{count-modify-eq-zero}
use manaai.Auth.Model.{AdminUser, is_active}
use manaai.Auth.Store.{
  Db, get_user, has_user_id, AccessChange, changed_user, close_access, apply_user, lock_auth_state,
  is_unrevoked, is_open_of, revoke, invalidate, revoked_because,
}
use manaai.Auth.Cases.{get_user-id, found_again, close_access-users}

-- A value that was asked for is taken, else the old one stays.
abbrev pub IsRequested : {A : Type 0} → Option A → A → A → Type 0
IsRequested none old new = new ≡ old
IsRequested (some asked) old new = new ≡ asked

-- A field that is updated only if the change says so.
abbrev pub IsUpdated : {A : Type 0} → Bool → A → A → A → Type 0
IsUpdated true asked old new = new ≡ asked
IsUpdated false asked old new = new ≡ old

-- The user that a change of access asks for.
pub record IsChanged (current : AdminUser) (change : AccessChange) (now : ℕ) (user : AdminUser)
    : Type 0 where
  pub same_user : (user.user_id ≡ current.user_id) × (user.telegram_id ≡ current.telegram_id)
  pub role : IsRequested change.role current.role user.role
  pub status : IsRequested change.status current.status user.status
  pub display_name :
      IsUpdated change.update_display_name change.display_name current.display_name
        user.display_name
  pub username : IsUpdated change.update_username change.username current.username user.username
  pub enabled : is_active user ≡ true → user.disabled_reason ≡ none
  pub reason :
      (text : String)
      → is_active user ≡ false
      → change.disabled_reason ≡ some text
      → str_eq text "" ≡ false
      → user.disabled_reason ≡ some text
  pub same_reason :
      is_active user ≡ false
      → change.disabled_reason ≡ none
      → user.disabled_reason ≡ current.disabled_reason
  pub reactivated :
      is_active current ≡ false
      → is_active user ≡ true
      → (user.consecutive_auth_failures ≡ 0) × (user.auth_locked_until ≡ none)
  pub same_failures :
      is_active current ≡ is_active user
      → (user.consecutive_auth_failures ≡ current.consecutive_auth_failures)
        × (user.auth_locked_until ≡ current.auth_locked_until)
  pub updated_at : user.updated_at ≡ now

or_else-Requested :
    {A : Type 0} (asked : Option A) (old : A) → IsRequested asked old (or_else asked old)
or_else-Requested none old = refl
or_else-Requested (some a) old = refl

if-Updated :
    {A : Type 0} (b : Bool) (asked old : A) → IsUpdated b asked old (if b then asked else old)
if-Updated true asked old = refl
if-Updated false asked old = refl

changed_user-Changed :
    (current : AdminUser) (change : AccessChange) (now : ℕ)
    → IsChanged current change now (changed_user current change now)
unfolding changed_user
changed_user-Changed current change now = record {
  same_user = (refl, refl);
  role = or_else-Requested change.role current.role;
  status = or_else-Requested change.status current.status;
  display_name = if-Updated change.update_display_name change.display_name current.display_name;
  username = if-Updated change.update_username change.username current.username;
  enabled = λ on. ground (arith, on);
  reason = λ text off asked full. ground (arith, off, asked, full);
  same_reason = λ off asked. ground (arith, off, asked);
  reactivated = λ off on. (ground (arith, off, on), ground (arith, off, on));
  same_failures = λ same. (ground (arith, same), ground (arith, same));
  updated_at = refl;
}

close_access-closed :
    (user : AdminUser) (now : ℕ) (db : Db)
    → is_active user ≡ false
    → (count (is_unrevoked user.user_id) (close_access user now db).sessions ≡ 0)
      × (count (is_open_of user.user_id) (close_access user now db).challenges ≡ 0)
unfolding close_access
close_access-closed user now db off = rw off (
  count-modify-eq-zero (is_unrevoked user.user_id) (is_unrevoked user.user_id)
      (revoke now (revoked_because user.status)) db.sessions (λ x h. h) (λ x. ground arith),
  count-modify-eq-zero (is_open_of user.user_id) (is_open_of user.user_id) invalidate db.challenges
      (λ x h. h) (λ x. ground arith),
)

find-modify :
    (new old : AdminUser) (rows : List AdminUser)
    → find (has_user_id new.user_id) rows ≡ some old
    → find (has_user_id new.user_id) (modify (has_user_id new.user_id) (λ _. new) rows) ≡ some new
find-modify new old [] h = ground arith
find-modify new old (row ∷ rows) h = ground (arith, find-modify new old rows, ==_refl new.user_id)

-- Nothing is left of the access of a user who is not active.
abbrev pub IsClosed : AdminUser → Db → Type 0
IsClosed user db =
    (count (is_unrevoked user.user_id) db.sessions ≡ 0)
    × (count (is_open_of user.user_id) db.challenges ≡ 0)

-- The tables after a change, but for the audit.
abbrev pub changed_tables : AdminUser → ℕ → Db → Db
changed_tables updated now db = close_access updated now (apply_user updated (lock_auth_state db))

changed_tables-user :
    (updated current : AdminUser) (now : ℕ) (db : Db)
    → get_user updated.user_id db ≡ some current
    → get_user updated.user_id (changed_tables updated now db) ≡ some updated
unfolding get_user apply_user lock_auth_state
changed_tables-user updated current now db e =
    ap (find (has_user_id updated.user_id))
      (close_access-users updated now (apply_user updated (lock_auth_state db)))
    ∙ find-modify updated current db.users e

pub changed_tables_lem :
    (user_id : ℕ) (current : AdminUser) (change : AccessChange) (now : ℕ) (db : Db)
    → get_user user_id db ≡ some current
    → let updated = changed_user current change now in
      let after = changed_tables updated now db in
      (updated.user_id ≡ user_id)
      × (get_user user_id after ≡ some updated)
      × IsChanged current change now updated
      × ((is_active updated ≡ true) ⊎ IsClosed updated after)
changed_tables_lem user_id current change now db e =
    let updated = changed_user current change now in
    let after = changed_tables updated now db in
    let changed = changed_user-Changed current change now in
    let id : updated.user_id ≡ user_id = changed.same_user.0 ∙ get_user-id user_id db current e in
    let found = found_again user_id current updated db e changed.same_user.0 in
    (
      id,
      subst (λ i. get_user i after ≡ some updated) id
          (changed_tables-user updated current now db found),
      changed,
      elim (Bool-cases (is_active updated)) [
        | inl on ↦ inl on
        | inr off ↦
            inr (close_access-closed updated now (apply_user updated (lock_auth_state db)) off)
      ],
    )
