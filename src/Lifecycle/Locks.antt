-- ===== src/Lifecycle/Locks.antt =====
-- The job locks of repository.py: who holds one excludes all others until it expires.
use manaai.Prelude.{
  ℕ, ◌+◌, ◌≤◌, ◌<◌, ◌≡◌, refl, List, [], ◌∷◌, ◌++◌, String, eq_iff, true, false, ◌==◌, any, count,
  modify, arith, Bool-cases, inl, inr,
}
use manaai.Lifecycle.Model.{JobLock}
use manaai.Lifecycle.Store.{Db, locks_key, claimable, acquire_lock}

abbrev held : ℕ → ℕ → ℕ → JobLock → JobLock
held owner_id now expires_at row = record row {
  owner_id = owner_id;
  acquired_at = now;
  expires_at = expires_at;
}

count-held :
    (key : String) (a b now later expires_at : ℕ) (rows : List JobLock)
    → (a == b) ≡ false
    → later < expires_at
    → count (claimable key b later) (modify (claimable key a now) (held a now expires_at) rows)
        + count (claimable key a now) rows
      ≤ count (locks_key key) rows
count-held key a b now later expires_at [] d t = omega arith
count-held key a b now later expires_at (row ∷ rows) d t =
    ground (arith, count-held key a b now later expires_at rows d t)

any-held :
    (key : String) (a now expires_at : ℕ) (rows : List JobLock)
    → count (claimable key a now) rows ≡ 1
    → any (locks_key key) (modify (claimable key a now) (held a now expires_at) rows) ≡ true
any-held key a now expires_at [] h = ground arith
any-held key a now expires_at (row ∷ rows) h = ground (arith, any-held key a now expires_at rows)

count-added :
    (key : String) (b later : ℕ) (new : JobLock) (rows : List JobLock)
    → any (locks_key key) rows ≡ false
    → claimable key b later new ≡ false
    → count (claimable key b later) (rows ++ new ∷ []) ≡ 0
count-added key b later new [] h n = ground arith
count-added key b later new (row ∷ rows) h n = ground (arith, count-added key b later new rows)

any-added :
    (key : String) (new : JobLock) (rows : List JobLock)
    → locks_key key new ≡ true
    → any (locks_key key) (rows ++ new ∷ []) ≡ true
any-added key new [] h = ground arith
any-added key new (row ∷ rows) h = ground (arith, any-added key new rows h)

-- Once `a` has acquired a lock, which has one row at most, nobody else acquires it from the tables
-- after that before the instant at which it expires: the attempt fails and changes nothing.
pub lock_is_exclusive :
    (key : String) (a b now later expires_at expires_at' : ℕ) (db : Db)
    → count (locks_key key) db.locks ≤ 1
    → (acquire_lock key a now expires_at db).0 ≡ true
    → (a == b) ≡ false
    → later < expires_at
    → let after = (acquire_lock key a now expires_at db).1 in
      acquire_lock key b later expires_at' after ≡ (false, after)
unfolding acquire_lock
lock_is_exclusive key a b now later expires_at expires_at' db one got d t =
    elim (Bool-cases (count (claimable key a now) db.locks == 1)) [
      | inl claimed ↦ ground (
        arith,
        claimed,
        count-held key a b now later expires_at db.locks d t,
        any-held key a now expires_at db.locks,
      )
      | inr unclaimed ↦ elim (Bool-cases (any (locks_key key) db.locks)) [
        | inl taken ↦ ground (arith, unclaimed, taken)
        | inr free ↦
            let new : JobLock = record {
              lock_key = key;
              owner_id = a;
              acquired_at = now;
              expires_at = expires_at;
            } in
            let same = (eq_iff key key).1 refl in
            ground (
              arith,
              unclaimed,
              free,
              same,
              count-added key b later new db.locks free (ground (arith, same)),
              any-added key new db.locks same,
            )
      ]
    ]
