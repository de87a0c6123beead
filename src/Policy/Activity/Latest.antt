-- ===== src/Policy/Activity/Latest.antt =====
-- The latest proposals hold every proposal that is new enough, unless too many are.
use manaai.Prelude.{
  ℕ, zero, suc, ◌≤◌, ◌≡◌, refl, sym, ap, ◌∙◌, List, [], ◌∷◌, Bool, false, ◌&&◌, ◌||◌, leb, any,
  count, All, arith, if◌then◌else◌, Bool-cases, inl, inr,
}
use manaai.Lifecycle.Model.{ActionProposal}
use manaai.Policy.Activity.{History, insert, order_by_created, limited, list_proposals}

module _ (p : ActionProposal → Bool) where
  any-insert :
      (new : ActionProposal) (rows : List ActionProposal)
      → any p (insert new rows) ≡ (p new || any p rows)
  unfolding insert
  any-insert new [] = refl
  any-insert new (row ∷ rows) = ground (arith, any-insert new rows)

  any-order : (rows : List ActionProposal) → any p (order_by_created rows) ≡ any p rows
  unfolding order_by_created
  any-order [] = refl
  any-order (row ∷ rows) =
      any-insert row (order_by_created rows) ∙ ap (λ b. p row || b) (any-order rows)

  count-insert :
      (new : ActionProposal) (rows : List ActionProposal)
      → count p (insert new rows) ≡ count p (new ∷ rows)
  unfolding insert
  count-insert new [] = refl
  count-insert new (row ∷ rows) = ground (arith, count-insert new rows)

  count-order : (rows : List ActionProposal) → count p (order_by_created rows) ≡ count p rows
  unfolding order_by_created
  count-order [] = refl
  count-order (row ∷ rows) =
      count-insert row (order_by_created rows)
      ∙ ap (λ n. if p row then suc n else n) (count-order rows)

abbrev pub is_since : ℕ → ActionProposal → Bool
is_since cutoff row = leb cutoff row.created_at

-- The rows from the newest to the oldest.
abbrev Descending : List ActionProposal → Type 0
Descending [] = Unit
Descending (row ∷ rows) =
    All (λ (other : ActionProposal). other.created_at ≤ row.created_at) rows × Descending rows

All-insert :
    (bound : ℕ) (new : ActionProposal) (rows : List ActionProposal)
    → new.created_at ≤ bound
    → All (λ (other : ActionProposal). other.created_at ≤ bound) rows
    → All (λ (other : ActionProposal). other.created_at ≤ bound) (insert new rows)
unfolding insert
All-insert bound new [] h a = (h, tt)
All-insert bound new (row ∷ rows) h a = ground (arith, All-insert bound new rows h a.1)

All-below :
    (low high : ℕ) (rows : List ActionProposal)
    → low ≤ high
    → All (λ (other : ActionProposal). other.created_at ≤ low) rows
    → All (λ (other : ActionProposal). other.created_at ≤ high) rows
All-below low high [] h a = tt
All-below low high (row ∷ rows) h a = (omega (arith, a.0), All-below low high rows h a.1)

insert-Descending :
    (new : ActionProposal) (rows : List ActionProposal)
    → Descending rows
    → Descending (insert new rows)
unfolding insert
insert-Descending new [] d = (tt, tt)
insert-Descending new (row ∷ rows) d = elim (Bool-cases (leb row.created_at new.created_at)) [
  | inl e ↦
      let after : All (λ (other : ActionProposal). other.created_at ≤ new.created_at) (row ∷ rows) =
        (ground (arith, e), All-below row.created_at new.created_at rows (ground (arith, e)) d.0) in
      rw e (after, d)
  | inr e ↦
      rw e
        (All-insert row.created_at new rows (ground (arith, e)) d.0, insert-Descending new rows d.1)
]

order-Descending : (rows : List ActionProposal) → Descending (order_by_created rows)
unfolding order_by_created
order-Descending [] = tt
order-Descending (row ∷ rows) =
    insert-Descending row (order_by_created rows) (order-Descending rows)

count-older :
    (cutoff bound : ℕ) (rows : List ActionProposal)
    → All (λ (other : ActionProposal). other.created_at ≤ bound) rows
    → leb cutoff bound ≡ false
    → count (is_since cutoff) rows ≡ 0
count-older cutoff bound [] a h = refl
count-older cutoff bound (row ∷ rows) a h = ground (arith, a.0, count-older cutoff bound rows a.1 h)

any-none :
    (cutoff : ℕ) (p : ActionProposal → Bool) (rows : List ActionProposal)
    → count (is_since cutoff) rows ≤ 0
    → any (λ row. is_since cutoff row && p row) rows ≡ false
any-none cutoff p [] h = refl
any-none cutoff p (row ∷ rows) h = ground (arith, any-none cutoff p rows)

any-limited :
    (limit cutoff : ℕ) (p : ActionProposal → Bool) (rows : List ActionProposal)
    → Descending rows
    → count (is_since cutoff) rows ≤ limit
    → any (λ row. is_since cutoff row && p row) (limited limit rows)
      ≡ any (λ row. is_since cutoff row && p row) rows
unfolding limited
any-limited zero cutoff p rows d h = sym (any-none cutoff p rows h)
any-limited (suc n) cutoff p [] d h = refl
any-limited (suc n) cutoff p (row ∷ rows) d h =
    let older = count-older cutoff row.created_at rows d.0 in
    let rest = any-limited n cutoff p rows d.1 (ground (arith, older, h)) in
    ap (λ b. (is_since cutoff row && p row) || b) rest

-- A test that only proposals since the cutoff pass comes out on the latest as on all of them, when
-- at most `limit` are so new.
pub any-list_proposals :
    (limit cutoff : ℕ) (p : ActionProposal → Bool) (history : History)
    → count (is_since cutoff) history.proposals ≤ limit
    → any (λ row. is_since cutoff row && p row) (list_proposals limit history)
      ≡ any (λ row. is_since cutoff row && p row) history.proposals
unfolding list_proposals
any-list_proposals limit cutoff p history h =
    any-limited limit cutoff p (order_by_created history.proposals)
      (order-Descending history.proposals)
      (omega (arith, count-order (is_since cutoff) history.proposals))
    ∙ any-order (λ row. is_since cutoff row && p row) history.proposals
