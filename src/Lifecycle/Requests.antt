-- ===== src/Lifecycle/Requests.antt =====
-- `create_action_request` of repository.py: an action is requested once for each idempotency key.
use manaai.Prelude.{
  ◌≡◌, refl, Option, some, List, [], ◌∷◌, ◌++◌, true, false, ◌==◌, any, find, arith,
}
use manaai.Prelude.Exec.{ok}
use manaai.Lifecycle.Model.{ActionProposal, ApprovalRequest}
use manaai.Lifecycle.Store.{
  Db, proposal_clashes, clashes, create_action_request, get_approval_for_proposal,
}

find-added :
    (new other : ActionProposal) (rows : List ActionProposal)
    → any (proposal_clashes new) rows ≡ false
    → other.idempotency_key ≡ new.idempotency_key
    → find (λ row. row.idempotency_key == other.idempotency_key) (rows ++ new ∷ []) ≡ some new
find-added new other [] h e = ground arith
find-added new other (row ∷ rows) h e = ground (arith, find-added new other rows)

any-added :
    (new other : ActionProposal) (rows : List ActionProposal)
    → other.idempotency_key ≡ new.idempotency_key
    → any (proposal_clashes other) (rows ++ new ∷ []) ≡ true
any-added new other [] e = ground arith
any-added new other (row ∷ rows) e = ground (arith, any-added new other rows e)

-- A request that clashes with no row is stored and returned; a later one with its idempotency key
-- is answered with the stored proposal and its approval, and changes nothing.
pub requested_once :
    (proposal later : ActionProposal) (approval approval' : Option ApprovalRequest) (db : Db)
    → clashes proposal approval db ≡ false
    → later.idempotency_key ≡ proposal.idempotency_key
    → let (result, db') = create_action_request proposal approval db in
      (result ≡ ok (proposal, approval))
      × (create_action_request later approval' db'
          ≡ (ok (proposal, get_approval_for_proposal proposal.proposal_id db'), db'))
unfolding create_action_request
requested_once proposal later approval approval' db free same =
    let first : any (proposal_clashes proposal) db.proposals ≡ false = ground (arith, free) in
    (
      rw free refl,
      ground (
        arith,
        free,
        find-added proposal later db.proposals first same,
        any-added proposal later db.proposals same,
      ),
    )
