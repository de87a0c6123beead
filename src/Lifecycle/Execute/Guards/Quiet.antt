-- ===== src/Lifecycle/Execute/Guards/Quiet.antt =====
-- The steps of the lifecycle that ask no provider for a write.
use manaai.Prelude.{
  arith, ℕ, zero, suc, ◌≡◌, refl, ◌∙◌, Option, none, some, List, [], ◌∷◌, String, Bool, true, false,
  not, if◌then◌else◌,
}
use manaai.Prelude.Exec.{Result, ok, err, ensure, proceed, ◌>>=◌}
use manaai.Domain.Enums.{PolicyDecision, UserRole}
use manaai.Domain.StateMachine.{Transition, allowed, invalid}
use manaai.Lifecycle.Model.{
  JsonObject, ActionProposal, ActionExecution, ActionTargetState, ActionDispatchResult,
  AgentConfiguration, AuditEventType,
}
use manaai.Lifecycle.Store.{LifecycleError, Db, action_safety, latest_configuration}
use manaai.Lifecycle.Service.{
  Service, Executor, Reading, found, not_found, permanent, transient, other, Dispatch, dispatched,
  rejected, uncertain, State, Run, raised, required, require_safety, require_policy, unless_stopped,
  require_configuration, failed_execution, heed, audit,
}
use manaai.Lifecycle.Execute.Outcome.{
  Caller, ActionLifecycleResult, settle, settle_rejected, settle_unknown, settle_reconciled,
  reconcile, Observation, observe, settle_unverified, settle_verified, judge_observation,
}
use manaai.Lifecycle.Execute.{finish_dry_run, expire_before_execution, refuse_write}

abbrev pub Quiet : {A : Type 0} → Run A → Type 0
Quiet m = (s : State) → (m s).1.sent ≡ s.sent

pub Quiet->>= :
    {A B : Type 0} (m : Run A) (k : A → Run B) → Quiet m → ((a : A) → Quiet (k a)) → Quiet (m >>= k)
Quiet->>= {A} {B} m k q h s = go (m s).0
  where
    go : (r : Result LifecycleError A) → (proceed r k (m s).1).1.sent ≡ s.sent
    go (ok a) = h a (m s).1 ∙ q s
    go (err x) = q s

pub raised-Quiet : (t : Transition) → Quiet (raised t)
raised-Quiet allowed s = refl
raised-Quiet invalid s = refl

module _ (service : Service) where
  pub audit-Quiet :
      (c : String) (p : ActionProposal) (t : AuditEventType) (a : String) (r : UserRole)
      (m : String) (d : JsonObject)
      → Quiet (audit service c p t a r m d)
  unfolding audit
  audit-Quiet c p t a r m d s = refl

  pub failed_execution-Quiet :
      (p : ActionProposal) (before : Option ActionTargetState) (m c : String)
      → Quiet (failed_execution service p before m c)
  unfolding failed_execution
  failed_execution-Quiet p before m c s = ground arith

  required-Quiet : {A : Type 0} (o : Option A) → Quiet (required o)
  required-Quiet none s = refl
  required-Quiet (some a) s = refl

  ensure-Quiet : (b : Bool) (e : LifecycleError) → Quiet (ensure b e)
  ensure-Quiet true e s = refl
  ensure-Quiet false e s = refl

  heed-Quiet :
      (decision : PolicyDecision) (reasons : List String)
      → Quiet (heed service (record { decision = decision; reasons = reasons }))
  heed-Quiet PolicyDecision.allow reasons s = refl
  heed-Quiet PolicyDecision.require_approval reasons s = refl
  heed-Quiet PolicyDecision.deny reasons s = refl

  require_policy-Quiet :
      (p : ActionProposal) (o : Option AgentConfiguration) → Quiet (require_policy service p o)
  unfolding require_policy
  require_policy-Quiet p none s = refl
  require_policy-Quiet p (some c) s = ground arith

  unless_stopped-Quiet :
      (f : Db → Bool) (m : String) (rest : Run (Unit {0}))
      → Quiet rest
      → Quiet (unless_stopped service f m rest)
  unfolding unless_stopped
  unless_stopped-Quiet f m rest q s =
      Quiet->>= (ensure (not (f s.db)) (action_safety m)) (λ _. rest) (ensure-Quiet _ _) (λ _. q) s

  pub require_safety-Quiet : (p : ActionProposal) → Quiet (require_safety service p)
  unfolding require_safety require_configuration
  require_safety-Quiet p = unless_stopped-Quiet _ _ _ (
      unless_stopped-Quiet _ _ _ (
        unless_stopped-Quiet _ _ _
          (λ s. require_policy-Quiet p (latest_configuration p.agent_id p.capability_key s.db) s)))

  settle_rejected-Quiet :
      (p : ActionProposal) (e : ActionExecution) → Quiet (settle_rejected service p e)
  unfolding settle_rejected
  settle_rejected-Quiet p e s = ground arith

  settle_unknown-Quiet :
      (c : Caller) (p : ActionProposal) (e : ActionExecution) → Quiet (settle_unknown service c p e)
  unfolding settle_unknown audit
  settle_unknown-Quiet c p e s = ground arith

  settle_reconciled-Quiet :
      (c : Caller) (p : ActionProposal) (e : ActionExecution) (x : JsonObject)
      (o : ActionTargetState)
      → Quiet (settle_reconciled service c p e x o)
  unfolding settle_reconciled audit
  settle_reconciled-Quiet c p e x o s = ground arith

  settle_unverified-Quiet :
      (p : ActionProposal) (e : ActionExecution) (r : ActionDispatchResult)
      → Quiet (settle_unverified service p e r)
  unfolding settle_unverified
  settle_unverified-Quiet p e r s = ground arith

  settle_verified-Quiet :
      (c : Caller) (p : ActionProposal) (e : ActionExecution) (x : JsonObject)
      (r : ActionDispatchResult) (a : ActionTargetState) (d : List String)
      → Quiet (settle_verified service c p e x r a d)
  unfolding settle_verified audit
  settle_verified-Quiet c p e x r a d s = ground arith

  differences-Quiet :
      (c : Caller) (p : ActionProposal) (e : ActionExecution) (x : JsonObject)
      (o : ActionTargetState) (d : List String)
      → Quiet (elim d as (λ _. Run ActionLifecycleResult) [
        | [] ↦ settle_reconciled service c p e x o
        | _ ∷ _ ↦ settle_unknown service c p e
      ])
  differences-Quiet c p e x o [] = settle_reconciled-Quiet c p e x o
  differences-Quiet c p e x o (_ ∷ _) = settle_unknown-Quiet c p e

  reconcile-Quiet :
      (c : Caller) (executor : Executor) (p : ActionProposal) (e : ActionExecution) (x : JsonObject)
      (r : Reading)
      → Quiet (reconcile service c executor p e x r)
  unfolding reconcile
  reconcile-Quiet c executor p e x (found o) =
      differences-Quiet c p e x o (executor.differences x o)
  reconcile-Quiet c executor p e x not_found = settle_unknown-Quiet c p e
  reconcile-Quiet c executor p e x permanent = settle_unknown-Quiet c p e
  reconcile-Quiet c executor p e x transient = settle_unknown-Quiet c p e
  reconcile-Quiet c executor p e x other = settle_unknown-Quiet c p e

  if-Quiet : {A : Type 0} (b : Bool) (m n : Run A) → Quiet m → Quiet n → Quiet (if b then m else n)
  if-Quiet true m n h k = h
  if-Quiet false m n h k = k

  observe-Quiet :
      (n : ℕ) (executor : Executor) (p : ActionProposal) (x : JsonObject) (o : Observation)
      → Quiet (observe service n executor p x o)
  unfolding observe
  observe-Quiet zero executor p x o s = refl
  observe-Quiet (suc n) executor p x o s =
      if-Quiet _ _ _ (λ _. refl) (observe-Quiet n executor p x _) _

  judge_observation-Quiet :
      (c : Caller) (p : ActionProposal) (e : ActionExecution) (x : JsonObject)
      (r : ActionDispatchResult) (after : Option ActionTargetState) (d : List String) (b : Bool)
      → Quiet (
          judge_observation service c p e x r
            (record { after = after; differences = d; verification_error = b }))
  unfolding judge_observation
  judge_observation-Quiet c p e x r none d b = settle_unverified-Quiet p e r
  judge_observation-Quiet c p e x r (some a) d true = settle_unverified-Quiet p e r
  judge_observation-Quiet c p e x r (some a) d false = settle_verified-Quiet c p e x r a d

  pub settle-Quiet :
      (c : Caller) (executor : Executor) (p q : ActionProposal) (e : ActionExecution)
      (x : JsonObject) (d : Dispatch)
      → Quiet (settle service c executor p q e x d)
  unfolding settle
  settle-Quiet c executor p q e x rejected s = settle_rejected-Quiet q e s
  settle-Quiet c executor p q e x uncertain s = reconcile-Quiet c executor q e x _ _
  settle-Quiet c executor p q e x (dispatched result) s =
      Quiet->>=
        (observe service service.verification_attempts executor p x
          (record { after = none; differences = []; verification_error = false }))
        (judge_observation service c q e x result)
        (observe-Quiet service.verification_attempts executor p x
          (record { after = none; differences = []; verification_error = false }))
        (λ o. judge_observation-Quiet c q e x result o.after o.differences o.verification_error) s

  pub finish_dry_run-Quiet :
      (c : Caller) (p : ActionProposal) (e : ActionExecution) (now : ℕ)
      → Quiet (finish_dry_run service c p e now)
  unfolding finish_dry_run audit
  finish_dry_run-Quiet c p e now s = ground arith

  pub expire_before_execution-Quiet :
      (c : Caller) (p : ActionProposal) → Quiet (expire_before_execution service c p)
  unfolding expire_before_execution audit
  expire_before_execution-Quiet c p s = ground arith

  pub refuse_write-Quiet : (c : Caller) (p : ActionProposal) → Quiet (refuse_write service c p)
  unfolding refuse_write audit
  refuse_write-Quiet c p s = refl
