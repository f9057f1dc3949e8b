-- ===== src/Actions/Outcomes.antt =====
-- What the branches of `_submit_write` leave behind: the state of the action, one event of the audit
-- log, and the calls of adapters.
use account_pool.Base.{
  ℕ, String, ◌≡◌, refl, Bool, true, false, Option, some, List, [], ◌∷◌, ◌++◌, arith, ap, ◌∙◌,
  if◌then◌else◌,
}
use mathlib.Core.Path.{subst}
use account_pool.Domain.Enums.{ActionType, ActionState, DecisionOutcome, DenialCode}
use account_pool.Domain.Models.{
  Account, Action, AuditEvent, ContentDraft, DecisionStep, TargetRef, ActionResult, ActionOutcome,
  PlatformPolicy, acted, ApprovalItem,
}
use account_pool.Adapters.Interface.{AdapterSession, Adapter}
use account_pool.Runtime.Errors.{Error, Result, ok, raised}
use account_pool.Runtime.World.{World, Env}
use account_pool.Runtime.Monad.{Prog, proceed}
use account_pool.Db.Accounts.{get_connection}
use account_pool.Db.Records.{upsert_action, upsert_approval}
use account_pool.Db.Audit.{record_event, append_event}
use account_pool.Policy.Decisions.{PolicyResult}
use account_pool.Policy.RateLimit.{consume}
use account_pool.Policy.Trackers.{record_coordination}
use account_pool.Approvals.{expiry, submit}
use account_pool.Actions.Context.{load_session}
use account_pool.Actions.Execute.{
  draft_revision, dispatch, record_execution, fail_with, fail_result, update_trackers, succeed,
  complete, finish,
}
use account_pool.Actions.Submit.{notify, record_decision, hold, refuse, queue}

-- The outcome that the log reports for the state of an action.
abbrev pub Reports : ActionState → DecisionOutcome → Type 0
Reports ActionState.refused o = o ≡ DecisionOutcome.deny
Reports ActionState.failed o = o ≡ DecisionOutcome.deny
Reports ActionState.needs_approval o = o ≡ DecisionOutcome.route_to_approval
Reports ActionState.done o = o ≡ DecisionOutcome.allow
Reports _ o = ⊥

-- From `w` to `v` the log has grown by one event, about an action and true to its state.
abbrev pub Logged : World → World → Action → Type 0
Logged w v a =
    (e : AuditEvent) × (v.audit ≡ w.audit ++ e ∷ [])
    × (e.action_id ≡ some a.action_id)
    × Reports a.state e.outcome

-- The same, where a call returns.
abbrev pub LogsOnce : World → Result Action × World → Type 0
LogsOnce w m = (a : Action) → m.0 ≡ ok a → Logged w m.1 a

pub LogsOnce-intro :
    (w : World) (m : Result Action × World) (a : Action)
    → m.0 ≡ ok a
    → Logged w m.1 a
    → LogsOnce w m
LogsOnce-intro w m a ends logged b e =
    let same : a ≡ b = cc in subst (λ c. Logged w m.1 c) same logged

LogsOnce-raised : (w v : World) (e : Error) → LogsOnce w (raised e, v)
LogsOnce-raised w v e a x = absurd (ground arith)

-- A step that writes no event, and what follows it.
pub LogsOnce-then :
    {A : Type 0} (w : World) (m : Result A × World) (f : A → Prog Action)
    → m.1.audit ≡ w.audit
    → ((a : A) (u : World) → LogsOnce u (f a u))
    → LogsOnce w (proceed f m.0 m.1)
LogsOnce-then w (raised e, u) f same rest = LogsOnce-raised w u e
LogsOnce-then w (ok a, u) f same rest = λ b returned.
    let (e, grown, about, true_to) = rest a u b returned in
    (e, grown ∙ ap (λ l. l ++ e ∷ []) same, about, true_to)

LogsOnce-if :
    (w : World) (b : Bool) (m n : Prog Action)
    → LogsOnce w (m w)
    → LogsOnce w (n w)
    → LogsOnce w ((if b then m else n) w)
LogsOnce-if w true m n p q = p
LogsOnce-if w false m n p q = q

module _ (env : Env) (w : World) where
  submit-audit : (a : Action) (r : Option ℕ) → (submit env a r w).1.audit ≡ w.audit
  unfolding submit expiry upsert_approval
  submit-audit a r = ground arith

  submit-calls : (a : Action) (r : Option ℕ) → (submit env a r w).1.calls ≡ w.calls
  unfolding submit expiry upsert_approval
  submit-calls a r = ground arith

  pub load_session-quiet : (a : Account) → (load_session env a w).1 ≡ w
  unfolding load_session get_connection
  load_session-quiet a = ground arith

module _ (env : Env) (caller : String) (action : Action) (p : PolicyResult) (w : World) where
  pub refuse-calls : (refuse env caller action p w).1.calls ≡ w.calls
  unfolding refuse record_decision upsert_action record_event
  refuse-calls = refl

  pub refuse-LogsOnce : LogsOnce w (refuse env caller action p w)
  unfolding refuse record_decision upsert_action record_event append_event
  refuse-LogsOnce =
      LogsOnce-intro w (refuse env caller action p w)
        (record action { state = ActionState.refused }) refl (_, refl, refl, refl)

  module _ (account : Account) (draft : Option ContentDraft) where
    abbrev waiting : Action
    waiting = record action { state = ActionState.needs_approval }

    pub queue-calls : (queue env caller account action draft p w).1.calls ≡ w.calls
    unfolding queue hold record_decision upsert_action record_event append_event notify
    queue-calls = ground (arith, submit-calls env w waiting (draft_revision draft))

    hold-LogsOnce :
        (approval : ApprovalItem) (u : World)
        → LogsOnce u (hold env caller account waiting p approval u)
    unfolding hold record_decision upsert_action record_event append_event notify
    hold-LogsOnce approval u =
        LogsOnce-intro u (hold env caller account waiting p approval u)
          (record waiting { result = some (ActionOutcome.queued approval.approval_id) }) refl
          (_, refl, refl, refl)

    pub queue-LogsOnce : LogsOnce w (queue env caller account action draft p w)
    unfolding queue
    queue-LogsOnce =
        LogsOnce-then w (submit env waiting (draft_revision draft) w)
          (hold env caller account waiting p) (submit-audit env w waiting (draft_revision draft))
          hold-LogsOnce

module _ (env : Env) (action : Action) (account : Account) (actor : String)
    (snapshot : Option (List DecisionStep)) (draft : Option ContentDraft)
    (target : Option TargetRef) where
  pub dispatch-audit :
      (adapter : Adapter) (session : AdapterSession) (verb : ActionType) (kind : Option String)
      (policy : PlatformPolicy) (dry : Bool) (w : World)
      → (dispatch adapter session verb draft target kind policy dry w).1.audit ≡ w.audit
  unfolding dispatch
  dispatch-audit adapter session verb kind policy dry w = ground arith

  update_trackers-audit :
      (w : World) → (update_trackers env action account draft target w).1.audit ≡ w.audit
  unfolding update_trackers consume record_coordination
  update_trackers-audit w = ground arith

  pub update_trackers-calls :
      (w : World) → (update_trackers env action account draft target w).1.calls ≡ w.calls
  unfolding update_trackers consume record_coordination
  update_trackers-calls w = ground arith

  fail_with-LogsOnce :
      (code : DenialCode) (w : World)
      → LogsOnce w (fail_with env action account actor snapshot code w)
  unfolding fail_with record_execution upsert_action record_event append_event
  fail_with-LogsOnce code w =
      LogsOnce-intro w (fail_with env action account actor snapshot code w)
        (record action { state = ActionState.failed; result = some (ActionOutcome.error code) })
        refl (_, refl, refl, refl)

  fail_result-LogsOnce :
      (res : ActionResult) (w : World)
      → LogsOnce w (fail_result env action account actor snapshot res w)
  unfolding fail_result record_execution upsert_action record_event append_event
  fail_result-LogsOnce res w =
      LogsOnce-intro w (fail_result env action account actor snapshot res w)
        (record action {
          state = ActionState.failed;
          result = some (ActionOutcome.platform (acted res));
        })
        refl (_, refl, refl, refl)

  complete-LogsOnce :
      (res : ActionResult) (w : World)
      → LogsOnce w (complete env action account actor snapshot res w)
  unfolding complete record_execution upsert_action record_event append_event
  complete-LogsOnce res w =
      LogsOnce-intro w (complete env action account actor snapshot res w)
        (record action {
          state = ActionState.done;
          result = some (ActionOutcome.platform (acted res));
        })
        refl (_, refl, refl, refl)

  succeed-LogsOnce :
      (res : ActionResult) (w : World)
      → LogsOnce w (succeed env action account actor snapshot draft target res w)
  unfolding succeed
  succeed-LogsOnce res w =
      LogsOnce-then w (update_trackers env action account draft target w)
        (λ _. complete env action account actor snapshot res) (update_trackers-audit w)
        (λ _. complete-LogsOnce res)

  pub finish-LogsOnce :
      (r : Result ActionResult) (w : World)
      → LogsOnce w (finish env action account actor snapshot draft target r w)
  unfolding finish
  finish-LogsOnce (raised Error.unsupported_capability) w =
      fail_with-LogsOnce DenialCode.capability_unsupported w
  finish-LogsOnce (raised Error.adapter_content_invalid) w =
      fail_with-LogsOnce DenialCode.content_invalid w
  finish-LogsOnce (raised e) w = LogsOnce-raised w w e
  finish-LogsOnce (ok res) w =
      LogsOnce-if w res.ok (succeed env action account actor snapshot draft target res)
        (fail_result env action account actor snapshot res) (succeed-LogsOnce res w)
        (fail_result-LogsOnce res w)
