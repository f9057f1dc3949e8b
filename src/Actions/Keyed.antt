-- ===== src/Actions/Keyed.antt =====
-- actions/service.py: which action an idempotency key leads to, after a write that returned.
use account_pool.Base.{
  ℕ, String, ◌≡◌, refl, Bool, true, false, Option, some, List, arith, ap, if◌then◌else◌, ◌∙◌,
}
use account_pool.Domain.Enums.{ActionState, DenialCode}
use account_pool.Domain.Models.{
  Account, Action, ActionOutcome, ActionResult, ApprovalItem, ContentDraft, DecisionStep, TargetRef,
  acted,
}
use account_pool.Runtime.Errors.{Error, Result, ok, raised}
use account_pool.Runtime.World.{World, Env}
use account_pool.Runtime.Monad.{Prog, proceed}
use account_pool.Db.Records.{upsert_action}
use account_pool.Db.Audit.{record_event, append_event}
use account_pool.Db.Keys.{keyed, Ready, upsert-keyed}
use account_pool.Policy.Decisions.{PolicyResult}
use account_pool.Policy.RateLimit.{consume}
use account_pool.Policy.Trackers.{record_coordination}
use account_pool.Approvals.{submit, expiry}
use account_pool.Db.Records.{upsert_approval}
use account_pool.Actions.Execute.{
  draft_revision, record_execution, fail_with, fail_result, update_trackers, complete, succeed,
  finish,
}
use account_pool.Actions.Submit.{record_decision, refuse, notify, hold, queue}

module _ (key id : String) where
  -- If the call returns an action, the key leads to it.
  abbrev pub Keyed : Result Action × World → Type 0
  Keyed m = (a : Action) → m.0 ≡ ok a → keyed key m.1.actions ≡ some a

  pub Keyed-intro :
      (m : Result Action × World) (a : Action)
      → m.0 ≡ ok a
      → keyed key m.1.actions ≡ some a
      → Keyed m
  Keyed-intro m a ends found b e = let same : a ≡ b = cc in found ∙ ap some same

  pub Keyed-raised : (e : Error) (w : World) → Keyed (raised e, w)
  Keyed-raised e w a x = absurd (ground arith)

  -- A step that writes no action, and what follows it.
  pub Keyed-then :
      {A : Type 0} (w : World) (m : Result A × World) (f : A → Prog Action)
      → m.1.actions ≡ w.actions
      → Ready key id w.actions
      → ((a : A) (u : World) → Ready key id u.actions → Keyed (f a u))
      → Keyed (proceed f m.0 m.1)
  Keyed-then w (raised e, u) f same ready rest = Keyed-raised e u
  Keyed-then w (ok a, u) f same ready rest = rest a u (rw same ready)

  pub Keyed-if :
      (w : World) (b : Bool) (m n : Prog Action)
      → Keyed (m w)
      → Keyed (n w)
      → Keyed ((if b then m else n) w)
  Keyed-if w true m n p q = p
  Keyed-if w false m n p q = q

module _ (key : String) (env : Env) (caller : String) (action : Action) (p : PolicyResult)
    (has : action.idempotency_key ≡ some key) where
  pub refuse-Keyed :
      (w : World)
      → Ready key action.action_id w.actions
      → Keyed key action.action_id (refuse env caller action p w)
  unfolding refuse record_decision record_event append_event upsert_action
  refuse-Keyed w ready =
      let refused : Action = record action { state = ActionState.refused } in
      Keyed-intro key action.action_id (refuse env caller action p w) refused refl
        (upsert-keyed key refused w has ready).1

  module _ (account : Account) (draft : Option ContentDraft) where
    abbrev waiting : Action
    waiting = record action { state = ActionState.needs_approval }

    hold-Keyed :
        (approval : ApprovalItem) (w : World)
        → Ready key action.action_id w.actions
        → Keyed key action.action_id (hold env caller account waiting p approval w)
    unfolding hold record_decision record_event append_event upsert_action notify
    hold-Keyed approval w ready =
        let queued : Action = record waiting {
          result = some (ActionOutcome.queued approval.approval_id);
        } in
        Keyed-intro key action.action_id (hold env caller account waiting p approval w) queued refl
          (upsert-keyed key queued w has ready).1

    submit-actions :
        (a : Action) (r : Option ℕ) (w : World) → (submit env a r w).1.actions ≡ w.actions
    unfolding submit expiry upsert_approval
    submit-actions a r w = ground arith

    pub queue-Keyed :
        (w : World)
        → Ready key action.action_id w.actions
        → Keyed key action.action_id (queue env caller account action draft p w)
    unfolding queue
    queue-Keyed w ready =
        Keyed-then key action.action_id w (submit env waiting (draft_revision draft) w)
          (hold env caller account waiting p) (submit-actions waiting (draft_revision draft) w)
          ready hold-Keyed

module _ (key : String) (env : Env) (action : Action) (account : Account) (actor : String)
    (snapshot : Option (List DecisionStep)) (has : action.idempotency_key ≡ some key) where
  abbrev IsReady : World → Type 0
  IsReady w = Ready key action.action_id w.actions

  fail_with-Keyed :
      (code : DenialCode) (w : World)
      → IsReady w
      → Keyed key action.action_id (fail_with env action account actor snapshot code w)
  unfolding fail_with record_execution upsert_action record_event append_event
  fail_with-Keyed code w ready =
      let failed : Action = record action {
        state = ActionState.failed;
        result = some (ActionOutcome.error code);
      } in
      Keyed-intro key action.action_id (fail_with env action account actor snapshot code w) failed
        refl (upsert-keyed key failed w has ready).1

  fail_result-Keyed :
      (res : ActionResult) (w : World)
      → IsReady w
      → Keyed key action.action_id (fail_result env action account actor snapshot res w)
  unfolding fail_result record_execution upsert_action record_event append_event
  fail_result-Keyed res w ready =
      let failed : Action = record action {
        state = ActionState.failed;
        result = some (ActionOutcome.platform (acted res));
      } in
      Keyed-intro key action.action_id (fail_result env action account actor snapshot res w) failed
        refl (upsert-keyed key failed w has ready).1

  complete-Keyed :
      (res : ActionResult) (w : World)
      → IsReady w
      → Keyed key action.action_id (complete env action account actor snapshot res w)
  unfolding complete record_execution upsert_action record_event append_event
  complete-Keyed res w ready =
      let done : Action = record action {
        state = ActionState.done;
        result = some (ActionOutcome.platform (acted res));
      } in
      Keyed-intro key action.action_id (complete env action account actor snapshot res w) done refl
        (upsert-keyed key done w has ready).1

  module _ (draft : Option ContentDraft) (target : Option TargetRef) where
    update_trackers-actions :
        (w : World) → (update_trackers env action account draft target w).1.actions ≡ w.actions
    unfolding update_trackers consume record_coordination
    update_trackers-actions w = ground arith

    succeed-Keyed :
        (res : ActionResult) (w : World)
        → IsReady w
        → Keyed key action.action_id (succeed env action account actor snapshot draft target res w)
    unfolding succeed
    succeed-Keyed res w ready =
        Keyed-then key action.action_id w (update_trackers env action account draft target w)
          (λ _. complete env action account actor snapshot res) (update_trackers-actions w) ready
          (λ _. complete-Keyed res)

    pub finish-Keyed :
        (r : Result ActionResult) (w : World)
        → IsReady w
        → Keyed key action.action_id (finish env action account actor snapshot draft target r w)
    unfolding finish
    finish-Keyed (raised Error.unsupported_capability) w ready =
        fail_with-Keyed DenialCode.capability_unsupported w ready
    finish-Keyed (raised Error.adapter_content_invalid) w ready =
        fail_with-Keyed DenialCode.content_invalid w ready
    finish-Keyed (raised e) w ready = Keyed-raised key action.action_id e w
    finish-Keyed (ok res) w ready =
        Keyed-if key action.action_id w res.ok
          (succeed env action account actor snapshot draft target res)
          (fail_result env action account actor snapshot res) (succeed-Keyed res w ready)
          (fail_result-Keyed res w ready)
