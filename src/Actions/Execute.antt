-- ===== src/Actions/Execute.antt =====
-- actions/service.py: `_dispatch` and `_execute`.
use account_pool.Base.{
  ℕ, String, Bool, true, false, Option, none, some, List, if◌then◌else◌, or_else,
}
use account_pool.Domain.Json.{Json, null, bool, text, end, field}
use account_pool.Domain.Enums.{
  ActionType, ActionState, PublishMode, DecisionOutcome, DenialCode, verb_value,
}
use account_pool.Domain.Models.{
  Account, Action, ContentDraft, TargetRef, DecisionStep, ActionResult, PlatformResult,
  ActionOutcome, PlatformPolicy, acted,
}
use account_pool.Adapters.Interface.{AdapterSession, AdapterCall, Adapter}
use account_pool.Runtime.Errors.{Error, Result, ok, raised}
use account_pool.Runtime.World.{Env}
use account_pool.Runtime.Monad.{Prog, pure, raise, modify, get_adapter, invoke, ◌>>=◌, ◌>>◌}
use account_pool.Db.Records.{upsert_action}
use account_pool.Db.Audit.{Entry, record_event}
use account_pool.Policy.Policies.{resolve_policy}
use account_pool.Policy.Context.{coordination_key}
use account_pool.Policy.Promo.{is_promotional}
use account_pool.Policy.RateLimit.{consume}
use account_pool.Policy.Trackers.{record_coordination, record_promo}
use account_pool.Actions.Context.{given, lift, load_session}

abbrev pub text_or_null : Option String → Json
text_or_null none = null
text_or_null (some s) = text s

-- `PublishMode.value`
abbrev pub mode_value : PublishMode → String
mode_value PublishMode.api = "api"
mode_value PublishMode.draft_only = "draft_only"
mode_value PublishMode.manual = "manual"

abbrev pub is_manual : PublishMode → Bool
is_manual PublishMode.manual = true
is_manual _ = false

abbrev pub draft_title : Option ContentDraft → Option String
draft_title none = none
draft_title (some d) = d.title

abbrev pub draft_id_of : Option ContentDraft → Option String
draft_id_of none = none
draft_id_of (some d) = some d.draft_id

abbrev pub draft_revision : Option ContentDraft → Option ℕ
draft_revision none = none
draft_revision (some d) = some d.revision

-- What `_dispatch` returns where the content is only staged.
unfoldable pub staged : PublishMode → Option ContentDraft → Bool → ActionResult
staged mode draft dry = record {
  ok = true;
  external_id = none;
  url = none;
  dry_run = dry;
  detail = field "staged" (bool true) (
      field "manual" (bool (is_manual mode)) (
        field "publish_mode" (text (mode_value mode)) (
          field "draft_id" (text_or_null (draft_id_of draft))
            (field "title" (text_or_null (draft_title draft)) end))));
}

abbrev pub call_publish : Adapter → AdapterSession → Option ContentDraft → Bool → Prog ActionResult
call_publish adapter session draft dry =
    invoke (AdapterCall.publish session draft dry) (λ h. adapter.on_publish h session draft dry)

-- The branches of `_dispatch` for PUBLISH.
unfoldable pub publish_by :
    PublishMode → Adapter → AdapterSession → Option ContentDraft → Bool → Prog ActionResult
unfolding staged
publish_by PublishMode.api adapter session draft dry = call_publish adapter session draft dry
publish_by mode adapter session draft dry = pure (staged mode draft dry)

-- `_dispatch`
unfoldable pub dispatch :
    Adapter
    → AdapterSession
    → ActionType
    → Option ContentDraft
    → Option TargetRef
    → Option String
    → PlatformPolicy
    → Bool
    → Prog ActionResult
unfolding publish_by
dispatch adapter session ActionType.publish draft target react_kind policy dry =
    publish_by policy.publish_mode adapter session draft dry
dispatch adapter session ActionType.comment draft target react_kind policy dry =
    invoke (AdapterCall.comment session target draft dry)
      (λ h. adapter.on_comment h session target draft dry)
dispatch adapter session ActionType.react draft target react_kind policy dry =
    let kind = or_else (given react_kind) "like" in
    invoke (AdapterCall.react session target kind dry)
      (λ h. adapter.on_react h session target kind dry)
dispatch adapter session _ draft target react_kind policy dry = raise Error.unsupported_capability

-- The result of a call that may raise, as a value.
abbrev pub attempt : {A : Type 0} → Prog A → Prog (Result A)
attempt m w = let (r, w') = m w in (ok r, w')

abbrev pub counts_target : ActionType → Bool
counts_target ActionType.comment = true
counts_target ActionType.react = true
counts_target _ = false

abbrev pub counts_draft : ActionType → Bool
counts_draft ActionType.publish = true
counts_draft ActionType.comment = true
counts_draft _ = false

abbrev pub execution_entry :
    Action
    → Account
    → String
    → Option (List DecisionStep)
    → DecisionOutcome
    → Option DenialCode
    → Option PlatformResult
    → Entry
execution_entry action account actor snapshot outcome code dump = record {
  actor = actor;
  verb = verb_value action.type;
  outcome = outcome;
  account_id = some account.account_id;
  action_id = some action.action_id;
  denial_code = code;
  platform_result = dump;
  policy_snapshot = snapshot;
}

module _ (env : Env) (action : Action) (account : Account) where
  module _ (actor : String) (snapshot : Option (List DecisionStep)) where
    -- The audit event of an execution, by how it ended.
    unfoldable pub record_execution :
        DecisionOutcome → Option DenialCode → Option PlatformResult → Prog Unit
    record_execution outcome code dump =
        record_event env (execution_entry action account actor snapshot outcome code dump) >>= λ _.
        pure tt

    -- The handler of `UnsupportedCapability` and `ContentInvalid`.
    unfoldable pub fail_with : DenialCode → Prog Action
    unfolding record_execution
    fail_with code = do
      let failed = record action {
        state = ActionState.failed;
        result = some (ActionOutcome.error code);
      }
      upsert_action failed
      record_execution DecisionOutcome.deny (some code) none
      pure failed

    -- A result that is not ok.
    unfoldable pub fail_result : ActionResult → Prog Action
    unfolding record_execution
    fail_result res = do
      let failed = record action {
        state = ActionState.failed;
        result = some (ActionOutcome.platform (acted res));
      }
      upsert_action failed
      record_execution DecisionOutcome.deny none (some (acted res))
      pure failed

  -- "Success: update trackers."
  unfoldable pub update_trackers : Option ContentDraft → Option TargetRef → Prog Unit
  update_trackers draft target = do
    consume env account.account_id (verb_value action.type)
    elim target [
      | none ↦ pure tt
      | some t ↦
          if counts_target action.type
          then record_coordination env (coordination_key account t) account.account_id
          else pure tt
    ]
    elim draft [
      | none ↦ pure tt
      | some d ↦
          if counts_draft action.type
          then modify (λ w. record w {
            promo_ledger =
                record_promo account.account_id (is_promotional d account) w.promo_ledger;
          })
          else pure tt
    ]

  module _ (actor : String) (snapshot : Option (List DecisionStep)) where
    -- The end of a result that is ok.
    unfoldable pub complete : ActionResult → Prog Action
    unfolding record_execution
    complete res = do
      let done = record action {
        result = some (ActionOutcome.platform (acted res));
        state = ActionState.done;
      }
      upsert_action done
      record_execution actor snapshot DecisionOutcome.allow none (some (acted res))
      pure done

    -- A result that is ok.
    unfoldable pub succeed : Option ContentDraft → Option TargetRef → ActionResult → Prog Action
    unfolding complete update_trackers
    succeed draft target res = update_trackers draft target >> complete res

    -- How `_execute` ends, by what the dispatch returned or raised.
    unfoldable pub finish :
        Option ContentDraft → Option TargetRef → Result ActionResult → Prog Action
    unfolding fail_with fail_result succeed
    finish draft target (raised Error.unsupported_capability) =
        fail_with actor snapshot DenialCode.capability_unsupported
    finish draft target (raised Error.adapter_content_invalid) =
        fail_with actor snapshot DenialCode.content_invalid
    finish draft target (raised e) = raise e
    finish draft target (ok res) =
        if res.ok then succeed draft target res else fail_result actor snapshot res

-- `_execute`
unfoldable pub execute :
    Env
    → Action
    → Account
    → Option ContentDraft
    → Option TargetRef
    → Option String
    → String
    → Option (List DecisionStep)
    → Prog Action
unfolding dispatch finish load_session
execute env action account draft target react_kind actor snapshot = do
  let executing = record action { state = ActionState.executing }
  upsert_action executing
  adapter ← get_adapter env account.platform
  session ← load_session env account
  policy ← lift (resolve_policy account)
  res ← attempt (dispatch adapter session action.type draft target react_kind policy env.dry_run)
  finish env executing account actor snapshot draft target res
